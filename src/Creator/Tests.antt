-- ===== src/Creator/Tests.antt =====
-- Runs of the table of unique types on a small memory, and the theorems there.
use super_searcher.Base.{
  ℕ, ◌≡◌, refl, sym, ◌∙◌, ap, ◌⊎◌, inl, inr, true, false, List, [], ◌∷◌, ◌==◌, if◌then◌else◌, arith,
  subst,
}
use super_searcher.Base.Result.{ok}
use super_searcher.Types.{Mem, Tptr}
use super_searcher.Types.Tree.{integer, pointer, Ty, leaf, wrap, Rep, Rep-unique}
use super_searcher.Types.Unique.Agreement.{tag_of}
use super_searcher.Types.Unique.Contract.{Fields}
use super_searcher.Memory.State.{Machine}
use super_searcher.Creator.{get_unique_type_internal}
use super_searcher.Creator.Table.{In, IsUnique, IsFunctionOnly-Rep}
use super_searcher.Creator.Insert.{
  get_unique_type_internal-IsUnique, get_unique_type_internal-entry,
}

abbrev image : List (ℕ × ℕ) → Mem
image [] a = 0
image ((b, v) ∷ rest) a = if a == b then v else image rest a

-- At 96 a pointer to an integer, at 112 a pointer to that; the integer, the type at 96
-- and the type "does not return" are entries.
abbrev machine : Machine
machine = record {
  mem =
      image (
        (96, 7)
        ∷ (104, 1)
        ∷ (112, 7)
        ∷ (120, 96)
        ∷ (128, 0)
        ∷ (136, 2)
        ∷ (144, 1)
        ∷ (152, 96)
        ∷ []);
  free_memory = [];
  free_memory_count = 0;
  being_traced = false;
  type_hash_table = 11 ∷ 1 ∷ 96 ∷ [];
}

abbrev to_integer : Ty
to_integer = wrap pointer (leaf integer)

to_integer-Rep : Rep machine.mem 96 to_integer
to_integer-Rep = (omega arith, refl, refl)

-- The tree that the memory holds at a word.
abbrev At : Ty → Tptr → Type 0
At u w = Rep machine.mem w u

apart : (u : Ty) → Rep machine.mem 1 u → Rep machine.mem 96 u → ⊥
apart u here there =
    let first = Rep-unique machine.mem 1 (leaf integer) u refl here in
    let second = Rep-unique machine.mem 96 to_integer u to_integer-Rep there in
    let tags : tag_of (leaf integer) ≡ tag_of to_integer = ap tag_of (first ∙ sym second) in
    absurd (omega arith)

machine-IsUnique : IsUnique machine.mem machine.type_hash_table
machine-IsUnique = record {
  entries = λ v here. elim here [
    | inl e ↦ inr (omega arith, omega arith)
    | inr (inl e) ↦ inl (leaf integer, e, tt)
    | inr (inr (inl e)) ↦ inl (
      to_integer,
      subst (λ w. Rep machine.mem w to_integer) (sym e) to_integer-Rep,
      subst (λ w. Fields (λ x. In x machine.type_hash_table) machine.mem w to_integer) (sym e)
          (inr (inl refl)),
    )
    | inr (inr (inr none)) ↦ absurd none
  ];
  unique = λ v w u pv pw hv hw. elim pv [
    | inl ev ↦ absurd (only v u ev hv)
    | inr (inl ev) ↦ elim pw [
      | inl ew ↦ absurd (only w u ew hw)
      | inr (inl ew) ↦ ev ∙ sym ew
      | inr (inr (inl ew)) ↦ absurd (apart u (subst (At u) ev hv) (subst (At u) ew hw))
      | inr (inr (inr none)) ↦ absurd none
    ]
    | inr (inr (inl ev)) ↦ elim pw [
      | inl ew ↦ absurd (only w u ew hw)
      | inr (inl ew) ↦ absurd (apart u (subst (At u) ew hw) (subst (At u) ev hv))
      | inr (inr (inl ew)) ↦ ev ∙ sym ew
      | inr (inr (inr none)) ↦ absurd none
    ]
    | inr (inr (inr none)) ↦ absurd none
  ];
}
  where
    only : (v : Tptr) (u : Ty) → v ≡ 11 → Rep machine.mem v u → ⊥
    only v u e = IsFunctionOnly-Rep machine.mem v u (omega arith, omega arith)

get_unique_type_internal-IsUnique_example :
    ((e : Tptr) × In e machine.type_hash_table
      × Rep machine.mem e (wrap pointer to_integer)
      × (get_unique_type_internal 3 true 112 machine ≡ ok ((e, false), machine)))
    ⊎ (((e : Tptr) → In e machine.type_hash_table → Rep machine.mem e (wrap pointer to_integer) → ⊥)
        × (get_unique_type_internal 3 true 112 machine
            ≡ ok ((112, true), record machine { type_hash_table = 112 ∷ 11 ∷ 1 ∷ 96 ∷ [] }))
        × IsUnique machine.mem (112 ∷ 11 ∷ 1 ∷ 96 ∷ []))
get_unique_type_internal-IsUnique_example =
    get_unique_type_internal-IsUnique 3 112 (wrap pointer to_integer) machine (omega arith)
      machine-IsUnique (omega arith, refl, to_integer-Rep) (inr (inr (inl refl)))

get_unique_type_internal-entry_example :
    get_unique_type_internal 2 false 96 machine ≡ ok ((96, false), machine)
get_unique_type_internal-entry_example =
    get_unique_type_internal-entry 2 false 96 to_integer machine (omega arith) machine-IsUnique
      (inr (inr (inl refl))) to_integer-Rep
