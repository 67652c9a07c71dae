-- ===== src/Creator/Insert.antt =====
-- What `get_unique_type_internal` (src/type_creator.cpp) does to the table of unique types.
use super_searcher.Base.{
  ℕ, zero, suc, ◌+◌, ◌<◌, ◌≡◌, refl, sym, ◌∙◌, ◌⊎◌, inl, inr, Bool, true, false, arith, List, ◌∷◌,
  subst,
}
use super_searcher.Base.Result.{ok}
use super_searcher.Types.{Mem, Tptr}
use super_searcher.Types.Tree.{Ty, Tys, leaf, wrap, con_vec, nil, cons, Rep, Rep-unique}
use super_searcher.Types.Unique.Contract.{AllFields, Fields}
use super_searcher.Memory.State.{Machine}
use super_searcher.Creator.{find_or_create, insert_unique, get_unique_type_internal}
use super_searcher.Creator.Table.{In, IsUnique, find_type-cases}
use super_searcher.Creator.Unchanged.{height}
use super_searcher.Creator.Again.{unchanged_fields, Fields-Known, found-Again, entry-Again}

AllFields-more :
    (P Q : Tptr → Type 0) (m : Mem) (a : ℕ) (ts : Tys)
    → ((w : Tptr) → P w → Q w)
    → AllFields P m a ts
    → AllFields Q m a ts
AllFields-more P Q m a nil more h = tt
AllFields-more P Q m a (cons t ts) more h =
    (more (m a) h.0, AllFields-more P Q m (a + 8) ts more h.1)

Fields-more :
    (P Q : Tptr → Type 0) (m : Mem) (v : Tptr) (t : Ty)
    → ((w : Tptr) → P w → Q w)
    → Fields P m v t
    → Fields Q m v t
Fields-more P Q m v (leaf k) more h = tt
Fields-more P Q m v (wrap w t) more h = more (m (v + 8)) h
Fields-more P Q m v (con_vec ts) more h = AllFields-more P Q m (v + 16) ts more h

-- No entry shares a tree with a type whose tree no entry has.
clash :
    (m : Mem) (table : List ℕ) (v : Tptr) (t : Ty)
    → Rep m v t
    → ((e : ℕ) → In e table → Rep m e t → ⊥)
    → (x : ℕ) (u : Ty) → x ≡ v
    → Rep m x u
    → (y : ℕ) → In y table
    → Rep m y u
    → ⊥
clash m table v t h fresh x u e hx y old hy =
    let same : u ≡ t = Rep-unique m v u t (subst (λ w. Rep m w u) e hx) h in
    fresh y old (subst (Rep m y) same hy)

-- A table may take a type whose fields are entries and whose tree no entry has.
IsUnique-cons :
    (m : Mem) (table : List ℕ) (v : Tptr) (t : Ty)
    → IsUnique m table
    → Rep m v t
    → Fields (λ w. In w table) m v t
    → ((e : ℕ) → In e table → Rep m e t → ⊥)
    → IsUnique m (v ∷ table)
IsUnique-cons m table v t is_unique h fields fresh = record {
  entries = λ e here. elim here [
    | inl same ↦ inl (
      t,
      subst (λ w. Rep m w t) (sym same) h,
      Fields-more (λ w. In w table) (λ w. In w (v ∷ table)) m e t (λ w inside. inr inside)
          (subst (λ w. Fields (λ x. In x table) m w t) (sym same) fields),
    )
    | inr old ↦ elim (is_unique.entries e old) [
      | inr only ↦ inr only
      | inl entry ↦ inl (
        entry.0,
        entry.1,
        Fields-more (λ w. In w table) (λ w. In w (v ∷ table)) m e entry.0 (λ w inside. inr inside)
            entry.2,
      )
    ]
  ];
  unique = λ x y u px py hx hy. elim px [
    | inl ex ↦ elim py [
      | inl ey ↦ ex ∙ sym ey
      | inr oy ↦ absurd (clash m table v t h fresh x u ex hx y oy hy)
    ]
    | inr ox ↦ elim py [
      | inl ey ↦ absurd (clash m table v t h fresh y u ey hy x ox hx)
      | inr oy ↦ is_unique.unique x y u ox oy hx hy
    ]
  ];
}

-- In a table whose entries hold trees over entries or exist in functions only, without two entries
-- for one tree, and for a type that holds a tree, whose fields are entries, fuel above the height of
-- the tree is enough for get_unique_type_internal with can_reuse_parameter set: it answers with the
-- entry that has the type's tree and changes nothing, or, where no entry has it, with the type
-- itself, which becomes an entry of a table that is again of this kind.
pub get_unique_type_internal-IsUnique :
    (fuel : ℕ) (v : Tptr) (t : Ty) (s : Machine)
    → height t < fuel
    → IsUnique s.mem s.type_hash_table
    → Rep s.mem v t
    → Fields (λ w. In w s.type_hash_table) s.mem v t
    → ((e : Tptr) × In e s.type_hash_table
        × Rep s.mem e t
        × (get_unique_type_internal fuel true v s ≡ ok ((e, false), s)))
      ⊎ (((e : Tptr) → In e s.type_hash_table → Rep s.mem e t → ⊥)
          × (get_unique_type_internal fuel true v s
              ≡ ok ((v, true), record s { type_hash_table = v ∷ s.type_hash_table }))
          × IsUnique s.mem (v ∷ s.type_hash_table))
unfolding find_or_create insert_unique
get_unique_type_internal-IsUnique zero v t s low table h fields = absurd (omega arith)
get_unique_type_internal-IsUnique (suc fuel) v t s low table h fields =
    let known = Fields-Known true s table fuel v t (entry-Again true s table fuel) low h fields in
    let code = unchanged_fields fuel true v t s h known in
    let search =
      find_type-cases s.mem s.type_hash_table table s.type_hash_table v t (λ w inside. inside) h
        fields in
    elim search [
      | inl missed ↦ inr (
        missed.1,
        code ∙ rw (missed.0, missed.0) refl,
        IsUnique-cons s.mem s.type_hash_table v t table h fields missed.1,
      )
      | inr found ↦ inl (found.0, found.2, found.3, code ∙ rw found.1 refl)
    ]

-- In a table whose entries hold trees over entries or exist in functions only, without two entries
-- for one tree, and with fuel above the height, get_unique_type_internal answers every entry that
-- holds a tree with that entry and changes nothing, whether it may be reused or not.
pub get_unique_type_internal-entry :
    (fuel : ℕ) (reuse : Bool) (e : Tptr) (t : Ty) (s : Machine)
    → height t < fuel
    → IsUnique s.mem s.type_hash_table
    → In e s.type_hash_table
    → Rep s.mem e t
    → get_unique_type_internal fuel reuse e s ≡ ok ((e, false), s)
get_unique_type_internal-entry fuel reuse e t s low table here h =
    found-Again reuse s table fuel e t (entry-Again reuse s table fuel) low here h
