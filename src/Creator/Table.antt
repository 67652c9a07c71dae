-- ===== src/Creator/Table.antt =====
-- The table of unique types (src/type_creator.cpp): its invariant, and what a search in it finds.
use super_searcher.Base.{
  ℕ, ◌≡◌, refl, sym, ◌∙◌, ap, ◌⊎◌, inl, inr, Bool, true, false, Bool-cases, none, some, List, [],
  ◌∷◌, ◌≤◌, ◌==◌, subst, arith,
}
use super_searcher.Base.Result.{Result, ok}
use super_searcher.Types.{Mem, Tptr, ver}
use super_searcher.Types.Tag
use super_searcher.Types.Tree.{
  Ty, leaf, wrap, con_vec, Rep, Rep-unique, Rep-ne, leaf_tag_bounds, wrap_tag_bounds,
}
use super_searcher.Types.Unique.{equal_to}
use super_searcher.Types.Unique.Agreement.{equal_to-ok, tag_of, ver-Rep}
use super_searcher.Types.Unique.Contract.{UniqueWords, Fields, equal_to-eq}
use super_searcher.Creator.{find_type}

abbrev pub In : ℕ → List ℕ → Type 0
In v [] = ⊥
In v (x ∷ xs) = (v ≡ x) ⊎ In v xs

-- The types that exist in functions only: their words are their tags, and hold no tree.
abbrev pub IsFunctionOnly : Tptr → Type 0
IsFunctionOnly v = (Tag.pointer_to_something ≤ v) × (v ≤ Tag.does_not_return)

pub IsFunctionOnly-Rep : (m : Mem) (v : Tptr) (t : Ty) → IsFunctionOnly v → Rep m v t → ⊥
IsFunctionOnly-Rep m v (leaf k) only h = absurd (omega (arith, leaf_tag_bounds k))
IsFunctionOnly-Rep m v (wrap w t) only h = absurd (omega arith)
IsFunctionOnly-Rep m v (con_vec ts) only h = absurd (omega arith)

tag_of_bound : (t : Ty) → tag_of t ≤ 8
tag_of_bound (leaf k) = omega (arith, leaf_tag_bounds k)
tag_of_bound (wrap w t) = omega (arith, wrap_tag_bounds w)
tag_of_bound (con_vec ts) = omega arith

-- The table's equality tells such a type from every tree.
IsFunctionOnly-equal_to :
    (m : Mem) (v w : Tptr) (t : Ty) → IsFunctionOnly v → Rep m w t → equal_to m v w ≡ ok false
unfolding equal_to mathlib.Core.Bool.xor
IsFunctionOnly-equal_to m v w t only h =
    let some_type : (v == 0) ≡ false = ground arith in
    let tag : ver m v ≡ v = unfold ver in ground arith in
    let differ : (v == tag_of t) ≡ false = ground (arith, tag_of_bound t) in
    rw (some_type, (Rep-ne m w t h).0, tag, ver-Rep m w t h, differ) refl

-- Every entry holds a tree whose fields are entries, or exists in functions only, and entries with
-- one tree are one word.
pub record IsUnique (m : Mem) (table : List ℕ) : Type 0 where
  pub entries :
      (v : Tptr)
      → In v table
      → ((t : Ty) × Rep m v t × Fields (λ w. In w table) m v t) ⊎ IsFunctionOnly v
  pub unique : UniqueWords (λ w. In w table) m

module _ (m : Mem) (table : List ℕ) (ok_table : IsUnique m table) where
  -- An entry has the tree of a type and equals it, or neither.
  tree_or_missed :
      (x model : Tptr) (t : Ty)
      → In x table
      → Rep m model t
      → Fields (λ w. In w table) m model t
      → ((equal_to m x model ≡ ok true) × Rep m x t)
        ⊎ ((equal_to m x model ≡ ok false) × (Rep m x t → ⊥))
  tree_or_missed x model t here h fields = elim (ok_table.entries x here) [
    | inr only ↦ inr (IsFunctionOnly-equal_to m x model t only h, IsFunctionOnly-Rep m x t only)
    | inl entry ↦
        let same = equal_to-ok m x model entry.0 t entry.1 h in
        let meaning =
          equal_to-eq (λ w. In w table) m ok_table.unique x model entry.0 t entry.1 h entry.2
            fields in
        elim (Bool-cases same.0) [
          | inl equal ↦
              let found : equal_to m x model ≡ ok true = rw equal at same.1 in
              inl (found, subst (Rep m x) (meaning.0 found) entry.1)
          | inr differ ↦
              let missed : equal_to m x model ≡ ok false = rw differ at same.1 in
              inr (
                missed,
                λ r.
                    let both : ◌≡◌ {A = Result Bool} (ok false) (ok true) =
                      sym missed ∙ meaning.1 (Rep-unique m x entry.0 t entry.1 r) in
                    cc,
              )
        ]
  ]

  -- A search in part of the table, for a type whose fields are entries.
  pub find_type-cases :
      (l : List ℕ) (model : Tptr) (t : Ty)
      → ((v : ℕ) → In v l → In v table)
      → Rep m model t
      → Fields (λ w. In w table) m model t
      → ((find_type m l model ≡ ok none) × ((v : ℕ) → In v l → Rep m v t → ⊥))
        ⊎ ((e : ℕ) × (find_type m l model ≡ ok (some e)) × In e l × Rep m e t)
  unfolding find_type
  find_type-cases [] model t part h fields = inl (refl, λ v here r. absurd here)
  find_type-cases (x ∷ l) model t part h fields =
      elim (tree_or_missed x model t (part x (inl refl)) h fields) [
        | inl found ↦ inr (x, rw found.0 refl, inl refl, found.1)
        | inr missed ↦ elim (find_type-cases l model t (λ v here. part v (inr here)) h fields) [
          | inl none_left ↦ inl (
            rw missed.0 none_left.0,
            λ v here r. elim here [
              | inl e ↦ missed.1 (subst (λ w. Rep m w t) e r)
              | inr later ↦ none_left.1 v later r
            ],
          )
          | inr found ↦ inr (found.0, rw missed.0 found.1, inr found.2, found.3)
        ]
      ]

  -- An entry that holds a tree finds itself.
  pub find_type_self :
      (e : Tptr) (t : Ty)
      → In e table
      → Rep m e t
      → Fields (λ w. In w table) m e t
      → find_type m table e ≡ ok (some e)
  find_type_self e t here h fields =
      elim (find_type-cases table e t (λ v inside. inside) h fields) [
        | inl missed ↦ absurd (missed.1 e here h)
        | inr found ↦
            found.1 ∙ ap (λ v. ok (some v)) (ok_table.unique found.0 e t found.2 here found.3 h)
      ]
