-- ===== src/Types/Unique/Contract.antt =====
-- What the table of unique types (src/type_creator.h) relies on: equality of words is equality of
-- trees where the fields are unique already, and words with trees that are equal have equal hashes.
use super_searcher.Base.{
  ℕ, suc, ◌+◌, ◌≡◌, ◌↔◌, sym, ◌∙◌, subst, ap, true, false, ◌==◌, eq_of_==, Bool-cases, inl, inr,
  refl, arith,
}
use super_searcher.Base.Result.{ok}
use super_searcher.Types.{Mem, Tptr}
use super_searcher.Types.Tree.{Ty, Tys, leaf, wrap, con_vec, nil, cons, Rep, RepAll, count}
use super_searcher.Types.Unique.{hash, hash_fields, fields_equal, equal_to}
use super_searcher.Types.Unique.Words.{SameWords, hash_fields-SameWords, hash_fields-ok}
use super_searcher.Types.Unique.Agreement.{
  fields_of, tag_of, total_valid_fields-Rep, ver-Rep, equal_to-Rep, SameWords-tree,
  fields_equal_iff,
}

-- Words that `P` holds of are equal where they hold equal trees.
abbrev pub UniqueWords : (Tptr → Type 0) → Mem → Type 0
UniqueWords P m = (v w : Tptr) (u : Ty) → P v → P w → Rep m v u → Rep m w u → v ≡ w

abbrev pub AllFields : (Tptr → Type 0) → Mem → ℕ → Tys → Type 0
AllFields P m a nil = Unit
AllFields P m a (cons t ts) = P (m a) × AllFields P m (a + 8) ts

-- `P` holds of the types in the fields of the object at the word.
abbrev pub Fields : (Tptr → Type 0) → Mem → Tptr → Ty → Type 0
Fields P m v (leaf k) = Unit
Fields P m v (wrap w t) = P (m (v + 8))
Fields P m v (con_vec ts) = AllFields P m (v + 16) ts

-- equal_to gives true exactly on equal tags and equal field words.
pub equal_to_iff :
    (m : Mem) (l r : Tptr) (s t : Ty)
    → Rep m l s
    → Rep m r t
    → (equal_to m l r ≡ ok true)
      ↔ ((tag_of s ≡ tag_of t) × SameWords m (l + 8) (r + 8) (fields_of s))
equal_to_iff m l r s t hl hr =
    let code = equal_to-Rep m l r s t hl hr in
    elim (Bool-cases (tag_of s == tag_of t)) [
      | inl tags ↦
          let e = eq_of_== _ _ tags in
          let loop = fields_equal_iff m l r s t hl hr e in
          let here : equal_to m l r ≡ fields_equal m l r 0 (fields_of s) = rw tags at code in
          (λ h. (e, loop.0 (sym here ∙ h)), λ both. here ∙ loop.1 both.1)
      | inr differ ↦
          let here : equal_to m l r ≡ ok false = rw differ at code in
          (λ h. cc, λ both. ground (arith, differ, both.0))
    ]

module _ (P : Tptr → Type 0) (m : Mem) (unique : UniqueWords P m) where
  AllFields-SameWords :
      (a b : ℕ) (ts : Tys)
      → RepAll m a ts
      → RepAll m b ts
      → AllFields P m a ts
      → AllFields P m b ts
      → SameWords m a b (count ts)
  AllFields-SameWords a b nil ha hb pa pb = tt
  AllFields-SameWords a b (cons t ts) ha hb pa pb = (
    unique (m a) (m b) t pa.0 pb.0 ha.0 hb.0,
    AllFields-SameWords (a + 8) (b + 8) ts ha.2 hb.2 pa.1 pb.1,
  )

  Fields-SameWords :
      (l r : Tptr) (t : Ty)
      → Rep m l t
      → Rep m r t
      → Fields P m l t
      → Fields P m r t
      → SameWords m (l + 8) (r + 8) (fields_of t)
  Fields-SameWords l r (leaf k) hl hr pl pr = tt
  Fields-SameWords l r (wrap w t) hl hr pl pr =
      (unique (m (l + 8)) (m (r + 8)) t pl pr hl.2 hr.2, tt)
  Fields-SameWords l r (con_vec ts) hl hr pl pr =
      let next_l : l + 8 + 8 ≡ l + 16 = omega arith in
      let next_r : r + 8 + 8 ≡ r + 16 = omega arith in
      (
        hl.2 ∙ sym hr.2,
        rw (next_l, next_r) (AllFields-SameWords (l + 16) (r + 16) ts hl.4 hr.4 pl pr),
      )

  -- If the types in the fields of two types are unique, equal_to answers true on the two exactly if
  -- they hold equal trees.
  pub equal_to-eq :
      (l r : Tptr) (s t : Ty)
      → Rep m l s
      → Rep m r t
      → Fields P m l s
      → Fields P m r t
      → (equal_to m l r ≡ ok true) ↔ (s ≡ t)
  equal_to-eq l r s t hl hr pl pr =
      let words = equal_to_iff m l r s t hl hr in
      (
        λ h. SameWords-tree m l r s t hl hr (words.0 h).0 (words.0 h).1,
        λ e. words.1 (
          ap tag_of e,
          Fields-SameWords l r s hl (subst (Rep m r) (sym e) hr) pl
              (subst (Fields P m r) (sym e) pr),
        ),
      )

-- The loop of the hash does not fail on words with one tree, and depends on the field words only.
SameWords-hash :
    (m : Mem) (l r : Tptr) (s : Ty) (tag : ℕ)
    → Rep m l s
    → Rep m r s
    → SameWords m (l + 8) (r + 8) (fields_of s)
    → (h : ℕ) × (hash_fields m l 0 (fields_of s) tag ≡ ok h)
      × (hash_fields m r 0 (fields_of s) tag ≡ ok h)
unfolding hash_fields
SameWords-hash m l r (leaf k) tag hl hr same = (tag, refl, refl)
SameWords-hash m l r (wrap w s) tag hl hr same =
    let left = hash_fields-ok m l 0 1 tag hl.0 in
    (left.0, left.1, sym (hash_fields-SameWords m l r hl.0 hr.0 0 1 tag same) ∙ left.1)
SameWords-hash m l r (con_vec ss) tag hl hr same =
    let count_of = suc (count ss) in
    let left = hash_fields-ok m l 0 count_of tag hl.0 in
    (left.0, left.1, sym (hash_fields-SameWords m l r hl.0 hr.0 0 count_of tag same) ∙ left.1)

-- Two words that hold trees and that equal_to finds equal have the same hash, and the hash does not
-- fail on them.
pub hash-equal_to :
    (m : Mem) (l r : Tptr) (s t : Ty)
    → Rep m l s
    → Rep m r t
    → equal_to m l r ≡ ok true
    → (h : ℕ) × (hash m l ≡ ok h) × (hash m r ≡ ok h)
unfolding hash
hash-equal_to m l r s t hl hr h =
    let words = (equal_to_iff m l r s t hl hr).0 h in
    let trees = SameWords-tree m l r s t hl hr words.0 words.1 in
    rw
      (
        total_valid_fields-Rep m l s hl,
        total_valid_fields-Rep m r t hr,
        ver-Rep m l s hl,
        ver-Rep m r t hr,
        sym trees,
      )
      (SameWords-hash m l r s (tag_of s) hl (subst (Rep m r) (sym trees) hr) words.1)
