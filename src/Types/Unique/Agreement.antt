-- ===== src/Types/Unique/Agreement.antt =====
-- What the equality and the hash of src/type_creator.h say about the trees behind the words.
use super_searcher.Base.{
  ℕ, suc, ◌+◌, ◌≤◌, ◌<◌, ◌≡◌, ◌↔◌, sym, ◌∙◌, subst, ap, true, false, ◌==◌, refl, arith, Bool,
  Bool-cases, inl, inr, eq_of_==, if◌then◌else◌,
}
use super_searcher.Base.Result.{ok}
use super_searcher.Types.{Mem, Tptr, ver, info, total_valid_fields}
use super_searcher.Types.Tag
use super_searcher.Types.Tree.{
  Ty, Tys, leaf, wrap, con_vec, nil, cons, Rep, RepAll, Rep-unique, Rep-ne, count, leaf_tag,
  wrap_tag, leaf_tag-injective, wrap_tag-injective, ver-leaf, ver-address, field-address,
  leaf_tag_bounds, wrap_tag_bounds,
}
use super_searcher.Types.Unique.{fields_equal, equal_to}
use super_searcher.Types.Unique.Words.{
  SameWords, fields_equal-SameWords, SameWords-fields_equal, fields_equal-ok,
}

-- The number of fields that the loops compare.
abbrev pub fields_of : Ty → ℕ
fields_of (leaf k) = 0
fields_of (wrap w t) = 1
fields_of (con_vec ts) = suc (count ts)

-- The tag in the object.
abbrev pub tag_of : Ty → ℕ
tag_of (leaf k) = leaf_tag k
tag_of (wrap w t) = wrap_tag w
tag_of (con_vec ts) = Tag.con_vec

pub total_valid_fields-Rep :
    (m : Mem) (v : Tptr) (t : Ty) → Rep m v t → total_valid_fields m v ≡ ok (fields_of t)
unfolding total_valid_fields info
total_valid_fields-Rep m v (leaf k) h = rw (ver-leaf m v k h) (ground arith)
total_valid_fields-Rep m v (wrap w t) h = rw (ver-address m v h.0, h.1) (ground arith)
total_valid_fields-Rep m v (con_vec ts) h =
    rw (ver-address m v h.0, h.1, field-address m v 0 h.0, h.2) (ground arith)

pub ver-Rep : (m : Mem) (v : Tptr) (t : Ty) → Rep m v t → ver m v ≡ tag_of t
ver-Rep m v (leaf k) h = ver-leaf m v k h
ver-Rep m v (wrap w t) h = ver-address m v h.0 ∙ h.1
ver-Rep m v (con_vec ts) h = ver-address m v h.0 ∙ h.1

-- On words with trees, equal_to compares the tags and then the fields.
pub equal_to-Rep :
    (m : Mem) (l r : Tptr) (s t : Ty)
    → Rep m l s
    → Rep m r t
    → equal_to m l r
      ≡ (if tag_of s == tag_of t then fields_equal m l r 0 (fields_of s) else ok false)
unfolding equal_to mathlib.Core.Bool.xor
equal_to-Rep m l r s t hl hr =
    rw
      (
        (Rep-ne m l s hl).0,
        (Rep-ne m r t hr).0,
        ver-Rep m l s hl,
        ver-Rep m r t hr,
        total_valid_fields-Rep m l s hl,
      )
      refl

pub RepAll-SameWords :
    (m : Mem) (a b : ℕ) (ss ts : Tys)
    → RepAll m a ss
    → RepAll m b ts
    → count ss ≡ count ts
    → SameWords m a b (count ss)
    → ss ≡ ts
RepAll-SameWords m a b nil nil hs ht e same = refl
RepAll-SameWords m a b nil (cons t ts) hs ht e same = absurd (omega arith)
RepAll-SameWords m a b (cons s ss) nil hs ht e same = absurd (omega arith)
RepAll-SameWords m a b (cons s ss) (cons t ts) hs ht e same = cc (
  Rep-unique m (m b) s t (subst (λ v. Rep m v s) same.0 hs.0) ht.0,
  RepAll-SameWords m (a + 8) (b + 8) ss ts hs.2 ht.2 (omega arith) same.1,
)

-- Objects with the same tag and the same field words hold the same tree.
pub SameWords-tree :
    (m : Mem) (l r : Tptr) (s t : Ty)
    → Rep m l s
    → Rep m r t
    → tag_of s ≡ tag_of t
    → SameWords m (l + 8) (r + 8) (fields_of s)
    → s ≡ t
SameWords-tree m l r (leaf k) (leaf j) hl hr e same = ap leaf (leaf_tag-injective k j e)
SameWords-tree m l r (leaf k) (wrap w t) hl hr e same =
    absurd (omega (arith, leaf_tag_bounds k, wrap_tag_bounds w))
SameWords-tree m l r (leaf k) (con_vec ts) hl hr e same = absurd (omega (arith, leaf_tag_bounds k))
SameWords-tree m l r (wrap w s) (leaf k) hl hr e same =
    absurd (omega (arith, leaf_tag_bounds k, wrap_tag_bounds w))
SameWords-tree m l r (wrap v s) (wrap w t) hl hr e same = cc (
  wrap_tag-injective v w e,
  Rep-unique m (m (r + 8)) s t (subst (λ u. Rep m u s) same.0 hl.2) hr.2,
)
SameWords-tree m l r (wrap w s) (con_vec ts) hl hr e same =
    absurd (omega (arith, wrap_tag_bounds w))
SameWords-tree m l r (con_vec ss) (leaf k) hl hr e same = absurd (omega (arith, leaf_tag_bounds k))
SameWords-tree m l r (con_vec ss) (wrap w t) hl hr e same =
    absurd (omega (arith, wrap_tag_bounds w))
SameWords-tree m l r (con_vec ss) (con_vec ts) hl hr e same =
    let next_l : l + 8 + 8 ≡ l + 16 = omega arith in
    let next_r : r + 8 + 8 ≡ r + 16 = omega arith in
    ap con_vec (
      RepAll-SameWords m (l + 16) (r + 16) ss ts hl.4 hr.4 (sym hl.2 ∙ same.0 ∙ hr.2)
        (rw (next_l, next_r) at same.1))

-- A word with a tree whose tag is no leaf's is an address.
pub address_of_tag :
    (m : Mem) (v : Tptr) (t : Ty)
    → Rep m v t
    → (1 ≤ tag_of t → 5 < tag_of t)
    → Tag.never_reached < v
address_of_tag m v (leaf k) h big = absurd (omega (arith, leaf_tag_bounds k, big))
address_of_tag m v (wrap w t) h big = h.0
address_of_tag m v (con_vec ts) h big = h.0

-- The loop of equal_to answers whether the fields are the same words.
pub fields_equal_iff :
    (m : Mem) (l r : Tptr) (s t : Ty)
    → Rep m l s
    → Rep m r t
    → tag_of s ≡ tag_of t
    → (fields_equal m l r 0 (fields_of s) ≡ ok true) ↔ SameWords m (l + 8) (r + 8) (fields_of s)
unfolding fields_equal
fields_equal_iff m l r (leaf k) t hl hr e = (λ h. tt, λ h. refl)
fields_equal_iff m l r (wrap w s) t hl hr e =
    let addr = address_of_tag m r t hr (λ h. omega (arith, wrap_tag_bounds w)) in
    (fields_equal-SameWords m l r hl.0 addr 0 1, SameWords-fields_equal m l r hl.0 addr 0 1)
fields_equal_iff m l r (con_vec ss) t hl hr e =
    let addr = address_of_tag m r t hr (λ h. omega arith) in
    (
      fields_equal-SameWords m l r hl.0 addr 0 (suc (count ss)),
      SameWords-fields_equal m l r hl.0 addr 0 (suc (count ss)),
    )

fields_equal_total :
    (m : Mem) (l r : Tptr) (s t : Ty)
    → Rep m l s
    → Rep m r t
    → tag_of s ≡ tag_of t
    → (b : Bool) × (fields_equal m l r 0 (fields_of s) ≡ ok b)
unfolding fields_equal
fields_equal_total m l r (leaf k) t hl hr e = (true, refl)
fields_equal_total m l r (wrap w s) t hl hr e =
    fields_equal-ok m l r 0 1 hl.0 (address_of_tag m r t hr (λ h. omega (arith, wrap_tag_bounds w)))
fields_equal_total m l r (con_vec ss) t hl hr e =
    fields_equal-ok m l r 0 (suc (count ss)) hl.0 (address_of_tag m r t hr (λ h. omega arith))

pub equal_to-ok :
    (m : Mem) (l r : Tptr) (s t : Ty) → Rep m l s → Rep m r t → (b : Bool) × (equal_to m l r ≡ ok b)
equal_to-ok m l r s t hl hr =
    let code = equal_to-Rep m l r s t hl hr in
    elim (Bool-cases (tag_of s == tag_of t)) [
      | inl tags ↦
          let loop = fields_equal_total m l r s t hl hr (eq_of_== _ _ tags) in
          (loop.0, code ∙ rw tags loop.1)
      | inr differ ↦ (false, code ∙ rw differ refl)
    ]
