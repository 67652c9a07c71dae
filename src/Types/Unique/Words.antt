-- ===== src/Types/Unique/Words.antt =====
-- The loops of src/type_creator.h over the words of two type objects.
use super_searcher.Base.{
  ℕ, zero, suc, ◌+◌, ◌*◌, ◌<◌, ◌≡◌, sym, subst, true, false, ◌==◌, eq_of_==, Bool, Bool-cases, inl,
  inr, refl, arith,
}
use super_searcher.Base.Result.{ok}
use super_searcher.Types.{Mem, Tptr}
use super_searcher.Types.Tag
use super_searcher.Types.Tree.{field-address}
use super_searcher.Types.Unique.{hash_fields, fields_equal}

-- The `count` words at `a` are those at `b`.
abbrev pub SameWords : Mem → ℕ → ℕ → ℕ → Type 0
SameWords m a b zero = Unit
SameWords m a b (suc count) = (m a ≡ m b) × SameWords m (a + 8) (b + 8) count

module _ (m : Mem) (l r : Tptr) (hl : Tag.never_reached < l) (hr : Tag.never_reached < r) where
  -- The words behind the first one, at the addresses of the next fields.
  next_fields :
      (x count : ℕ)
      → SameWords m (l + 8 * (x + 1) + 8) (r + 8 * (x + 1) + 8) count
        ≡ SameWords m (l + 8 * (x + 1 + 1)) (r + 8 * (x + 1 + 1)) count
  next_fields x count =
      let left : l + 8 * (x + 1) + 8 ≡ l + 8 * (x + 1 + 1) = omega arith in
      let right : r + 8 * (x + 1) + 8 ≡ r + 8 * (x + 1 + 1) = omega arith in cc

  pub fields_equal-SameWords :
      (x count : ℕ)
      → fields_equal m l r x count ≡ ok true
      → SameWords m (l + 8 * (x + 1)) (r + 8 * (x + 1)) count
  unfolding fields_equal
  fields_equal-SameWords x zero h = tt
  fields_equal-SameWords x (suc count) h =
      let h1 = rw (field-address m l x hl, field-address m r x hr) at h in
      elim (Bool-cases (m (l + 8 * (x + 1)) == m (r + 8 * (x + 1)))) [
        | inl equal ↦ (
          eq_of_== _ _ equal,
          subst (λ W. W) (sym (next_fields x count))
              (fields_equal-SameWords (x + 1) count (rw equal at h1)),
        )
        | inr differ ↦ (let no : ok false ≡ ok true = rw differ at h1 in cc)
      ]

  pub SameWords-fields_equal :
      (x count : ℕ)
      → SameWords m (l + 8 * (x + 1)) (r + 8 * (x + 1)) count
      → fields_equal m l r x count ≡ ok true
  unfolding fields_equal
  SameWords-fields_equal x zero h = refl
  SameWords-fields_equal x (suc count) h =
      let rest = SameWords-fields_equal (x + 1) count (rw (next_fields x count) at h.1) in
      rw (field-address m l x hl, field-address m r x hr) (ground (arith, rest, h.0))

  pub hash_fields-SameWords :
      (x count hash : ℕ)
      → SameWords m (l + 8 * (x + 1)) (r + 8 * (x + 1)) count
      → hash_fields m l x count hash ≡ hash_fields m r x count hash
  unfolding hash_fields
  hash_fields-SameWords x zero hash h = refl
  hash_fields-SameWords x (suc count) hash h =
      rw (field-address m l x hl, field-address m r x hr, h.0)
        (hash_fields-SameWords (x + 1) count _ (rw (next_fields x count) at h.1))

-- The hash of an object does not fail.
pub hash_fields-ok :
    (m : Mem) (f : Tptr) (x count hash : ℕ)
    → Tag.never_reached < f
    → (h : ℕ) × (hash_fields m f x count hash ≡ ok h)
unfolding hash_fields
hash_fields-ok m f x zero hash hf = (hash, refl)
hash_fields-ok m f x (suc count) hash hf =
    rw (field-address m f x hf) (hash_fields-ok m f (x + 1) count _ hf)

-- The comparison of two objects does not fail.
pub fields_equal-ok :
    (m : Mem) (l r : Tptr) (x count : ℕ)
    → Tag.never_reached < l
    → Tag.never_reached < r
    → (b : Bool) × (fields_equal m l r x count ≡ ok b)
unfolding fields_equal
fields_equal-ok m l r x zero hl hr = (true, refl)
fields_equal-ok m l r x (suc count) hl hr =
    rw (field-address m l x hl, field-address m r x hr)
      (elim (Bool-cases (m (l + 8 * (x + 1)) == m (r + 8 * (x + 1)))) [
        | inl equal ↦ rw equal (fields_equal-ok m l r (x + 1) count hl hr)
        | inr differ ↦ rw differ (false, refl)
      ])
