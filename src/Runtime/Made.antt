-- ===== src/Runtime/Made.antt =====
-- What `vector_to_AST` of src/runtime.h builds.
use super_searcher.Base.{
  ℕ, zero, suc, ◌+◌, ◌*◌, ◌≤◌, ◌<◌, ◌≡◌, refl, ◌∙◌, ap, ◌⊎◌, inl, inr, ltb, Bool-cases, arith, List,
  [], ◌∷◌, length,
}
use super_searcher.Types.{Mem}
use super_searcher.Vector.{element}
use super_searcher.Vector.Words.{Words}
use super_searcher.Vector.Reads.{IsVector}
use super_searcher.Runtime.Objects.{padded_fields}

-- The element at a place of the list, or 0 behind its end.
abbrev pub or_zero : List ℕ → ℕ → ℕ
or_zero [] i = 0
or_zero (x ∷ xs) zero = x
or_zero (x ∷ xs) (suc i) = or_zero xs i

-- The places x, x + 1, ... of the list, `count` of them.
abbrev pub pad : List ℕ → ℕ → ℕ → List ℕ
pad xs x zero = []
pad xs x (suc count) = or_zero xs x ∷ pad xs (x + 1) count

pub length-pad : (xs : List ℕ) (x count : ℕ) → length (pad xs x count) ≡ count
length-pad xs x zero = refl
length-pad xs x (suc count) = omega (arith, length-pad xs (x + 1) count)

pub or_zero_past : (xs : List ℕ) (i : ℕ) → length xs ≤ i → or_zero xs i ≡ 0
or_zero_past [] i h = refl
or_zero_past (x ∷ xs) zero h = absurd (omega arith)
or_zero_past (x ∷ xs) (suc i) h = or_zero_past xs i (omega arith)

pub Words-or_zero :
    (m : Mem) (a : ℕ) (xs : List ℕ) (i b : ℕ)
    → Words m a xs
    → i < length xs
    → b ≡ a + 8 * i
    → m b ≡ or_zero xs i
Words-or_zero m a [] i b h lt e = absurd (omega arith)
Words-or_zero m a (x ∷ xs) zero b h lt e = let here : b ≡ a = omega arith in rw here (h.0)
Words-or_zero m a (x ∷ xs) (suc i) b h lt e =
    Words-or_zero m (a + 8) xs i b h.1 (omega arith) (omega arith)

pub or_zero-pad :
    (xs : List ℕ) (x count i : ℕ) → i < count → or_zero (pad xs x count) i ≡ or_zero xs (x + i)
or_zero-pad xs x zero i lt = absurd (omega arith)
or_zero-pad xs x (suc count) zero lt = let e : x + 0 ≡ x = omega arith in rw e refl
or_zero-pad xs x (suc count) (suc i) lt =
    let e : x + 1 + i ≡ x + suc i = omega arith in
    or_zero-pad xs (x + 1) count i (omega arith) ∙ ap (or_zero xs) e

-- What the vector argument holds: no elements for the null pointer.
abbrev pub Elements : Mem → ℕ → ℕ → List ℕ → Type 0
Elements m vec room xs = ((vec ≡ 0) × (xs ≡ [])) ⊎ ((0 < vec) × IsVector m vec room xs)

pub padded_fields-pad :
    (m : Mem) (vec room : ℕ) (xs : List ℕ) (x count : ℕ)
    → Elements m vec room xs
    → padded_fields m vec x count ≡ pad xs x count
unfolding padded_fields
padded_fields-pad m vec room xs x zero h = refl
padded_fields-pad m vec room xs x (suc count) (inl (null, e)) =
    let rest = padded_fields-pad m vec room xs (x + 1) count (inl (null, e)) in
    ground (arith, rest, null, e)
padded_fields-pad m vec room xs x (suc count) (inr (pos, is)) =
    let rest = padded_fields-pad m vec room xs (x + 1) count (inr (pos, is)) in
    elim (Bool-cases (ltb x (length xs))) [
      | inl inside ↦
          let here =
            Words-or_zero m (vec + 16) xs x (element vec x) is.contents (ground arith)
              (omega arith) in
          ground (arith, rest, here, is.size)
      | inr past ↦
          let here = or_zero_past xs x (ground arith) in ground (arith, rest, here, is.size)
    ]
