-- ===== src/Memory/Functions/Destroyed.antt =====
-- What the end of `sweepy_sweep` (src/memory.cpp) does to the pool of functions.
use super_searcher.Base.{
  ℕ, zero, suc, ◌+◌, ◌-◌, ◌*◌, ◌/◌, ◌%◌, ◌≤◌, ◌<◌, ◌≡◌, ◌⊎◌, inl, inr, refl, sym, ap, ◌∙◌, ◌==◌,
  if◌then◌else◌, eq_of_==, Bool-cases, arith, List, [], ◌∷◌, ◌++◌,
}
use super_searcher.Memory.Functions.{Flags, diffmask, destroyed_in, sweep_word}
use super_searcher.Memory.Functions.Bits.{
  bit, bit_bound, one_at, IsPart, IsPart-le, bit_sub, shift_right,
}
use super_searcher.Memory.Functions.Places.{taken}

abbrev pub occurrences : ℕ → List ℕ → ℕ
occurrences n [] = 0
occurrences n (m ∷ l) = (if n == m then 1 else 0) + occurrences n l

pub occurrences-append :
    (n : ℕ) (l k : List ℕ) → occurrences n (l ++ k) ≡ occurrences n l + occurrences n k
occurrences-append n [] k = omega arith
occurrences-append n (m ∷ l) k = omega (arith, occurrences-append n l k)

destroyed_in-outside :
    (mask x offset count i : ℕ)
    → ((i < x * 64 + offset) ⊎ (x * 64 + offset + count ≤ i))
    → occurrences i (destroyed_in mask x offset count) ≡ 0
unfolding destroyed_in
destroyed_in-outside mask x offset zero i out = refl
destroyed_in-outside mask x offset (suc count) i out =
    ground (arith, destroyed_in-outside mask x (offset + 1) count i (omega arith))

destroyed_in-inside :
    (mask x offset count i : ℕ)
    → x * 64 + offset ≤ i
    → i < x * 64 + offset + count
    → occurrences i (destroyed_in mask x offset count) ≡ bit mask (i - x * 64)
unfolding destroyed_in
destroyed_in-inside mask x offset zero i lo hi = absurd (omega arith)
destroyed_in-inside mask x offset (suc count) i lo hi = elim (Bool-cases (i == x * 64 + offset)) [
  | inl here ↦
      let place : i - x * 64 ≡ offset = ground arith in
      let rest = destroyed_in-outside mask x (offset + 1) count i (ground arith) in
      rw place (ground (arith, rest, here, bit_bound mask offset))
  | inr later ↦
      ground
        (arith, later, destroyed_in-inside mask x (offset + 1) count i (ground arith) (omega arith))
]

-- The flags are 64-bit words, and the living functions have their places in the pool.
abbrev pub LivePart : Flags → Flags → Type 0
LivePart flags live =
    (y : ℕ) → (flags y < one_at 64) × (live y < one_at 64) × IsPart (live y) (flags y)

diffmask-sub :
    (flags live : Flags) (x : ℕ)
    → LivePart flags live
    → (live x ≤ flags x) × (diffmask flags live x ≡ flags x - live x)
unfolding diffmask one_at
diffmask-sub flags live x h =
    let le = IsPart-le (live x) (flags x) 64 (h x).1 (h x).0 (h x).2 in
    (le, ground (arith, le, (h x).0))

pub bit_zero : (x : ℕ) → bit 0 x ≡ 0
unfolding bit shift_right
bit_zero zero = refl
bit_zero (suc x) = bit_zero x

pub sweep_word-flags :
    (flags live : Flags) (x y : ℕ)
    → LivePart flags live
    → (sweep_word flags live x).0 y ≡ (if y == x then live x else flags y)
unfolding sweep_word
sweep_word-flags flags live x y h = ground (arith, diffmask-sub flags live x h)

pub sweep_word-outside :
    (flags live : Flags) (x i : ℕ)
    → ((i < x * 64) ⊎ ((x + 1) * 64 ≤ i))
    → occurrences i (sweep_word flags live x).1 ≡ 0
unfolding sweep_word
sweep_word-outside flags live x i out = elim (Bool-cases (diffmask flags live x == 0)) [
  | inl none_dead ↦ rw none_dead refl
  | inr some_dead ↦
      rw some_dead (destroyed_in-outside (diffmask flags live x) x 0 64 i (omega arith))
]

pub sweep_word-inside :
    (flags live : Flags) (x i : ℕ)
    → LivePart flags live
    → x * 64 ≤ i
    → i < (x + 1) * 64
    → occurrences i (sweep_word flags live x).1 ≡ taken flags i - taken live i
unfolding sweep_word
sweep_word-inside flags live x i h lo hi =
    let word : i / 64 ≡ x = omega arith in
    let offset : i % 64 ≡ i - x * 64 = omega arith in
    let diff = diffmask-sub flags live x h in
    let bits : bit (diffmask flags live x) (i - x * 64) ≡ taken flags i - taken live i =
      rw (diff.1, word, offset) (bit_sub (live x) (flags x) (i - x * 64) diff.0 (h x).2) in
    elim (Bool-cases (diffmask flags live x == 0)) [
      | inl none_dead ↦ rw none_dead (
          sym (bit_zero (i - x * 64))
          ∙ ap (λ m. bit m (i - x * 64)) (sym (eq_of_== _ _ none_dead))
          ∙ bits)
      | inr some_dead ↦
          rw some_dead (
            destroyed_in-inside (diffmask flags live x) x 0 64 i (omega arith) (omega arith) ∙ bits)
    ]
