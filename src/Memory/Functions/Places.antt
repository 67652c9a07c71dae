-- ===== src/Memory/Functions/Places.antt =====
-- Which places of the pool of functions `allocate_function` (src/memory.cpp) hands out.
use super_searcher.Base.{
  ℕ, zero, suc, ◌+◌, ◌-◌, ◌/◌, ◌%◌, ◌^◌, ◌≤◌, ◌<◌, ◌≡◌, ◌≢◌, ◌⊎◌, inl, inr, refl, sym, ap, ◌∙◌,
  ◌==◌, eq_of_==, Bool-cases, false, arith,
}
use super_searcher.Base.Result.{ok, abort}
use super_searcher.Memory.Functions.{Flags, mark, first_zero_from, first_zero}
use super_searcher.Memory.Functions.Bits.{
  bit, set_bit, one_at, bit_bound, bit_add_same, bit_add_bound, full_of_bits, set_bit-other,
}

-- The bit of a function.
abbrev pub taken : Flags → ℕ → ℕ
taken flags n = bit (flags (n / 64)) (n % 64)

pub bit_one_of_ne : (mask x : ℕ) → (bit mask x == 0) ≡ false → bit mask x ≡ 1
bit_one_of_ne mask x h = ground (arith, bit_bound mask x)

pub first_zero_from-cases :
    (mask x count : ℕ)
    → ((first_zero_from mask x count ≡ abort) × ((y : ℕ) → x ≤ y → y < x + count → bit mask y ≡ 1))
      ⊎ ((k : ℕ) × (first_zero_from mask x count ≡ ok k)
          × (x ≤ k)
          × (k < x + count)
          × (bit mask k ≡ 0)
          × ((y : ℕ) → x ≤ y → y < k → bit mask y ≡ 1))
unfolding first_zero_from
first_zero_from-cases mask x zero = inl (refl, λ y lo hi. absurd (omega arith))
first_zero_from-cases mask x (suc count) = elim (Bool-cases (bit mask x == 0)) [
  | inl free ↦ inr (
    x,
    rw free refl,
    omega arith,
    omega arith,
    eq_of_== _ _ free,
    λ y lo hi. absurd (omega arith),
  )
  | inr set ↦
      let here = bit_one_of_ne mask x set in
      elim (first_zero_from-cases mask (x + 1) count) [
        | inl full ↦ inl (rw set full.0, λ y lo hi. ground (arith, here, full.1 y))
        | inr found ↦ inr (
          found.0,
          rw set found.1,
          omega (arith, found.2),
          omega (arith, found.3),
          found.4,
          λ y lo hi. ground (arith, here, found.5 y),
        )
      ]
]

-- A word that is not full has a lowest zero, which first_zero finds.
pub first_zero-ok :
    (mask : ℕ)
    → mask < one_at 64
    → mask ≢ 2 ^ 64 - 1
    → (k : ℕ) × (first_zero mask ≡ ok k)
      × (k < 64)
      × (bit mask k ≡ 0)
      × ((y : ℕ) → y < k → bit mask y ≡ 1)
unfolding first_zero one_at
first_zero-ok mask small ne = elim (first_zero_from-cases mask 0 64) [
  | inl full ↦ absurd (ne (full_of_bits mask 64 small (λ y lt. full.1 y (omega arith) lt)))
  | inr found ↦ (found.0, found.1, found.3, found.4, λ y lt. found.5 y (omega arith) lt)
]

pub mark-same :
    (flags : Flags) (n : ℕ) → taken flags n ≡ 0 → taken (mark flags (n / 64) (n % 64)) n ≡ 1
unfolding mark set_bit
mark-same flags n h = ground (arith, bit_add_same (flags (n / 64)) (n % 64))

pub mark-other :
    (flags : Flags) (n i : ℕ) → i ≢ n → taken (mark flags (n / 64) (n % 64)) i ≡ taken flags i
unfolding mark
mark-other flags n i ne = elim (Bool-cases (i / 64 == n / 64)) [
  | inl same ↦
      let word : i / 64 ≡ n / 64 = eq_of_== _ _ same in
      let offset : i % 64 ≢ n % 64 = λ e. ne (omega (arith, word, e)) in
      rw same (
        set_bit-other (flags (n / 64)) (n % 64) (i % 64) offset
        ∙ ap (λ x. bit (flags x) (i % 64)) (sym word))
  | inr differ ↦ rw differ refl
]

pub mark-bound :
    (flags : Flags) (n : ℕ)
    → ((x : ℕ) → flags x < one_at 64)
    → (x : ℕ) → mark flags (n / 64) (n % 64) x < one_at 64
unfolding mark set_bit
mark-bound flags n words x =
    ground (arith, words x, words (n / 64), bit_add_bound (flags (n / 64)) (n % 64) 64)
