-- ===== src/Memory/Functions/Allocation.antt =====
-- What `allocate_function` (src/memory.cpp) returns and what it does to the pool of functions.
use super_searcher.Base.{
  ℕ, zero, suc, ◌+◌, ◌-◌, ◌*◌, ◌/◌, ◌%◌, ◌^◌, ◌≤◌, ◌<◌, ◌≡◌, ◌≢◌, ◌⊎◌, inl, inr, refl, ap, ◌∙◌,
  subst, ◌==◌, eq_of_==, Bool-cases, arith,
}
use super_searcher.Base.Result.{Result, ok, abort}
use super_searcher.Base.Result
use super_searcher.Memory.Functions.{
  Flags, mark, allocate_from, allocate_function, function_pool_size, found_function,
}
use super_searcher.Memory.Functions.Bits.{bit, one_at, bit_bound, bit_full}
use super_searcher.Memory.Functions.Places.{taken, first_zero-ok, mark-same, mark-other, mark-bound}

-- The place `n` was the lowest free one from the word `first` on, and is taken now; no other place
-- has changed.
pub record Placed (flags : Flags) (first stop n : ℕ) (flags' : Flags) : Type 0 where
  pub inside : (first * 64 ≤ n) × (n < stop * 64)
  pub was_free : taken flags n ≡ 0
  pub lowest : (i : ℕ) → first * 64 ≤ i → i < n → taken flags i ≡ 1
  pub now_taken : taken flags' n ≡ 1
  pub others : (i : ℕ) → i ≢ n → taken flags' i ≡ taken flags i
  pub words : (x : ℕ) → flags' x < one_at 64

full_word :
    (flags : Flags) (x i : ℕ)
    → flags x ≡ 2 ^ 64 - 1
    → x * 64 ≤ i
    → i < (x + 1) * 64
    → taken flags i ≡ 1
unfolding one_at
full_word flags x i full lo hi =
    let word : i / 64 ≡ x = omega arith in
    ap (λ y. bit (flags y) (i % 64)) word
    ∙ ap (λ w. bit w (i % 64)) full
    ∙ bit_full 64 (i % 64) (omega arith)

Placed-here :
    (flags : Flags) (x stop k : ℕ)
    → ((y : ℕ) → flags y < one_at 64)
    → x < stop
    → k < 64
    → bit (flags x) k ≡ 0
    → ((y : ℕ) → y < k → bit (flags x) y ≡ 1)
    → Placed flags x stop (x * 64 + k) (mark flags x k)
Placed-here flags x stop k small lt hk free below =
    let n = x * 64 + k in
    let word : n / 64 ≡ x = omega arith in
    let offset : n % 64 ≡ k = omega arith in
    let free_n : taken flags n ≡ 0 = rw (word, offset) free in
    subst (λ x'. Placed flags x stop n (mark flags x' k)) word
      (subst (λ k'. Placed flags x stop n (mark flags (n / 64) k')) offset
        record {
          inside = (omega arith, omega arith);
          was_free = free_n;
          lowest = λ i lo hi.
              let word_i : i / 64 ≡ x = omega arith in
              ap (λ y. bit (flags y) (i % 64)) word_i ∙ below (i % 64) (omega arith);
          now_taken = mark-same flags n free_n;
          others = mark-other flags n;
          words = mark-bound flags n small;
        })

Placed-later :
    (flags : Flags) (x count n : ℕ) (flags' : Flags)
    → flags x ≡ 2 ^ 64 - 1
    → Placed flags (x + 1) (x + 1 + count) n flags'
    → Placed flags x (x + suc count) n flags'
Placed-later flags x count n flags' full placed = record {
  inside = (omega (arith, placed.inside), omega (arith, placed.inside));
  was_free = placed.was_free;
  lowest = λ i lo hi. ground (arith, full_word flags x i full, placed.lowest i);
  now_taken = placed.now_taken;
  others = placed.others;
  words = placed.words;
}

pub allocate_from-cases :
    (flags : Flags) (x count : ℕ)
    → ((y : ℕ) → flags y < one_at 64)
    → ((allocate_from flags x count ≡ abort)
        × ((i : ℕ) → x * 64 ≤ i → i < (x + count) * 64 → taken flags i ≡ 1))
      ⊎ ((n : ℕ) × (flags' : Flags) × (allocate_from flags x count ≡ ok (n, flags'))
          × Placed flags x (x + count) n flags')
unfolding allocate_from
allocate_from-cases flags x zero small = inl (refl, λ i lo hi. absurd (omega arith))
allocate_from-cases flags x (suc count) small = elim (Bool-cases (flags x == 2 ^ 64 - 1)) [
  | inl full ↦ elim (allocate_from-cases flags (x + 1) count small) [
    | inl none_left ↦ inl (
      rw full none_left.0,
      λ i lo hi. ground (arith, full_word flags x i (eq_of_== _ _ full), none_left.1 i),
    )
    | inr placed ↦ inr (
      placed.0,
      placed.1,
      rw full placed.2,
      Placed-later flags x count placed.0 placed.1 (eq_of_== _ _ full) placed.3,
    )
  ]
  | inr space ↦
      let zero_at = first_zero-ok (flags x) (small x) (λ e. ground (arith, space, e)) in
      inr (
        x * 64 + zero_at.0,
        mark flags x zero_at.0,
        rw space (ap (λ o. Result.◌>>=◌ o (λ k. ok (x * 64 + k, mark flags x k))) zero_at.1),
        Placed-here flags x (x + suc count) zero_at.0 small (omega arith) zero_at.2 zero_at.3
            zero_at.4,
      )
]

-- If the flags are 64-bit words, allocate_function stops the program exactly if every place from the
-- first block on is taken. Otherwise it returns the lowest free place there, which is taken
-- afterwards; no other place changes.
pub allocate_function-cases :
    (flags : Flags) (first : ℕ)
    → ((x : ℕ) → flags x < one_at 64)
    → first ≤ 2000
    → ((allocate_function flags first ≡ abort)
        × ((i : ℕ) → first * 64 ≤ i → i < function_pool_size → taken flags i ≡ 1))
      ⊎ ((n : ℕ) × (flags' : Flags) × (allocate_function flags first ≡ ok (n, flags'))
          × Placed flags first 2000 n flags')
unfolding allocate_function
allocate_function-cases flags first small lt =
    let stop : first + (2000 - first) ≡ 2000 = omega arith in
    rw stop at (allocate_from-cases flags first (2000 - first) small)

-- found_function answers whether the function was marked before; afterwards it is marked, and the
-- mark of no other function has changed.
pub found_function-marks :
    (flags : Flags) (n : ℕ)
    → ((found_function flags n).0 ≡ (taken flags n == 1))
      × (taken (found_function flags n).1 n ≡ 1)
      × ((i : ℕ) → i ≢ n → taken (found_function flags n).1 i ≡ taken flags i)
unfolding found_function
found_function-marks flags n = elim (Bool-cases (taken flags n == 1)) [
  | inl was ↦ rw was (refl, eq_of_== _ _ was, λ i ne. refl)
  | inr new ↦
      let clear : taken flags n ≡ 0 = ground (arith, bit_bound (flags (n / 64)) (n % 64), new) in
      rw new (refl, mark-same flags n clear, mark-other flags n)
]
