-- ===== src/Memory/Functions/Swept.antt =====
-- The loop at the end of `sweepy_sweep` (src/memory.cpp) over the whole pool of functions.
use super_searcher.Base.{
  ℕ, zero, suc, ◌+◌, ◌-◌, ◌*◌, ◌/◌, ◌%◌, ◌≤◌, ◌<◌, ◌≡◌, ◌⊎◌, inl, inr, refl, sym, ap, ◌∙◌, ◌==◌,
  eq_of_==, Bool-cases, false, arith, List,
}
use super_searcher.Memory.Functions.{Flags, sweep_word, sweep_words, sweep_functions}
use super_searcher.Memory.Functions.Bits.{bit}
use super_searcher.Memory.Functions.Places.{taken}
use super_searcher.Memory.Functions.Destroyed.{
  occurrences, occurrences-append, LivePart, sweep_word-flags, sweep_word-outside,
  sweep_word-inside,
}

-- After the words from `x` on, `count` of them, the flags there are those of the living functions,
-- and the destructor was called once for each function there that was taken and is not living.
pub record SweptFunctions (flags live : Flags) (x count : ℕ) (flags' : Flags) (destroyed : List ℕ)
    : Type 0 where
  pub swept : (y : ℕ) → x ≤ y → y < x + count → flags' y ≡ live y
  pub kept : (y : ℕ) → ((y < x) ⊎ (x + count ≤ y)) → flags' y ≡ flags y
  pub once :
      (i : ℕ)
      → x * 64 ≤ i
      → i < (x + count) * 64
      → occurrences i destroyed ≡ taken flags i - taken live i
  pub no_other : (i : ℕ) → ((i < x * 64) ⊎ ((x + count) * 64 ≤ i)) → occurrences i destroyed ≡ 0

LivePart-next :
    (flags live : Flags) (x : ℕ) → LivePart flags live → LivePart (sweep_word flags live x).0 live
LivePart-next flags live x h y =
    let here = sweep_word-flags flags live x y h in
    elim (Bool-cases (y == x)) [
      | inl same ↦
          let e : (sweep_word flags live x).0 y ≡ live y =
            rw same at here ∙ ap live (sym (eq_of_== _ _ same)) in
          rw e ((h y).1, (h y).1, λ b. omega arith)
      | inr other ↦ let e : (sweep_word flags live x).0 y ≡ flags y = rw other at here in rw e (h y)
    ]

taken-next :
    (flags live : Flags) (x i : ℕ)
    → LivePart flags live
    → (x + 1) * 64 ≤ i
    → taken (sweep_word flags live x).0 i ≡ taken flags i
taken-next flags live x i h lo =
    let here = sweep_word-flags flags live x (i / 64) h in
    let other : (i / 64 == x) ≡ false = ground arith in ap (λ w. bit w (i % 64)) (rw other at here)

pub sweep_words-SweptFunctions :
    (flags live : Flags) (x count : ℕ)
    → LivePart flags live
    → SweptFunctions flags live x count
        (sweep_words flags live x count).0
        (sweep_words flags live x count).1
unfolding sweep_words
sweep_words-SweptFunctions flags live x zero h = record {
  swept = λ y lo hi. absurd (omega arith);
  kept = λ y out. refl;
  once = λ i lo hi. absurd (omega arith);
  no_other = λ i out. refl;
}
sweep_words-SweptFunctions flags live x (suc count) h =
    let here = sweep_word flags live x in
    let flag = λ (y : ℕ). sweep_word-flags flags live x y h in
    let rest =
      sweep_words-SweptFunctions here.0 live (x + 1) count (LivePart-next flags live x h) in
    let split = λ (i : ℕ). occurrences-append i here.1 (sweep_words here.0 live (x + 1) count).1 in
    record {
      swept = λ y lo hi. ground (arith, flag y, rest.swept y, rest.kept y);
      kept = λ y out. ground (arith, flag y, rest.kept y);
      once = λ i lo hi. ground (
        arith,
        split i,
        sweep_word-inside flags live x i h,
        sweep_word-outside flags live x i,
        rest.once i,
        rest.no_other i,
        taken-next flags live x i h,
      );
      no_other =
          λ i out. ground (arith, split i, sweep_word-outside flags live x i, rest.no_other i);
    }

-- If the flags are 64-bit words and every living function has its place in the pool, the end of
-- sweepy_sweep leaves exactly the flags of the living functions in the pool, and calls the
-- destructor once for each function that was taken and is not living, and for no other number.
pub sweep_functions-SweptFunctions :
    (flags live : Flags)
    → LivePart flags live
    → SweptFunctions flags live 0 2000 (sweep_functions flags live).0 (sweep_functions flags live).1
unfolding sweep_functions
sweep_functions-SweptFunctions flags live h = sweep_words-SweptFunctions flags live 0 2000 h
