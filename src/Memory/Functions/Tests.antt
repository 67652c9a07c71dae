-- ===== src/Memory/Functions/Tests.antt =====
-- Runs of allocate_function and found_function of src/memory.cpp, and the theorems there.
use super_searcher.Base.{
  Bool-cases, inl, inr, eq_of_==, [], ◌∷◌, zero, suc, ℕ, ◌-◌, ◌*◌, ◌^◌, ◌≤◌, ◌<◌, ◌≡◌, ◌≢◌, ◌⊎◌,
  refl, true, false, ◌==◌, if◌then◌else◌, arith,
}
use super_searcher.Base.Result.{ok, abort}
use super_searcher.Memory.Functions.{
  sweep_words, sweep_word, sweep_functions, destroyed_in, diffmask, Flags, mark, first_zero,
  allocate_from, allocate_function, found_function, function_pool_size,
}
use super_searcher.Memory.Functions.Bits.{bit, set_bit, one_at, shift_right, IsPart}
use super_searcher.Memory.Functions.Places.{taken}
use super_searcher.Memory.Functions.Allocation.{
  Placed, allocate_function-cases, found_function-marks,
}
use super_searcher.Memory.Functions.Destroyed.{LivePart, bit_zero}
use super_searcher.Memory.Functions.Swept.{SweptFunctions, sweep_functions-SweptFunctions}

-- The first block is full, in the second the places 64 and 66 are taken.
abbrev occupied : Flags
occupied x = if x == 0 then 2 ^ 64 - 1 else if x == 1 then 5 else 0

lowest_bit : first_zero 11 ≡ ok 2
unfolding first_zero bit shift_right
lowest_bit = refl

no_zero : first_zero (2 ^ 64 - 1) ≡ abort
unfolding first_zero bit shift_right
no_zero = refl

next_place : (flags' : Flags) × (allocate_from occupied 0 3 ≡ ok (65, flags')) × (flags' 1 ≡ 7)
unfolding allocate_from first_zero mark set_bit bit one_at shift_right
next_place = (_, refl, refl)

seen_before : (found_function occupied 66).0 ≡ true
unfolding found_function bit shift_right
seen_before = refl

seen_first : ((found_function occupied 65).0 ≡ false) × ((found_function occupied 65).1 1 ≡ 7)
unfolding found_function mark set_bit bit one_at shift_right
seen_first = (refl, refl)

occupied_words : (x : ℕ) → occupied x < one_at 64
unfolding one_at
occupied_words x = ground arith

allocate_function-cases_example :
    ((allocate_function occupied 0 ≡ abort)
      × ((i : ℕ) → 0 * 64 ≤ i → i < function_pool_size → taken occupied i ≡ 1))
    ⊎ ((n : ℕ) × (flags' : Flags) × (allocate_function occupied 0 ≡ ok (n, flags'))
        × Placed occupied 0 2000 n flags')
allocate_function-cases_example = allocate_function-cases occupied 0 occupied_words (omega arith)

found_function-marks_example :
    ((found_function occupied 65).0 ≡ (taken occupied 65 == 1))
    × (taken (found_function occupied 65).1 65 ≡ 1)
    × ((i : ℕ) → i ≢ 65 → taken (found_function occupied 65).1 i ≡ taken occupied i)
found_function-marks_example = found_function-marks occupied 65

-- Only the function 66 is living.
abbrev living : Flags
living x = if x == 1 then 4 else 0

dead_in_second : (sweep_word occupied living 1).1 ≡ 64 ∷ []
unfolding sweep_word diffmask destroyed_in bit shift_right
dead_in_second = refl

flags_after :
    ((sweep_words occupied living 0 3).0 1 ≡ 4) × ((sweep_words occupied living 0 3).0 0 ≡ 0)
unfolding sweep_words sweep_word diffmask
flags_after = (refl, refl)

four_in_five : IsPart 4 5
unfolding bit shift_right
four_in_five zero = omega arith
four_in_five (suc zero) = omega arith
four_in_five (suc (suc zero)) = omega arith
four_in_five (suc (suc (suc x))) = omega arith

living-LivePart : LivePart occupied living
unfolding one_at
living-LivePart y = elim (Bool-cases (y == 1)) [
  | inl same ↦ rw (eq_of_== _ _ same) (omega arith, omega arith, four_in_five)
  | inr other ↦ rw other (ground arith, omega arith, λ b. omega (arith, bit_zero b))
]

sweep_functions-SweptFunctions_example :
    SweptFunctions occupied living 0 2000
      (sweep_functions occupied living).0
      (sweep_functions occupied living).1
sweep_functions-SweptFunctions_example =
    sweep_functions-SweptFunctions occupied living living-LivePart
