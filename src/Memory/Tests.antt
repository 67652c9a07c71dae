-- ===== src/Memory/Tests.antt =====
-- Runs of the allocator and the sweep of src/memory.cpp, and the theorems there.
use super_searcher.Base.{ℕ, ◌≤◌, ◌<◌, ◌≡◌, refl, ◌⊎◌, false, some, [], ◌∷◌, get_elem?, All, arith}
use super_searcher.Base.Result.{ok, abort}
use super_searcher.Memory.{take_block, allocate}
use super_searcher.Memory.State.{Machine}
use super_searcher.Memory.Blocks.{lower_bound, erase_at, insert}
use super_searcher.Memory.Allocate.{IsTable, Allocated, allocate-cases}
use super_searcher.Memory.BestFit.{IsSorted, allocate-best_fit}
use super_searcher.Memory.Sweep.{sweep}
use super_searcher.Memory.Sweep.Layout.{Swept, sweep-Swept}

-- Three words at 1000 and ten at 2000 are free.
abbrev machine : Machine
machine = record {
  mem = λ a. 0;
  free_memory = (3, 1000) ∷ (10, 2000) ∷ [];
  free_memory_count = 13;
  being_traced = false;
  type_hash_table = [];
}

abbrev after_four : Machine
after_four = record machine { free_memory = (3, 1000) ∷ (6, 2032) ∷ []; free_memory_count = 9 }

four_words : allocate 4 machine ≡ ok (2000, after_four)
unfolding allocate lower_bound erase_at insert
four_words = refl

too_many_words : allocate 11 machine ≡ abort
unfolding allocate lower_bound
too_many_words = refl

exact_block : take_block 3 machine.free_memory ≡ some (1000, (10, 2000) ∷ [])
unfolding take_block lower_bound erase_at
exact_block = refl

machine-IsTable : IsTable machine
machine-IsTable = record { disjoint = λ a. ground arith; counted = refl; is_word = omega arith }

allocate-cases_example :
    ((allocate 4 machine ≡ abort) × All (λ b. b.0 < 4) machine.free_memory)
    ⊎ ((place : ℕ) × (s' : Machine) × Allocated 4 machine place s')
allocate-cases_example = allocate-cases 4 machine (omega arith) refl machine-IsTable

allocate-best_fit_example :
    (n : ℕ) × (at : ℕ) × (get_elem? machine.free_memory at ≡ some (n, 2000))
    × (4 ≤ n)
    × All (λ c. 4 ≤ c.0 → n ≤ c.0) machine.free_memory
    × IsSorted after_four.free_memory
allocate-best_fit_example =
    allocate-best_fit 4 machine {place = 2000} {s' = after_four} ((omega arith, tt), (tt, tt))
      four_words

-- Two words live at 8000, one at 8024.
sweep-Swept_example :
    (s' : Machine) × (sweep 8000 ((8000, 2) ∷ (8024, 1) ∷ []) machine ≡ ok (tt, s'))
    × Swept 8000 ((8000, 2) ∷ (8024, 1) ∷ []) machine s'
sweep-Swept_example = sweep-Swept 8000 ((8000, 2) ∷ (8024, 1) ∷ []) machine (omega arith)
