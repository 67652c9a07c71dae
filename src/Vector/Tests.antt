-- ===== src/Vector/Tests.antt =====
-- Runs of the functions of src/vector.h, and the theorems there.
use super_searcher.Base.{
  ℕ, ◌<◌, ◌≡◌, refl, ◌⊎◌, inl, false, none, some, List, [], ◌∷◌, ◌==◌, if◌then◌else◌, get_elem?,
  All, arith,
}
use super_searcher.Base.Result.{abort}
use super_searcher.Types.{Mem}
use super_searcher.Memory.State.{Machine}
use super_searcher.Vector.{pushback, vector_load, vector_size, reference_at}
use super_searcher.Vector.Reads.{IsVector, vector_reads}
use super_searcher.Vector.Build.{build_size}
use super_searcher.Vector.Pushback.{Ready, Pushed, pushback-append}

abbrev image : List (ℕ × ℕ) → Mem
image [] a = 0
image ((b, v) ∷ rest) a = if a == b then v else image rest a

-- The word at 800 holds the address of a full vector with the elements 5 and 6; ten words at 2000
-- are free.
abbrev machine : Machine
machine = record {
  mem = image ((800, 1000) ∷ (1000, 2) ∷ (1008, 2) ∷ (1016, 5) ∷ (1024, 6) ∷ []);
  free_memory = (10, 2000) ∷ [];
  free_memory_count = 10;
  being_traced = false;
  type_hash_table = [];
}

machine-IsVector : IsVector machine.mem 1000 2 (5 ∷ 6 ∷ [])
machine-IsVector = record {
  size = refl;
  reserved = refl;
  fits = omega arith;
  contents = (refl, (refl, tt));
}

machine-Ready : Ready 800 1000 2 machine (5 ∷ 6 ∷ [])
machine-Ready = record {
  table = record { disjoint = λ a. ground arith; counted = refl; is_word = omega arith };
  idle = refl;
  holds = refl;
  vector = machine-IsVector;
  owned = λ b lo hi. ground arith;
  slot_owned = λ b lo hi. ground arith;
  apart = inl (omega arith);
}

loads_inside : vector_load machine.mem 1000 1 ≡ 6
unfolding vector_load
loads_inside = refl

loads_outside : vector_load machine.mem 1000 2 ≡ 0
unfolding vector_load
loads_outside = refl

vector_reads_example :
    (vector_size machine.mem 1000 ≡ 2)
    × (((get_elem? {A = ℕ} (5 ∷ 6 ∷ []) 1 ≡ none)
          × (vector_load machine.mem 1000 1 ≡ 0)
          × (reference_at machine.mem 1000 1 ≡ 0))
        ⊎ ((x : ℕ) × (get_elem? {A = ℕ} (5 ∷ 6 ∷ []) 1 ≡ some x)
            × (vector_load machine.mem 1000 1 ≡ x)
            × (machine.mem (reference_at machine.mem 1000 1) ≡ x)
            × (0 < reference_at machine.mem 1000 1)))
vector_reads_example = vector_reads machine.mem 1000 2 (5 ∷ 6 ∷ []) 1 machine-IsVector

pushback-append_example :
    ((pushback 800 7 machine ≡ abort)
      × (◌≡◌ {A = ℕ} 2 2)
      × All (λ b. b.0 < build_size 2) machine.free_memory)
    ⊎ ((s' : Machine) × Pushed 800 7 1000 2 machine (5 ∷ 6 ∷ []) s')
pushback-append_example = pushback-append 800 7 1000 2 machine (5 ∷ 6 ∷ []) machine-Ready
