-- ===== src/Runtime/Tests.antt =====
-- Runs of functions of src/runtime.h, and the theorems there.
use super_searcher.Base.{
  ℕ, ◌+◌, ◌<◌, ◌≡◌, refl, ◌⊎◌, inr, false, List, [], ◌∷◌, ◌==◌, if◌then◌else◌, All, arith,
}
use super_searcher.Base.Result.{ok, abort, ◌>>=◌}
use super_searcher.Types.{Mem, ver, get_offset_type}
use super_searcher.Memory.State.{Machine}
use super_searcher.Memory.Objects.Made.{IsIdle}
use super_searcher.Vector.Reads.{IsVector}
use super_searcher.Ast.{get_field_size, ast_field}
use super_searcher.Runtime.{
  ast_subfield, type_subfield, dynamic_subtype, system1, generate_exponential_dist,
}
use super_searcher.Runtime.Objects.{vector_to_ast}
use super_searcher.Runtime.Agreement.{ast_subfield-ast_field, type_subfield-get_offset_type}
use super_searcher.Runtime.Convert.{Converted, vector_to_ast-Converted}

abbrev image : List (ℕ × ℕ) → Mem
image [] a = 0
image ((b, v) ∷ rest) a = if a == b then v else image rest a

-- At 1000 a vector with the elements 5 and 6, at 1100 a program "if" with three fields, at 1200 a
-- concatenation of two integers; ten words at 2000 are free.
abbrev machine : Machine
machine = record {
  mem = image (
      (1000, 2)
      ∷ (1008, 2)
      ∷ (1016, 5)
      ∷ (1024, 6)
      ∷ (1100, 6)
      ∷ (1108, 70)
      ∷ (1116, 71)
      ∷ (1124, 72)
      ∷ (1200, 0)
      ∷ (1208, 2)
      ∷ (1216, 1)
      ∷ (1224, 1)
      ∷ []);
  free_memory = (10, 2000) ∷ [];
  free_memory_count = 10;
  being_traced = false;
  type_hash_table = [];
}

system1_runs : system1 7 8 2 ≡ 8
unfolding system1
system1_runs = refl

exponential : generate_exponential_dist 12 10 ≡ 2
unfolding generate_exponential_dist
exponential = refl

machine-IsIdle : IsIdle machine
machine-IsIdle = record {
  table = record { disjoint = λ a. ground arith; counted = refl; is_word = omega arith };
  idle = refl;
}

five_six-IsVector : IsVector machine.mem 1000 2 (5 ∷ 6 ∷ [])
five_six-IsVector = record {
  size = refl;
  reserved = refl;
  fits = omega arith;
  contents = (refl, (refl, tt));
}

-- An "if" from a vector of two: its third field is null.
vector_to_ast-Converted_example :
    ((n : ℕ) × (get_field_size 6 ≡ ok n)
      × (vector_to_ast 6 1000 machine ≡ abort)
      × All (λ b. b.0 < n + 1) machine.free_memory)
    ⊎ ((t : ℕ) × (s' : Machine) × (vector_to_ast 6 1000 machine ≡ ok (t, s'))
        × Converted 6 (5 ∷ 6 ∷ []) machine t s')
vector_to_ast-Converted_example =
    vector_to_ast-Converted 6 1000 2 (5 ∷ 6 ∷ []) machine (omega arith) (omega arith) machine-IsIdle
      (inr (omega arith, five_six-IsVector)) (λ b lo hi. ground arith) refl

ast_subfield-ast_field_example : ast_subfield machine.mem 1100 2 ≡ ast_field machine.mem 1100 2
ast_subfield-ast_field_example = ast_subfield-ast_field machine.mem 1100 2

type_subfield-get_offset_type_example :
    ((◌≡◌ {A = ℕ} 1200 0) ⊎ (type_subfield machine.mem 1200 1 ≡ get_offset_type machine.mem 1200 1))
    × (dynamic_subtype machine.mem 1200 1
        ≡ (type_subfield machine.mem 1200 1 >>= λ sub. ok (sub, ver machine.mem sub)))
type_subfield-get_offset_type_example = type_subfield-get_offset_type machine.mem 1200 1
