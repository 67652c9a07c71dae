-- ===== src/Collector/Tests.antt =====
-- Runs of the garbage collector of src/memory.cpp on a small memory, and the theorems there.
use super_searcher.Base.{arith, ℕ, ◌≡◌, refl, true, false, List, [], ◌∷◌, ◌==◌, if◌then◌else◌}
use super_searcher.Base.Result.{ok, abort, out_of_fuel}
use super_searcher.Types.{Mem, ver, addresses}
use super_searcher.Memory.Sweep.{Living}
use super_searcher.Collector.State.{Collector}
use super_searcher.Collector.State
use super_searcher.Memory.Living.{found_living_object, insert_living, is_living}
use super_searcher.Ast.{get_full_size, get_field_size, ast_range}
use super_searcher.Ast.Descriptor.{
  ast_entry, ast_descriptor, ast_info, add_pointer_fields, special_fields,
}
use super_searcher.Collector.{
  Pools, mark_target, start_gc, mark_switch, mark_ast, mark_all, correct_target, found_object,
}
use super_searcher.Collector.Kept.{After}
use super_searcher.Collector.Marked.{mark_target-Kept}
use super_searcher.Collector.Balanced.{started, Balanced, start_gc-Balanced}
use super_searcher.Memory.State.{write}
use super_searcher.Types.{info, total_valid_fields, type_pointer_range, field, field_address}
use super_searcher.Types.Unique.{equal_to, fields_equal}
use super_searcher.Creator.{
  uniquefy_premade_type, get_unique_type_internal, unique_fields, find_or_create, find_type,
  insert_unique,
}
use super_searcher.Collector.{initialize_roots, mark_type_roots, mark_type, mark_fields}
use super_searcher.Collector.Collected.{Outcome, start_gc-Outcome}

abbrev image : List (ℕ × ℕ) → Mem
image [] a = 0
image ((b, v) ∷ rest) a = if a == b then v else image rest a

abbrev at : Pools
at = record {
  pool = 8000;
  function_pool = 2000000;
  function_size = 48;
  pointer_offset = 0;
  function_pointer_offset = 0;
}

-- At 8000 the type "vector of AST pointers", to which the root at 500 points; at 8016 a program
-- "increment" of the "zero" at 8032, to which the word at 508 points.
abbrev collector : Collector
collector = record {
  machine = record {
    mem = image (
        (500, 8000)
        ∷ (508, 8016)
        ∷ (8000, 6)
        ∷ (8008, 3)
        ∷ (8016, 4)
        ∷ (8024, 8032)
        ∷ (8032, 2)
        ∷ []);
    free_memory = (10, 9000) ∷ [];
    free_memory_count = 100000;
    being_traced = true;
    type_hash_table = [];
  };
  living_objects = [];
  function_flags = λ x. 0;
  sweep_flags = λ x. 0;
  first_block = 0;
  unserializing = false;
  vector_of_asts = 0;
  destroyed = [];
}

mark_target-Kept_example : After collector (mark_target at 3 508 3 collector)
mark_target-Kept_example = mark_target-Kept at 3 508 3 collector refl

start_gc-Outcome_example : Outcome 8000 (start_gc at 3 (500 ∷ []) [] collector)
start_gc-Outcome_example = start_gc-Outcome at 3 (500 ∷ []) [] collector

-- Both programs are found.
finds_programs :
    (elim (mark_target at 3 508 3 collector) as (λ x. List Living) [
      | ok (done, s) ↦ s.living_objects
      | abort ↦ []
      | out_of_fuel ↦ []
    ])
    ≡ (8016, 2) ∷ (8032, 1) ∷ []
unfolding mark_target mark_switch mark_ast mark_all correct_target found_object State.◌>>=◌
    State.◌>>◌ State.pure State.load State.read State.assert found_living_object insert_living
    is_living get_full_size get_field_size ast_range ast_entry ast_descriptor ast_info
    add_pointer_fields special_fields ver addresses
finds_programs = refl

-- The state behind the marking of the type at 8000.
abbrev marked : Collector
marked = record (started collector) {
  machine = record (started collector).machine {
    mem = write collector.machine.mem 8008 3;
    free_memory_count = 99998;
    type_hash_table = 8000 ∷ 3 ∷ [];
  };
  living_objects = (8000, 2) ∷ [];
  vector_of_asts = 8000;
}

roots_marked : initialize_roots at 3 (500 ∷ []) [] (started collector) ≡ ok (tt, marked)
unfolding initialize_roots mark_type_roots mark_target mark_switch mark_type mark_fields mark_all
    correct_target found_object State.◌>>=◌ State.◌>>◌ State.pure State.load State.read State.assert
    State.on_machine found_living_object insert_living is_living ver info addresses
    total_valid_fields type_pointer_range field field_address uniquefy_premade_type
    get_unique_type_internal unique_fields find_or_create find_type insert_unique equal_to
    fields_equal mathlib.Core.Bool.xor write
roots_marked = refl

start_gc-Balanced_example :
    (s' : Collector) × (start_gc at 3 (500 ∷ []) [] collector ≡ ok (tt, s'))
    × Balanced 8000 marked s'
start_gc-Balanced_example =
    start_gc-Balanced at 3 (500 ∷ []) [] collector marked refl roots_marked
      (omega arith, omega arith, omega arith, (omega arith, omega arith))
