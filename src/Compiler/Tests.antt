-- ===== src/Compiler/Tests.antt =====
-- The compiler on small programs, over a builder that counts what it makes, and the theorems there.
use super_searcher.Base.{
  true, ℕ, ◌+◌, ◌<◌, ◌≡◌, refl, ◌⊎◌, false, Option, none, some, List, [], ◌∷◌, ◌++◌, ◌==◌,
  if◌then◌else◌, arith,
}
use super_searcher.Base.Result.{ok}
use super_searcher.Types.{Mem, Tptr, ver, get_size, info, type_pointer_range, total_valid_fields}
use super_searcher.Types.Unique.{equal_to, fields_equal}
use mathlib.Core.Bool.{xor}
use super_searcher.Types.Check.{
  is_perfect, rvo, type_check, type_check_step, type_check_once, rvo_switch, type_switch,
  integer_case,
}
use super_searcher.Ast.Descriptor.{
  ast_entry, ast_descriptor, ast_info, add_pointer_fields, special_fields, parameter_type,
}
use super_searcher.Memory.State.{Machine}
use super_searcher.Creator.{
  uniquefy_premade_type, get_unique_type_internal, unique_fields, find_or_create, find_type,
}
use super_searcher.Base.Command.{pure, fail, assert, gets, modify, ◌>>=◌, ◌>>◌, on_part}
use super_searcher.Compiler.Llvm.{Llvm, integer_type}
use super_searcher.Compiler.Emission.{
  Emission, new_block, set_insert_point, value, lift, read, on_machine, create,
}
use super_searcher.Compiler.State.{
  ReturnInfo, type_mismatch, emit_dtors, null_object, infinite_loop, clear_stack, value_info,
  Compiler, Context, find, contains, remove, on_emission, stack_size, find_object,
  new_living_object, or_return, perfect_answer, type_fits, uniquefied, return_code,
}
use super_searcher.Compiler.Finish.{
  by_option, load_field, type_size, finish_value, finish_internal, finish_special, finish,
  field_fits, compile_field, compile_fields, field_result, operand,
}
use super_searcher.Compiler.Arithmetic.{zero_case, step_case}
use super_searcher.Compiler.Control.{
  if_type, label_case, find_label, insert_label, expire_label, expired, goto_case, goto_forward,
}
use super_searcher.Compiler.Scope.{WellFormed, last, with_objects, clear_stack-last}
use super_searcher.Compiler.Keeps.{Documented}
use super_searcher.Compiler.Results.{
  Consistent, SameSize, generate_ir-Consistent, generate_ir-Documented, if_type-size,
}
use super_searcher.Compiler.Gotos.{after_jump, generate_ir-forward_goto}
use super_searcher.Types.Compare.{compare}
use super_searcher.Types.Tree.{integer, leaf}
use super_searcher.Types.Tag
use super_searcher.Compiler.Generate.{
  tag_switch, catch_loop, release_loop, generate_new, generate_once, generate_ir,
}

-- A constant, or the n-th value that the builder made.
pub data Made : Type 0 where
  constant made : ℕ → Made

abbrev constant_in : Made → Option ℕ
constant_in (constant n) = some n
constant_in (made n) = none

abbrev counting : Llvm
counting = record {
  Value = Made;
  Block = ℕ;
  Builder = ℕ;
  type_of = λ v. integer_type;
  integer = constant;
  constant_array = λ words. made 0;
  undef = λ t. made 0;
  constant_value = constant_in;
  alloca_size = λ v. some 1;
  create = λ i b. (made b, b + 1);
  create_alloca = λ size b. (made b, b + 1);
  replace_by_call = λ v f size b. (made b, b + 1);
  new_block = λ b. (b, b + 1);
  insert_block = λ b. b;
  set_insert_point = λ block b. b;
}

abbrev image : List (ℕ × ℕ) → Mem
image [] a = 0
image ((b, v) ∷ rest) a = if a == b then v else image rest a

-- At 1000 [increment [zero]], with [zero] at 2000; at 3000 [increment] of itself; at
-- 6000 [label [increment [goto a]]]a.
abbrev machine : Machine
machine = record {
  mem = image (
      (1000, 4)
      ∷ (1008, 2000)
      ∷ (2000, 2)
      ∷ (3000, 4)
      ∷ (3008, 3000)
      ∷ (6000, 26)
      ∷ (6008, 7000)
      ∷ (7000, 4)
      ∷ (7008, 8000)
      ∷ (8000, 25)
      ∷ (8008, 6000)
      ∷ []);
  free_memory = [];
  free_memory_count = 0;
  being_traced = false;
  type_hash_table = 1 ∷ [];
}

abbrev ctx : Context
ctx = record { type_fuel = 3; vector_of_asts = 0; event_roots = []; finiteness = 0 }

abbrev start : Compiler counting
start = record {
  emission = record { machine = machine; builder = 0; allocations = [] };
  loop_catcher = [];
  object_stack = [];
  objects = [];
  labels = [];
  error_location = 0;
  error_field = 0;
}

abbrev zero_info : ReturnInfo Made
zero_info = value_info (some (constant 0)) 1 false none

abbrev increment_info : ReturnInfo Made
increment_info = value_info (some (made 0)) 1 false none

abbrev compiled : Compiler counting
compiled = record start {
  emission = record { machine = machine; builder = 1; allocations = [] };
  object_stack = 1000 ∷ 2000 ∷ [];
  objects = (1000, increment_info) ∷ (2000, zero_info) ∷ [];
}

increment_zero : generate_ir 2 ctx 1000 0 start ≡ ok (increment_info, compiled)
unfolding generate_ir generate_once generate_new catch_loop release_loop tag_switch zero_case
    step_case operand field_result compile_fields compile_field field_fits finish finish_special
    finish_internal finish_value type_size load_field by_option uniquefied type_fits perfect_answer
    or_return new_living_object find_object stack_size on_emission remove contains find create
    on_machine read lift value on_part ◌>>◌ ◌>>=◌ modify gets assert fail pure find_type
    find_or_create unique_fields get_unique_type_internal uniquefy_premade_type ast_entry
    ast_descriptor ast_info add_pointer_fields special_fields parameter_type type_check
    type_check_step type_check_once rvo_switch type_switch integer_case ver get_size info
    type_pointer_range equal_to xor total_valid_fields fields_equal
increment_zero = refl

-- The increment of itself.
abbrev loop_error : ReturnInfo Made
loop_error = record null_object { error_code = infinite_loop }

abbrev stopped : Compiler counting
stopped = record start { error_location = 3000; error_field = 10 }

increment_itself : generate_ir 3 ctx 3000 0 start ≡ ok (loop_error, stopped)
unfolding generate_ir generate_once generate_new catch_loop release_loop tag_switch zero_case
    step_case operand field_result compile_fields compile_field field_fits finish finish_special
    finish_internal finish_value type_size load_field by_option uniquefied type_fits perfect_answer
    or_return new_living_object find_object stack_size on_emission remove contains find create
    on_machine read lift value on_part ◌>>◌ ◌>>=◌ modify gets assert fail pure find_type
    find_or_create unique_fields get_unique_type_internal uniquefy_premade_type ast_entry
    ast_descriptor ast_info add_pointer_fields special_fields parameter_type type_check
    type_check_step type_check_once rvo_switch type_switch integer_case ver get_size info
    type_pointer_range equal_to xor total_valid_fields fields_equal return_code
increment_itself = refl

-- The goto of the label gives the null object, so its increment is a type error.
abbrev mismatch : ReturnInfo Made
mismatch = record null_object { error_code = type_mismatch }

abbrev jumped : Compiler counting
jumped = record start {
  emission = record { machine = machine; builder = 3; allocations = [] };
  labels = (6000, record { block = 0; stack_size = 0; is_forward = true }) ∷ [];
  error_location = 7000;
  error_field = 0;
}

increment_goto : generate_ir 4 ctx 6000 0 start ≡ ok (mismatch, jumped)
unfolding generate_ir generate_once generate_new catch_loop release_loop tag_switch zero_case
    step_case operand field_result compile_fields compile_field field_fits finish finish_special
    finish_internal finish_value type_size load_field by_option uniquefied type_fits perfect_answer
    or_return new_living_object find_object stack_size on_emission remove contains find create
    on_machine read lift value on_part ◌>>◌ ◌>>=◌ modify gets assert fail pure find_type
    find_or_create unique_fields get_unique_type_internal uniquefy_premade_type ast_entry
    ast_descriptor ast_info add_pointer_fields special_fields parameter_type type_check
    type_check_step type_check_once rvo_switch type_switch integer_case ver get_size info
    type_pointer_range equal_to xor total_valid_fields fields_equal return_code label_case
    find_label insert_label expire_label expired new_block goto_case goto_forward emit_dtors
    set_insert_point
increment_goto = refl

start-Consistent : Consistent start
start-Consistent = record { well_formed = record { same = refl; distinct = tt }; living = tt }

compiled-WellFormed : WellFormed compiled
unfolding contains
compiled-WellFormed = record { same = refl; distinct = (refl, (refl, tt)) }

clear_stack-last_example :
    clear_stack 1 compiled ≡ ok (tt, with_objects compiled (last 1 compiled.objects))
clear_stack-last_example = clear_stack-last compiled 1 compiled-WellFormed

generate_ir-Consistent_example :
    Consistent compiled
    × ((front : List ℕ) × (compiled.object_stack ≡ front ++ start.object_stack))
    × (compiled.loop_catcher ≡ start.loop_catcher)
generate_ir-Consistent_example =
    generate_ir-Consistent 2 ctx 1000 0 start compiled increment_info start-Consistent
      increment_zero

generate_ir-Documented_example : Documented loop_error
generate_ir-Documented_example =
    generate_ir-Documented 3 ctx 3000 0 start stopped loop_error start-Consistent increment_itself

-- Inside of the label, where its goto is compiled.
abbrev inside_label : Compiler counting
inside_label = record start {
  loop_catcher = 7000 ∷ 6000 ∷ [];
  labels = (6000, record { block = 0; stack_size = 0; is_forward = true }) ∷ [];
}

generate_ir-forward_goto_example :
    (result : ReturnInfo Made) × (generate_ir 1 ctx 8000 0 inside_label
      ≡ ok (
        result,
        after_jump (record { block = 0; stack_size = 0; is_forward = true }) inside_label,
      ))
    × (result ≡ null_object)
    × ((p : Tptr) (e : Emission counting)
        → 0 < p
        → (type_fits ctx result.type p e ≡ ok (false, e))
          × (type_fits ctx Tag.does_not_return p e ≡ ok (true, e))
          × (if_type ctx result.type p e ≡ ok (0, e))
          × (if_type ctx p result.type e ≡ ok (0, e)))
unfolding find contains
generate_ir-forward_goto_example =
    generate_ir-forward_goto 0 ctx 8000 0 (record { block = 0; stack_size = 0; is_forward = true })
      inside_label (omega arith) refl (omega arith) (record { same = refl; distinct = tt }) refl
      refl refl refl refl

-- Two cases whose values are integers.
if_type-size_example :
    ((is_perfect (compare rvo (leaf integer) (leaf integer)) ≡ true)
      × (if_type ctx 1 1 start.emission ≡ ok (1, start.emission))
      × SameSize machine.mem 1 1)
    ⊎ ((is_perfect (compare rvo (leaf integer) (leaf integer)) ≡ false)
        × (is_perfect (compare rvo (leaf integer) (leaf integer)) ≡ true)
        × (if_type ctx 1 1 start.emission ≡ ok (1, start.emission))
        × SameSize machine.mem 1 1)
    ⊎ ((is_perfect (compare rvo (leaf integer) (leaf integer)) ≡ false)
        × (is_perfect (compare rvo (leaf integer) (leaf integer)) ≡ false)
        × (if_type ctx 1 1 start.emission ≡ ok (0, start.emission)))
if_type-size_example =
    if_type-size ctx 1 1 start.emission (leaf integer) (leaf integer) (omega arith) (omega arith)
      refl refl
