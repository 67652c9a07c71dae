-- ===== src/Compiler/State.antt =====
-- The members of compiler_object (src/cs11.h) and the commands that change them, IRgen_status and
-- Return_Info (src/helperfunctions.h), and clear_stack and emit_dtors (src/cs11.cpp).
use super_searcher.Base.{
  ℕ, suc, Bool, true, false, not, Option, none, some, List, [], ◌∷◌, ◌==◌, ltb, if◌then◌else◌,
  length,
}
use super_searcher.Base.Result.{Result, ok, abort, out_of_fuel}
use super_searcher.Types.{Tptr, get_size}
use super_searcher.Types.Check.{TypeCheckResult, type_check, rvo, is_perfect}
use super_searcher.Creator.{uniquefy_premade_type}
use super_searcher.Ast.Tag
use super_searcher.Base.Command.{Cmd, pure, assert, gets, modify, ◌>>=◌, ◌>>◌, on_part}
use super_searcher.Compiler.Llvm.{Llvm}
use super_searcher.Compiler.Emission.{Emission, Emit, read, on_machine, allocation_at}
use super_searcher.Compiler.Aggregates.{load_from_memory}

-- IRgen_status
pub data IrgenStatus : Type 0 where
  no_error infinite_loop active_object_duplication type_mismatch null_ast pointer_without_target
        pointer_to_temporary pointer_to_reference missing_reference missing_label
        label_incorrect_stack label_duplication oversized_offset requires_constant
        vector_cant_take_large_objects error_transfer_from_if lost_hidden_subtype nonfull_object :
      IrgenStatus

-- `if (error_code)`
abbrev pub is_error : IrgenStatus → Bool
is_error no_error = false
is_error _ = true

-- Return_Info; a null pointer is `none`, and `place` is an index of the deque of allocations.
pub record ReturnInfo (Value : Type 0) : Type 0 where
  pub error_code : IrgenStatus
  pub ir : Option Value
  pub place : Option ℕ
  pub type : Tptr
  pub hidden_reference : Bool
  pub hidden_subtype : Option Value

-- Return_Info()
abbrev pub null_object : {Value : Type 0} → ReturnInfo Value
null_object = record {
  error_code = no_error;
  ir = none;
  place = none;
  type = 0;
  hidden_reference = false;
  hidden_subtype = none;
}

-- The constructor of Return_Info for a value, without an error.
abbrev pub value_info :
    {Value : Type 0} → Option Value → Tptr → Bool → Option Value → ReturnInfo Value
value_info v type hidden subtype = record {
  error_code = no_error;
  ir = v;
  place = none;
  type = type;
  hidden_reference = hidden;
  hidden_subtype = subtype;
}

-- label_info
pub record LabelInfo (Block : Type 0) : Type 0 where
  pub block : Block
  pub stack_size : ℕ
  pub is_forward : Bool

-- compiler_object, with the state of the emitted code; `object_stack` has its top in front.
pub record Compiler (llvm : Llvm) : Type 0 where
  pub emission : Emission llvm
  pub loop_catcher : List ℕ
  pub object_stack : List ℕ
  pub objects : List (ℕ × ReturnInfo llvm.Value)
  pub labels : List (ℕ × LabelInfo llvm.Block)
  pub error_location : ℕ
  pub error_field : ℕ

abbrev pub Gen : Llvm → Type 0 → Type 0
Gen llvm A = Cmd (Compiler llvm) A

-- What a compilation only reads: the bound on the recursion of the functions on types,
-- u::vector_of_ASTs, event_roots and the address of `finiteness`.
pub record Context : Type 0 where
  pub type_fuel : ℕ
  pub vector_of_asts : Tptr
  pub event_roots : List ℕ
  pub finiteness : ℕ

-- The map's entry of a key.
unfoldable pub find : {A : Type 0} → ℕ → List (ℕ × A) → Option A
find key [] = none
find key ((k, x) ∷ rest) = if key == k then some x else find key rest

unfoldable pub contains : ℕ → List ℕ → Bool
contains key [] = false
contains key (k ∷ rest) = if key == k then true else contains key rest

-- The map without a key, and the number of entries that this removes.
unfoldable pub erase_key : {A : Type 0} → ℕ → List (ℕ × A) → List (ℕ × A)
erase_key key [] = []
erase_key key ((k, x) ∷ rest) = if key == k then erase_key key rest else (k, x) ∷ erase_key key rest

unfoldable pub count : {A : Type 0} → ℕ → List (ℕ × A) → ℕ
count key [] = 0
count key ((k, x) ∷ rest) = if key == k then suc (count key rest) else count key rest

-- The set without an element.
unfoldable pub remove : ℕ → List ℕ → List ℕ
remove key [] = []
remove key (k ∷ rest) = if key == k then remove key rest else k ∷ remove key rest

unfoldable pub perfect_answer : Result TypeCheckResult → Result Bool
perfect_answer (ok answer) = ok (is_perfect answer)
perfect_answer abort = abort
perfect_answer out_of_fuel = out_of_fuel

-- emit_dtors does nothing yet.
unfoldable pub emit_dtors : {llvm : Llvm} → ℕ → Gen llvm (Unit {0})
emit_dtors desired_stack_size = pure tt

module _ {llvm : Llvm} where
  unfoldable pub on_emission : {A : Type 0} → Emit llvm A → Gen llvm A
  unfolding on_part
  on_emission = on_part (λ s. s.emission) (λ emission s. record s { emission = emission })

  -- object_stack.size()
  unfoldable pub stack_size : Gen llvm ℕ
  stack_size s = ok (length s.object_stack, s)

  -- objects.find(target)
  unfoldable pub find_object : ℕ → Gen llvm (Option (ReturnInfo llvm.Value))
  unfolding find
  find_object target s = ok (find target s.objects, s)

  abbrev pub put_living :
      ℕ → ReturnInfo llvm.Value → Option (ReturnInfo llvm.Value) → Compiler llvm → Compiler llvm
  put_living target r none s = record s {
    objects = (target, r) ∷ s.objects;
    object_stack = target ∷ s.object_stack;
  }
  put_living target r (some old) s = s

  -- new_living_object
  unfoldable pub new_living_object : ℕ → ReturnInfo llvm.Value → Gen llvm (Unit {0})
  unfolding find
  new_living_object target r = do
    assert (not (r.type == Tag.pointer))
    modify (λ s. put_living target r (find target s.objects) s)

  -- One round of the loop of clear_stack, with what is left of the stack.
  unfoldable pub pop_object : ℕ → List ℕ → Gen llvm (Unit {0})
  unfolding erase_key count
  pop_object to_be_removed rest = do
    number_of_erased ← gets (λ s. count to_be_removed s.objects)
    modify (λ s. record s { object_stack = rest; objects = erase_key to_be_removed s.objects })
    assert (number_of_erased == 1)

  -- The loop, for the stack as it is at first.
  unfoldable pub clear_loop : ℕ → List ℕ → Gen llvm (Unit {0})
  unfolding pop_object
  clear_loop desired_stack_size [] = pure tt
  clear_loop desired_stack_size (to_be_removed ∷ rest) =
      if ltb desired_stack_size (suc (length rest))
      then pop_object to_be_removed rest >> clear_loop desired_stack_size rest
      else pure tt

  -- clear_stack
  unfoldable pub clear_stack : ℕ → Gen llvm (Unit {0})
  unfolding clear_loop
  clear_stack desired_stack_size s = clear_loop desired_stack_size s.object_stack s

  -- return_code(code, field): the target is marked and the result has the code only.
  unfoldable pub return_code : IrgenStatus → ℕ → ℕ → Gen llvm (ReturnInfo llvm.Value)
  return_code code target field = do
    modify (λ s. record s { error_location = target; error_field = field })
    pure (record null_object { error_code = code })

  -- The rest of generate_IR after a call of itself, which does not run where the call has an error.
  unfoldable pub or_return :
      ReturnInfo llvm.Value → Gen llvm (ReturnInfo llvm.Value) → Gen llvm (ReturnInfo llvm.Value)
  or_return result rest = if is_error result.error_code then pure result else rest

  -- load_from_memory(place->allocation, get_size(type))
  unfoldable pub load_place : ℕ → Tptr → Emit llvm llvm.Value
  unfolding allocation_at load_from_memory
  load_place place type = do
    m ← allocation_at place
    size ← read (λ memory. get_size memory type)
    load_from_memory m.allocation size

  -- The constructor of Return_Info for a place.
  unfoldable pub place_info :
      ℕ → Tptr → Bool → Option llvm.Value → Emit llvm (ReturnInfo llvm.Value)
  unfolding load_place
  place_info place type hidden subtype = do
    ir ← if hidden then load_place place type >>= (λ v. pure (some v)) else pure none
    pure (record {
      error_code = no_error;
      ir = ir;
      place = some place;
      type = type;
      hidden_reference = hidden;
      hidden_subtype = subtype;
    })

  -- type_check(RVO, existing, new) == perfect_fit
  unfoldable pub type_fits : Context → Tptr → Tptr → Emit llvm Bool
  unfolding perfect_answer
  type_fits ctx existing new =
      read (λ memory. perfect_answer (type_check ctx.type_fuel memory rvo existing new))

  -- uniquefy_premade_type(type, true)
  unfoldable pub uniquefied : Context → Tptr → Emit llvm Tptr
  uniquefied ctx type = on_machine (uniquefy_premade_type ctx.type_fuel type true)
