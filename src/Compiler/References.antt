-- ===== src/Compiler/References.antt =====
-- The cases of generate_IR (src/cs11.cpp) that make a part of an object visible as a reference.
use super_searcher.Base.{
  ℕ, zero, suc, ◌+◌, ◌-◌, true, ◌||◌, Option, none, some, List, [], ◌∷◌, ◌==◌, if◌then◌else◌,
}
use super_searcher.Types.{Tptr}
use super_searcher.Types.Tag
use super_searcher.Vector
use super_searcher.Base.Command.{pure, ◌>>=◌, ◌>>◌}
use super_searcher.Compiler.Llvm.{
  Llvm, Callee, add_op, icmp_ne, create_binary, create_compare, create_load, create_ptr_to_int,
  create_gep, create_extract_value, create_br, create_switch, add_case,
}
use super_searcher.Compiler.Emission.{
  Emit, value, create, call, new_block, set_insert_point, push_allocation,
}
use super_searcher.Compiler.State.{
  type_mismatch, lost_hidden_subtype, ReturnInfo, Gen, on_emission, stack_size, new_living_object,
  clear_stack, return_code, or_return, place_info, type_fits,
}
use super_searcher.Compiler.Finish.{
  Out, Generator, Frame, by_option, load_field, type_ver, type_field, to_pointer, finish,
  field_result, operand, call_one, call_two, create_if_value,
}

-- What dyn_subobj finds out about the part: single_type, switch_type and correct_pointer.
pub record Part (Value : Type 0) : Type 0 where
  pub single_type : Value
  pub switch_type : Value
  pub correct_pointer : Value

-- The type of the reference that the case for tag `x` has, and its hidden subtype.
unfoldable pub loaded_type : ℕ → Tptr
loaded_type x =
    if x == Tag.pointer
    then Tag.pointer_to_something
    else if x == Tag.vector
    then Tag.vector_of_something
    else x

unfoldable pub loaded_subtype : {Value : Type 0} → ℕ → Value → Option Value
loaded_subtype x single_type =
    if (x == Tag.pointer) || (x == Tag.vector) then some single_type else none

module _ {llvm : Llvm} where
  -- new_living_object(target, Return_Info(no_error, new_reference(pointer), type, true, subtype))
  unfoldable pub living_reference : ℕ → llvm.Value → Tptr → Option llvm.Value → Gen llvm (Unit {0})
  living_reference target pointer type subtype = do
    info ← on_emission (do place ← push_allocation pointer; place_info place type true subtype)
    new_living_object target info

  -- The end of load_subobj_ref, load_imv_from_AST and load_vector_from_BB: where the pointer is not
  -- null, the code of the AST in field `x` runs with the reference in scope.
  unfoldable pub with_reference : Generator llvm → Frame → llvm.Value → Tptr → ℕ → Out llvm
  unfolding living_reference
  with_reference gen f pointer type x = do
    starting_stack_position ← stack_size
    living_reference f.target pointer type none
    comparison ← on_emission (do
      reference_integer ← create (create_ptr_to_int pointer)
      create (create_compare icmp_ne reference_integer (llvm.integer 0)))
    (case_ir, v) ←
        create_if_value comparison
          (do ast ← on_emission (load_field f.target x); case_ir ← gen ast 0; pure (case_ir, none))
          (pure none)
    or_return case_ir (do clear_stack starting_stack_position; finish f none)

  unfoldable pub load_subobj_ref_case :
      Generator llvm → Frame → List (ReturnInfo llvm.Value) → Out llvm
  unfolding with_reference
  load_subobj_ref_case gen f results = do
    r ← on_emission (field_result results 0)
    tag ← on_emission (type_ver r.type)
    if tag == Tag.vector
        then (do
          type_of_object ← on_emission (type_field r.type)
          reference_p ← on_emission (call_two Callee.reference_at results)
          with_reference gen f reference_p type_of_object 2)
        else if tag == Tag.ast_pointer
        then (do
          reference_p ← on_emission (call_two Callee.ast_subfield results)
          with_reference gen f reference_p Tag.ast_pointer 2)
        else return_code type_mismatch f.target 0

  -- load_imv_from_AST and load_vector_from_BB.
  unfoldable pub load_from_ast_case :
      Callee → Tptr → Generator llvm → Frame → List (ReturnInfo llvm.Value) → Out llvm
  unfolding with_reference
  load_from_ast_case loader type gen f results = do
    reference_to_imv ← on_emission (call_one loader results)
    with_reference gen f reference_to_imv type 1

  -- A call of dynamic_subtype; its results are a type and the tag to switch on.
  unfoldable pub dynamic_part : llvm.Value → llvm.Value → llvm.Value → Emit llvm (Part llvm.Value)
  dynamic_part overall_type offset correct_pointer = do
    type_data ← call Callee.dynamic_subtype (overall_type ∷ offset ∷ [])
    single_type ← create (create_extract_value type_data 0)
    switch_type ← create (create_extract_value type_data 1)
    pure (record {
      single_type = single_type;
      switch_type = switch_type;
      correct_pointer = correct_pointer;
    })

  -- The part of a dynamic object, whose type stands in front of it.
  unfoldable pub part_of_dynamic : llvm.Value → llvm.Value → Gen llvm (Part llvm.Value)
  unfolding dynamic_part
  part_of_dynamic object offset = do
    overall_dynamic_object ← on_emission (to_pointer object)
    comparison ← on_emission (create (create_compare icmp_ne object (llvm.integer 0)))
    (done, type) ←
        create_if_value comparison
          (do v ← on_emission (create (create_load overall_dynamic_object)); pure (tt, some v))
          (pure (some (llvm.integer 0)))
    on_emission (do
      offset_from_pointer ← create (create_binary add_op offset (llvm.integer 1))
      correct_pointer ← create (create_gep overall_dynamic_object offset_from_pointer)
      overall_type ← value type
      dynamic_part overall_type offset correct_pointer)

  unfoldable pub part_of_pointer :
      llvm.Value → llvm.Value → llvm.Value → Emit llvm (Part llvm.Value)
  unfolding dynamic_part
  part_of_pointer subtype overall_object offset = do
    part ← dynamic_part subtype offset overall_object
    correct_pointer ← create (create_gep overall_object offset)
    pure (record part { correct_pointer = correct_pointer })

  unfoldable pub part_of_vector : llvm.Value → llvm.Value → llvm.Value → Emit llvm (Part llvm.Value)
  part_of_vector subtype overall_object offset = do
    switch_type ← call Callee.type_tag (subtype ∷ [])
    offset_from_pointer ← create (create_binary add_op offset (llvm.integer Vector.header))
    correct_pointer ← create (create_gep overall_object offset_from_pointer)
    pure (record {
      single_type = subtype;
      switch_type = switch_type;
      correct_pointer = correct_pointer;
    })

  -- One round of the loop over the tags: case 0 is the default and has no reference.
  unfoldable pub open_case :
      Frame → Part llvm.Value → llvm.Value → llvm.Block → ℕ → Gen llvm (Unit {0})
  unfolding living_reference loaded_type loaded_subtype
  open_case f part switch_on_type failed_to_get x =
      if x == 0 then on_emission (set_insert_point failed_to_get) else (do
        on_emission (do
          case_block ← new_block
          set_insert_point case_block
          create (add_case switch_on_type x case_block))
        living_reference f.target part.correct_pointer (loaded_type x)
            (loaded_subtype x part.single_type))

  -- The loop, from tag `x` on.
  unfoldable pub dyn_cases :
      Generator llvm
      → Frame
      → Part llvm.Value
      → (switch_on_type : llvm.Value) → (failed_to_get merge : llvm.Block)
      → (starting_stack_position count x : ℕ) → Out llvm
      → Out llvm
  unfolding open_case
  dyn_cases gen f part switch_on_type failed_to_get merge position zero x rest = rest
  dyn_cases gen f part switch_on_type failed_to_get merge position (suc count) x rest = do
    open_case f part switch_on_type failed_to_get x
    ast ← on_emission (load_field f.target (x + 2))
    case_ir ← gen ast 0
    or_return case_ir (do
      clear_stack position
      on_emission (create (create_br merge))
      dyn_cases gen f part switch_on_type failed_to_get merge position count (x + 1) rest)

  unfoldable pub dyn_switch : Generator llvm → Frame → Part llvm.Value → Out llvm
  unfolding dyn_cases
  dyn_switch gen f part = do
    starting_stack_position ← stack_size
    failed_to_get ← on_emission new_block
    switch_on_type ←
        on_emission
          (create (create_switch part.switch_type failed_to_get (Tag.does_not_return - 1)))
    merge ← on_emission new_block
    dyn_cases gen f part switch_on_type failed_to_get merge starting_stack_position
        (suc Tag.pointer) 0
        (do on_emission (set_insert_point merge); finish f (some part.single_type))

  -- A pointer to something or a vector of something, whose subtype must be known.
  unfoldable pub hidden_subobj :
      Generator llvm → Frame → ReturnInfo llvm.Value → llvm.Value → Out llvm
  unfolding part_of_pointer part_of_vector dyn_switch
  hidden_subobj gen f r offset =
      by_option r.hidden_subtype (return_code lost_hidden_subtype f.target 0) (λ subtype. do
        overall_object ← on_emission (do v ← value r.ir; to_pointer v)
        if r.type == Tag.pointer_to_something
            then (do
              part ← on_emission (part_of_pointer subtype overall_object offset)
              dyn_switch gen f part)
            else if r.type == Tag.vector_of_something
            then (do
              part ← on_emission (part_of_vector subtype overall_object offset)
              dyn_switch gen f part)
            else return_code type_mismatch f.target 0)

  unfoldable pub dyn_subobj_case : Generator llvm → Frame → List (ReturnInfo llvm.Value) → Out llvm
  unfolding part_of_dynamic hidden_subobj
  dyn_subobj_case gen f results = do
    offset ← on_emission (operand results 1)
    r ← on_emission (field_result results 0)
    is_dynamic ← on_emission (type_fits f.ctx r.type Tag.dynamic_object)
    if is_dynamic
        then (do
          object ← on_emission (value r.ir)
          part ← part_of_dynamic object offset
          dyn_switch gen f part)
        else hidden_subobj gen f r offset
