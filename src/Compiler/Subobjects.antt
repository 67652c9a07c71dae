-- ===== src/Compiler/Subobjects.antt =====
-- The cases of generate_IR (src/cs11.cpp) that load a part of an object, by value.
use super_searcher.Base.{ℕ, not, ◌||◌, none, some, List, ◌==◌, if◌then◌else◌}
use super_searcher.Types.{Tptr, get_offset_type, is_zeroable}
use super_searcher.Types.Tag
use super_searcher.Base.Command.{pure, ◌>>=◌}
use super_searcher.Compiler.Llvm.{Llvm, Callee, create_const_gep, create_extract_value}
use super_searcher.Compiler.Emission.{Emit, read, create, push_allocation, allocation_at}
use super_searcher.Compiler.Aggregates.{load_from_memory}
use super_searcher.Compiler.State.{
  type_mismatch, oversized_offset, requires_constant, ReturnInfo, on_emission, return_code,
}
use super_searcher.Compiler.Finish.{
  Out, Frame, by_option, type_ver, type_field, to_pointer, finish_internal, finish_special,
  field_result, operand, constant_operand, call_one, call_two,
}

module _ {llvm : Llvm} where
  -- The address `offset` words behind a pointer.
  unfoldable pub offset_place : llvm.Value → ℕ → Emit llvm llvm.Value
  offset_place pointer offset =
      if offset == 0 then pure pointer else create (create_const_gep pointer offset)

  -- A part of an object in memory becomes a reference.
  unfoldable pub part_of_place : Frame → llvm.Value → ℕ → Tptr → Out llvm
  unfolding offset_place
  part_of_place f pointer offset offset_type = do
    place ← on_emission (offset_place pointer offset)
    default_allocation ← on_emission (push_allocation place)
    v ← on_emission (load_from_memory place 1)
    finish_internal f (some default_allocation) none (some v) offset_type

  unfoldable pub load_from_pointer : Frame → List (ReturnInfo llvm.Value) → Tptr → Out llvm
  unfolding part_of_place
  load_from_pointer f results type_of_pointer = do
    type_of_object ← on_emission (type_field type_of_pointer)
    constant ← on_emission (constant_operand results 1)
    by_option constant (return_code requires_constant f.target 1) (λ offset. do
      pointer_cast ← on_emission (do v ← operand results 0; to_pointer v)
      offset_type ← on_emission (read (λ m. get_offset_type m type_of_object offset))
      if offset_type == 0
          then return_code oversized_offset f.target 1
          else part_of_place f pointer_cast offset offset_type)

  unfoldable pub load_from_concatenation : Frame → List (ReturnInfo llvm.Value) → Tptr → Out llvm
  unfolding part_of_place
  load_from_concatenation f results type_of_object = do
    constant ← on_emission (constant_operand results 1)
    by_option constant (return_code requires_constant f.target 1) (λ offset. do
      offset_type ← on_emission (read (λ m. get_offset_type m type_of_object offset))
      r ← on_emission (field_result results 0)
      if offset_type == 0
          then return_code oversized_offset f.target 1
          else by_option r.place
              (do
                load_single ←
                    on_emission (do v ← operand results 0; create (create_extract_value v offset))
                finish_special f (some load_single) offset_type)
              (λ place. do
                m ← on_emission (allocation_at place)
                part_of_place f m.allocation offset offset_type))

  -- The result of a call, with a type.
  unfoldable pub call_special : Frame → Emit llvm llvm.Value → Tptr → Out llvm
  call_special f emitted type = do v ← on_emission emitted; finish_special f (some v) type

  unfoldable pub load_from_vector : Frame → List (ReturnInfo llvm.Value) → Tptr → Out llvm
  unfolding call_special
  load_from_vector f results type = do
    element ← on_emission (type_field type)
    if not (is_zeroable element)
        then return_code type_mismatch f.target 0
        else call_special f (call_two Callee.vector_load results) element

  unfoldable pub load_from_function : Frame → List (ReturnInfo llvm.Value) → Out llvm
  unfolding call_special
  load_from_function f results = do
    constant ← on_emission (constant_operand results 1)
    by_option constant (return_code requires_constant f.target 1) (λ offset.
        if offset == 0
        then call_special f (call_one Callee.ast_from_function results) Tag.ast_pointer
        else if offset == 1
        then call_special f (call_one Callee.type_from_function results) Tag.type_pointer
        else return_code oversized_offset f.target 1)

  unfoldable pub load_subobj_case : Frame → List (ReturnInfo llvm.Value) → Out llvm
  unfolding load_from_pointer load_from_vector load_from_function load_from_concatenation
      call_special
  load_subobj_case f results = do
    r ← on_emission (field_result results 0)
    if r.type == 0 then return_code type_mismatch f.target 0 else (do
      tag ← on_emission (type_ver r.type)
      if (tag == Tag.pointer) || (tag == Tag.temp_pointer)
          then load_from_pointer f results r.type
          else if tag == Tag.type_pointer
          then call_special f (call_two Callee.type_subfield results) Tag.type_pointer
          else if tag == Tag.ast_pointer
          then call_special f (call_two Callee.ast_subfield_guarantee results) Tag.ast_pointer
          else if tag == Tag.vector
          then load_from_vector f results r.type
          else if tag == Tag.function_pointer
          then load_from_function f results
          else if tag == Tag.con_vec
          then load_from_concatenation f results r.type
          else return_code type_mismatch f.target 0)
