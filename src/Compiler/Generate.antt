-- ===== src/Compiler/Generate.antt =====
-- generate_IR and compile_AST (src/cs11.cpp).
use super_searcher.Base.{
  ℕ, zero, suc, ◌-◌, ◌^◌, Bool, true, false, not, Option, some, List, [], ◌∷◌, ◌==◌, ltb,
  if◌then◌else◌,
}
use super_searcher.Base.Result.{out_of_fuel}
use super_searcher.Types.{Tptr}
use super_searcher.Types.Tag
use super_searcher.Ast.Tag as AstTag
use super_searcher.Ast.Descriptor.{AstInfo, ast_entry}
use super_searcher.Base.Command.{pure, fail, assert, gets, modify, ◌>>=◌, ◌>>◌}
use super_searcher.Compiler.Llvm.{
  Llvm, LlvmType, array_type, Callee, add_op, sub_op, mul_op, lshr_op, ashr_op, shl_op, icmp_ult,
  icmp_slt, create_ret, create_ret_void,
}
use super_searcher.Compiler.Emission.{Emit, value, lift, create, new_block, set_insert_point}
use super_searcher.Compiler.Aggregates.{canonical}
use super_searcher.Compiler.State.{
  IrgenStatus, no_error, null_ast, is_error, infinite_loop, ReturnInfo, null_object, Gen, Context,
  contains, remove, on_emission, stack_size, find_object, return_code, load_place,
}
use super_searcher.Compiler.Finish.{
  Out, Generator, Frame, by_option, type_size, call_one, call_two, compile_fields,
}
use super_searcher.Compiler.Arithmetic.{
  zero_case, step_case, binary_case, random_case, less_case, udiv_case, urem_case, shift_case,
}
use super_searcher.Compiler.Control.{basicblock_case, if_case, label_case, goto_case}
use super_searcher.Compiler.Stores.{
  nvec_case, pointer_case, tmp_pointer_case, concatenate_case, store_case, try_store_case,
  vecpb_case, vecsz_case, dynamify_case, imv_case,
}
use super_searcher.Compiler.Subobjects.{load_subobj_case}
use super_searcher.Compiler.References.{load_subobj_ref_case, load_from_ast_case, dyn_subobj_case}
use super_searcher.Compiler.Calls.{
  call_case, compile_case, convert_case, load_tag_case, typeof_case, system_case, agency_case,
  get_event_loop_case,
}

abbrev pub frame : Context → AstInfo → ℕ → ℕ → ℕ → Frame
frame ctx info target stack_degree final_stack_position = record {
  ctx = ctx;
  info = info;
  target = target;
  stack_degree = stack_degree;
  final_stack_position = final_stack_position;
}

abbrev is_array : LlvmType → Bool
is_array (array_type n) = true
is_array _ = false

module _ {llvm : Llvm} where
  -- The cases of the switch on the tag; the later ones are in the definitions below.
  unfoldable pub call_switch : Generator llvm → Frame → ℕ → List (ReturnInfo llvm.Value) → Out llvm
  call_switch gen f tag results =
      if tag == AstTag.compile
      then compile_case f results
      else if tag == AstTag.overfunc
      then call_case (call_two Callee.overwrite_func results) f
      else if tag == AstTag.convert_to_ast
      then convert_case f results
      else if tag == AstTag.imv_ast
      then call_case (call_one Callee.new_imv_ast results) f
      else if tag == AstTag.load_tag
      then load_tag_case f results
      else if tag == AstTag.load_imv_from_ast
      then load_from_ast_case Callee.load_imv_from_ast Tag.dynamic_object gen f results
      else if tag == AstTag.load_vector_from_bb
      then load_from_ast_case Callee.load_bb_from_ast f.ctx.vector_of_asts gen f results
      else if tag == AstTag.run_function
      then call_case (call_one Callee.run_null_parameter_function results) f
      else if tag == AstTag.typeof
      then typeof_case f results
      else if tag == AstTag.system1
      then system_case (call_one Callee.system1 results) f
      else if tag == AstTag.system2
      then system_case (call_two Callee.system2 results) f
      else if tag == AstTag.agency1
      then agency_case (call_one Callee.agency1 results) f
      else if tag == AstTag.agency2
      then agency_case (call_two Callee.agency2 results) f
      else if tag == AstTag.get_event_loop
      then get_event_loop_case f
      else fail

  unfoldable pub object_switch :
      Generator llvm → Frame → ℕ → List (ReturnInfo llvm.Value) → Out llvm
  unfolding call_switch
  object_switch gen f tag results =
      if tag == AstTag.nvec
      then nvec_case f results
      else if tag == AstTag.pointer
      then pointer_case f
      else if tag == AstTag.tmp_pointer
      then tmp_pointer_case f results
      else if tag == AstTag.concatenate
      then concatenate_case f results
      else if tag == AstTag.store
      then store_case f results
      else if tag == AstTag.try_store
      then try_store_case f results
      else if tag == AstTag.dyn_subobj
      then dyn_subobj_case gen f results
      else if tag == AstTag.load_subobj_ref
      then load_subobj_ref_case gen f results
      else if tag == AstTag.vecpb
      then vecpb_case f results
      else if tag == AstTag.vecsz
      then vecsz_case f results
      else if tag == AstTag.dynamify
      then dynamify_case f results
      else if tag == AstTag.imv
      then imv_case f
      else if tag == AstTag.load_subobj
      then load_subobj_case f results
      else call_switch gen f tag results

  unfoldable pub tag_switch : Generator llvm → Frame → ℕ → List (ReturnInfo llvm.Value) → Out llvm
  unfolding object_switch
  tag_switch gen f tag results =
      if tag == AstTag.basicblock
      then basicblock_case gen f
      else if tag == AstTag.zero
      then zero_case f
      else if tag == AstTag.increment
      then step_case add_op f results
      else if tag == AstTag.decrement
      then step_case sub_op f results
      else if tag == AstTag.add
      then binary_case add_op f results
      else if tag == AstTag.subtract
      then binary_case sub_op f results
      else if tag == AstTag.multiply
      then binary_case mul_op f results
      else if tag == AstTag.random
      then random_case f
      else if tag == AstTag.lessu
      then less_case icmp_ult f results
      else if tag == AstTag.lesss
      then less_case icmp_slt f results
      else if tag == AstTag.udiv
      then udiv_case f results
      else if tag == AstTag.urem
      then urem_case f results
      else if tag == AstTag.ushr
      then shift_case lshr_op f results
      else if tag == AstTag.sshr
      then shift_case ashr_op f results
      else if tag == AstTag.shl
      then shift_case shl_op f results
      else if tag == AstTag.if_else
      then if_case gen f results
      else if tag == AstTag.label
      then label_case gen f
      else if tag == AstTag.goto
      then goto_case f
      else object_switch gen f tag results

  -- The AST is already in the object list: its value is loaded again if it lies in memory.
  unfoldable pub refreshed : ReturnInfo llvm.Value → Out llvm
  refreshed found = by_option found.place (pure found) (λ place. do
    v ← on_emission (load_place place found.type)
    pure (record found { ir = some v }))

  -- loop_catcher.insert(target).second
  unfoldable pub catch_loop : ℕ → Gen llvm Bool
  catch_loop target = do
    seen ← gets (λ s. contains target s.loop_catcher)
    if seen
        then pure false
        else (do modify (λ s. record s { loop_catcher = target ∷ s.loop_catcher }); pure true)

  -- The destructor of loop_catcher_destructor_cleanup.
  unfoldable pub release_loop : ℕ → Gen llvm (Unit {0})
  release_loop target = modify (λ s. record s { loop_catcher = remove target s.loop_catcher })

  -- generate_IR behind the check of loops: the fields, then the switch.
  unfoldable pub generate_new : Generator llvm → Context → ℕ → ℕ → Out llvm
  unfolding compile_fields tag_switch
  generate_new gen ctx target stack_degree = do
    final_stack_position ← stack_size
    tag ← on_emission (gets (λ s. s.machine.mem target))
    info ← on_emission (lift (ast_entry tag))
    let f = frame ctx info target stack_degree final_stack_position
    compile_fields gen f info.fields_to_compile 0 [] (tag_switch gen f tag)

  -- generate_IR, with the calls of itself as a parameter.
  unfoldable pub generate_once : Generator llvm → Context → ℕ → ℕ → Out llvm
  unfolding refreshed catch_loop release_loop generate_new
  generate_once gen ctx target stack_degree = do
    assert (not (stack_degree == 1))
    if target == 0 then pure null_object else (do
      looking_for_reference ← find_object target
      by_option looking_for_reference
          (do
            inserted ← catch_loop target
            if inserted
                then (do
                  result ← generate_new gen ctx target stack_degree
                  release_loop target
                  pure result)
                else return_code infinite_loop target 10)
          refreshed)

  -- generate_IR, to a depth of `fuel` calls of itself.
  unfoldable pub generate_ir : ℕ → Context → ℕ → ℕ → Out llvm
  unfolding generate_once
  generate_ir zero ctx target stack_degree = λ s. out_of_fuel
  generate_ir (suc fuel) ctx target stack_degree =
      generate_once (generate_ir fuel ctx) ctx target stack_degree

  -- The return instruction of compile_AST, for a value of a size.
  unfoldable pub emit_return : ℕ → Option llvm.Value → Emit llvm (Unit {0})
  emit_return size_of_return ir =
      if size_of_return == 0 then (do create create_ret_void; pure tt) else (do
        v ← value ir
        returned ←
            if size_of_return == 1
            then pure v
            else if is_array (llvm.type_of v)
            then pure v
            else (do assert (ltb size_of_return (2 ^ 32 - 1)); canonical size_of_return v)
        create (create_ret returned)
        pure tt)

  -- compile_AST up to the finished function: the error code and return_type.
  unfoldable pub compile_ast : ℕ → Context → ℕ → Gen llvm (IrgenStatus × Tptr)
  unfolding emit_return
  compile_ast fuel ctx target = if target == 0 then pure (null_ast, 0) else do
    on_emission (do entry ← new_block; set_insert_point entry)
    return_object ← generate_ir fuel ctx target 0
    if is_error return_object.error_code then pure (return_object.error_code, 0) else (do
      size_of_return ← on_emission (type_size return_object.type)
      on_emission (emit_return size_of_return return_object.ir)
      pure (no_error, return_object.type))
