-- ===== src/Compiler/Calls.antt =====
-- The cases of generate_IR (src/cs11.cpp) that call functions of the run time.
use super_searcher.Base.{ℕ, not, some, List, [], ◌∷◌, ◌==◌, if◌then◌else◌}
use super_searcher.Types.Tag
use super_searcher.Base.Command.{pure, fail, ◌>>=◌, ◌>>◌}
use super_searcher.Compiler.Llvm.{Llvm, Callee, Attribute, no_unwind, read_only, add_attribute}
use super_searcher.Compiler.Emission.{Emit, create}
use super_searcher.Compiler.State.{type_mismatch, ReturnInfo, on_emission, return_code, type_fits}
use super_searcher.Compiler.Finish.{Out, Frame, type_ver, finish, field_result, call_one, call_two}

module _ {llvm : Llvm} where
  -- overfunc, imv_AST and run_function, with the number of fields that the call has.
  unfoldable pub call_case : Emit llvm llvm.Value → Frame → Out llvm
  call_case emitted f = do v ← on_emission emitted; finish f (some v)

  unfoldable pub compile_case : Frame → List (ReturnInfo llvm.Value) → Out llvm
  unfolding call_case
  compile_case f results = do
    r ← on_emission (field_result results 0)
    is_null ← on_emission (type_fits f.ctx r.type 0)
    if is_null then finish f (some (llvm.integer 0)) else (do
      is_ast ← on_emission (type_fits f.ctx r.type Tag.ast_pointer)
      if is_ast
          then call_case (call_one Callee.compile_returning_just_function results) f
          else return_code type_mismatch f.target 0)

  unfoldable pub convert_case : Frame → List (ReturnInfo llvm.Value) → Out llvm
  unfolding call_case
  convert_case f results = do
    vector ← on_emission (field_result results 1)
    if vector.type == 0 then call_case (call_one Callee.no_vector_to_ast results) f else (do
      perfect ← on_emission (type_fits f.ctx vector.type f.ctx.vector_of_asts)
      if not perfect
          then return_code type_mismatch f.target 1
          else call_case (call_two Callee.vector_to_ast results) f)

  unfoldable pub load_tag_case : Frame → List (ReturnInfo llvm.Value) → Out llvm
  unfolding call_case
  load_tag_case f results = do
    r ← on_emission (field_result results 0)
    if r.type == 0 then return_code type_mismatch f.target 0 else (do
      tag ← on_emission (type_ver r.type)
      if tag == Tag.type_pointer
          then call_case (call_one Callee.type_tag results) f
          else if tag == Tag.ast_pointer
          then call_case (call_one Callee.ast_tag results) f
          else return_code type_mismatch f.target 0)

  unfoldable pub typeof_case : Frame → List (ReturnInfo llvm.Value) → Out llvm
  typeof_case f results = do
    r ← on_emission (field_result results 0)
    finish f (some (llvm.integer r.type))

  unfoldable pub with_attributes : Emit llvm llvm.Value → List Attribute → Emit llvm llvm.Value
  with_attributes emitted [] = emitted
  with_attributes emitted (attribute ∷ rest) = with_attributes marked rest
    where
      marked : Emit llvm llvm.Value
      marked = do v ← emitted; create (add_attribute v attribute); pure v

  -- system1 and system2, which have no effects.
  unfoldable pub system_case : Emit llvm llvm.Value → Frame → Out llvm
  unfolding call_case with_attributes
  system_case emitted f = call_case (with_attributes emitted (no_unwind ∷ read_only ∷ [])) f

  -- agency1 and agency2.
  unfoldable pub agency_case : Emit llvm llvm.Value → Frame → Out llvm
  unfolding call_case with_attributes
  agency_case emitted f = call_case (with_attributes emitted (no_unwind ∷ [])) f

  -- event_roots.at(0)
  unfoldable pub event_root : List ℕ → Emit llvm llvm.Value
  event_root [] = fail
  event_root (root ∷ roots) = pure (llvm.integer root)

  unfoldable pub get_event_loop_case : Frame → Out llvm
  unfolding call_case event_root
  get_event_loop_case f = call_case (event_root f.ctx.event_roots) f
