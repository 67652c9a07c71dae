-- ===== src/Compiler/Control.antt =====
-- The cases of generate_IR (src/cs11.cpp) for blocks, branches and labels.
use super_searcher.Base.{ℕ, true, false, Option, none, some, List, [], ◌∷◌, ◌==◌, if◌then◌else◌}
use super_searcher.Types.{Tptr}
use super_searcher.Types.Tag
use super_searcher.Vector
use super_searcher.Base.Command.{pure, gets, modify, ◌>>=◌, ◌>>◌}
use super_searcher.Compiler.Llvm.{
  Llvm, sub_op, icmp_ne, create_binary, create_compare, create_load, create_store, create_br,
  create_cond_br,
}
use super_searcher.Compiler.Emission.{Emit, create, new_block, set_insert_point}
use super_searcher.Compiler.Aggregates.{llvm_create_phi}
use super_searcher.Compiler.State.{
  missing_label, label_duplication, ReturnInfo, null_object, LabelInfo, Gen, Context, find,
  emit_dtors, on_emission, stack_size, clear_stack, return_code, or_return, load_place, type_fits,
}
use super_searcher.Compiler.Finish.{
  Out, Generator, Frame, by_option, load_field, to_pointer, finish_special, finish, operand,
  end_branch, open_branches,
}

-- The map of labels, where a label's interior is finished.
unfoldable pub expired :
    {Block : Type 0} → ℕ → List (ℕ × LabelInfo Block) → List (ℕ × LabelInfo Block)
expired target [] = []
expired target ((k, info) ∷ rest) =
    if target == k
    then (k, record info { is_forward = false }) ∷ rest
    else (k, info) ∷ expired target rest

module _ {llvm : Llvm} where
  -- The elements of a basic block at the addresses, each with degree 2; `final` is the last result.
  unfoldable pub block_elements :
      Generator llvm
      → List ℕ
      → ReturnInfo llvm.Value
      → (ReturnInfo llvm.Value → Out llvm)
      → Out llvm
  block_elements gen [] final rest = rest final
  block_elements gen (element ∷ elements) final rest = do
    ast ← on_emission (gets (λ s. s.machine.mem element))
    result ← gen ast 2
    or_return result (block_elements gen elements result rest)

  -- For degree 0 the result of the block is loaded.
  unfoldable pub block_result : Frame → ReturnInfo llvm.Value → Out llvm
  block_result f final =
      if f.stack_degree == 0
      then by_option final.place (pure final) (λ place. do
        v ← on_emission (load_place place final.type)
        pure (record final { ir = some v }))
      else pure final

  unfoldable pub basicblock_case : Generator llvm → Frame → Out llvm
  unfolding block_elements block_result
  basicblock_case gen f = do
    k ← on_emission (load_field f.target 0)
    elements ← on_emission (gets (λ s. Vector.vector_range s.machine.mem k))
    block_elements gen elements null_object (block_result f)

  -- The type of the result of an `if`: that of the case that the other type_fits into, or the null type.
  unfoldable pub if_type : Context → Tptr → Tptr → Emit llvm Tptr
  if_type ctx then_type else_type = do
    then_is_main ← type_fits ctx else_type then_type
    if then_is_main then pure then_type else (do
      else_is_main ← type_fits ctx then_type else_type
      pure (if else_is_main then else_type else 0))

  -- The comparison of the condition, and the blocks.
  unfoldable pub if_blocks :
      List (ReturnInfo llvm.Value) → Emit llvm (llvm.Block × llvm.Block × llvm.Block)
  if_blocks results = do
    condition ← operand results 0
    comparison ← create (create_compare icmp_ne condition (llvm.integer 0))
    open_branches comparison

  -- The end of an `if`, in the block where its cases meet.
  unfoldable pub if_end :
      Frame
      → (then_ir else_ir : ReturnInfo llvm.Value) → (then_end else_end merge : llvm.Block)
      → Out llvm
  unfolding if_type
  if_end f then_ir else_ir then_end else_end merge = do
    result_type ← on_emission (if_type f.ctx then_ir.type else_ir.type)
    on_emission (set_insert_point merge)
    if result_type == 0 then finish_special f none 0 else (do
      end_phi ← on_emission (llvm_create_phi ((then_ir.ir, then_end) ∷ (else_ir.ir, else_end) ∷ []))
      finish_special f end_phi result_type)

  unfoldable pub if_case : Generator llvm → Frame → List (ReturnInfo llvm.Value) → Out llvm
  unfolding if_blocks if_end
  if_case gen f results = do
    if_stack_position ← stack_size
    (merge, then_block, else_block) ← on_emission (if_blocks results)
    on_emission (set_insert_point then_block)
    then_ast ← on_emission (load_field f.target 1)
    then_ir ← gen then_ast 0
    or_return then_ir (do
      clear_stack if_stack_position
      then_end ← on_emission (end_branch merge)
      on_emission (set_insert_point else_block)
      else_ast ← on_emission (load_field f.target 2)
      else_ir ← gen else_ast 0
      or_return else_ir (do
        clear_stack if_stack_position
        else_end ← on_emission (end_branch merge)
        if_end f then_ir else_ir then_end else_end merge))

  -- labels.find
  unfoldable pub find_label : ℕ → Gen llvm (Option (LabelInfo llvm.Block))
  find_label target = gets (λ s. find target s.labels)

  -- labels.insert for a label that is not there.
  unfoldable pub insert_label : ℕ → LabelInfo llvm.Block → Gen llvm (Unit {0})
  insert_label target info = modify (λ s. record s { labels = (target, info) ∷ s.labels })

  -- label_insertion.first->second.is_forward = false
  unfoldable pub expire_label : ℕ → Gen llvm (Unit {0})
  unfolding expired
  expire_label target = modify (λ s. record s { labels = expired target s.labels })

  unfoldable pub label_case : Generator llvm → Frame → Out llvm
  unfolding find_label insert_label expire_label
  label_case gen f = do
    label ← on_emission new_block
    old ← find_label f.target
    by_option old
        (do
          insert_label f.target
              (record { block = label; stack_size = f.final_stack_position; is_forward = true })
          ast ← on_emission (load_field f.target 0)
          scoped ← gen ast 0
          or_return scoped (do
            expire_label f.target
            on_emission (create (create_br label))
            on_emission (set_insert_point label)
            finish f none))
        (λ info. return_code label_duplication f.target 0)

  -- A jump forward, to the end of a label.
  unfoldable pub goto_forward : Frame → LabelInfo llvm.Block → Out llvm
  goto_forward f info = do
    emit_dtors info.stack_size
    on_emission (do create (create_br info.block); junk ← new_block; set_insert_point junk)
    finish_special f none Tag.does_not_return

  -- A jump back, which counts finiteness down; FailureBB is where the code goes on.
  unfoldable pub goto_back : Frame → LabelInfo llvm.Block → Out llvm
  goto_back f info = do
    failure ← on_emission (do
      finiteness_pointer ← to_pointer (llvm.integer f.ctx.finiteness)
      current_finiteness ← create (create_load finiteness_pointer)
      comparison ← create (create_compare icmp_ne current_finiteness (llvm.integer 0))
      success ← new_block
      failure ← new_block
      create (create_cond_br comparison success failure)
      set_insert_point success
      finiteness_minus_one ← create (create_binary sub_op current_finiteness (llvm.integer 1))
      create (create_store finiteness_minus_one finiteness_pointer)
      pure failure)
    emit_dtors info.stack_size
    on_emission (create (create_br info.block))
    on_emission (set_insert_point failure)
    finish f none

  unfoldable pub goto_case : Frame → Out llvm
  unfolding find_label goto_forward goto_back
  goto_case f = do
    target ← on_emission (load_field f.target 0)
    found ← find_label target
    by_option found (return_code missing_label f.target 0)
        (λ info. if info.is_forward then goto_forward f info else goto_back f info)
