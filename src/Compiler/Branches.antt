-- ===== src/Compiler/Branches.antt =====
-- The cases of generate_IR (src/cs11.cpp) for blocks, branches and labels, in a scope.
use super_searcher.Base.{
  ℕ, ◌≤◌, ◌≡◌, refl, ap, ◌∙◌, Option, none, some, List, [], ◌∷◌, ◌==◌, length,
}
use super_searcher.Types.Tag
use super_searcher.Compiler.Llvm.{Llvm}
use super_searcher.Compiler.State.{ReturnInfo, null_object, LabelInfo, emit_dtors}
use super_searcher.Compiler.Finish.{Generator, Frame}
use super_searcher.Compiler.Scope.{OnSome}
use super_searcher.Compiler.Keeps.{
  Documented, Any, Keeps, bind-Keeps, then-Keeps, pure-Keeps, ite-Keeps, by_option-Keeps,
  option-Keeps, emit-Keeps, emit_then, gets-Keeps, stack_size-Keeps, modify_then,
}
use super_searcher.Compiler.Members.{
  clear_stack-Keeps, return_code-Keeps, or_return-Keeps, Sound, null-Documented,
}
use super_searcher.Compiler.Finished.{finish_special-Keeps, finish-Keeps}
use super_searcher.Compiler.Control.{
  block_elements, block_result, basicblock_case, if_end, if_case, find_label, insert_label,
  expire_label, label_case, goto_forward, goto_back, goto_case,
}

module _ {llvm : Llvm} {base caught : List ℕ} (f : Frame)
    (inside : length base ≤ f.final_stack_position) where
  if_end-Keeps :
      (then_ir else_ir : ReturnInfo llvm.Value) (then_end else_end merge : llvm.Block)
      → Keeps {llvm = llvm} base caught Documented
          (if_end f then_ir else_ir then_end else_end merge)
  unfolding if_end
  if_end-Keeps then_ir else_ir then_end else_end merge = emit-Keeps _ (λ result_type. emit_then _ (
      ite-Keeps _ (finish_special-Keeps f inside none 0)
        (emit-Keeps _ (λ end_phi. finish_special-Keeps f inside end_phi result_type))))

  goto_forward-Keeps :
      (info : LabelInfo llvm.Block)
      → Keeps {llvm = llvm} base caught Documented (goto_forward f info)
  unfolding goto_forward emit_dtors
  goto_forward-Keeps info =
      then-Keeps {P = Any} (pure-Keeps tt tt)
        (emit_then _ (finish_special-Keeps f inside none Tag.does_not_return))

  goto_back-Keeps :
      (info : LabelInfo llvm.Block) → Keeps {llvm = llvm} base caught Documented (goto_back f info)
  unfolding goto_back emit_dtors
  goto_back-Keeps info = emit-Keeps _ (λ failure.
      then-Keeps {P = Any} (pure-Keeps tt tt)
        (emit_then _ (emit_then _ (finish-Keeps f inside none))))

  pub goto_case-Keeps : Keeps {llvm = llvm} base caught Documented (goto_case f)
  unfolding goto_case find_label
  goto_case-Keeps = emit-Keeps _ (λ target. gets-Keeps _ (λ found.
      option-Keeps found (return_code-Keeps _ f.target 0)
        (λ info. ite-Keeps info.is_forward (goto_forward-Keeps info) (goto_back-Keeps info))))

  module _ (gen : Generator llvm) (sound : Sound gen) where
    pub if_case-Keeps :
        (results : List (ReturnInfo llvm.Value))
        → Keeps {llvm = llvm} base caught Documented (if_case gen f results)
    unfolding if_case
    if_case-Keeps results = stack_size-Keeps (λ position bound. emit-Keeps _ (λ blocks.
        emit_then _ (
          emit-Keeps _ (λ then_ast.
            bind-Keeps (sound.holds base caught then_ast 0) (λ then_ir documented.
              or_return-Keeps then_ir documented (
                then-Keeps (clear_stack-Keeps position bound) (
                  emit-Keeps _ (λ then_end. emit_then _ (
                    emit-Keeps _ (λ else_ast.
                      bind-Keeps (sound.holds base caught else_ast 0) (λ else_ir later.
                        or_return-Keeps else_ir later (
                          then-Keeps (clear_stack-Keeps position bound) (
                            emit-Keeps _ (λ else_end.
                              if_end-Keeps then_ir else_ir then_end else_end _))))))))))))))

    block_result-Keeps :
        (final : ReturnInfo llvm.Value)
        → Documented final
        → Keeps {llvm = llvm} base caught Documented (block_result f final)
    unfolding block_result
    block_result-Keeps final h =
        ite-Keeps (f.stack_degree == 0)
          (by_option-Keeps {Q = λ place. final.place ≡ some place} final.place
            (at_place final.place) (pure-Keeps final h)
            (λ place e. emit-Keeps _ (λ v. pure-Keeps _ (reloaded place e v))))
          (pure-Keeps final h)
      where
        at_place : (o : Option ℕ) → OnSome (λ place. o ≡ some place) o
        at_place none = tt
        at_place (some place) = refl

        reloaded :
            (place : ℕ)
            → final.place ≡ some place
            → (v : llvm.Value) → Documented (record final { ir = some v })
        reloaded place e v = (
          λ failed. absurd (ap (λ (r : ReturnInfo llvm.Value). r.place) (h.0 failed) ∙ refl) e,
          h.1,
        )
          where
            absurd :
                final.place ≡ none
                → final.place ≡ some place
                → record final { ir = some v }
                  ≡ record null_object { error_code = final.error_code }
            absurd away e = cc

    block_elements-Keeps :
        (elements : List ℕ) (final : ReturnInfo llvm.Value)
        → Documented final
        → Keeps {llvm = llvm} base caught Documented
            (block_elements gen elements final (block_result f))
    unfolding block_elements
    block_elements-Keeps [] final h = block_result-Keeps final h
    block_elements-Keeps (element ∷ elements) final h = emit-Keeps _ (λ ast.
        bind-Keeps (sound.holds base caught ast 2) (λ result documented.
          or_return-Keeps result documented (block_elements-Keeps elements result documented)))

    pub basicblock_case-Keeps : Keeps {llvm = llvm} base caught Documented (basicblock_case gen f)
    unfolding basicblock_case
    basicblock_case-Keeps =
        emit-Keeps _ (λ k.
          emit-Keeps _ (λ elements. block_elements-Keeps elements null_object null-Documented))

    pub label_case-Keeps : Keeps {llvm = llvm} base caught Documented (label_case gen f)
    unfolding label_case find_label insert_label expire_label
    label_case-Keeps = emit-Keeps _ (λ label. gets-Keeps _ (λ old.
        option-Keeps old
          (modify_then _
            (λ s scoped. record {
              same = scoped.same;
              distinct = scoped.distinct;
              above = scoped.above;
              living = scoped.living;
              catcher = scoped.catcher;
            })
            (emit-Keeps _ (λ ast. bind-Keeps (sound.holds base caught ast 0) (λ scoped documented.
              or_return-Keeps scoped documented (
                modify_then _
                  (λ s scoped. record {
                    same = scoped.same;
                    distinct = scoped.distinct;
                    above = scoped.above;
                    living = scoped.living;
                    catcher = scoped.catcher;
                  })
                  (emit_then _ (emit_then _ (finish-Keeps f inside none))))))))
          (λ info. return_code-Keeps _ f.target 0)))
