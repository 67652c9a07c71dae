-- ===== src/Compiler/Whole.antt =====
-- generate_IR (src/cs11.cpp) in a scope.
use super_searcher.Base.{
  ℕ, zero, suc, ◌≤◌, ◌≡◌, refl, ap, subst, ◌∙◌, arith, inl, inr, Bool-cases, false, some, List, [],
  ◌∷◌, ◌==◌, if◌then◌else◌, length,
}
use super_searcher.Ast.Tag as AstTag
use super_searcher.Base.Result.{Result, ok, abort, out_of_fuel}
use super_searcher.Base.Command.{pure, gets, modify, and_then, ◌>>=◌, ◌>>◌}
use super_searcher.Compiler.Llvm.{
  Llvm, icmp_ult, add_op, sub_op, mul_op, lshr_op, ashr_op, shl_op, icmp_slt,
}
use super_searcher.Compiler.State.{ReturnInfo, Compiler, Context}
use super_searcher.Compiler.Finish.{Out, Generator, Frame}
use super_searcher.Compiler.Keeps.{
  After, Alive, Documented, Scoped, Keeps, bind-Keeps, pure-Keeps, fail-Keeps, ite-Keeps,
  by_option-Keeps, option-Keeps, emit-Keeps, assert_then, stack_size-Keeps,
}
use super_searcher.Compiler.Members.{
  find_object-Keeps, return_code-Keeps, Sound, Alive-Documented, null-Documented,
}
use super_searcher.Compiler.Finished.{compile_fields-Keeps}
use super_searcher.Compiler.State.{contains, infinite_loop, return_code, remove}
use super_searcher.Compiler.Generate.{
  call_switch, object_switch, tag_switch, refreshed, catch_loop, release_loop, generate_new,
  generate_once, generate_ir, frame,
}
use super_searcher.Compiler.Values
use super_searcher.Compiler.Branches
use super_searcher.Compiler.Parts

module _ {llvm : Llvm} {base caught : List ℕ} (f : Frame)
    (inside : length base ≤ f.final_stack_position) (gen : Generator llvm) (sound : Sound gen)
    (tag : ℕ) (results : List (ReturnInfo llvm.Value)) where
  call_switch-Keeps : Keeps {llvm = llvm} base caught Documented (call_switch gen f tag results)
  unfolding call_switch
  call_switch-Keeps =
      ite-Keeps (tag == AstTag.compile) (Values.compile_case-Keeps f inside results) (
        ite-Keeps (tag == AstTag.overfunc) (Values.emit_finish f inside _) (
          ite-Keeps (tag == AstTag.convert_to_ast) (Values.convert_case-Keeps f inside results) (
            ite-Keeps (tag == AstTag.imv_ast) (Values.emit_finish f inside _) (
              ite-Keeps (tag == AstTag.load_tag) (Values.load_tag_case-Keeps f inside results) (
                ite-Keeps (tag == AstTag.load_imv_from_ast)
                  (Parts.load_from_ast_case-Keeps f inside gen sound _ _ results)
                  (ite-Keeps (tag == AstTag.load_vector_from_bb)
                    (Parts.load_from_ast_case-Keeps f inside gen sound _ _ results)
                    (ite-Keeps (tag == AstTag.run_function) (Values.emit_finish f inside _) (
                      ite-Keeps (tag == AstTag.typeof) (Values.typeof_case-Keeps f inside results) (
                        ite-Keeps (tag == AstTag.system1) (Values.system_case-Keeps f inside _) (
                          ite-Keeps (tag == AstTag.system2) (Values.system_case-Keeps f inside _) (
                            ite-Keeps (tag == AstTag.agency1) (Values.agency_case-Keeps f inside _)
                              (ite-Keeps (tag == AstTag.agency2)
                                (Values.agency_case-Keeps f inside _)
                                (ite-Keeps (tag == AstTag.get_event_loop)
                                  (Values.get_event_loop_case-Keeps f inside)
                                  fail-Keeps)))))))))))))

  object_switch-Keeps : Keeps {llvm = llvm} base caught Documented (object_switch gen f tag results)
  unfolding object_switch
  object_switch-Keeps = ite-Keeps (tag == AstTag.nvec) (Values.nvec_case-Keeps f inside results) (
      ite-Keeps (tag == AstTag.pointer) (Values.pointer_case-Keeps f inside) (
        ite-Keeps (tag == AstTag.tmp_pointer) (Values.tmp_pointer_case-Keeps f inside results) (
          ite-Keeps (tag == AstTag.concatenate) (Values.concatenate_case-Keeps f inside results) (
            ite-Keeps (tag == AstTag.store) (Values.store_case-Keeps f inside results) (
              ite-Keeps (tag == AstTag.try_store) (Values.try_store_case-Keeps f inside results) (
                ite-Keeps (tag == AstTag.dyn_subobj)
                  (Parts.dyn_subobj_case-Keeps f inside gen sound results)
                  (ite-Keeps (tag == AstTag.load_subobj_ref)
                    (Parts.load_subobj_ref_case-Keeps f inside gen sound results)
                    (ite-Keeps (tag == AstTag.vecpb) (Values.vecpb_case-Keeps f inside results) (
                      ite-Keeps (tag == AstTag.vecsz) (Values.vecsz_case-Keeps f inside results) (
                        ite-Keeps (tag == AstTag.dynamify)
                          (Values.dynamify_case-Keeps f inside results)
                          (ite-Keeps (tag == AstTag.imv) (Values.imv_case-Keeps f inside) (
                            ite-Keeps (tag == AstTag.load_subobj)
                              (Parts.load_subobj_case-Keeps f inside results)
                              call_switch-Keeps))))))))))))

  tag_switch-Keeps : Keeps {llvm = llvm} base caught Documented (tag_switch gen f tag results)
  unfolding tag_switch
  tag_switch-Keeps =
      ite-Keeps (tag == AstTag.basicblock) (Branches.basicblock_case-Keeps f inside gen sound) (
        ite-Keeps (tag == AstTag.zero) (Values.zero_case-Keeps f inside) (
          ite-Keeps (tag == AstTag.increment) (Values.step_case-Keeps f inside results add_op) (
            ite-Keeps (tag == AstTag.decrement) (Values.step_case-Keeps f inside results sub_op) (
              ite-Keeps (tag == AstTag.add) (Values.binary_case-Keeps f inside results add_op) (
                ite-Keeps (tag == AstTag.subtract)
                  (Values.binary_case-Keeps f inside results sub_op)
                  (ite-Keeps (tag == AstTag.multiply)
                    (Values.binary_case-Keeps f inside results mul_op)
                    (ite-Keeps (tag == AstTag.random) (Values.random_case-Keeps f inside) (
                      ite-Keeps (tag == AstTag.lessu)
                        (Values.less_case-Keeps f inside results icmp_ult)
                        (ite-Keeps (tag == AstTag.lesss)
                          (Values.less_case-Keeps f inside results icmp_slt)
                          (ite-Keeps (tag == AstTag.udiv) (Values.udiv_case-Keeps f inside results)
                            (ite-Keeps (tag == AstTag.urem)
                              (Values.urem_case-Keeps f inside results)
                              (ite-Keeps (tag == AstTag.ushr)
                                (Values.shift_case-Keeps f inside results lshr_op)
                                (ite-Keeps (tag == AstTag.sshr)
                                  (Values.shift_case-Keeps f inside results ashr_op)
                                  (ite-Keeps (tag == AstTag.shl)
                                    (Values.shift_case-Keeps f inside results shl_op)
                                    (ite-Keeps (tag == AstTag.if_else)
                                      (Branches.if_case-Keeps f inside gen sound results)
                                      (ite-Keeps (tag == AstTag.label)
                                        (Branches.label_case-Keeps f inside gen sound)
                                        (ite-Keeps (tag == AstTag.goto)
                                          (Branches.goto_case-Keeps f inside)
                                          object_switch-Keeps)))))))))))))))))

remove-absent : (t : ℕ) (xs : List ℕ) → contains t xs ≡ false → remove t xs ≡ xs
unfolding remove contains
remove-absent t [] e = refl
remove-absent t (x ∷ xs) e = ground (arith, remove-absent t xs)

pub remove-again : (t : ℕ) (xs : List ℕ) → contains t xs ≡ false → remove t (t ∷ xs) ≡ xs
unfolding remove
remove-again t xs e = ground (arith, remove-absent t xs e)

module _ {llvm : Llvm} where
  released :
      (base caught : List ℕ) (t : ℕ) (r : Result (ReturnInfo llvm.Value × Compiler llvm))
      → contains t caught ≡ false
      → After base (t ∷ caught) Documented r
      → After base caught Documented (and_then r (λ result. release_loop t >> pure result))
  unfolding release_loop modify pure ◌>>◌
  released base caught t (ok (result, s)) e h = (
    h.0,
    record {
      same = h.1.same;
      distinct = h.1.distinct;
      above = h.1.above;
      living = h.1.living;
      catcher = ap (remove t) h.1.catcher ∙ remove-again t caught e;
    },
  )
  released base caught t abort e h = tt
  released base caught t out_of_fuel e h = tt

module _ {llvm : Llvm} {base caught : List ℕ} where
  entered :
      (t : ℕ) (s : Compiler llvm)
      → Scoped base caught s
      → Scoped base (t ∷ caught) (record s { loop_catcher = t ∷ s.loop_catcher })
  entered t s scoped = record {
    same = scoped.same;
    distinct = scoped.distinct;
    above = scoped.above;
    living = scoped.living;
    catcher = ap (λ xs. t ∷ xs) scoped.catcher;
  }

  -- An AST that is not being looked at is in the set while the command runs, and out of it behind.
  caught-Keeps :
      (t : ℕ) {c : Out llvm}
      → Keeps base (t ∷ caught) Documented c
      → Keeps base caught Documented (
          catch_loop t >>= (λ inserted.
            if inserted
            then c >>= (λ result. release_loop t >> pure result)
            else return_code infinite_loop t 10))
  unfolding catch_loop gets modify pure ◌>>◌ ◌>>=◌
  caught-Keeps t {c} h = record {
    run = λ s scoped. elim (Bool-cases (contains t s.loop_catcher)) [
      | inl seen ↦ rw seen ((return_code-Keeps infinite_loop t 10).run s scoped)
      | inr fresh ↦ rw fresh (
          released base caught t (c (record s { loop_catcher = t ∷ s.loop_catcher }))
            (subst (λ xs. contains t xs ≡ false) scoped.catcher fresh)
            (h.run (record s { loop_catcher = t ∷ s.loop_catcher }) (entered t s scoped)))
    ];
  }

  refreshed-Keeps :
      (found : ReturnInfo llvm.Value)
      → Alive found
      → Keeps {llvm = llvm} base caught Documented (refreshed found)
  unfolding refreshed
  refreshed-Keeps found living =
      option-Keeps found.place (pure-Keeps found (Alive-Documented found living)) (λ place.
        emit-Keeps _ (λ v. pure-Keeps _ (Alive-Documented (record found { ir = some v }) living)))

  generate_new-Keeps :
      (gen : Generator llvm) (ctx : Context) (t stack_degree : ℕ)
      → Sound gen
      → Keeps base caught Documented (generate_new gen ctx t stack_degree)
  unfolding generate_new
  generate_new-Keeps gen ctx t stack_degree sound = stack_size-Keeps (λ position bound.
      emit-Keeps _ (λ tag. emit-Keeps _ (λ info.
        compile_fields-Keeps (frame ctx info t stack_degree position) bound gen
          info.fields_to_compile 0 [] _ sound
          (λ results.
            tag_switch-Keeps (frame ctx info t stack_degree position) bound gen sound tag
              results))))

  generate_once-Keeps :
      (gen : Generator llvm) (ctx : Context) (t stack_degree : ℕ)
      → Sound gen
      → ((caught : List ℕ) → Keeps base caught Documented (generate_new gen ctx t stack_degree))
      → Keeps base caught Documented (generate_once gen ctx t stack_degree)
  unfolding generate_once
  generate_once-Keeps gen ctx t stack_degree sound h = assert_then _ (
      ite-Keeps (t == 0) (pure-Keeps _ null-Documented) (
        bind-Keeps (find_object-Keeps t) (λ found living.
          by_option-Keeps found living (caught-Keeps t (h (t ∷ caught))) refreshed-Keeps)))

module _ {llvm : Llvm} (ctx : Context) where
  pub generate_ir-Sound : (fuel : ℕ) → Sound {llvm = llvm} (generate_ir fuel ctx)
  unfolding generate_ir
  generate_ir-Sound zero = record {
    holds = λ base caught t stack_degree. record { run = λ s h. tt };
  }
  generate_ir-Sound (suc fuel) = record {
    holds = λ base caught t stack_degree.
        generate_once-Keeps (generate_ir fuel ctx) ctx t stack_degree (generate_ir-Sound fuel)
          (λ caught.
            generate_new-Keeps (generate_ir fuel ctx) ctx t stack_degree (generate_ir-Sound fuel));
  }
