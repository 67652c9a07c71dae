-- ===== src/Compiler/Values.antt =====
-- The cases of generate_IR (src/cs11.cpp) that make a value, in a scope.
use super_searcher.Base.{ℕ, ◌≤◌, not, ◌&&◌, none, some, List, ◌==◌, ltb, length}
use super_searcher.Types.{Tptr}
use super_searcher.Types.Tag
use super_searcher.Compiler.Llvm.{Llvm, BinaryOp, Comparison, icmp_ne, icmp_ult, udiv_op, urem_op}
use super_searcher.Compiler.Emission.{Emit}
use super_searcher.Compiler.State.{lost_hidden_subtype, type_mismatch, ReturnInfo}
use super_searcher.Compiler.Finish.{Frame}
use super_searcher.Compiler.Keeps.{
  Documented, Any, Keeps, bind-Keeps, Gives-Any, pure-Keeps, ite-Keeps, by_option-Keeps,
  option-Keeps, emission-Keeps, emit-Keeps, emit_then,
}
use super_searcher.Compiler.Members.{find_object-Keeps, return_code-Keeps}
use super_searcher.Compiler.Finished.{finish_special-Keeps, finish-Keeps, create_if_value-Keeps}
use super_searcher.Compiler.Arithmetic.{
  zero_case, step_case, binary_case, random_case, less_case, guarded_case, udiv_case, urem_case,
  shift_case,
}
use super_searcher.Compiler.Stores.{
  is_dynamic_tag, is_none, try_store_mismatch, nvec_of, nvec_case, pointer_case, tmp_pointer_case,
  concatenate_case, store_into_pointer, store_case, store_if_same, try_store_case, vecpb_case,
  vecsz_case, dynamify_case, imv_case,
}
use super_searcher.Compiler.Calls.{
  call_case, compile_case, convert_case, load_tag_case, typeof_case, system_case, agency_case,
  get_event_loop_case,
}

module _ {llvm : Llvm} {base caught : List ℕ} (f : Frame)
    (inside : length base ≤ f.final_stack_position) where
  -- Code that is emitted, then finish.
  pub emit_finish :
      (c : Emit llvm llvm.Value) → Keeps {llvm = llvm} base caught Documented (call_case c f)
  unfolding call_case
  emit_finish c = emit-Keeps c (λ v. finish-Keeps f inside (some v))

  pub zero_case-Keeps : Keeps {llvm = llvm} base caught Documented (zero_case f)
  unfolding zero_case
  zero_case-Keeps = finish-Keeps f inside _

  pub random_case-Keeps : Keeps {llvm = llvm} base caught Documented (random_case f)
  unfolding random_case
  random_case-Keeps = emit-Keeps _ (λ v. finish-Keeps f inside (some v))

  pub get_event_loop_case-Keeps : Keeps {llvm = llvm} base caught Documented (get_event_loop_case f)
  unfolding get_event_loop_case
  get_event_loop_case-Keeps = emit_finish _

  pub system_case-Keeps :
      (c : Emit llvm llvm.Value) → Keeps {llvm = llvm} base caught Documented (system_case c f)
  unfolding system_case
  system_case-Keeps c = emit_finish _

  pub agency_case-Keeps :
      (c : Emit llvm llvm.Value) → Keeps {llvm = llvm} base caught Documented (agency_case c f)
  unfolding agency_case
  agency_case-Keeps c = emit_finish _

  pub imv_case-Keeps : Keeps {llvm = llvm} base caught Documented (imv_case f)
  unfolding imv_case
  imv_case-Keeps = emit-Keeps _ (λ dynamic_object.
      ite-Keeps (dynamic_object == 0) (finish_special-Keeps f inside none 0) (
        emit-Keeps _ (λ type. emit-Keeps _ (λ size.
          ite-Keeps (size == 0) (finish_special-Keeps f inside none 0)
            (emit-Keeps _ (λ object. finish_special-Keeps f inside (some object) type))))))

  pub pointer_case-Keeps : Keeps {llvm = llvm} base caught Documented (pointer_case f)
  unfolding pointer_case
  pointer_case-Keeps = emit-Keeps _ (λ ast. bind-Keeps (find_object-Keeps ast) (λ found_ast h.
      by_option-Keeps found_ast h (return_code-Keeps _ f.target 0) (λ found living.
        option-Keeps found.place (return_code-Keeps _ f.target 0) (λ place.
          emit-Keeps _ (λ type. emit-Keeps _ (λ v. finish_special-Keeps f inside (some v) type))))))

  module _ (results : List (ReturnInfo llvm.Value)) where
    pub step_case-Keeps :
        (op : BinaryOp) → Keeps {llvm = llvm} base caught Documented (step_case op f results)
    unfolding step_case
    step_case-Keeps op = emit-Keeps _ (λ v. finish-Keeps f inside (some v))

    pub binary_case-Keeps :
        (op : BinaryOp) → Keeps {llvm = llvm} base caught Documented (binary_case op f results)
    unfolding binary_case
    binary_case-Keeps op = emit-Keeps _ (λ v. finish-Keeps f inside (some v))

    pub less_case-Keeps :
        (predicate : Comparison)
        → Keeps {llvm = llvm} base caught Documented (less_case predicate f results)
    unfolding less_case
    less_case-Keeps predicate = emit-Keeps _ (λ v. finish-Keeps f inside (some v))

    guarded_case-Keeps :
        (predicate : Comparison) (bound : ℕ) (op : BinaryOp) (otherwise : Emit llvm llvm.Value)
        → Keeps {llvm = llvm} base caught Documented
            (guarded_case predicate bound op otherwise f results)
    unfolding guarded_case
    guarded_case-Keeps predicate bound op otherwise = emit-Keeps _ (λ comparison.
        bind-Keeps
          (create_if_value-Keeps Any comparison (emit-Keeps _ (λ v. pure-Keeps _ tt))
            (emit-Keeps _ (λ v. pure-Keeps _ tt)))
          (λ p _. finish-Keeps f inside p.1))

    pub udiv_case-Keeps : Keeps {llvm = llvm} base caught Documented (udiv_case f results)
    unfolding udiv_case
    udiv_case-Keeps = guarded_case-Keeps icmp_ne 0 udiv_op _

    pub urem_case-Keeps : Keeps {llvm = llvm} base caught Documented (urem_case f results)
    unfolding urem_case
    urem_case-Keeps = guarded_case-Keeps icmp_ne 0 urem_op _

    pub shift_case-Keeps :
        (op : BinaryOp) → Keeps {llvm = llvm} base caught Documented (shift_case op f results)
    unfolding shift_case
    shift_case-Keeps op = guarded_case-Keeps icmp_ult 64 op _

    nvec_of-Keeps : (type : Tptr) → Keeps {llvm = llvm} base caught Documented (nvec_of f type)
    unfolding nvec_of
    nvec_of-Keeps type = ite-Keeps (type == 0) (return_code-Keeps _ f.target 0) (
        emit-Keeps _ (λ tag. ite-Keeps (tag == 0) (return_code-Keeps _ f.target 0) (
          emit-Keeps _ (λ full. ite-Keeps (not full) (return_code-Keeps _ f.target 0) (
            ite-Keeps (ltb Tag.pointer tag) (return_code-Keeps _ f.target 0) (
              emit-Keeps _ (λ size. ite-Keeps (not (size == 1)) (return_code-Keeps _ f.target 0) (
                emit-Keeps _
                  (λ v. emit-Keeps _ (λ t. finish_special-Keeps f inside (some v) t))))))))))

    pub nvec_case-Keeps : Keeps {llvm = llvm} base caught Documented (nvec_case f results)
    unfolding nvec_case
    nvec_case-Keeps = emit-Keeps _ (λ constant.
        option-Keeps constant (return_code-Keeps _ f.target 1) (λ type. nvec_of-Keeps type))

    pub tmp_pointer_case-Keeps :
        Keeps {llvm = llvm} base caught Documented (tmp_pointer_case f results)
    unfolding tmp_pointer_case
    tmp_pointer_case-Keeps = emit-Keeps _ (λ r. emit-Keeps _ (λ tag.
        ite-Keeps (not (tag == Tag.pointer)) (return_code-Keeps _ f.target 0)
          (emit-Keeps _ (λ type. finish_special-Keeps f inside r.ir type))))

    pub concatenate_case-Keeps :
        Keeps {llvm = llvm} base caught Documented (concatenate_case f results)
    unfolding concatenate_case
    concatenate_case-Keeps = emit-Keeps _ (λ a. emit-Keeps _ (λ b. emit-Keeps _ (λ m.
        emit-Keeps _ (λ n. ite-Keeps _ (finish_special-Keeps f inside none 0) (
          emit-Keeps _ (λ t.
            emit-Keeps _
              (λ v. emit-Keeps _ (λ type. finish_special-Keeps f inside (some v) type))))))))

    store_into_pointer-Keeps :
        (reference object : ReturnInfo llvm.Value)
        → Keeps {llvm = llvm} base caught Documented (store_into_pointer f reference object)
    unfolding store_into_pointer
    store_into_pointer-Keeps reference object = emit-Keeps _ (λ tag.
        ite-Keeps _
          (emit-Keeps _ (λ perfect.
            ite-Keeps perfect (emit_then _ (finish-Keeps f inside none))
              (return_code-Keeps _ f.target 1)))
          (return_code-Keeps _ f.target 1))

    pub store_case-Keeps : Keeps {llvm = llvm} base caught Documented (store_case f results)
    unfolding store_case
    store_case-Keeps = emit-Keeps _ (λ reference. emit-Keeps _ (λ object.
        ite-Keeps _ (return_code-Keeps _ f.target 0) (
          emit-Keeps _ (λ perfect.
            ite-Keeps perfect
              (option-Keeps reference.place (return_code-Keeps _ f.target 0)
                (λ place. emit_then _ (finish-Keeps f inside none)))
              (store_into_pointer-Keeps reference object)))))

    store_if_same-Keeps :
        (reference object : ReturnInfo llvm.Value) (place : ℕ)
        → Keeps {llvm = llvm} base caught Documented (store_if_same f reference object place)
    unfolding store_if_same
    store_if_same-Keeps reference object place = emit-Keeps _ (λ comparison.
        bind-Keeps
          (create_if_value-Keeps Any comparison (emission-Keeps (Gives-Any _)) (pure-Keeps _ tt))
          (λ p _. finish-Keeps f inside p.1))

    pub try_store_case-Keeps : Keeps {llvm = llvm} base caught Documented (try_store_case f results)
    unfolding try_store_case
    try_store_case-Keeps = emit-Keeps _ (λ reference. emit-Keeps _ (λ object.
        ite-Keeps _ (return_code-Keeps _ f.target 0) (
          option-Keeps reference.place (return_code-Keeps _ f.target 0) (λ place.
            emit-Keeps _ (λ tag. emit-Keeps _ (λ object_tag.
              ite-Keeps (is_dynamic_tag tag && is_none reference.hidden_subtype)
                (return_code-Keeps lost_hidden_subtype f.target 0)
                (ite-Keeps (is_dynamic_tag object_tag && is_none object.hidden_subtype)
                  (return_code-Keeps lost_hidden_subtype f.target 1)
                  (option-Keeps (try_store_mismatch tag object.type object_tag)
                    (store_if_same-Keeps reference object place)
                    (λ field. return_code-Keeps type_mismatch f.target field)))))))))

    pub vecpb_case-Keeps : Keeps {llvm = llvm} base caught Documented (vecpb_case f results)
    unfolding vecpb_case
    vecpb_case-Keeps = emit-Keeps _ (λ vector. emit-Keeps _ (λ object.
        option-Keeps vector.place (return_code-Keeps _ f.target 0) (λ place. emit-Keeps _ (λ tag.
          ite-Keeps _ (return_code-Keeps _ f.target 0) (
            emit-Keeps _ (λ perfect.
              ite-Keeps _ (return_code-Keeps _ f.target 1)
                (emit_then _ (finish-Keeps f inside none))))))))

    pub vecsz_case-Keeps : Keeps {llvm = llvm} base caught Documented (vecsz_case f results)
    unfolding vecsz_case
    vecsz_case-Keeps = emit-Keeps _ (λ vector. emit-Keeps _ (λ tag.
        ite-Keeps _ (emit-Keeps _ (λ v. finish-Keeps f inside (some v)))
          (return_code-Keeps _ f.target 0)))

    pub dynamify_case-Keeps : Keeps {llvm = llvm} base caught Documented (dynamify_case f results)
    unfolding dynamify_case
    dynamify_case-Keeps = emit-Keeps _ (λ object. ite-Keeps _ (finish-Keeps f inside _) (
        emit-Keeps _ (λ full.
          ite-Keeps _ (return_code-Keeps _ f.target 0)
            (emit-Keeps _ (λ v. finish-Keeps f inside (some v))))))

    pub compile_case-Keeps : Keeps {llvm = llvm} base caught Documented (compile_case f results)
    unfolding compile_case
    compile_case-Keeps = emit-Keeps _ (λ r. emit-Keeps _ (λ is_null.
        ite-Keeps is_null (finish-Keeps f inside _) (
          emit-Keeps _
            (λ is_ast. ite-Keeps is_ast (emit_finish _) (return_code-Keeps _ f.target 0)))))

    pub convert_case-Keeps : Keeps {llvm = llvm} base caught Documented (convert_case f results)
    unfolding convert_case
    convert_case-Keeps = emit-Keeps _ (λ vector.
        ite-Keeps _ (emit_finish _)
          (emit-Keeps _ (λ perfect. ite-Keeps _ (return_code-Keeps _ f.target 1) (emit_finish _))))

    pub load_tag_case-Keeps : Keeps {llvm = llvm} base caught Documented (load_tag_case f results)
    unfolding load_tag_case
    load_tag_case-Keeps = emit-Keeps _ (λ r. ite-Keeps _ (return_code-Keeps _ f.target 0) (
        emit-Keeps _ (λ tag. ite-Keeps (tag == Tag.type_pointer) (emit_finish _) (
          ite-Keeps (tag == Tag.ast_pointer) (emit_finish _)
            (return_code-Keeps type_mismatch f.target 0)))))

    pub typeof_case-Keeps : Keeps {llvm = llvm} base caught Documented (typeof_case f results)
    unfolding typeof_case
    typeof_case-Keeps = emit-Keeps _ (λ r. finish-Keeps f inside _)
