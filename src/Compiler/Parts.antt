-- ===== src/Compiler/Parts.antt =====
-- The cases of generate_IR (src/cs11.cpp) that take a part of an object, in a scope.
use super_searcher.Base.{
  ℕ, zero, suc, ◌+◌, ◌≤◌, true, not, ◌||◌, Option, none, some, List, ◌==◌, length,
}
use super_searcher.Types.{Tptr, is_zeroable}
use super_searcher.Types.Tag
use super_searcher.Compiler.Llvm.{Llvm, Callee}
use super_searcher.Compiler.Emission.{Emit}
use super_searcher.Compiler.State.{ReturnInfo}
use super_searcher.Compiler.Finish.{Out, Generator, Frame}
use super_searcher.Compiler.Keeps.{
  Documented, Any, Keeps, bind-Keeps, then-Keeps, bind-Gives, Gives-Any, pure-Keeps, ite-Keeps,
  option-Keeps, emission-Keeps, emit-Keeps, emit_then, stack_size-Keeps,
}
use super_searcher.Compiler.Members.{
  new_living_object-Keeps, clear_stack-Keeps, return_code-Keeps, or_return-Keeps, Sound,
}
use super_searcher.Compiler.Finished.{
  place-Alive, finish_internal-Keeps, finish_special-Keeps, finish-Keeps, create_if_value-Keeps,
}
use super_searcher.Compiler.State.{type_mismatch}
use super_searcher.Compiler.Subobjects.{
  part_of_place, load_from_pointer, load_from_concatenation, call_special, load_from_vector,
  load_from_function, load_subobj_case,
}
use super_searcher.Compiler.References.{
  living_reference, with_reference, load_subobj_ref_case, load_from_ast_case, Part, part_of_dynamic,
  open_case, dyn_cases, dyn_switch, hidden_subobj, dyn_subobj_case,
}

module _ {llvm : Llvm} {base caught : List ℕ} (f : Frame)
    (inside : length base ≤ f.final_stack_position) where
  module _ (results : List (ReturnInfo llvm.Value)) where
    part_of_place-Keeps :
        (pointer : llvm.Value) (offset : ℕ) (type : Tptr)
        → Keeps {llvm = llvm} base caught Documented (part_of_place f pointer offset type)
    unfolding part_of_place
    part_of_place-Keeps pointer offset type = emit-Keeps _ (λ place. emit-Keeps _ (λ allocation.
        emit-Keeps _ (λ v. finish_internal-Keeps f inside (some allocation) none (some v) type)))

    load_from_pointer-Keeps :
        (type : Tptr)
        → Keeps {llvm = llvm} base caught Documented (load_from_pointer f results type)
    unfolding load_from_pointer
    load_from_pointer-Keeps type = emit-Keeps _ (λ object. emit-Keeps _ (λ constant.
        option-Keeps constant (return_code-Keeps _ f.target 1) (λ offset. emit-Keeps _ (λ pointer.
          emit-Keeps _ (λ offset_type.
            ite-Keeps (offset_type == 0) (return_code-Keeps _ f.target 1)
              (part_of_place-Keeps pointer offset offset_type))))))

    load_from_concatenation-Keeps :
        (type : Tptr)
        → Keeps {llvm = llvm} base caught Documented (load_from_concatenation f results type)
    unfolding load_from_concatenation
    load_from_concatenation-Keeps type = emit-Keeps _ (λ constant.
        option-Keeps constant (return_code-Keeps _ f.target 1) (λ offset.
          emit-Keeps _ (λ offset_type. emit-Keeps _ (λ r.
            ite-Keeps (offset_type == 0) (return_code-Keeps _ f.target 1) (
              option-Keeps r.place
                (emit-Keeps _ (λ v. finish_special-Keeps f inside (some v) offset_type))
                (λ place.
                  emit-Keeps _ (λ m. part_of_place-Keeps m.allocation offset offset_type)))))))

    call_special-Keeps :
        (c : Emit llvm llvm.Value) (type : Tptr)
        → Keeps {llvm = llvm} base caught Documented (call_special f c type)
    unfolding call_special
    call_special-Keeps c type = emit-Keeps c (λ v. finish_special-Keeps f inside (some v) type)

    load_from_vector-Keeps :
        (type : Tptr) → Keeps {llvm = llvm} base caught Documented (load_from_vector f results type)
    unfolding load_from_vector
    load_from_vector-Keeps type = emit-Keeps _ (λ element.
        ite-Keeps (not (is_zeroable element)) (return_code-Keeps _ f.target 0)
          (call_special-Keeps _ element))

    load_from_function-Keeps :
        Keeps {llvm = llvm} base caught Documented (load_from_function f results)
    unfolding load_from_function
    load_from_function-Keeps = emit-Keeps _ (λ constant.
        option-Keeps constant (return_code-Keeps _ f.target 1) (λ offset.
          ite-Keeps (offset == 0) (call_special-Keeps _ Tag.ast_pointer) (
            ite-Keeps (offset == 1) (call_special-Keeps _ Tag.type_pointer)
              (return_code-Keeps _ f.target 1))))

    pub load_subobj_case-Keeps :
        Keeps {llvm = llvm} base caught Documented (load_subobj_case f results)
    unfolding load_subobj_case
    load_subobj_case-Keeps = emit-Keeps _ (λ r.
        ite-Keeps (r.type == 0) (return_code-Keeps _ f.target 0) (
          emit-Keeps _ (λ tag.
            ite-Keeps ((tag == Tag.pointer) || (tag == Tag.temp_pointer))
              (load_from_pointer-Keeps r.type)
              (ite-Keeps (tag == Tag.type_pointer) (call_special-Keeps _ Tag.type_pointer) (
                ite-Keeps (tag == Tag.ast_pointer) (call_special-Keeps _ Tag.ast_pointer) (
                  ite-Keeps (tag == Tag.vector) (load_from_vector-Keeps r.type) (
                    ite-Keeps (tag == Tag.function_pointer) load_from_function-Keeps (
                      ite-Keeps (tag == Tag.con_vec) (load_from_concatenation-Keeps r.type)
                        (return_code-Keeps type_mismatch f.target 0)))))))))

  living_reference-Keeps :
      (target : ℕ) (pointer : llvm.Value) (type : Tptr) (subtype : Option llvm.Value)
      → Keeps {llvm = llvm} base caught Any (living_reference target pointer type subtype)
  unfolding living_reference
  living_reference-Keeps target pointer type subtype =
      bind-Keeps (emission-Keeps (bind-Gives _ (λ place. place-Alive place type true subtype)))
        (λ info living. new_living_object-Keeps target info living)

  module _ (gen : Generator llvm) (sound : Sound gen) where
    with_reference-Keeps :
        (pointer : llvm.Value) (type : Tptr) (x : ℕ)
        → Keeps {llvm = llvm} base caught Documented (with_reference gen f pointer type x)
    unfolding with_reference
    with_reference-Keeps pointer type x = stack_size-Keeps (λ position bound.
        then-Keeps (living_reference-Keeps f.target pointer type none) (
          emit-Keeps _ (λ comparison.
            bind-Keeps
              (create_if_value-Keeps Documented comparison
                (emit-Keeps _ (λ ast.
                  bind-Keeps (sound.holds base caught ast 0)
                    (λ case_ir documented. pure-Keeps _ documented)))
                (pure-Keeps _ tt))
              (λ p documented.
                or_return-Keeps p.0 documented
                  (then-Keeps (clear_stack-Keeps position bound) (finish-Keeps f inside none))))))

    pub load_subobj_ref_case-Keeps :
        (results : List (ReturnInfo llvm.Value))
        → Keeps {llvm = llvm} base caught Documented (load_subobj_ref_case gen f results)
    unfolding load_subobj_ref_case
    load_subobj_ref_case-Keeps results = emit-Keeps _ (λ r. emit-Keeps _ (λ tag.
        ite-Keeps (tag == Tag.vector)
          (emit-Keeps _ (λ type. emit-Keeps _ (λ pointer. with_reference-Keeps pointer type 2)))
          (ite-Keeps (tag == Tag.ast_pointer)
            (emit-Keeps _ (λ pointer. with_reference-Keeps pointer Tag.ast_pointer 2))
            (return_code-Keeps type_mismatch f.target 0))))

    pub load_from_ast_case-Keeps :
        (loader : Callee) (type : Tptr) (results : List (ReturnInfo llvm.Value))
        → Keeps {llvm = llvm} base caught Documented (load_from_ast_case loader type gen f results)
    unfolding load_from_ast_case
    load_from_ast_case-Keeps loader type results =
        emit-Keeps _ (λ pointer. with_reference-Keeps pointer type 1)

    open_case-Keeps :
        (part : Part llvm.Value) (switch_on_type : llvm.Value) (failed_to_get : llvm.Block) (x : ℕ)
        → Keeps {llvm = llvm} base caught Any (open_case f part switch_on_type failed_to_get x)
    unfolding open_case
    open_case-Keeps part switch_on_type failed_to_get x =
        ite-Keeps (x == 0) (emission-Keeps (Gives-Any _))
          (emit_then _ (living_reference-Keeps f.target _ _ _))

    dyn_cases-Keeps :
        (part : Part llvm.Value) (switch_on_type : llvm.Value) (failed_to_get merge : llvm.Block)
        (position count x : ℕ) (rest : Out llvm)
        → length base ≤ position
        → Keeps base caught Documented rest
        → Keeps base caught Documented
            (dyn_cases gen f part switch_on_type failed_to_get merge position count x rest)
    unfolding dyn_cases
    dyn_cases-Keeps part switch_on_type failed_to_get merge position zero x rest bound h = h
    dyn_cases-Keeps part switch_on_type failed_to_get merge position (suc count) x rest bound h =
        then-Keeps (open_case-Keeps part switch_on_type failed_to_get x) (
          emit-Keeps _ (λ ast. bind-Keeps (sound.holds base caught ast 0) (λ case_ir documented.
            or_return-Keeps case_ir documented (
              then-Keeps (clear_stack-Keeps position bound) (
                emit_then _ (
                  dyn_cases-Keeps part switch_on_type failed_to_get merge position count (x + 1)
                    rest bound h))))))

    dyn_switch-Keeps :
        (part : Part llvm.Value)
        → Keeps {llvm = llvm} base caught Documented (dyn_switch gen f part)
    unfolding dyn_switch
    dyn_switch-Keeps part = stack_size-Keeps (λ position bound. emit-Keeps _ (λ failed_to_get.
        emit-Keeps _ (λ switch_on_type. emit-Keeps _ (λ merge.
          dyn_cases-Keeps part switch_on_type failed_to_get merge position (suc Tag.pointer) 0 _
            bound (emit_then _ (finish-Keeps f inside _))))))

    hidden_subobj-Keeps :
        (r : ReturnInfo llvm.Value) (offset : llvm.Value)
        → Keeps {llvm = llvm} base caught Documented (hidden_subobj gen f r offset)
    unfolding hidden_subobj
    hidden_subobj-Keeps r offset =
        option-Keeps r.hidden_subtype (return_code-Keeps _ f.target 0) (λ subtype.
          emit-Keeps _ (λ overall_object.
            ite-Keeps (r.type == Tag.pointer_to_something)
              (emit-Keeps _ (λ part. dyn_switch-Keeps part))
              (ite-Keeps (r.type == Tag.vector_of_something)
                (emit-Keeps _ (λ part. dyn_switch-Keeps part))
                (return_code-Keeps type_mismatch f.target 0))))

    part_of_dynamic-Keeps :
        (object offset : llvm.Value)
        → Keeps {llvm = llvm} base caught Any (part_of_dynamic object offset)
    unfolding part_of_dynamic
    part_of_dynamic-Keeps object offset = emit-Keeps _ (λ overall. emit-Keeps _ (λ comparison.
        bind-Keeps
          (create_if_value-Keeps Any comparison (emit-Keeps _ (λ v. pure-Keeps _ tt))
            (pure-Keeps _ tt))
          (λ p _. emission-Keeps (Gives-Any _))))

    pub dyn_subobj_case-Keeps :
        (results : List (ReturnInfo llvm.Value))
        → Keeps {llvm = llvm} base caught Documented (dyn_subobj_case gen f results)
    unfolding dyn_subobj_case
    dyn_subobj_case-Keeps results = emit-Keeps _ (λ offset. emit-Keeps _ (λ r.
        emit-Keeps _ (λ is_dynamic.
          ite-Keeps is_dynamic
            (emit-Keeps _ (λ object.
              bind-Keeps (part_of_dynamic-Keeps object offset) (λ part _. dyn_switch-Keeps part)))
            (hidden_subobj-Keeps r offset))))
