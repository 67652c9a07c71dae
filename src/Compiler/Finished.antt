-- ===== src/Compiler/Finished.antt =====
-- finish, the loop over the fields and create_if_value (src/cs11.cpp, src/cs11.h) in a scope.
use super_searcher.Base.{
  ℕ, zero, suc, ◌+◌, ◌≤◌, refl, Bool, true, Option, none, List, [], ◌∷◌, ◌++◌, ◌==◌, length,
}
use super_searcher.Types.{Tptr}
use super_searcher.Types.Tag
use super_searcher.Compiler.Llvm.{Llvm}
use super_searcher.Compiler.State.{ReturnInfo, Gen, place_info}
use super_searcher.Compiler.Finish.{
  Out, Generator, Frame, finish_place, finish_value, finish_internal, finish_special, finish,
  compile_field, compile_fields, create_if_value,
}
use super_searcher.Compiler.Keeps.{
  Alive, Documented, Any, Keeps, Gives, bind-Keeps, then-Keeps, bind-Gives, pure-Gives, pure-Keeps,
  ite-Keeps, option-Keeps, emission-Keeps, emit-Keeps, emit_then, assert_then, stack_size-Keeps,
}
use super_searcher.Compiler.Members.{
  new_living_object-Keeps, clear_stack-Keeps, return_code-Keeps, or_return-Keeps, Sound,
  Alive-Documented, null-Documented,
}

module _ {llvm : Llvm} where
  pub place-Alive :
      (place : ℕ) (type : Tptr) (hidden : Bool) (subtype : Option llvm.Value)
      → Gives {llvm = llvm} Alive (place_info place type hidden subtype)
  unfolding place_info
  place-Alive place type hidden subtype = bind-Gives _ (λ ir. pure-Gives _ (refl, λ e. refl))

  place-Documented :
      (place : ℕ) (type : Tptr) (hidden : Bool) (subtype : Option llvm.Value)
      → Gives {llvm = llvm} Documented (place_info place type hidden subtype)
  unfolding place_info
  place-Documented place type hidden subtype =
      bind-Gives _ (λ ir. pure-Gives _ (Alive-Documented _ (refl, λ e. refl)))

-- A frame whose scope is that of the call it belongs to.
module _ {llvm : Llvm} {base caught : List ℕ} (f : Frame) where
  finish_place-Keeps :
      (place : ℕ) (type : Tptr) (existing : Bool) (subtype : Option llvm.Value)
      → Keeps {llvm = llvm} base caught Documented (finish_place f place type existing subtype)
  unfolding finish_place
  finish_place-Keeps place type existing subtype =
      bind-Keeps (emission-Keeps (place-Alive place type existing subtype)) (λ living h.
        then-Keeps (new_living_object-Keeps f.target living h)
          (emission-Keeps (place-Documented place type existing subtype)))

  finish_value-Keeps :
      (v : Option llvm.Value) (type : Tptr) (subtype : Option llvm.Value)
      → Keeps {llvm = llvm} base caught Documented (finish_value f v type subtype)
  unfolding finish_value
  finish_value-Keeps v type subtype =
      then-Keeps (new_living_object-Keeps f.target _ (refl, λ e. e))
        (pure-Keeps _ (Alive-Documented _ (refl, λ e. e)))

  module _ (inside : length base ≤ f.final_stack_position) where
    pub finish_internal-Keeps :
        (allocation : Option ℕ) (subtype v : Option llvm.Value) (type : Tptr)
        → Keeps {llvm = llvm} base caught Documented (finish_internal f allocation subtype v type)
    unfolding finish_internal
    finish_internal-Keeps allocation subtype v type =
        then-Keeps
          (ite-Keeps (f.stack_degree == 2) (clear_stack-Keeps f.final_stack_position inside)
            (pure-Keeps tt tt))
          (emit-Keeps _ (λ size. ite-Keeps (size == 0) (pure-Keeps _ null-Documented) (
            ite-Keeps (f.stack_degree == 2)
              (emit-Keeps _ (λ place. finish_place-Keeps place type _ subtype))
              (assert_then (f.stack_degree == 0) (
                option-Keeps allocation (finish_value-Keeps v type subtype)
                  (λ place. finish_place-Keeps place type true subtype))))))

    pub finish_special-Keeps :
        (v : Option llvm.Value) (type : Tptr)
        → Keeps {llvm = llvm} base caught Documented (finish_special f v type)
    unfolding finish_special
    finish_special-Keeps v type = finish_internal-Keeps none none v type

    pub finish-Keeps :
        (v : Option llvm.Value) → Keeps {llvm = llvm} base caught Documented (finish f v)
    unfolding finish
    finish-Keeps v = assert_then _ (emit-Keeps _ (λ type. finish_special-Keeps v type))

    compile_field-Keeps :
        (gen : Generator llvm) (field : ℕ)
        → Sound gen
        → Keeps base caught Documented (compile_field gen field)
    unfolding compile_field
    compile_field-Keeps gen field sound =
        ite-Keeps (field == 0) (pure-Keeps _ null-Documented) (sound.holds base caught field 0)

    pub compile_fields-Keeps :
        (gen : Generator llvm) (left x : ℕ) (results : List (ReturnInfo llvm.Value))
        (switch : List (ReturnInfo llvm.Value) → Out llvm)
        → Sound gen
        → ((results : List (ReturnInfo llvm.Value)) → Keeps base caught Documented (switch results))
        → Keeps base caught Documented (compile_fields gen f left x results switch)
    unfolding compile_fields
    compile_fields-Keeps gen zero x results switch sound h = h results
    compile_fields-Keeps gen (suc left) x results switch sound h = emit-Keeps _ (λ field.
        bind-Keeps (compile_field-Keeps gen field sound) (λ result documented.
          or_return-Keeps result documented (
            emit-Keeps _ (λ desired.
              ite-Keeps (desired == Tag.does_not_return)
                (finish_special-Keeps none Tag.does_not_return)
                (emit-Keeps _ (λ perfect.
                  ite-Keeps perfect
                    (compile_fields-Keeps gen left (x + 1) (results ++ (result ∷ [])) switch sound
                      h)
                    (return_code-Keeps _ f.target x)))))))

-- P holds of the first component.
abbrev pub OfFirst : {A B : Type 0} → (A → Type 0) → A × B → Type 0
OfFirst P p = P p.0

module _ {llvm : Llvm} {base caught : List ℕ} where
  pub create_if_value-Keeps :
      {A : Type 0} (P : A → Type 0) (comparison : llvm.Value)
      {true_case : Gen llvm (A × Option llvm.Value)} {false_case : Gen llvm (Option llvm.Value)}
      → Keeps base caught (OfFirst P) true_case
      → Keeps base caught Any false_case
      → Keeps base caught (OfFirst P) (create_if_value comparison true_case false_case)
  unfolding create_if_value
  create_if_value-Keeps P comparison {true_case} {false_case} h h' =
      stack_size-Keeps (λ position bound. emit-Keeps _ (λ (merge, first, second). emit_then _ (
        bind-Keeps h (λ p holds. emit-Keeps _ (λ first_end.
          then-Keeps (clear_stack-Keeps position bound) (
            emit_then _ (
              bind-Keeps h' (λ w _. emit-Keeps _ (λ second_end.
                then-Keeps (clear_stack-Keeps position bound) (
                  emit_then _ (
                    emit-Keeps _
                      (λ result. pure-Keeps {P = OfFirst P} (p.0, result) holds))))))))))))
