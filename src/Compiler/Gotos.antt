-- ===== src/Compiler/Gotos.antt =====
-- A jump forward in the code that generate_IR (src/cs11.cpp) compiles, and the type of its result.
use super_searcher.Base.{
  ℕ, zero, suc, ◌<◌, ◌≡◌, refl, ap, ◌∙◌, arith, true, false, Option, none, some, List, [], ◌∷◌,
  ◌==◌, length, inl, inr, Bool-cases,
}
use super_searcher.Base.Result.{ok}
use super_searcher.Types.{Mem, Tptr, get_size, ver, info}
use super_searcher.Types.Tag
use super_searcher.Types.Check.{
  rvo, new_reference_too_large, existing_reference_too_large, perfect_fit, type_check,
  type_check_step,
}
use super_searcher.Ast.{field_at}
use super_searcher.Ast.Tag as AstTag
use super_searcher.Ast.Descriptor.{
  AstInfo, of_type, ast_entry, ast_descriptor, ast_info, add_pointer_fields,
}
use super_searcher.Base.Command.{pure, assert, gets, modify, ◌>>=◌, ◌>>◌, on_part}
use super_searcher.Compiler.Llvm.{Llvm, create_br}
use super_searcher.Compiler.Emission.{Emission, read, lift, create, new_block, set_insert_point}
use super_searcher.Compiler.State.{
  clear_stack, ReturnInfo, null_object, LabelInfo, Compiler, Context, find, contains, emit_dtors,
  find_object, stack_size, type_fits, perfect_answer, on_emission,
}
use super_searcher.Compiler.Finish.{
  Frame, by_option, load_field, finish_internal, finish_special, type_size, compile_fields,
}
use super_searcher.Compiler.Control.{if_type, find_label, goto_forward, goto_case}
use super_searcher.Compiler.Generate.{
  frame, tag_switch, catch_loop, release_loop, generate_new, generate_once, generate_ir,
}
use super_searcher.Compiler.Scope.{
  last, WellFormed, with_objects, with_objects-WellFormed, clear_stack-last, length-keys,
}
use super_searcher.Compiler.Whole.{remove-again}

last-all : {A : Type 0} → (os : List A) → last (length os) os ≡ os
unfolding last
last-all [] = refl
last-all (x ∷ os) = ground arith

length-stack :
    {llvm : Llvm} → (s : Compiler llvm) → WellFormed s → length s.object_stack ≡ length s.objects
length-stack s h = ap length h.same ∙ length-keys s.objects

abbrev goto_info : AstInfo
goto_info = add_pointer_fields 1 (ast_info "goto" (of_type 0) [])

goto_entry : ast_entry AstTag.goto ≡ ok goto_info
unfolding ast_entry ast_descriptor add_pointer_fields ast_info
goto_entry = refl

null_type_check :
    (fuel : ℕ) (m : Mem) (p : Tptr)
    → 0 < fuel
    → 0 < p
    → (type_check fuel m rvo 0 p ≡ ok new_reference_too_large)
      × (type_check fuel m rvo p 0 ≡ ok existing_reference_too_large)
      × (type_check fuel m rvo Tag.does_not_return p ≡ ok perfect_fit)
unfolding type_check type_check_step
null_type_check zero m p enough some_type = absurd (omega arith)
null_type_check (suc fuel) m p enough some_type = (ground arith, ground arith, ground arith)

module _ {llvm : Llvm} where
  -- The code of the jump: a branch to the label's block, and a block that is not reached.
  abbrev pub after_jump : LabelInfo llvm.Block → Compiler llvm → Compiler llvm
  after_jump info s =
      let (junk, builder) =
        llvm.new_block (llvm.create (create_br info.block) s.emission.builder).1 in
      record s { emission = record s.emission { builder = llvm.set_insert_point junk builder } }

  no_size :
      (s : Compiler llvm) → on_emission (type_size {llvm = llvm} Tag.does_not_return) s ≡ ok (0, s)
  unfolding on_emission on_part type_size read lift pure get_size ver info
  no_size s = refl

  -- finish with the type "does not return", in a frame that has no new objects.
  finish_special-does_not_return :
      (f : Frame) (v : Option llvm.Value) (s : Compiler llvm)
      → WellFormed s
      → f.final_stack_position ≡ length s.object_stack
      → finish_special f v Tag.does_not_return s ≡ ok (null_object, s)
  unfolding finish_special finish_internal ◌>>=◌ ◌>>◌ pure
  finish_special-does_not_return f v s h position = elim (Bool-cases (f.stack_degree == 2)) [
    | inl block ↦ rw (block, cleared, no_size s) refl
    | inr value ↦ rw (value, no_size s) refl
  ]
    where
      cleared : clear_stack f.final_stack_position s ≡ ok (tt, s)
      cleared =
          clear_stack-last s f.final_stack_position h
          ∙ ap (λ os. ok (tt, with_objects s os))
              (ap (λ n. last n s.objects) (position ∙ length-stack s h) ∙ last-all s.objects)
          ∙ ap (λ t. ok (tt, t)) (with_objects-WellFormed s h)

  goto_forward-jumps :
      (f : Frame) (info : LabelInfo llvm.Block) (s : Compiler llvm)
      → WellFormed s
      → f.final_stack_position ≡ length s.object_stack
      → goto_forward f info s ≡ ok (null_object, after_jump info s)
  unfolding goto_forward emit_dtors on_emission on_part create new_block set_insert_point ◌>>=◌ ◌>>◌
      pure modify
  goto_forward-jumps f info s h position =
      finish_special-does_not_return f none (after_jump info s)
        (record { same = h.same; distinct = h.distinct }) position

  goto_case-jumps :
      (f : Frame) (label : LabelInfo llvm.Block) (s : Compiler llvm)
      → WellFormed s
      → f.final_stack_position ≡ length s.object_stack
      → find (s.emission.machine.mem (field_at f.target 0)) s.labels ≡ some label
      → label.is_forward ≡ true
      → goto_case f s ≡ ok (null_object, after_jump label s)
  unfolding goto_case find_label load_field by_option on_emission on_part ◌>>=◌ gets
  goto_case-jumps f label s h position found forward =
      rw (found, forward) (goto_forward-jumps f label s h position)

  generate_new-goto :
      (fuel : ℕ) (ctx : Context) (g stack_degree : ℕ) (label : LabelInfo llvm.Block)
      (s : Compiler llvm)
      → WellFormed s
      → s.emission.machine.mem g ≡ AstTag.goto
      → find (s.emission.machine.mem (field_at g 0)) s.labels ≡ some label
      → label.is_forward ≡ true
      → generate_new (generate_ir fuel ctx) ctx g stack_degree s
        ≡ ok (null_object, after_jump label s)
  unfolding generate_new compile_fields tag_switch on_emission on_part stack_size lift ◌>>=◌ gets
      pure add_pointer_fields goto_case ast_info load_field
  generate_new-goto fuel ctx g stack_degree label s h tag found forward =
      rw (tag, goto_entry)
        (goto_case-jumps (frame ctx goto_info g stack_degree (length s.object_stack)) label s h refl
          found forward)

  -- The goto of an open label, behind the check of loops: a label's goto that stands before the
  -- label's end.
  generate_ir-goto :
      (fuel : ℕ) (ctx : Context) (g stack_degree : ℕ) (label : LabelInfo llvm.Block)
      (s : Compiler llvm)
      → (stack_degree == 1) ≡ false
      → 0 < g
      → WellFormed s
      → find g s.objects ≡ none
      → contains g s.loop_catcher ≡ false
      → s.emission.machine.mem g ≡ AstTag.goto
      → find (s.emission.machine.mem (field_at g 0)) s.labels ≡ some label
      → label.is_forward ≡ true
      → generate_ir (suc fuel) ctx g stack_degree s ≡ ok (null_object, after_jump label s)
  unfolding generate_ir generate_once find_object by_option catch_loop release_loop gets modify pure
      assert ◌>>=◌ ◌>>◌
  generate_ir-goto fuel ctx g stack_degree label s degree some_ast h new no_loop tag found forward =
      let caught : Compiler llvm = record s { loop_catcher = g ∷ s.loop_catcher } in
      let nonzero : (g == 0) ≡ false = ground arith in
      rw
        (
          degree,
          nonzero,
          new,
          no_loop,
          generate_new-goto fuel ctx g stack_degree label caught
              (record { same = h.same; distinct = h.distinct }) tag found forward,
          remove-again g s.loop_catcher no_loop,
        )
        refl

  null_fits :
      (ctx : Context) (p : Tptr) (e : Emission llvm)
      → 0 < ctx.type_fuel
      → 0 < p
      → (type_fits ctx 0 p e ≡ ok (false, e))
        × (type_fits ctx p 0 e ≡ ok (false, e))
        × (type_fits ctx Tag.does_not_return p e ≡ ok (true, e))
  unfolding type_fits perfect_answer read lift pure
  null_fits ctx p e enough some_type =
      let (no_existing, no_new, never) =
        null_type_check ctx.type_fuel e.machine.mem p enough some_type in
      (rw no_existing refl, rw no_new refl, rw never refl)

  -- For a goto that is met for the first time, in no loop of ASTs, whose label is open (the goto
  -- stands inside of the label), a call of generate_IR from a well-formed state emits the branch to
  -- the label's block, moves to a new block, and changes nothing else; loop_catcher is as before. Its
  -- result is the null object. So where a type that is not null is wanted, the result does not fit,
  -- though the type "does not return", with which the case of goto ends, fits every such type; and
  -- an `if` with this result for either case, and a type that is not null for the other, has the
  -- null type.
  pub generate_ir-forward_goto :
      (fuel : ℕ) (ctx : Context) (g stack_degree : ℕ) (label : LabelInfo llvm.Block)
      (s : Compiler llvm)
      → 0 < ctx.type_fuel
      → (stack_degree == 1) ≡ false
      → 0 < g
      → WellFormed s
      → find g s.objects ≡ none
      → contains g s.loop_catcher ≡ false
      → s.emission.machine.mem g ≡ AstTag.goto
      → find (s.emission.machine.mem (field_at g 0)) s.labels ≡ some label
      → label.is_forward ≡ true
      → (result : ReturnInfo llvm.Value) × (generate_ir (suc fuel) ctx g stack_degree s
          ≡ ok (result, after_jump label s))
        × (result ≡ null_object)
        × ((p : Tptr) (e : Emission llvm)
            → 0 < p
            → (type_fits ctx result.type p e ≡ ok (false, e))
              × (type_fits ctx Tag.does_not_return p e ≡ ok (true, e))
              × (if_type ctx result.type p e ≡ ok (0, e))
              × (if_type ctx p result.type e ≡ ok (0, e)))
  unfolding if_type ◌>>=◌ pure
  generate_ir-forward_goto fuel ctx g stack_degree label s enough degree some_ast h new no_loop tag
        found forward =
      (
        null_object,
        generate_ir-goto fuel ctx g stack_degree label s degree some_ast h new no_loop tag found
            forward,
        refl,
        λ p e some_type.
            let (existing, wanted, never) = null_fits ctx p e enough some_type in
            (existing, never, rw (wanted, existing) refl, rw (existing, wanted) refl),
      )
