-- ===== src/Compiler/Finish.antt =====
-- finish_internal and the macros over it, the loop of generate_IR over the fields (src/cs11.cpp), and
-- create_if_value (src/cs11.h).
use super_searcher.Base.{
  ℕ, zero, suc, ◌+◌, Bool, true, false, not, Option, none, some, List, [], ◌∷◌, ◌++◌, ◌==◌,
  if◌then◌else◌, get_elem?,
}
use super_searcher.Types.{Tptr, get_size, ver, field, is_full}
use super_searcher.Types.Tag
use super_searcher.Ast.{field_at}
use super_searcher.Ast.Descriptor.{
  AstInfo, SpecialType, special_return, compile_without_type_check, parameter_type,
}
use super_searcher.Creator.{new_unique_type}
use super_searcher.Base.Command.{pure, fail, assert, gets, ◌>>=◌, ◌>>◌}
use super_searcher.Compiler.Llvm.{Llvm, Callee, create_int_to_ptr, create_br, create_cond_br}
use super_searcher.Compiler.Emission.{
  Emit, value, read, on_machine, create, call, new_block, insert_block, set_insert_point,
  create_actual_alloca, push_allocation,
}
use super_searcher.Compiler.Aggregates.{llvm_create_phi, write_into_place}
use super_searcher.Compiler.State.{
  type_mismatch, ReturnInfo, null_object, value_info, Gen, Context, on_emission, stack_size,
  new_living_object, clear_stack, return_code, or_return, place_info, type_fits, uniquefied,
}

abbrev pub Out : Llvm → Type 0
Out llvm = Gen llvm (ReturnInfo llvm.Value)

-- generate_IR, for the calls of itself.
abbrev pub Generator : Llvm → Type 0
Generator llvm = ℕ → ℕ → Out llvm

-- The parameters of a call of generate_IR and what it keeps: the entry of the descriptor for the
-- target's tag and final_stack_position.
pub record Frame : Type 0 where
  pub ctx : Context
  pub info : AstInfo
  pub target : ℕ
  pub stack_degree : ℕ
  pub final_stack_position : ℕ

abbrev is_special_return : SpecialType → Bool
is_special_return special_return = true
is_special_return _ = false

abbrev skips_type_check : SpecialType → Bool
skips_type_check compile_without_type_check = true
skips_type_check _ = false

abbrev is_some : {A : Type 0} → Option A → Bool
is_some none = false
is_some (some x) = true

-- A test of a pointer against nullptr.
unfoldable pub by_option :
    {llvm : Llvm} → {A B : Type 0} → Option A → Gen llvm B → (A → Gen llvm B) → Gen llvm B
by_option none absent present = absent
by_option (some x) absent present = present x

module _ {llvm : Llvm} where
  -- target->fields[x]
  unfoldable pub load_field : ℕ → ℕ → Emit llvm ℕ
  load_field target x = gets (λ s. s.machine.mem (field_at target x))

  unfoldable pub type_ver : Tptr → Emit llvm ℕ
  type_ver t = gets (λ s. ver s.machine.mem t)

  unfoldable pub type_field : Tptr → Emit llvm Tptr
  type_field t = read (λ m. field m t 0)

  unfoldable pub type_size : Tptr → Emit llvm ℕ
  type_size t = read (λ m. get_size m t)

  unfoldable pub type_is_full : Context → Tptr → Emit llvm Bool
  type_is_full ctx t = read (λ m. is_full ctx.type_fuel m t)

  unfoldable pub unique_type : Context → ℕ → Tptr → Emit llvm Tptr
  unique_type ctx tag t = on_machine (new_unique_type ctx.type_fuel tag (t ∷ []))

  -- CreateIntToPtr(v, llvm_i64()->getPointerTo())
  unfoldable pub to_pointer : llvm.Value → Emit llvm llvm.Value
  to_pointer v = create (create_int_to_ptr v)

  -- default_allocation, or a new one with the value in it.
  unfoldable pub stored : ℕ → Option llvm.Value → Option ℕ → Emit llvm ℕ
  stored size return_value (some place) = pure place
  stored size return_value none = do
    allocation ← create_actual_alloca size
    place ← push_allocation allocation
    write_into_place (return_value ∷ []) allocation
    pure place

  -- A result that lies in memory becomes visible to other ASTs; Return_Info is made twice.
  unfoldable pub finish_place : Frame → ℕ → Tptr → Bool → Option llvm.Value → Out llvm
  finish_place f place type existing subtype = do
    living ← on_emission (place_info place type existing subtype)
    new_living_object f.target living
    on_emission (place_info place type existing subtype)

  unfoldable pub finish_value : Frame → Option llvm.Value → Tptr → Option llvm.Value → Out llvm
  finish_value f return_value type subtype = do
    new_living_object f.target (value_info return_value type false subtype)
    pure (value_info return_value type false subtype)

  -- finish_internal, with default_allocation and default_hidden_subtype.
  unfoldable pub finish_internal :
      Frame → Option ℕ → Option llvm.Value → Option llvm.Value → Tptr → Out llvm
  unfolding stored finish_place finish_value
  finish_internal f default_allocation default_hidden_subtype return_value type = do
    if f.stack_degree == 2 then clear_stack f.final_stack_position else pure tt
    size_of_return ← on_emission (type_size type)
    if size_of_return == 0
        then pure null_object
        else if f.stack_degree == 2
        then (do
          place ← on_emission (stored size_of_return return_value default_allocation)
          finish_place f place type (is_some default_allocation) default_hidden_subtype)
        else (do
          assert (f.stack_degree == 0)
          by_option default_allocation (finish_value f return_value type default_hidden_subtype)
              (λ place. finish_place f place type true default_hidden_subtype))

  -- finish_special
  unfoldable pub finish_special : Frame → Option llvm.Value → Tptr → Out llvm
  unfolding finish_internal
  finish_special f x type = finish_internal f none none x type

  -- finish
  unfoldable pub finish : Frame → Option llvm.Value → Out llvm
  unfolding finish_special
  finish f x = do
    assert (not (is_special_return f.info.return_object.state))
    type ← on_emission (uniquefied f.ctx f.info.return_object.type)
    finish_special f x type

  -- The check of a field's type; true for the fields that are not checked.
  unfoldable pub field_fits : Frame → ℕ → Tptr → Emit llvm Bool
  field_fits f x type = if skips_type_check (parameter_type f.info x).state then pure true else (do
    desired ← uniquefied f.ctx (parameter_type f.info x).type
    type_fits f.ctx type desired)

  -- A null field has the null object.
  unfoldable pub compile_field : Generator llvm → ℕ → Out llvm
  compile_field gen field = if field == 0 then pure null_object else gen field 0

  -- The loop over the fields from field `x` on, then the switch.
  unfoldable pub compile_fields :
      Generator llvm
      → Frame
      → ℕ
      → ℕ
      → List (ReturnInfo llvm.Value)
      → (List (ReturnInfo llvm.Value) → Out llvm)
      → Out llvm
  unfolding field_fits compile_field
  compile_fields gen f zero x field_results switch = switch field_results
  compile_fields gen f (suc left) x field_results switch = do
    field ← on_emission (load_field f.target x)
    result ← compile_field gen field
    or_return result (do
      desired ← on_emission (uniquefied f.ctx (parameter_type f.info x).type)
      if desired == Tag.does_not_return then finish_special f none Tag.does_not_return else (do
        perfect ← on_emission (field_fits f x result.type)
        if perfect
            then compile_fields gen f left (x + 1) (field_results ++ (result ∷ [])) switch
            else return_code type_mismatch f.target x))

  -- field_results[x]
  unfoldable pub field_result : List (ReturnInfo llvm.Value) → ℕ → Emit llvm (ReturnInfo llvm.Value)
  field_result results x = pick (get_elem? results x)
    where
      pick : Option (ReturnInfo llvm.Value) → Emit llvm (ReturnInfo llvm.Value)
      pick none = fail
      pick (some r) = pure r

  -- field_results[x].IR, where it is used.
  unfoldable pub operand : List (ReturnInfo llvm.Value) → ℕ → Emit llvm llvm.Value
  unfolding field_result value
  operand results x = do r ← field_result results x; value r.ir

  -- dyn_cast<ConstantInt>(field_results[x].IR)
  unfoldable pub constant_operand : List (ReturnInfo llvm.Value) → ℕ → Emit llvm (Option ℕ)
  unfolding operand
  constant_operand results x = do v ← operand results x; pure (llvm.constant_value v)

  -- A call on the values of the first field, and of the first two.
  unfoldable pub call_one : Callee → List (ReturnInfo llvm.Value) → Emit llvm llvm.Value
  unfolding operand call
  call_one callee results = do a ← operand results 0; call callee (a ∷ [])

  unfoldable pub call_two : Callee → List (ReturnInfo llvm.Value) → Emit llvm llvm.Value
  unfolding operand call
  call_two callee results = do
    a ← operand results 0
    b ← operand results 1
    call callee (a ∷ b ∷ [])

  -- The end of a branch: CreateBr(MergeBB), then the block that it ends in.
  unfoldable pub end_branch : llvm.Block → Emit llvm llvm.Block
  end_branch merge = do create (create_br merge); insert_block

  -- The blocks of a branch on `comparison`: the end, and the two cases.
  unfoldable pub open_branches : llvm.Value → Emit llvm (llvm.Block × llvm.Block × llvm.Block)
  open_branches comparison = do
    merge ← new_block
    first ← new_block
    second ← new_block
    create (create_cond_br comparison first second)
    pure (merge, first, second)

  -- create_if_value; the true case may hand over something besides its value.
  unfoldable pub create_if_value :
      {A : Type 0}
      → llvm.Value
      → Gen llvm (A × Option llvm.Value)
      → Gen llvm (Option llvm.Value)
      → Gen llvm (A × Option llvm.Value)
  unfolding end_branch open_branches
  create_if_value comparison true_case false_case = do
    if_stack_position ← stack_size
    (merge, first, second) ← on_emission (open_branches comparison)
    on_emission (set_insert_point first)
    (a, first_value) ← true_case
    first_end ← on_emission (end_branch merge)
    clear_stack if_stack_position
    on_emission (set_insert_point second)
    second_value ← false_case
    second_end ← on_emission (end_branch merge)
    clear_stack if_stack_position
    on_emission (set_insert_point merge)
    result ←
        on_emission (llvm_create_phi ((first_value, first_end) ∷ (second_value, second_end) ∷ []))
    pure (a, result)
