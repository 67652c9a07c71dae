-- ===== src/Compiler/Stores.antt =====
-- The cases of generate_IR (src/cs11.cpp) that make pointers and objects and write into them.
use super_searcher.Base.{
  ℕ, zero, suc, ◌+◌, ◌%◌, ◌^◌, Bool, true, false, not, ◌&&◌, ◌||◌, Option, none, some, List, [],
  ◌∷◌, ◌==◌, ltb, if◌then◌else◌,
}
use super_searcher.Types.{Tptr}
use super_searcher.Types.Tag
use super_searcher.Creator.{concatenate_types}
use super_searcher.Base.Command.{pure, gets, ◌>>=◌, ◌>>◌}
use super_searcher.Compiler.Llvm.{
  Llvm, integer_type, Callee, icmp_eq, create_compare, create_ptr_to_int, create_store, create_gep,
}
use super_searcher.Compiler.Emission.{
  Emit, value, lift, on_machine, create, call, allocation_at, turn_full, llvm_array,
}
use super_searcher.Compiler.Aggregates.{write_into_place, write_into_value}
use super_searcher.Compiler.State.{
  type_mismatch, pointer_without_target, pointer_to_temporary, missing_reference, requires_constant,
  vector_cant_take_large_objects, lost_hidden_subtype, nonfull_object, ReturnInfo, Context,
  on_emission, find_object, return_code, type_fits,
}
use super_searcher.Compiler.Finish.{
  Out, Frame, by_option, load_field, type_ver, type_field, type_size, type_is_full, unique_type,
  to_pointer, finish_special, finish, field_result, constant_operand, call_one, create_if_value,
}

-- try_store: the field of the error where the object does not fit the place, by the tag of the
-- place's type and by the type and the tag of the object's.
unfoldable pub try_store_mismatch : (place_tag : ℕ) → (type : Tptr) → (tag : ℕ) → Option ℕ
try_store_mismatch place_tag type tag =
    if place_tag == Tag.pointer
    then (if type == Tag.pointer_to_something then none else some 1)
    else if place_tag == Tag.vector
    then (if type == Tag.vector_of_something then none else some 1)
    else if place_tag == Tag.vector_of_something
    then (if (type == Tag.vector_of_something) || (tag == Tag.vector) then none else some 1)
    else if place_tag == Tag.pointer_to_something
    then (if (type == Tag.pointer_to_something) || (tag == Tag.pointer) then none else some 1)
    else some 0

-- The tags of types whose subtype is known only in hidden_subtype.
abbrev pub is_dynamic_tag : ℕ → Bool
is_dynamic_tag tag = (tag == Tag.pointer_to_something) || (tag == Tag.vector_of_something)

abbrev pub is_none : {A : Type 0} → Option A → Bool
is_none none = true
is_none (some x) = false

module _ {llvm : Llvm} where
  unfoldable pub nvec_of : Frame → Tptr → Out llvm
  nvec_of f type = if type == 0 then return_code type_mismatch f.target 0 else do
    tag ← on_emission (type_ver type)
    if tag == 0 then return_code vector_cant_take_large_objects f.target 0 else (do
      full ← on_emission (type_is_full f.ctx type)
      if not full
          then return_code nonfull_object f.target 0
          else if ltb Tag.pointer tag
          then return_code type_mismatch f.target 0
          else (do
            size ← on_emission (type_size type)
            if not (size == 1) then return_code type_mismatch f.target 0 else (do
              v ← on_emission (call Callee.new_vector [])
              vector_type ← on_emission (unique_type f.ctx Tag.vector type)
              finish_special f (some v) vector_type)))

  unfoldable pub nvec_case : Frame → List (ReturnInfo llvm.Value) → Out llvm
  unfolding nvec_of
  nvec_case f results = do
    constant ← on_emission (constant_operand results 0)
    by_option constant (return_code requires_constant f.target 1) (nvec_of f)

  -- The type of a pointer to an object, which is lifted to the heap for a full pointer.
  unfoldable pub pointer_type_to : Context → ReturnInfo llvm.Value → ℕ → Emit llvm Tptr
  pointer_type_to ctx found place = do
    full ← if found.hidden_reference then pure false else type_is_full ctx found.type
    if full
        then (do
          new_pointer_type ← unique_type ctx Tag.pointer found.type
          turn_full place
          pure new_pointer_type)
        else unique_type ctx Tag.temp_pointer found.type

  unfoldable pub pointer_case : Frame → Out llvm
  unfolding pointer_type_to
  pointer_case f = do
    ast ← on_emission (load_field f.target 0)
    found_ast ← find_object ast
    by_option found_ast (return_code pointer_without_target f.target 0) (λ found.
        by_option found.place (return_code pointer_to_temporary f.target 0) (λ place. do
          new_pointer_type ← on_emission (pointer_type_to f.ctx found place)
          final_result ←
              on_emission (do m ← allocation_at place; create (create_ptr_to_int m.allocation))
          finish_special f (some final_result) new_pointer_type))

  unfoldable pub tmp_pointer_case : Frame → List (ReturnInfo llvm.Value) → Out llvm
  tmp_pointer_case f results = do
    r ← on_emission (field_result results 0)
    tag ← on_emission (type_ver r.type)
    if not (tag == Tag.pointer) then return_code type_mismatch f.target 0 else (do
      type ←
          on_emission (do pointee ← type_field r.type; unique_type f.ctx Tag.temp_pointer pointee)
      finish_special f r.ir type)

  unfoldable pub concatenate_case : Frame → List (ReturnInfo llvm.Value) → Out llvm
  concatenate_case f results = do
    first ← on_emission (field_result results 0)
    second ← on_emission (field_result results 1)
    first_size ← on_emission (type_size first.type)
    second_size ← on_emission (type_size second.type)
    let total_size = (first_size + second_size) % 2 ^ 64
    if total_size == 0 then finish_special f none 0 else (do
      undef_type ←
          on_emission (if total_size == 1 then pure integer_type else lift (llvm_array total_size))
      final_value ←
          on_emission (write_into_value (first.ir ∷ second.ir ∷ []) (llvm.undef undef_type))
      final_type ←
          on_emission
            (on_machine (concatenate_types f.ctx.type_fuel (first.type ∷ second.type ∷ [])))
      finish_special f (some final_value) final_type)

  unfoldable pub store_into_pointer : Frame → (reference object : ReturnInfo llvm.Value) → Out llvm
  store_into_pointer f reference object = do
    tag ← on_emission (type_ver reference.type)
    if (tag == Tag.temp_pointer) || (tag == Tag.pointer)
        then (do
          perfect ←
              on_emission
                (do pointee ← type_field reference.type; type_fits f.ctx object.type pointee)
          if perfect
              then (do
                on_emission (do
                  v ← value reference.ir
                  pointer_cast ← to_pointer v
                  write_into_place (object.ir ∷ []) pointer_cast)
                finish f none)
              else return_code type_mismatch f.target 1)
        else return_code type_mismatch f.target 1

  unfoldable pub store_case : Frame → List (ReturnInfo llvm.Value) → Out llvm
  unfolding store_into_pointer
  store_case f results = do
    reference ← on_emission (field_result results 0)
    object ← on_emission (field_result results 1)
    if reference.type == 0 then return_code type_mismatch f.target 0 else (do
      perfect ← on_emission (type_fits f.ctx object.type reference.type)
      if perfect
          then by_option reference.place (return_code missing_reference f.target 0) (λ place. do
            on_emission (do m ← allocation_at place; write_into_place (object.ir ∷ []) m.allocation)
            finish f none)
          else store_into_pointer f reference object)

  -- The type that is compared at run time, for a result whose type has one.
  unfoldable pub runtime_type : ReturnInfo llvm.Value → ℕ → Emit llvm llvm.Value
  runtime_type r tag =
      if (tag == Tag.pointer) || (tag == Tag.vector)
      then (do t ← type_field r.type; pure (llvm.integer t))
      else value r.hidden_subtype

  unfoldable pub store_if_same : Frame → (reference object : ReturnInfo llvm.Value) → ℕ → Out llvm
  unfolding runtime_type
  store_if_same f reference object place = do
    comparison ← on_emission (do
      first_tag ← type_ver reference.type
      second_tag ← type_ver object.type
      first ← runtime_type reference first_tag
      second ← runtime_type object second_tag
      create (create_compare icmp_eq first second))
    (done, v) ←
        create_if_value comparison
          (on_emission (do
            m ← allocation_at place
            v ← value object.ir
            create (create_store v m.allocation)
            pure (tt, some (llvm.integer 1))))
          (pure (some (llvm.integer 0)))
    finish f v

  unfoldable pub try_store_case : Frame → List (ReturnInfo llvm.Value) → Out llvm
  unfolding store_if_same
  try_store_case f results = do
    reference ← on_emission (field_result results 0)
    object ← on_emission (field_result results 1)
    if reference.type == 0
        then return_code type_mismatch f.target 0
        else by_option reference.place (return_code missing_reference f.target 0) (λ place. do
          tag ← on_emission (type_ver reference.type)
          object_tag ← on_emission (type_ver object.type)
          if is_dynamic_tag tag && is_none reference.hidden_subtype
              then return_code lost_hidden_subtype f.target 0
              else if is_dynamic_tag object_tag && is_none object.hidden_subtype
              then return_code lost_hidden_subtype f.target 1
              else by_option (try_store_mismatch tag object.type object_tag)
                  (store_if_same f reference object place)
                  (λ field. return_code type_mismatch f.target field))

  unfoldable pub vecpb_case : Frame → List (ReturnInfo llvm.Value) → Out llvm
  vecpb_case f results = do
    vector ← on_emission (field_result results 0)
    object ← on_emission (field_result results 1)
    by_option vector.place (return_code missing_reference f.target 0) (λ place. do
      tag ← on_emission (type_ver vector.type)
      if not (tag == Tag.vector) then return_code type_mismatch f.target 0 else (do
        perfect ←
            on_emission (do element ← type_field vector.type; type_fits f.ctx object.type element)
        if not perfect then return_code type_mismatch f.target 1 else (do
          on_emission (do
            m ← allocation_at place
            v ← value object.ir
            call Callee.pushback (m.allocation ∷ v ∷ []))
          finish f none)))

  unfoldable pub vecsz_case : Frame → List (ReturnInfo llvm.Value) → Out llvm
  vecsz_case f results = do
    vector ← on_emission (field_result results 0)
    tag ← on_emission (type_ver vector.type)
    if (tag == Tag.vector) || (tag == Tag.vector_of_something)
        then (do v ← on_emission (call_one Callee.vector_size results); finish f (some v))
        else return_code type_mismatch f.target 0

  unfoldable pub dynamify_case : Frame → List (ReturnInfo llvm.Value) → Out llvm
  dynamify_case f results = do
    object ← on_emission (field_result results 0)
    if object.type == 0 then finish f (some (llvm.integer 0)) else (do
      full ← on_emission (type_is_full f.ctx object.type)
      if not full then return_code nonfull_object f.target 0 else (do
        dynamic_address ← on_emission (do
          dynamic_object ← call Callee.new_dynamic_obj (llvm.integer object.type ∷ [])
          actual_object ← create (create_gep dynamic_object (llvm.integer 1))
          write_into_place (object.ir ∷ []) actual_object
          create (create_ptr_to_int dynamic_object))
        finish f (some dynamic_address)))

  -- The bytes behind the type, as constants.
  unfoldable pub imv_words : ℕ → ℕ → Emit llvm (List ℕ)
  imv_words zero address = pure []
  imv_words (suc count) address = do
    w ← gets (λ s. s.machine.mem address)
    rest ← imv_words count (address + 8)
    pure (w ∷ rest)

  unfoldable pub constant_of : List ℕ → Emit llvm llvm.Value
  constant_of (w ∷ []) = pure (llvm.integer w)
  constant_of words = pure (llvm.constant_array words)

  unfoldable pub imv_case : Frame → Out llvm
  unfolding imv_words constant_of
  imv_case f = do
    dynamic_object ← on_emission (load_field f.target 0)
    if dynamic_object == 0 then finish_special f none 0 else (do
      type_of_object ← on_emission (gets (λ s. s.machine.mem dynamic_object))
      size_of_object ← on_emission (type_size type_of_object)
      if size_of_object == 0 then finish_special f none 0 else (do
        object ←
            on_emission
              (do words ← imv_words size_of_object (dynamic_object + 8); constant_of words)
        finish_special f (some object) type_of_object))
