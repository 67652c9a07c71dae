-- ===== src/Compiler/Aggregates.antt =====
-- The helpers of src/helperfunctions.h that take values apart and put them together.
use super_searcher.Base.{
  ℕ, zero, suc, ◌+◌, ◌-◌, ◌^◌, Bool, true, false, Option, none, some, List, [], ◌∷◌, ◌==◌, ltb, leb,
  if◌then◌else◌, length,
}
use super_searcher.Base.Command.{pure, assert, ◌>>=◌, ◌>>◌}
use super_searcher.Compiler.Llvm.{
  Llvm, LlvmType, integer_type, array_type, create_load, create_store, create_const_gep,
  create_extract_value, create_insert_value, create_phi, add_incoming,
}
use super_searcher.Compiler.Emission.{Emit, llvm_array, size_of_type, lift, create, size_of_value}

abbrev is_array : LlvmType → Bool
is_array (array_type n) = true
is_array _ = false

abbrev is_integer : LlvmType → Bool
is_integer integer_type = true
is_integer _ = false

module _ {V B : Type 0} where
  -- The last pair, the front being (v, _).
  abbrev last_value : V → List (V × B) → V
  last_value v [] = v
  last_value v ((w, b) ∷ rest) = last_value w rest

module _ {llvm : Llvm} where
  -- The loop that takes a struct apart and makes an array of it, from element `a` on.
  unfoldable pub canonical_from : ℕ → ℕ → llvm.Value → llvm.Value → Emit llvm llvm.Value
  canonical_from zero a source undef_value = pure undef_value
  canonical_from (suc count) a source undef_value = do
    integer_transfer ← create (create_extract_value source a)
    next ← create (create_insert_value undef_value integer_transfer a)
    canonical_from count (a + 1) source next

  unfoldable pub canonical : ℕ → llvm.Value → Emit llvm llvm.Value
  unfolding llvm_array canonical_from
  canonical size source = do t ← lift (llvm_array size); canonical_from size 0 source (llvm.undef t)

  abbrev push_if :
      ℕ
      → Option llvm.Value
      → llvm.Block
      → List (llvm.Value × llvm.Block)
      → Emit llvm (List (llvm.Value × llvm.Block))
  push_if size none b values = pure values
  push_if size (some v) b values = if size == 0 then pure values else pure ((v, b) ∷ values)

  -- legitimate_values
  unfoldable pub legitimate :
      List (Option llvm.Value × llvm.Block) → Emit llvm (List (llvm.Value × llvm.Block))
  unfolding size_of_value
  legitimate [] = pure []
  legitimate ((v, b) ∷ rest) = do
    size ← size_of_value v
    values ← legitimate rest
    push_if size v b values

  unfoldable pub canonical_values :
      ℕ → List (llvm.Value × llvm.Block) → Emit llvm (List (llvm.Value × llvm.Block))
  unfolding canonical
  canonical_values size [] = pure []
  canonical_values size ((v, b) ∷ rest) = do
    v' ← if is_array (llvm.type_of v) then pure v else canonical size v
    rest' ← canonical_values size rest
    pure ((v', b) ∷ rest')

  unfoldable pub add_all : llvm.Value → List (llvm.Value × llvm.Block) → Emit llvm (Unit {0})
  add_all phi [] = pure tt
  add_all phi ((v, b) ∷ rest) = do create (add_incoming phi v b); add_all phi rest

  -- llvm_create_phi, for the values of `choices`, each with the block it comes from.
  unfoldable pub llvm_create_phi :
      List (Option llvm.Value × llvm.Block) → Emit llvm (Option llvm.Value)
  unfolding legitimate canonical_values add_all
  llvm_create_phi choices = do
    assert (leb 2 (length choices))
    legitimate_values ← legitimate choices
    choose legitimate_values
    where
      choose : List (llvm.Value × llvm.Block) → Emit llvm (Option llvm.Value)
      choose [] = pure none
      choose ((v, b) ∷ []) = pure (some v)
      choose ((v, b) ∷ (w, c) ∷ rest) = do
        let values = (v, b) ∷ (w, c) ∷ rest
        let eventual_type = llvm.type_of (last_value w rest)
        eventual_size ← lift (size_of_type eventual_type)
        incoming ← if eventual_size == 1 then pure values else canonical_values eventual_size values
        let phi_type = if eventual_size == 1 then eventual_type else array_type eventual_size
        phi ← create (create_phi phi_type (length incoming))
        add_all phi incoming
        pure (some phi)

  -- The inner loop of write_into_place into memory: `left` words of an object of `size` words, from
  -- word `subplace` on, to the words of `target` from `offset` on.
  unfoldable pub write_parts : ℕ → ℕ → llvm.Value → ℕ → llvm.Value → ℕ → Emit llvm ℕ
  write_parts zero size single subplace target offset = pure offset
  write_parts (suc left) size single subplace target offset = do
    integer_transfer ←
        if ltb 1 size then create (create_extract_value single subplace) else pure single
    location ← if offset == 0 then pure target else create (create_const_gep target offset)
    create (create_store integer_transfer location)
    write_parts left size single (subplace + 1) target (offset + 1)

  unfoldable pub write_objects : List (Option llvm.Value) → llvm.Value → ℕ → Emit llvm (Unit {0})
  unfolding write_parts
  write_objects [] target offset = pure tt
  write_objects (none ∷ rest) target offset = write_objects rest target offset
  write_objects (some single ∷ rest) target offset = do
    size ← size_of_value (some single)
    offset' ← write_parts size size single 0 target offset
    write_objects rest target offset'

  -- write_into_place(data, target)
  unfoldable pub write_into_place : List (Option llvm.Value) → llvm.Value → Emit llvm (Unit {0})
  unfolding write_objects
  write_into_place objects target = write_objects objects target 0

  -- The inner loop of write_into_place for a target that is itself a value.
  unfoldable pub build_words : ℕ → ℕ → llvm.Value → ℕ → llvm.Value → ℕ → Emit llvm (llvm.Value × ℕ)
  build_words zero size single subplace target offset = pure (target, offset)
  build_words (suc left) size single subplace target offset = do
    integer_transfer ←
        if ltb 1 size then create (create_extract_value single subplace) else pure single
    target' ← if is_integer (llvm.type_of target) then pure integer_transfer else (do
      assert (ltb offset (2 ^ 32 - 1))
      create (create_insert_value target integer_transfer offset))
    build_words left size single (subplace + 1) target' (offset + 1)

  unfoldable pub build_objects : List (Option llvm.Value) → llvm.Value → ℕ → Emit llvm llvm.Value
  unfolding build_words
  build_objects [] target offset = pure target
  build_objects (none ∷ rest) target offset = build_objects rest target offset
  build_objects (some single ∷ rest) target offset = do
    size ← size_of_value (some single)
    (target', offset') ← build_words size size single 0 target offset
    build_objects rest target' offset'

  -- write_into_place(data, target, true): the value that `target` becomes.
  unfoldable pub write_into_value : List (Option llvm.Value) → llvm.Value → Emit llvm llvm.Value
  unfolding build_objects
  write_into_value objects target = build_objects objects target 0

  unfoldable pub load_words : ℕ → ℕ → llvm.Value → llvm.Value → Emit llvm llvm.Value
  load_words zero a location undef_value = pure undef_value
  load_words (suc left) a location undef_value = do
    new_location ← if a == 0 then pure location else create (create_const_gep location a)
    integer_transfer ← create (create_load new_location)
    next ← create (create_insert_value undef_value integer_transfer a)
    load_words left (a + 1) location next

  -- load_from_memory
  unfoldable pub load_from_memory : llvm.Value → ℕ → Emit llvm llvm.Value
  unfolding llvm_array load_words
  load_from_memory location size = do
    assert (ltb size (2 ^ 32 - 1))
    if size == 1
        then create (create_load location)
        else (do t ← lift (llvm_array size); load_words size 0 location (llvm.undef t))
