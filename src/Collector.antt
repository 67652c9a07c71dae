-- ===== src/Collector.antt =====
-- The garbage collector of src/memory.cpp: mark_target, initialize_roots, trace_objects and start_GC.
-- The debugging output is left out. A reference to a word is the address of the word. The pool of
-- functions begins at `function_pool`, where each takes `function_size` bytes (sizeof(function), which
-- depends on LLVM) and has its AST and its return type in its first two words.
pub mod State
pub mod Kept
pub mod Uniquefied
pub mod Marked
pub mod Collected
pub mod Balanced
mod Tests
use super_searcher.Base.{
  ℕ, zero, suc, ◌+◌, ◌-◌, ◌*◌, ◌/◌, ◌%◌, ◌^◌, Bool, true, false, not, List, [], ◌∷◌, ◌++◌, ◌==◌,
  ltb, leb, if◌then◌else◌,
}
use super_searcher.Base.Result.{Result, ok, abort, out_of_fuel}
use super_searcher.Types.{
  Mem, Tptr, ver, info, field, type_pointer_range, total_valid_fields, get_size,
}
use super_searcher.Types.Tag
use super_searcher.Types.Descriptor.{TypeInfo}
use super_searcher.Memory.State as Commands
use super_searcher.Memory.State.{Machine}
use super_searcher.Memory.Sweep.{Living, pool_size, sweep}
use super_searcher.Memory.Functions.{Flags, found_function, sweep_functions}
use super_searcher.Memory.Living.{found_living_object}
use super_searcher.Vector
use super_searcher.Ast.{field_at, get_full_size, ast_range}
use super_searcher.Ast.Tag as AstTag
use super_searcher.Creator.{uniquefy_premade_type}
use State.{Collector, Trace, pure, assert, ◌>>=◌, ◌>>◌, on_machine, read, load, give}

-- Where the pools are, and by how many words memory has moved since it was written to a file.
pub record Pools : Type 0 where
  pub pool : ℕ
  pub function_pool : ℕ
  pub function_size : ℕ
  pub pointer_offset : ℕ
  pub function_pointer_offset : ℕ

-- correct_pointer and correct_function_pointer, for the word that holds the pointer.
unfoldable pub correct_pointer : ℕ → ℕ → Trace (Unit {0})
correct_pointer offset a = do
  pointer ← load a
  if not (pointer == 0)
      then on_machine (Commands.store a ((pointer + 8 * offset) % 2 ^ 64))
      else pure tt

abbrev pub get_vector_of_asts : Trace Tptr
get_vector_of_asts s = ok (s.vector_of_asts, s)

abbrev pub set_vector_of_asts : Tptr → Trace (Unit {0})
set_vector_of_asts t s = ok (tt, record s { vector_of_asts = t })

abbrev pub is_unserializing : Trace Bool
is_unserializing s = ok (s.unserializing, s)

-- The end of found_living_object.
abbrev enter : Collector → Result (Bool × List Living × ℕ) → Result (Bool × Collector)
enter s (ok (was, living, count)) = ok (
  was,
  record s { living_objects = living; machine = record s.machine { free_memory_count = count } },
)
enter s abort = abort
enter s out_of_fuel = out_of_fuel

module _ (at : Pools) where
  unfoldable pub found_object : ℕ → ℕ → Trace Bool
  found_object memory size s =
      enter s (found_living_object at.pool memory size s.living_objects s.machine.free_memory_count)

  -- found_function, for the address of a function.
  unfoldable pub found_function_at : ℕ → Trace Bool
  found_function_at func s =
      let found = found_function s.sweep_flags ((func - at.function_pool) / at.function_size) in
      ok (found.0, record s { sweep_flags = found.1 })

  -- The switch over the type that corrects the pointer.
  unfoldable pub correct_target : ℕ → Tptr → Trace (Unit {0})
  correct_target a t = do
    unserializing ← is_unserializing
    if not unserializing then pure tt else do
      tag ← read (λ m. ok (ver m t))
      if tag == Tag.integer
          then pure tt
          else if tag == Tag.function_pointer
          then correct_pointer at.function_pointer_offset a
          else if tag == Tag.con_vec
          then pure tt
          else correct_pointer at.pointer_offset a

  module _ (mark : ℕ → Tptr → Trace (Unit {0})) where
    -- Loops that call mark_target: over words of one type,
    unfoldable pub mark_all : List ℕ → Tptr → Trace (Unit {0})
    mark_all [] t = pure tt
    mark_all (a ∷ rest) t = do mark a t; mark_all rest t

    -- over the words of a vector, whose type is a field of the type of the vector,
    unfoldable pub mark_elements : List ℕ → Tptr → Trace (Unit {0})
    mark_elements [] t = pure tt
    mark_elements (a ∷ rest) t = do
      element_type ← read (λ m. field m t 0)
      mark a element_type
      mark_elements rest t

    -- and over the words of a concatenation beside its components.
    unfoldable pub mark_components : List ℕ → ℕ → Trace (Unit {0})
    mark_components [] increm = pure tt
    mark_components (a ∷ rest) increm = do
      subt ← load a
      mark increm subt
      later ← load a
      size ← read (λ m. get_size m later)
      assert (size == 1)
      mark_components rest (increm + 8)

    unfoldable pub mark_con_vec : ℕ → Tptr → Trace (Unit {0})
    mark_con_vec a t = do fields ← read (λ m. type_pointer_range m t); mark_components fields a

    unfoldable pub mark_pointer : ℕ → Tptr → Trace (Unit {0})
    mark_pointer a t = do
      pointer ← load a
      assert (not (pointer == 0))
      size ← read (λ m. get_size m t)
      was ← found_object pointer size
      if was then pure tt else do pointee ← read (λ m. field m t 0); mark pointer pointee

    unfoldable pub mark_dynamic : ℕ → Trace (Unit {0})
    mark_dynamic a = do
      pointer ← load a
      if pointer == 0 then pure tt else do
        mark pointer Tag.type_pointer
        type ← load pointer
        assert (not (type == 0))
        size ← read (λ m. get_size m type)
        was ← found_object pointer (size + 1)
        if was then pure tt else mark (pointer + 8) type

    unfoldable pub mark_vector : ℕ → Tptr → Trace (Unit {0})
    mark_vector a t = do
      pointer ← load a
      reserved_size ← load (pointer + 8)
      was ← found_object pointer (Vector.header + reserved_size)
      if was then pure tt else do
        elements ← read (λ m. ok (Vector.vector_range m pointer))
        mark_elements elements t

    unfoldable pub mark_ast : ℕ → Trace (Unit {0})
    mark_ast a = do
      the_ast ← load a
      if the_ast == 0 then pure tt else do
        tag ← load the_ast
        assert (ltb tag AstTag.never_reached)
        size ← read (λ m. get_full_size tag)
        was ← found_object the_ast size
        if was then pure tt else do
          vector_type ← get_vector_of_asts
          if tag == AstTag.imv
              then mark (field_at the_ast 0) Tag.dynamic_object
              else if tag == AstTag.basicblock
              then mark (field_at the_ast 0) vector_type
              else pure tt
          fields ← read (λ m. ast_range m the_ast)
          mark_all fields Tag.ast_pointer

    -- The objects of a type that has fields.
    unfoldable pub mark_fields : Tptr → Trace Bool
    mark_fields the_type = do
      descriptor ← read (λ m. info (ver m the_type))
      if descriptor.pointer_fields == 0 then pure false else do
        size ← read (λ m. total_valid_fields m the_type)
        was ← found_object the_type (size + 1)
        if was then pure true else do
          fields ← read (λ m. type_pointer_range m the_type)
          mark_all fields Tag.type_pointer
          pure false

    unfoldable pub mark_type : ℕ → ℕ → Trace (Unit {0})
    mark_type fuel a = do
      the_type ← load a
      if the_type == 0 then pure tt else do
        known ← mark_fields the_type
        if known
            then pure tt
            else do unique ← on_machine (uniquefy_premade_type fuel the_type true); pure tt

    unfoldable pub mark_function : ℕ → Trace (Unit {0})
    mark_function a = do
      func ← load a
      if func == 0 then pure tt else do
        was ← found_function_at func
        if was then pure tt else do mark func Tag.ast_pointer; mark (func + 8) Tag.type_pointer

    -- The switch of mark_target.
    unfoldable pub mark_switch : ℕ → ℕ → Tptr → ℕ → Trace (Unit {0})
    mark_switch fuel a t tag =
        if tag == Tag.con_vec
        then mark_con_vec a t
        else if tag == Tag.integer
        then pure tt
        else if tag == Tag.pointer
        then mark_pointer a t
        else if tag == Tag.dynamic_object
        then mark_dynamic a
        else if tag == Tag.vector
        then mark_vector a t
        else if tag == Tag.ast_pointer
        then mark_ast a
        else if tag == Tag.type_pointer
        then mark_type fuel a
        else if tag == Tag.function_pointer
        then mark_function a
        else pure tt

  -- mark_target; the recursion follows the objects that are not found yet, and takes fuel.
  unfoldable pub mark_target : ℕ → ℕ → Tptr → Trace (Unit {0})
  mark_target zero a t s = out_of_fuel
  mark_target (suc fuel) a t s =
      (do
        assert (not (t == 0))
        correct_target a t
        tag ← read (λ m. ok (ver m t))
        mark_switch (mark_target fuel) fuel a t tag)
        s

  -- The loops of initialize_roots, over the words of type_roots
  unfoldable pub mark_type_roots : ℕ → List ℕ → Trace (Unit {0})
  mark_type_roots fuel [] = pure tt
  mark_type_roots fuel (a ∷ rest) = do
    root_type ← load a
    descriptor ← read (λ m. info (ver m root_type))
    if descriptor.pointer_fields == 0 then pure tt else do
      mark_target fuel a Tag.type_pointer
      root_type' ← load a
      unserializing ← is_unserializing
      if unserializing
          then (do unique ← on_machine (uniquefy_premade_type fuel root_type' true); pure tt)
          else pure tt
    mark_type_roots fuel rest

  -- initialize_roots, for the addresses of the words of type_roots and of event_roots. It reads
  -- type_roots[0], which must exist.
  unfoldable pub initialize_roots : ℕ → List ℕ → List ℕ → Trace (Unit {0})
  initialize_roots fuel [] event_roots = (λ s. abort)
  initialize_roots fuel (first ∷ type_roots) event_roots = do
    mark_type_roots fuel (first ∷ type_roots)
    root_type ← load first
    set_vector_of_asts root_type
    mark_all (mark_target fuel) event_roots Tag.function_pointer

  -- sweepy_sweep, with both of its halves.
  unfoldable pub sweepy_sweep : Trace (Unit {0})
  sweepy_sweep = do
    living ← (λ s. ok (s.living_objects, s))
    on_machine (sweep at.pool living)
    (λ s.
        let swept = sweep_functions s.function_flags s.sweep_flags in
        ok (
          tt,
          record s {
            living_objects = [];
            function_flags = swept.0;
            destroyed = s.destroyed ++ swept.1;
            first_block = 0;
          },
        ))

  -- What trace_objects does before it marks the roots.
  unfoldable pub begin_trace : Trace (Unit {0})
  begin_trace = do
    (λ s. ok (
      tt,
      record s { machine = record s.machine { being_traced = true }; sweep_flags = (λ x. 0) },
    ))
    empty ← (λ s. ok (s.living_objects, s))
    assert (elim empty [ [] ↦ true | o ∷ rest ↦ false ])
    (λ s. ok (tt, record s { machine = record s.machine { type_hash_table = [] } }))

  -- trace_objects
  unfoldable pub trace_objects : ℕ → List ℕ → List ℕ → Trace (Unit {0})
  trace_objects fuel type_roots event_roots = do
    begin_trace
    initialize_roots fuel type_roots event_roots
    sweepy_sweep
    (λ s. ok (tt, record s { machine = record s.machine { being_traced = false } }))

  -- start_GC
  unfoldable pub start_gc : ℕ → List ℕ → List ℕ → Trace (Unit {0})
  start_gc fuel type_roots event_roots = do
    (λ s. ok (
      tt,
      record s {
        unserializing = false;
        machine = record s.machine { free_memory_count = pool_size };
      },
    ))
    trace_objects fuel type_roots event_roots
