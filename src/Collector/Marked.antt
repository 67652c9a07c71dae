-- ===== src/Collector/Marked.antt =====
-- `mark_target` (src/memory.cpp) creates nothing: it leaves the free blocks as they are, and what
-- free_memory_count loses the living objects gain.
use super_searcher.Base.{
  ℕ, zero, suc, ◌+◌, ◌-◌, ◌*◌, ◌%◌, ◌^◌, ◌≤◌, ◌≡◌, refl, ◌⊎◌, inl, inr, true, false, not,
  Bool-cases, List, [], ◌∷◌, ◌==◌, ltb, leb, arith,
}
use super_searcher.Base.Result.{ok, abort}
use super_searcher.Types.{Tptr, ver, info, field, type_pointer_range, total_valid_fields, get_size}
use super_searcher.Types.Tag
use super_searcher.Memory.Sweep.{Living, pool_size}
use super_searcher.Memory.Living.{found_living_object, is_living, insert_living}
use super_searcher.Memory.Living.Found.{insert_living-total}
use super_searcher.Vector
use super_searcher.Ast.{field_at, get_full_size, ast_range}
use super_searcher.Ast.Tag as AstTag
use super_searcher.Collector.State.{Collector, Trace}
use super_searcher.Collector.Kept.{
  Kept-refl, After, Safe, bind-Safe, then-Safe, pure-Safe, ite-Safe, read-Safe, machine-Safe,
  assert-Safe, load-Safe, cmd_store,
}
use super_searcher.Collector.Uniquefied.{cmd_uniquefy}
use super_searcher.Collector.{
  Pools, correct_pointer, found_object, found_function_at, correct_target, mark_all, mark_elements,
  mark_components, mark_con_vec, mark_pointer, mark_dynamic, mark_vector, mark_ast, mark_fields,
  mark_type, mark_function, mark_switch, mark_target,
}

is_living_later :
    (a b n : ℕ) (l : List Living)
    → is_living a l ≡ true
    → is_living a (insert_living (b, n) l) ≡ true
unfolding is_living insert_living
is_living_later a b n [] h = cc
is_living_later a b n ((c, k) ∷ rest) h = elim (Bool-cases (ltb b c)) [
  | inl before ↦ elim (Bool-cases (a == b)) [
    | inl same ↦ rw (before, same) refl
    | inr other ↦ rw (before, other) h
  ]
  | inr behind ↦ elim (Bool-cases (a == c)) [
    | inl same ↦ rw (behind, same) refl
    | inr other ↦
        let later : is_living a rest ≡ true = rw other at h in
        rw (behind, other) (is_living_later a b n rest later)
  ]
]

found_living_object-cases :
    (pool memory size : ℕ) (living : List Living) (count : ℕ)
    → (found_living_object pool memory size living count ≡ abort)
      ⊎ ((found_living_object pool memory size living count ≡ ok (true, living, count))
          ⊎ ((size ≤ pool_size)
              × (found_living_object pool memory size living count
                  ≡ ok (
                    false,
                    insert_living (memory, size) living,
                    (count + 2 ^ 64 - size) % 2 ^ 64,
                  ))))
unfolding found_living_object
found_living_object-cases pool memory size living count = elim (Bool-cases (size == 0)) [
  | inl none ↦ inl (rw none refl)
  | inr some_words ↦ elim (Bool-cases (memory == 0)) [
    | inl null ↦ inl (rw (some_words, null) refl)
    | inr address ↦ elim (Bool-cases (leb pool memory)) [
      | inr below ↦ inl (rw (some_words, address, below) refl)
      | inl above ↦ elim (Bool-cases (leb (memory + 8 * size) (pool + 8 * pool_size))) [
        | inr past ↦ inl (rw (some_words, address, above, past) refl)
        | inl inside ↦ elim (Bool-cases (is_living memory living)) [
          | inl old ↦ inr (inl (rw (some_words, address, above, inside, old) refl))
          | inr new ↦ inr (
              inr
                (ground (arith, above, inside), rw (some_words, address, above, inside, new) refl))
        ]
      ]
    ]
  ]
]

module _ (at : Pools) where
  found_object-Safe : (memory size : ℕ) → Safe (found_object at memory size)
  unfolding found_object
  found_object-Safe memory size = record {
    keeps = λ s traced.
        elim (found_living_object-cases at.pool memory size s.living_objects
          s.machine.free_memory_count) [
            | inl failed ↦ rw failed tt
            | inr (inl old) ↦ rw old (Kept-refl s)
            | inr (inr new) ↦ rw new.1 (record {
              free = refl;
              traced = refl;
              words = omega (arith, new.0, insert_living-total memory size s.living_objects);
              alive = λ a lives. is_living_later a memory size s.living_objects lives;
              flags = refl;
              destroyed = refl;
            })
          ];
  }

  found_function-Safe : (func : ℕ) → Safe (found_function_at at func)
  unfolding found_function_at
  found_function-Safe func = record {
    keeps = λ s traced. record {
      free = refl;
      traced = refl;
      words = refl;
      alive = λ a lives. lives;
      flags = refl;
      destroyed = refl;
    };
  }

pub same-Safe : {A : Type 0} (f : Collector → A) → Safe (λ s. ok (f s, s))
same-Safe f = record { keeps = λ s traced. Kept-refl s }

correct_pointer-Safe : (offset a : ℕ) → Safe (correct_pointer offset a)
unfolding correct_pointer
correct_pointer-Safe offset a = bind-Safe (load-Safe a) (λ pointer.
    ite-Safe (not (pointer == 0)) (machine-Safe (cmd_store a ((pointer + 8 * offset) % 2 ^ 64)))
      (pure-Safe tt))

correct_target-Safe : (at : Pools) (a : ℕ) (t : Tptr) → Safe (correct_target at a t)
unfolding correct_target
correct_target-Safe at a t = bind-Safe (same-Safe (λ s. s.unserializing)) (λ unserializing.
    ite-Safe (not unserializing) (pure-Safe tt) (
      bind-Safe (read-Safe (λ m. ok (ver m t))) (λ tag.
        ite-Safe (tag == Tag.integer) (pure-Safe tt) (
          ite-Safe (tag == Tag.function_pointer) (correct_pointer-Safe _ a)
            (ite-Safe (tag == Tag.con_vec) (pure-Safe tt) (correct_pointer-Safe _ a))))))

module _ (at : Pools) (mark : ℕ → Tptr → Trace (Unit {0}))
    (h : (a : ℕ) (t : Tptr) → Safe (mark a t)) where
  pub mark_all-Safe : (l : List ℕ) (t : Tptr) → Safe (mark_all at mark l t)
  unfolding mark_all
  mark_all-Safe [] t = pure-Safe tt
  mark_all-Safe (a ∷ rest) t = then-Safe (h a t) (mark_all-Safe rest t)

  mark_elements-Safe : (l : List ℕ) (t : Tptr) → Safe (mark_elements at mark l t)
  unfolding mark_elements
  mark_elements-Safe [] t = pure-Safe tt
  mark_elements-Safe (a ∷ rest) t =
      bind-Safe (read-Safe (λ m. field m t 0))
        (λ element_type. then-Safe (h a element_type) (mark_elements-Safe rest t))

  mark_components-Safe : (l : List ℕ) (increm : ℕ) → Safe (mark_components at mark l increm)
  unfolding mark_components
  mark_components-Safe [] increm = pure-Safe tt
  mark_components-Safe (a ∷ rest) increm = bind-Safe (load-Safe a) (λ subt.
      then-Safe (h increm subt) (
        bind-Safe (load-Safe a) (λ later.
          bind-Safe (read-Safe (λ m. get_size m later)) (λ size.
            then-Safe (assert-Safe (size == 1)) (mark_components-Safe rest (increm + 8))))))

  mark_con_vec-Safe : (a : ℕ) (t : Tptr) → Safe (mark_con_vec at mark a t)
  unfolding mark_con_vec
  mark_con_vec-Safe a t =
      bind-Safe (read-Safe (λ m. type_pointer_range m t)) (λ fields. mark_components-Safe fields a)

  mark_pointer-Safe : (a : ℕ) (t : Tptr) → Safe (mark_pointer at mark a t)
  unfolding mark_pointer
  mark_pointer-Safe a t = bind-Safe (load-Safe a) (λ pointer.
      then-Safe (assert-Safe (not (pointer == 0))) (
        bind-Safe (read-Safe (λ m. get_size m t)) (λ size.
          bind-Safe (found_object-Safe at pointer size) (λ was.
            ite-Safe was (pure-Safe tt)
              (bind-Safe (read-Safe (λ m. field m t 0)) (λ pointee. h pointer pointee))))))

  mark_dynamic-Safe : (a : ℕ) → Safe (mark_dynamic at mark a)
  unfolding mark_dynamic
  mark_dynamic-Safe a = bind-Safe (load-Safe a) (λ pointer. ite-Safe (pointer == 0) (pure-Safe tt) (
      then-Safe (h pointer Tag.type_pointer) (
        bind-Safe (load-Safe pointer) (λ type. then-Safe (assert-Safe (not (type == 0))) (
          bind-Safe (read-Safe (λ m. get_size m type)) (λ size.
            bind-Safe (found_object-Safe at pointer (size + 1))
              (λ was. ite-Safe was (pure-Safe tt) (h (pointer + 8) type))))))))

  mark_vector-Safe : (a : ℕ) (t : Tptr) → Safe (mark_vector at mark a t)
  unfolding mark_vector
  mark_vector-Safe a t = bind-Safe (load-Safe a) (λ pointer.
      bind-Safe (load-Safe (pointer + 8)) (λ reserved_size.
        bind-Safe (found_object-Safe at pointer (Vector.header + reserved_size)) (λ was.
          ite-Safe was (pure-Safe tt) (
            bind-Safe (read-Safe (λ m. ok (Vector.vector_range m pointer)))
              (λ elements. mark_elements-Safe elements t)))))

  mark_ast-Safe : (a : ℕ) → Safe (mark_ast at mark a)
  unfolding mark_ast
  mark_ast-Safe a = bind-Safe (load-Safe a) (λ the_ast. ite-Safe (the_ast == 0) (pure-Safe tt) (
      bind-Safe (load-Safe the_ast) (λ tag. then-Safe (assert-Safe (ltb tag AstTag.never_reached)) (
        bind-Safe (read-Safe (λ m. get_full_size tag)) (λ size.
          bind-Safe (found_object-Safe at the_ast size) (λ was. ite-Safe was (pure-Safe tt) (
            bind-Safe (same-Safe (λ s. s.vector_of_asts)) (λ vector_type.
              then-Safe
                (ite-Safe (tag == AstTag.imv) (h (field_at the_ast 0) Tag.dynamic_object) (
                  ite-Safe (tag == AstTag.basicblock) (h (field_at the_ast 0) vector_type)
                    (pure-Safe tt)))
                (bind-Safe (read-Safe (λ m. ast_range m the_ast))
                  (λ fields. mark_all-Safe fields Tag.ast_pointer))))))))))

  mark_fields-Safe : (the_type : Tptr) → Safe (mark_fields at mark the_type)
  unfolding mark_fields
  mark_fields-Safe the_type = bind-Safe (read-Safe (λ m. info (ver m the_type))) (λ descriptor.
      ite-Safe (descriptor.pointer_fields == 0) (pure-Safe false) (
        bind-Safe (read-Safe (λ m. total_valid_fields m the_type)) (λ size.
          bind-Safe (found_object-Safe at the_type (size + 1)) (λ was.
            ite-Safe was (pure-Safe true) (
              bind-Safe (read-Safe (λ m. type_pointer_range m the_type))
                (λ fields. then-Safe (mark_all-Safe fields Tag.type_pointer) (pure-Safe false)))))))

  mark_type-Safe : (fuel a : ℕ) → Safe (mark_type at mark fuel a)
  unfolding mark_type
  mark_type-Safe fuel a = bind-Safe (load-Safe a) (λ the_type.
      ite-Safe (the_type == 0) (pure-Safe tt) (
        bind-Safe (mark_fields-Safe the_type) (λ known.
          ite-Safe known (pure-Safe tt)
            (bind-Safe (machine-Safe (cmd_uniquefy fuel the_type true)) (λ unique. pure-Safe tt)))))

  mark_function-Safe : (a : ℕ) → Safe (mark_function at mark a)
  unfolding mark_function
  mark_function-Safe a = bind-Safe (load-Safe a) (λ func. ite-Safe (func == 0) (pure-Safe tt) (
      bind-Safe (found_function-Safe at func) (λ was.
        ite-Safe was (pure-Safe tt)
          (then-Safe (h func Tag.ast_pointer) (h (func + 8) Tag.type_pointer)))))

  mark_switch-Safe : (fuel a : ℕ) (t : Tptr) (tag : ℕ) → Safe (mark_switch at mark fuel a t tag)
  unfolding mark_switch
  mark_switch-Safe fuel a t tag = ite-Safe (tag == Tag.con_vec) (mark_con_vec-Safe a t) (
      ite-Safe (tag == Tag.integer) (pure-Safe tt) (
        ite-Safe (tag == Tag.pointer) (mark_pointer-Safe a t) (
          ite-Safe (tag == Tag.dynamic_object) (mark_dynamic-Safe a) (
            ite-Safe (tag == Tag.vector) (mark_vector-Safe a t) (
              ite-Safe (tag == Tag.ast_pointer) (mark_ast-Safe a) (
                ite-Safe (tag == Tag.type_pointer) (mark_type-Safe fuel a) (
                  ite-Safe (tag == Tag.function_pointer) (mark_function-Safe a)
                    (pure-Safe tt))))))))

pub mark_target-Safe : (at : Pools) (fuel a : ℕ) (t : Tptr) → Safe (mark_target at fuel a t)
unfolding mark_target
mark_target-Safe at zero a t = record { keeps = λ s traced. tt }
mark_target-Safe at (suc fuel) a t = then-Safe (assert-Safe (not (t == 0))) (
    then-Safe (correct_target-Safe at a t) (
      bind-Safe (read-Safe (λ m. ok (ver m t)))
        (mark_switch-Safe at (mark_target at fuel) (mark_target-Safe at fuel) fuel a t)))

-- While a trace runs, mark_target allocates and releases nothing. Whatever the fuel, the type, the
-- word and the memory, it fails, runs out of fuel, or returns with the free blocks and the flags of
-- the functions as they were, with everything alive that was, and with as many words less in
-- free_memory_count (modulo 2^64) as there are more in living_objects.
pub mark_target-Kept :
    (at : Pools) (fuel a : ℕ) (t : Tptr) (s : Collector)
    → s.machine.being_traced ≡ true
    → After s (mark_target at fuel a t s)
mark_target-Kept at fuel a t s traced = (mark_target-Safe at fuel a t).keeps s traced
