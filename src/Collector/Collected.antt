-- ===== src/Collector/Collected.antt =====
-- `start_GC` (src/memory.cpp): the count of the free words after a collection.
use super_searcher.Base.{
  ℕ, suc, ◌+◌, ◌*◌, ◌%◌, ◌^◌, ◌≡◌, refl, sym, ◌∙◌, ◌⊎◌, inl, inr, true, false, List, [], ◌∷◌, ◌==◌,
  length, ◌++◌,
}
use super_searcher.Base.Result.{Result, ok, abort, out_of_fuel}
use super_searcher.Base.Result
use super_searcher.Types.{Tptr, ver, info}
use super_searcher.Types.Tag
use super_searcher.Memory.State.{Machine}
use super_searcher.Memory.Sweep.{Living, Sweeper, pool_size, sweep, sweep_end, sweep_loop}
use super_searcher.Memory.Sweep.Layout.{living_total}
use super_searcher.Memory.Functions.{sweep_functions}
use super_searcher.Collector.State.{
  Collector, Trace, assert, and_then, ◌>>=◌, ◌>>◌, on_machine, put_machine,
}
use super_searcher.Collector.Kept.{
  After, Safe, bind-Safe, then-Safe, pure-Safe, ite-Safe, read-Safe, machine-Safe, load-Safe,
}
use super_searcher.Collector.Uniquefied.{cmd_uniquefy}
use super_searcher.Collector.Marked.{same-Safe, mark_all-Safe, mark_target-Safe}
use super_searcher.Collector.{
  Pools, set_vector_of_asts, mark_target, mark_type_roots, initialize_roots, sweepy_sweep,
  begin_trace, trace_objects, start_gc,
}

module _ (at : Pools) (fuel : ℕ) where
  mark_type_roots-Safe : (l : List ℕ) → Safe (mark_type_roots at fuel l)
  unfolding mark_type_roots
  mark_type_roots-Safe [] = pure-Safe tt
  mark_type_roots-Safe (a ∷ rest) = bind-Safe (load-Safe a) (λ root_type.
      bind-Safe (read-Safe (λ m. info (ver m root_type))) (λ descriptor.
        then-Safe
          (ite-Safe (descriptor.pointer_fields == 0) (pure-Safe tt) (
            then-Safe (mark_target-Safe at fuel a Tag.type_pointer) (
              bind-Safe (load-Safe a) (λ root_type'.
                bind-Safe (same-Safe (λ s. s.unserializing)) (λ unserializing.
                  ite-Safe unserializing
                    (bind-Safe (machine-Safe (cmd_uniquefy fuel root_type' true))
                      (λ unique. pure-Safe tt))
                    (pure-Safe tt))))))
          (mark_type_roots-Safe rest)))

  set_vector_of_asts-Safe : (t : Tptr) → Safe (set_vector_of_asts t)
  set_vector_of_asts-Safe t = record {
    keeps = λ s traced. record {
      free = refl;
      traced = refl;
      words = refl;
      alive = λ a lives. lives;
      flags = refl;
      destroyed = refl;
    };
  }

  pub initialize_roots-Safe :
      (type_roots event_roots : List ℕ) → Safe (initialize_roots at fuel type_roots event_roots)
  unfolding initialize_roots
  initialize_roots-Safe [] event_roots = record { keeps = λ s traced. tt }
  initialize_roots-Safe (first ∷ type_roots) event_roots =
      then-Safe (mark_type_roots-Safe (first ∷ type_roots)) (
        bind-Safe (load-Safe first) (λ root_type. then-Safe (set_vector_of_asts-Safe root_type) (
          mark_all-Safe at (mark_target at fuel) (mark_target-Safe at fuel) event_roots
            Tag.function_pointer)))

-- Every trace is over, and the free words that are counted and the words of the objects that were
-- found make up the pool.
pub record Counted (pool : ℕ) (s' : Collector) : Type 0 where
  pub idle : s'.machine.being_traced ≡ false
  pub cleared : s'.living_objects ≡ []
  pub first : s'.first_block ≡ 0
  pub living : List Living
  pub words : (s'.machine.free_memory_count + living_total living) % 2 ^ 64 ≡ pool_size
  pub before : Machine
  pub after : Machine
  pub swept : sweep pool living before ≡ ok (tt, after)
  pub free : s'.machine.free_memory ≡ after.free_memory

abbrev pub Outcome : ℕ → Result (Unit {0} × Collector) → Type 0
Outcome pool (ok (a, s')) = Counted pool s'
Outcome pool abort = Unit
Outcome pool out_of_fuel = Unit

-- The sweep leaves the count alone.
abbrev pub SweptCount : Machine → Result (Unit {0} × Machine) → Type 0
SweptCount s (ok (a, s')) = s'.free_memory_count ≡ s.free_memory_count
SweptCount s abort = Unit
SweptCount s out_of_fuel = Unit

swept_end :
    (s : Machine) (r : Result Sweeper)
    → SweptCount s (
        Result.◌>>=◌ r
          (λ (done : Sweeper). ok (tt, record s { mem = done.mem; free_memory = done.free })))
swept_end s (ok done) = refl
swept_end s abort = tt
swept_end s out_of_fuel = tt

swept_loop :
    (s : Machine) (pool_end : ℕ) (r : Result Sweeper)
    → SweptCount s (
        Result.◌>>=◌ r (λ (looped : Sweeper).
          Result.◌>>=◌
            (sweep_end pool_end looped)
            (λ (done : Sweeper). ok (tt, record s { mem = done.mem; free_memory = done.free }))))
swept_loop s pool_end (ok looped) = swept_end s (sweep_end pool_end looped)
swept_loop s pool_end abort = tt
swept_loop s pool_end out_of_fuel = tt

pub sweep-count :
    (pool : ℕ) (living : List Living) (s : Machine) → SweptCount s (sweep pool living s)
unfolding sweep
sweep-count pool living s =
    swept_loop s (pool + 8 * pool_size)
      (sweep_loop (suc (length living)) living (record { mem = s.mem; free = []; position = pool }))

-- What follows the sweep of the memory.
abbrev forget : Trace (Unit {0})
forget s =
    let swept = sweep_functions s.function_flags s.sweep_flags in
    ok (
      tt,
      record s {
        living_objects = [];
        function_flags = swept.0;
        destroyed = s.destroyed ++ swept.1;
        first_block = 0;
      },
    )

abbrev stop_tracing : Trace (Unit {0})
stop_tracing s = ok (tt, record s { machine = record s.machine { being_traced = false } })

nothing_living :
    (l : List Living) → (l ≡ []) ⊎ ((o : Living) × (rest : List Living) × (l ≡ o ∷ rest))
nothing_living [] = inl refl
nothing_living (o ∷ rest) = inr (o, rest, refl)

module _ (at : Pools) where
  swept-Outcome :
      (s : Collector) (r : Result (Unit {0} × Machine))
      → r ≡ sweep at.pool s.living_objects s.machine
      → SweptCount s.machine r
      → (s.machine.free_memory_count + living_total s.living_objects) % 2 ^ 64 ≡ pool_size
      → Outcome at.pool (and_then (and_then (put_machine s r) (λ u. forget)) (λ u. stop_tracing))
  swept-Outcome s (ok (tt, m)) e count words = record {
    idle = refl;
    cleared = refl;
    first = refl;
    living = s.living_objects;
    words = rw count words;
    before = s.machine;
    after = m;
    swept = sym e;
    free = refl;
  }
  swept-Outcome s abort e count words = tt
  swept-Outcome s out_of_fuel e count words = tt

  sweepy_sweep-Outcome :
      (s : Collector)
      → (s.machine.free_memory_count + living_total s.living_objects) % 2 ^ 64 ≡ pool_size
      → Outcome at.pool (and_then (sweepy_sweep at s) (λ u. stop_tracing))
  unfolding sweepy_sweep ◌>>=◌ ◌>>◌ on_machine
  sweepy_sweep-Outcome s words =
      swept-Outcome s (sweep at.pool s.living_objects s.machine) refl
        (sweep-count at.pool s.living_objects s.machine) words

  marked-Outcome :
      (s : Collector) (r : Result (Unit {0} × Collector))
      → After s r
      → (s.machine.free_memory_count + living_total s.living_objects) % 2 ^ 64 ≡ pool_size
      → Outcome at.pool (and_then r (λ u s'. and_then (sweepy_sweep at s') (λ v. stop_tracing)))
  marked-Outcome s (ok (a, s')) h words = sweepy_sweep-Outcome s' (h.words ∙ words)
  marked-Outcome s abort h words = tt
  marked-Outcome s out_of_fuel h words = tt

  -- start_GC never leaves a wrong count behind. Whatever the roots and the memory, where it returns no
  -- trace is running, living_objects is empty again, allocate_function starts at the first word, and
  -- free_memory_count and the words of the objects that were found, which are those that sweepy_sweep
  -- built the free blocks around, make up the pool.
  pub start_gc-Outcome :
      (fuel : ℕ) (type_roots event_roots : List ℕ) (s : Collector)
      → Outcome at.pool (start_gc at fuel type_roots event_roots s)
  unfolding start_gc trace_objects begin_trace ◌>>=◌ ◌>>◌ on_machine assert
  start_gc-Outcome fuel type_roots event_roots s = elim (nothing_living s.living_objects) [
    | inl empty ↦
        let started : Collector = record s {
          machine = record s.machine {
            being_traced = true;
            free_memory_count = pool_size;
            type_hash_table = [];
          };
          sweep_flags = λ x. 0;
          unserializing = false;
          living_objects = [];
        } in
        rw empty (
          marked-Outcome started (initialize_roots at fuel type_roots event_roots started)
            ((initialize_roots-Safe at fuel type_roots event_roots).keeps started refl) refl)
    | inr some_object ↦ rw some_object.2 tt
  ]
