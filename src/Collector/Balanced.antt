-- ===== src/Collector/Balanced.antt =====
-- `start_GC` (src/memory.cpp) as a whole: marking, then the sweep.
use super_searcher.Base.{ℕ, ◌+◌, ◌*◌, ◌%◌, ◌^◌, ◌<◌, ◌≡◌, refl, true, false, List, [], ◌++◌, arith}
use super_searcher.Base.Result.{ok}
use super_searcher.Memory.Blocks.{covered, total}
use super_searcher.Memory.Sweep.{pool_size}
use super_searcher.Memory.Sweep.Gap.{span}
use super_searcher.Memory.Sweep.Layout.{living_covered, Layout, sweep-Swept}
use super_searcher.Memory.Functions.{sweep_functions}
use super_searcher.Collector.State.{Collector, assert, ◌>>=◌, ◌>>◌, on_machine}
use super_searcher.Collector.Kept.{Kept}
use super_searcher.Collector.Collected.{sweep-count, initialize_roots-Safe}
use super_searcher.Collector.{
  Pools, initialize_roots, sweepy_sweep, begin_trace, trace_objects, start_gc,
}

-- The state in which the roots are marked.
abbrev pub started : Collector → Collector
started s = record s {
  machine = record s.machine {
    being_traced = true;
    free_memory_count = pool_size;
    type_hash_table = [];
  };
  sweep_flags = λ x. 0;
  unserializing = false;
  living_objects = [];
}

-- The end of a collection that has found the living objects of `marked`.
pub record Balanced (pool : ℕ) (marked s' : Collector) : Type 0 where
  pub idle : s'.machine.being_traced ≡ false
  pub free_words : total s'.machine.free_memory ≡ s'.machine.free_memory_count % 2 ^ 64
  pub tiles :
      (b : ℕ)
      → covered s'.machine.free_memory b + living_covered marked.living_objects b
        ≡ span pool (pool + 8 * pool_size) b
  pub kept :
      (b : ℕ) → 0 < living_covered marked.living_objects b → s'.machine.mem b ≡ marked.machine.mem b

-- A collection balances. Where no object is registered before, the roots are marked without an error,
-- and the objects found lie in the pool one behind the other, start_GC returns; no trace is running,
-- free_memory_count (modulo 2^64) is the number of words in the free blocks, the free blocks and the
-- objects tile the pool, and no byte of an object has changed since it was marked.
pub start_gc-Balanced :
    (at : Pools) (fuel : ℕ) (type_roots event_roots : List ℕ) (s marked : Collector)
    → s.living_objects ≡ []
    → initialize_roots at fuel type_roots event_roots (started s) ≡ ok (tt, marked)
    → Layout at.pool marked.living_objects (at.pool + 8 * pool_size)
    → (s' : Collector) × (start_gc at fuel type_roots event_roots s ≡ ok (tt, s'))
      × Balanced at.pool marked s'
unfolding start_gc trace_objects begin_trace sweepy_sweep ◌>>=◌ ◌>>◌ on_machine assert
start_gc-Balanced at fuel type_roots event_roots s marked empty init layout =
    let swept = sweep-Swept at.pool marked.living_objects marked.machine layout in
    let same : swept.0.free_memory_count ≡ marked.machine.free_memory_count =
      rw swept.1 at (sweep-count at.pool marked.living_objects marked.machine) in
    let kept : Kept (started s) marked =
      rw init at ((initialize_roots-Safe at fuel type_roots event_roots).keeps (started s) refl) in
    let functions = sweep_functions marked.function_flags marked.sweep_flags in
    (
      record marked {
        machine = record swept.0 { being_traced = false };
        living_objects = [];
        function_flags = functions.0;
        destroyed = marked.destroyed ++ functions.1;
        first_block = 0;
      },
      rw (empty, init, swept.1) refl,
      record {
        idle = refl;
        free_words = omega (arith, same, kept.words, swept.2.words);
        tiles = swept.2.tiles;
        kept = swept.2.kept;
      },
    )
