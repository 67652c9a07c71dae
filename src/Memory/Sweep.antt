-- ===== src/Memory/Sweep.antt =====
-- The half of `sweepy_sweep` (src/memory.cpp) that rebuilds the table of free blocks from the living
-- objects. `living_objects` is a std::map from addresses to sizes, here its entries in order.
pub mod Layout
pub mod Fill
pub mod Gap
use super_searcher.Base.{
  ℕ, zero, suc, ◌+◌, ◌-◌, ◌*◌, ◌/◌, Bool, true, false, Option, none, some, List, [], ◌∷◌, ◌==◌, ltb,
  if◌then◌else◌, length,
}
use super_searcher.Base.Result.{Result, ok, abort, out_of_fuel}
use super_searcher.Base.Result
use super_searcher.Types.{Mem}
use super_searcher.Memory.State.{Machine, Cmd, write}
use super_searcher.Memory.Blocks.{Block, insert}

-- globalinfo.h
abbrev pub pool_size : ℕ
pool_size = 100000

abbrev pub collected_special_value : ℕ
collected_special_value = 1234567

-- Address in bytes, then size in words.
abbrev pub Living : Type 0
Living = ℕ × ℕ

-- map::lower_bound, the first entry whose address is not below `a`.
unfoldable pub next_living : ℕ → List Living → Option Living
next_living a [] = none
next_living a ((b, n) ∷ rest) = if ltb b a then next_living a rest else some (b, n)

-- Under DEBUG_GC every free word is overwritten: `count` words from `a` on.
unfoldable pub fill : Mem → ℕ → ℕ → Mem
fill m a zero = m
fill m a (suc count) = fill (write m a collected_special_value) (a + 8) count

-- Memory, the table so far, and `memory_incrementor`.
pub record Sweeper : Type 0 where
  pub mem : Mem
  pub free : List Block
  pub position : ℕ

-- The gap from the position up to `stop`, if there is one, becomes a free block. The words between
-- must be fewer than `bound`.
unfoldable pub release_gap : ℕ → ℕ → Sweeper → Result Sweeper
unfolding fill
release_gap bound stop s =
    if stop == s.position
    then ok s
    else (let gap = (stop - s.position) / 8 in
        if ltb gap bound
        then ok
            (record s { mem = fill s.mem s.position gap; free = insert (gap, s.position) s.free })
        else abort)

-- The loop. Each round passes one living object, so fuel above their number is enough.
unfoldable pub sweep_loop : ℕ → List Living → Sweeper → Result Sweeper
unfolding next_living release_gap
sweep_loop zero living s = out_of_fuel
sweep_loop (suc fuel) living s = elim (next_living s.position living) [
  | none ↦ ok s
  | some (start, size) ↦
      Result.◌>>=◌ (release_gap pool_size start s)
        (λ s'. sweep_loop fuel living (record s' { position = start + 8 * size }))
]

-- The last free block, up to the end of the pool.
unfoldable pub sweep_end : ℕ → Sweeper → Result Sweeper
unfolding fill
sweep_end pool_end s =
    if ltb s.position pool_end
    then (let gap = (pool_end - s.position) / 8 in
        ok (record s { mem = fill s.mem s.position gap; free = insert (gap, s.position) s.free }))
    else if s.position == pool_end
    then ok s
    else abort

-- sweepy_sweep, for the pool that begins at `pool`.
unfoldable pub sweep : ℕ → List Living → Cmd (Unit {0})
unfolding sweep_loop sweep_end
sweep pool living s =
    let start : Sweeper = record { mem = s.mem; free = []; position = pool } in
    Result.◌>>=◌ (sweep_loop (suc (length living)) living start) (λ (looped : Sweeper).
      Result.◌>>=◌ (sweep_end (pool + 8 * pool_size) looped)
        (λ (done : Sweeper). ok (tt, record s { mem = done.mem; free_memory = done.free })))
