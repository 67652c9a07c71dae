-- ===== src/Memory/Living.antt =====
-- `found_living_object` of src/memory.cpp, which fills living_objects while a trace runs. HEURISTIC
-- is off, as in the source.
pub mod Found
mod Tests
use super_searcher.Base.{
  ℕ, ◌+◌, ◌-◌, ◌*◌, ◌%◌, ◌^◌, Bool, true, false, not, List, [], ◌∷◌, ◌==◌, ltb, leb, if◌then◌else◌,
}
use super_searcher.Base.Result.{Result, ok, abort, out_of_fuel, ◌>>=◌, ◌>>◌, check}
use super_searcher.Memory.Sweep.{Living, pool_size}

-- map::find, as a test.
unfoldable pub is_living : ℕ → List Living → Bool
is_living a [] = false
is_living a ((b, n) ∷ rest) = if a == b then true else is_living a rest

-- map::insert of an address that is no key yet.
unfoldable pub insert_living : Living → List Living → List Living
insert_living (a, n) [] = (a, n) ∷ []
insert_living (a, n) ((b, k) ∷ rest) =
    if ltb a b then (a, n) ∷ (b, k) ∷ rest else (b, k) ∷ insert_living (a, n) rest

-- found_living_object, for the pool that begins at `pool`: was the object there already? Then the
-- new living_objects and the new free_memory_count, a 64-bit word.
unfoldable pub found_living_object : ℕ → ℕ → ℕ → List Living → ℕ → Result (Bool × List Living × ℕ)
found_living_object pool memory size living free_memory_count = do
  check (not (size == 0))
  check (not (memory == 0))
  check (leb pool memory)
  check (leb (memory + 8 * size) (pool + 8 * pool_size))
  if is_living memory living
      then ok (true, living, free_memory_count)
      else ok
          (false, insert_living (memory, size) living, (free_memory_count + 2 ^ 64 - size) % 2 ^ 64)
