-- ===== src/Memory.antt =====
-- The memory pool of src/memory.cpp: the table of free blocks and the allocator. Addresses are in
-- bytes and sizes in words, as in the source, where pointers to uint64_t are moved by words.
pub mod State
pub mod Blocks
pub mod Allocate
pub mod BestFit
pub mod Sweep
pub mod Objects
pub mod Functions
pub mod Living
mod Tests
use super_searcher.Base.{
  ℕ, ◌+◌, ◌-◌, ◌*◌, ◌%◌, ◌^◌, Bool, true, false, not, Option, none, some, List, ◌==◌, ltb, leb,
  if◌then◌else◌, get_elem?,
}
use super_searcher.Base.Result.{Result, ok, abort}
use State.{Machine, Cmd}
use Blocks.{Block, lower_bound, upper_bound, erase_at, insert}

-- The end of `allocate` for a block that is too big: hand out its front, put back the rest.
split_block : ℕ → List Block → ℕ → Option (ℕ × List Block)
split_block size free k = elim (get_elem? free k) [
  | none ↦ none
  | some (found_size, found_place) ↦
      some (found_place, insert (found_size - size, found_place + 8 * size) (erase_at free k))
]

-- The part of `allocate` behind its checks, `none` for a call of `error()`: take a block out of the
-- table. The search for a better spot is kept although no block needs it.
unfoldable pub take_block : ℕ → List Block → Option (ℕ × List Block)
unfolding split_block
take_block size free = elim (get_elem? free (lower_bound size free)) [
  | none ↦ none
  | some (found_size, found_place) ↦
      if found_size == size
      then some (found_place, erase_at free (lower_bound size free))
      else if leb size found_size
      then (if ltb found_size (size + 1)
          then split_block size free (upper_bound size free)
          else split_block size free (lower_bound size free))
      else none
]

-- allocate: `free_memory_count` is a 64-bit word, and `allocate` lowers it before any check.
unfoldable pub allocate : ℕ → Cmd ℕ
unfolding take_block
allocate size s =
    if size == 0
    then abort
    else if s.being_traced
    then abort
    else elim (take_block size s.free_memory) [
      | none ↦ abort
      | some (place, free) ↦ ok (
        place,
        record s {
          free_memory = free;
          free_memory_count = (s.free_memory_count + 2 ^ 64 - size) % 2 ^ 64;
        },
      )
    ]
