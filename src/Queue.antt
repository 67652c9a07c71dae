-- ===== src/Queue.antt =====
-- The queue with many senders of src/generic_ipc.h, in shared memory of `mmap_size` words, as the
-- code of one process runs while no other moves the queue's positions. An index counts words from
-- memory_location; the words 0, 1 and 2 are the positions.
pub mod Layout
pub mod Fifo
pub mod WrapAround
mod Tests
use super_searcher.Base.{
  ℕ, zero, suc, ◌+◌, ◌-◌, ◌%◌, ◌^◌, Bool, true, false, not, List, [], ◌∷◌, ◌==◌, ltb, leb,
  if◌then◌else◌, length,
}
use super_searcher.Base.Result.{Result, ok, abort, out_of_fuel, ◌>>=◌, ◌>>◌, check}

-- msqh_size
abbrev pub header : ℕ
header = 3

-- The words of the mapping.
abbrev pub Words : Type 0
Words = ℕ → ℕ

unfoldable pub put : Words → ℕ → ℕ → Words
put q i v j = if j == i then v else q j

abbrev pub sender_reserve_position : Words → ℕ
sender_reserve_position q = q 0

abbrev pub sender_done_position : Words → ℕ
sender_done_position q = q 1

abbrev pub user_position : Words → ℕ
user_position q = q 2

unfoldable pub initialize : Words → Words
initialize q = put (put (put q 0 header) 1 header) 2 header

unfoldable pub should_load : Words → Bool
should_load q = not (sender_done_position q == user_position q)

-- The loop of commit_memory: it waits until all earlier senders are done.
unfoldable pub commit_loop : ℕ → ℕ → ℕ → Words → Result Words
commit_loop zero initial final q = out_of_fuel
commit_loop (suc fuel) initial final q =
    let again = commit_loop fuel initial final q in
    if sender_done_position q == initial then ok (put q 1 final) else again

module _ (mmap_size : ℕ) where
  -- The receiver's next position.
  unfoldable pub user_next : ℕ → ℕ
  user_next offset = if ltb mmap_size offset then header else offset + 1

  -- get_next_value
  unfoldable pub get_next_value : Words → ℕ × Words
  get_next_value q = let offset = user_position q in (q offset, put q 2 (user_next offset))

  -- The end of a reservation, in allocate_memory.
  unfoldable pub ending_location : ℕ → ℕ → ℕ
  ending_location start elements =
      if leb mmap_size (start + elements)
      then start + elements - (mmap_size - header)
      else start + elements

  -- `elements < mmap_size - msqh_size - 20`, in 64-bit words.
  unfoldable pub is_small : ℕ → Bool
  is_small elements = ltb elements ((mmap_size + 2 ^ 64 - (header + 20)) % 2 ^ 64)

  -- allocate_memory; its exchange succeeds at once, since nobody else moves the position.
  unfoldable pub allocate_memory : ℕ → Words → Result (ℕ × Words)
  unfolding is_small
  allocate_memory elements q = do
    check (is_small elements)
    let start = sender_reserve_position q
    ok (start, put q 0 (ending_location start elements))

  unfoldable pub next_offset : ℕ → ℕ
  next_offset offset = if offset + 1 == mmap_size then header else offset + 1

  -- The writes of write_values.
  unfoldable pub write_from : ℕ → List ℕ → Words → Words
  unfolding next_offset
  write_from offset [] q = q
  write_from offset (v ∷ vs) q = write_from (next_offset offset) vs (put q offset v)

  unfoldable pub final_offset : ℕ → ℕ → ℕ
  final_offset initial size =
      if ltb mmap_size (initial + size)
      then initial + size - (mmap_size - header)
      else initial + size

  unfoldable pub commit_memory : ℕ → ℕ → ℕ → Words → Result Words
  unfolding commit_loop final_offset
  commit_memory fuel initial size q = commit_loop fuel initial (final_offset initial size) q

  -- write_values
  unfoldable pub write_values : ℕ → List ℕ → Words → Result Words
  unfolding allocate_memory write_from
  write_values fuel values q = do
    check (ltb 0 (length values))
    check (is_small (length values))
    (offset, reserved) ← allocate_memory (length values) q
    commit_memory fuel offset (length values) (write_from offset values reserved)
