-- ===== src/Events.antt =====
-- The processes of user_admin: the events of src/generic_ipc.h, and how user_admin/mmap.cpp (the
-- admin) and user_admin/slave.cpp (the users and the king) handle them. The queues are those of
-- Queue. The clock, and the addresses at which open_memory maps a queue, are arguments; a thrown
-- exception and a call of error() end the process.
pub mod Pings
mod Tests
use super_searcher.Base.{
  ℕ, zero, suc, ◌+◌, ◌-◌, ◌*◌, Bool, true, false, not, List, [], ◌∷◌, ◌++◌, ◌==◌, ltb, leb,
  if◌then◌else◌, length, Option, none, some, get_elem?, ◌&&◌,
}
use super_searcher.Base.Result.{Result, ok, abort, ◌>>=◌, ◌>>◌, check}
use super_searcher.Queue.{Words, get_next_value, should_load, write_values}

-- enum events
pub data Event : Type 0 where
  file_id_of_king file_id_of_user file_id_of_admin existence_ping aliveness_check panic : Event

abbrev pub event_number : Event → ℕ
event_number file_id_of_king = 0
event_number file_id_of_user = 1
event_number file_id_of_admin = 2
event_number existence_ping = 3
event_number aliveness_check = 4
event_number panic = 5

-- One element of a std::vector overwritten.
unfoldable pub set_at {ℓ} : {A : Type ℓ} → List A → ℕ → A → List A
set_at [] i v = []
set_at (x ∷ xs) zero v = v ∷ xs
set_at (x ∷ xs) (suc i) v = x ∷ set_at xs i v

-- The globals of the admin; a time is a number of ticks of the clock.
pub record Admin : Type 0 where
  pub admin_receiver : Words
  pub time_of_last_ping : List ℕ
  pub pinged_already : List Bool

-- The globals of a slave, and the mappings that it has open, by address.
pub record Slave : Type 0 where
  pub queues : ℕ → Words
  pub citizen_mem : List ℕ
  pub king_receive_mem : ℕ
  pub admin_receive_mem : ℕ

module _ (mmap_size : ℕ) where
  -- admin_handle_event, at the time `now`.
  unfoldable pub admin_handle_event : ℕ → Admin → Result Admin
  unfolding set_at
  admin_handle_event now s =
      let first = get_next_value mmap_size s.admin_receiver in
      if first.0 == event_number existence_ping
      then (let second = get_next_value mmap_size first.1 in
          if ltb second.0 (length s.time_of_last_ping)
          then ok (record {
            admin_receiver = second.1;
            time_of_last_ping = set_at s.time_of_last_ping second.0 now;
            pinged_already = set_at s.pinged_already second.0 false;
          })
          else abort)
      else abort

  -- What the admin does about the user x, whose last ping was at `last`: the new pinged_already and
  -- the user's queue. A second has `second` ticks.
  unfoldable pub check_user : ℕ → ℕ → ℕ → ℕ → ℕ → List Bool → Words → Result (List Bool × Words)
  unfolding set_at
  check_user fuel second now last x pinged_already queue =
      if ltb second (now - last)
      then (if ltb (3 * second) (now - last) then abort else elim (get_elem? pinged_already x) [
        | none ↦ abort
        | some true ↦ ok (pinged_already, queue)
        | some false ↦ (do
          queue' ← write_values mmap_size fuel (event_number aliveness_check ∷ []) queue
          ok (set_at pinged_already x true, queue'))
      ])
      else ok (pinged_already, queue)

  -- A slave's queue with values written to it.
  unfoldable pub write_to : ℕ → ℕ → List ℕ → Slave → Result Slave
  write_to fuel location values s = do
    q ← write_values mmap_size fuel values (s.queues location)
    ok (record s { queues = λ a. if a == location then q else s.queues a })

  -- get_next_value, of the queue at the address.
  unfoldable pub next_from : ℕ → Slave → ℕ × Slave
  next_from location s =
      let next = get_next_value mmap_size (s.queues location) in
      (next.0, record s { queues = λ a. if a == location then next.1 else s.queues a })

  -- handle_queue_event, for the queue at the address `memory` in the process of the user
  -- `user_number`.
  unfoldable pub handle_queue_event : (ℕ → ℕ) → ℕ → ℕ → ℕ → Slave → Result Slave
  unfolding write_to next_from
  handle_queue_event open_memory fuel user_number memory s =
      let first = next_from memory s in
      if first.0 == event_number file_id_of_admin
      then (let admin_id = next_from memory first.1 in
          write_to fuel (open_memory admin_id.0) (event_number existence_ping ∷ user_number ∷ [])
            (record admin_id.1 { admin_receive_mem = open_memory admin_id.0 }))
      else if first.0 == event_number file_id_of_king
      then (let king_id = next_from memory first.1 in
          ok (record king_id.1 { king_receive_mem = open_memory king_id.0 }))
      else if first.0 == event_number file_id_of_user
      then (let citizen_id = next_from memory first.1 in
          do
            check (not (citizen_id.0 == 0) && (length s.citizen_mem == citizen_id.0 - 1))
            let shared = next_from memory citizen_id.1
            ok (record shared.1 { citizen_mem = s.citizen_mem ++ open_memory shared.0 ∷ [] }))
      else if first.0 == event_number aliveness_check
      then write_to fuel first.1.admin_receive_mem (event_number existence_ping ∷ user_number ∷ [])
          first.1
      else abort
