-- ===== src/Events/Pings.antt =====
-- Pings from a slave to the admin (user_admin/slave.cpp, user_admin/mmap.cpp).
use super_searcher.Base.{
  ℕ, zero, suc, ◌+◌, ◌≤◌, ◌<◌, ◌≡◌, ◌≢◌, refl, ◌⊎◌, inl, inr, Bool, true, false, List, [], ◌∷◌,
  ◌==◌, ltb, Bool-cases, if◌then◌else◌, length, some, get_elem?, arith,
}
use super_searcher.Base.Result.{ok, abort}
use super_searcher.Queue.{get_next_value, is_small}
use super_searcher.Queue.Fifo.{Holds, get_next_value-Holds, write_values-Holds}
use super_searcher.Events.{
  event_number, aliveness_check, existence_ping, set_at, Admin, Slave, admin_handle_event,
  next_from, write_to, handle_queue_event,
}

get_elem?-set_at :
    {A : Type 0}
    → (xs : List A) (i : ℕ) (v : A) → i < length xs
    → get_elem? (set_at xs i v) i ≡ some v
unfolding set_at
get_elem?-set_at [] i v lt = absurd (omega arith)
get_elem?-set_at (x ∷ xs) zero v lt = refl
get_elem?-set_at (x ∷ xs) (suc i) v lt = get_elem?-set_at xs i v (omega arith)

-- The admin after a ping of the user.
pub record Pinged (mmap_size now user : ℕ) (pending : List ℕ) (s s' : Admin) : Type 0 where
  pub holds : Holds mmap_size s'.admin_receiver pending
  pub times : s'.time_of_last_ping ≡ set_at s.time_of_last_ping user now
  pub pinged : s'.pinged_already ≡ set_at s.pinged_already user false

-- With two words pending, the admin ends with an error exactly if the first is no existence_ping or
-- the second is no user's number. Otherwise it takes both, the user's last ping is now, and the user
-- is no longer waited for.
pub admin_handle_event-cases :
    (mmap_size now event user : ℕ) (pending : List ℕ) (s : Admin)
    → Holds mmap_size s.admin_receiver (event ∷ user ∷ pending)
    → (((event ≢ 3) ⊎ (length s.time_of_last_ping ≤ user))
        × (admin_handle_event mmap_size now s ≡ abort))
      ⊎ ((event ≡ 3)
          × (user < length s.time_of_last_ping)
          × ((s' : Admin) × (admin_handle_event mmap_size now s ≡ ok s')
              × Pinged mmap_size now user pending s s'))
unfolding admin_handle_event
admin_handle_event-cases mmap_size now event user pending s h =
    let first = get_next_value-Holds mmap_size s.admin_receiver event (user ∷ pending) h in
    let second =
      get_next_value-Holds mmap_size (get_next_value mmap_size s.admin_receiver).1 user pending
        first.2 in
    elim (Bool-cases (event == 3)) [
      | inr other ↦ inl (inl (ground (arith, other)), rw (first.1, other) refl)
      | inl ping ↦ elim (Bool-cases (ltb user (length s.time_of_last_ping))) [
        | inr unknown ↦
            inl (inr (ground (arith, unknown)), rw (first.1, ping, second.1, unknown) refl)
        | inl known ↦ inr (
          ground (arith, ping),
          ground (arith, known),
          (
            _,
            rw (first.1, ping, second.1, known) refl,
            record { holds = second.2; times = refl; pinged = refl },
          ),
        )
      ]
    ]

-- What the slave has done once it has answered the admin.
record Answered (mmap_size memory : ℕ) (pending message : List ℕ) (s s' : Slave) : Type 0 where
  taken : Holds mmap_size (s'.queues memory) pending
  sent : Holds mmap_size (s'.queues s.admin_receive_mem) message

-- A slave answers an aliveness_check by a ping in the admin's queue.
handle_queue_event-Answered :
    (mmap_size fuel user memory : ℕ) (open_memory : ℕ → ℕ) (pending : List ℕ) (s : Slave)
    → Holds mmap_size (s.queues memory) (event_number aliveness_check ∷ pending)
    → Holds mmap_size (s.queues s.admin_receive_mem) []
    → s.admin_receive_mem ≢ memory
    → is_small mmap_size 2 ≡ true
    → s.queues s.admin_receive_mem 0 + 2 < mmap_size
    → (s' : Slave) × (handle_queue_event mmap_size open_memory (suc fuel) user memory s ≡ ok s')
      × Answered mmap_size memory pending (event_number existence_ping ∷ user ∷ []) s s'
unfolding handle_queue_event next_from write_to
handle_queue_event-Answered mmap_size fuel user memory open_memory pending s h admin apart small
      room =
    let first =
      get_next_value-Holds mmap_size (s.queues memory) (event_number aliveness_check) pending h in
    let other : (s.admin_receive_mem == memory) ≡ false = ground (arith, apart) in
    let back : (memory == s.admin_receive_mem) ≡ false = ground (arith, apart) in
    let self : (memory == memory) ≡ true = ground arith in
    let self' : (s.admin_receive_mem == s.admin_receive_mem) ≡ true = ground arith in
    let sent =
      write_values-Holds mmap_size fuel (event_number existence_ping ∷ user ∷ []) []
        (s.queues s.admin_receive_mem) admin (omega arith) small room in
    (
      record s {
        queues = λ a.
            if a == s.admin_receive_mem
            then sent.0
            else if a == memory
            then (get_next_value mmap_size (s.queues memory)).1
            else s.queues a;
      },
      rw (first.1, other, sent.1) refl,
      record { taken = rw (back, self) first.2; sent = rw self' sent.2 },
    )

ping_recorded :
    (mmap_size now user : ℕ) (s : Admin)
    → Holds mmap_size s.admin_receiver (event_number existence_ping ∷ user ∷ [])
    → user < length s.time_of_last_ping
    → length s.pinged_already ≡ length s.time_of_last_ping
    → (a : Admin) × (admin_handle_event mmap_size now s ≡ ok a)
      × Holds mmap_size a.admin_receiver []
      × (get_elem? a.time_of_last_ping user ≡ some now)
      × (get_elem? a.pinged_already user ≡ some false)
ping_recorded mmap_size now user s h known both =
    elim (admin_handle_event-cases mmap_size now 3 user [] s h) [
      | inl (inl other, failed) ↦ absurd (other refl)
      | inl (inr unknown, failed) ↦ absurd (omega arith)
      | inr done ↦
          let after = done.2.2 in
          (
            done.2.0,
            done.2.1,
            after.holds,
            rw after.times (get_elem?-set_at s.time_of_last_ping user now known),
            rw after.pinged (get_elem?-set_at s.pinged_already user false (omega arith)),
          )
    ]

-- An aliveness_check is answered. Take a slave whose next word is an aliveness_check, whose admin's
-- queue is empty, another one, and has room for two words, and an admin that knows the slave's
-- number. The slave handles the event without an error and keeps its other words; then the admin,
-- whatever it recorded before, handles an event without an error, has no word left, and records that
-- the slave's last ping is now and that it does not wait for it.
pub ping_reaches_admin :
    (mmap_size fuel now user memory : ℕ) (open_memory : ℕ → ℕ) (pending : List ℕ) (s : Slave)
    → (times : List ℕ) (waiting : List Bool)
    → Holds mmap_size (s.queues memory) (event_number aliveness_check ∷ pending)
    → Holds mmap_size (s.queues s.admin_receive_mem) []
    → s.admin_receive_mem ≢ memory
    → is_small mmap_size 2 ≡ true
    → s.queues s.admin_receive_mem 0 + 2 < mmap_size
    → user < length times
    → length waiting ≡ length times
    → (s' : Slave) × (handle_queue_event mmap_size open_memory (suc fuel) user memory s ≡ ok s')
      × Holds mmap_size (s'.queues memory) pending
      × ((a : Admin) × (admin_handle_event mmap_size now (record {
        admin_receiver = s'.queues s.admin_receive_mem;
        time_of_last_ping = times;
        pinged_already = waiting;
      })
            ≡ ok a)
          × Holds mmap_size a.admin_receiver []
          × (get_elem? a.time_of_last_ping user ≡ some now)
          × (get_elem? a.pinged_already user ≡ some false))
ping_reaches_admin mmap_size fuel now user memory open_memory pending s times waiting h admin apart
      small room known both =
    let slave =
      handle_queue_event-Answered mmap_size fuel user memory open_memory pending s h admin apart
        small room in
    (
      slave.0,
      slave.1,
      slave.2.taken,
      ping_recorded mmap_size now user
          (record {
            admin_receiver = slave.0.queues s.admin_receive_mem;
            time_of_last_ping = times;
            pinged_already = waiting;
          })
          slave.2.sent known both,
    )
