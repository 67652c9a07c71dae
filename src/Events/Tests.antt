-- ===== src/Events/Tests.antt =====
-- Runs of the handlers of user_admin, and the theorems there.
use super_searcher.Base.{
  ℕ, ◌≤◌, ◌<◌, ◌≡◌, ◌≢◌, refl, ◌⊎◌, true, false, [], ◌∷◌, ◌==◌, if◌then◌else◌, length, some,
  get_elem?, arith,
}
use super_searcher.Base.Result.{ok, abort}
use super_searcher.Queue.{Words, is_small}
use super_searcher.Queue.Fifo.{Holds}
use super_searcher.Events.{Admin, Slave, admin_handle_event, check_user, handle_queue_event}
use super_searcher.Events.Pings.{Pinged, admin_handle_event-cases, ping_reaches_admin}

-- A queue of 40 words with an aliveness_check to read, at 4.
abbrev asked : Words
asked i = if i == 0 then 5 else if i == 1 then 5 else if i == 2 then 4 else i

asked-Holds : Holds 40 asked (4 ∷ [])
asked-Holds = record {
  settled = refl;
  behind_header = omega arith;
  ahead = refl;
  inside = omega arith;
  cells = (refl, tt);
}

-- A queue with a ping of the user 4 to read.
abbrev pinged : Words
pinged i = if i == 0 then 5 else if i == 1 then 5 else if i == 2 then 3 else i

pinged-Holds : Holds 40 pinged (3 ∷ 4 ∷ [])
pinged-Holds = record {
  settled = refl;
  behind_header = omega arith;
  ahead = refl;
  inside = omega arith;
  cells = (refl, (refl, tt));
}

abbrev admin : Admin
admin = record {
  admin_receiver = pinged;
  time_of_last_ping = 1 ∷ 1 ∷ [];
  pinged_already = false ∷ true ∷ [];
}

-- The user's queue is at 100, the admin's, which is empty, at 200.
abbrev slave : Slave
slave = record {
  queues = λ a. if a == 100 then asked else (λ i. 3);
  citizen_mem = [];
  king_receive_mem = 0;
  admin_receive_mem = 200;
}

empty-Holds : Holds 40 (λ i. 3) []
empty-Holds = record {
  settled = refl;
  behind_header = omega arith;
  ahead = refl;
  inside = omega arith;
  cells = tt;
}

-- A user is silent for more than three seconds of ten ticks.
silent_user : check_user 40 1 10 100 60 0 (false ∷ []) asked ≡ abort
unfolding check_user
silent_user = refl

admin_handle_event-cases_example :
    (((◌≢◌ {A = ℕ} 3 3) ⊎ (length admin.time_of_last_ping ≤ 4))
      × (admin_handle_event 40 7 admin ≡ abort))
    ⊎ ((◌≡◌ {A = ℕ} 3 3)
        × (4 < length admin.time_of_last_ping)
        × ((s' : Admin) × (admin_handle_event 40 7 admin ≡ ok s') × Pinged 40 7 4 [] admin s'))
admin_handle_event-cases_example = admin_handle_event-cases 40 7 3 4 [] admin pinged-Holds

ping_reaches_admin_example :
    (s' : Slave) × (handle_queue_event 40 (λ id. id) 1 1 100 slave ≡ ok s')
    × Holds 40 (s'.queues 100) []
    × ((a : Admin) × (admin_handle_event 40 7 (record {
      admin_receiver = s'.queues 200;
      time_of_last_ping = 1 ∷ 1 ∷ [];
      pinged_already = false ∷ true ∷ [];
    })
          ≡ ok a)
        × Holds 40 a.admin_receiver []
        × (get_elem? a.time_of_last_ping 1 ≡ some 7)
        × (get_elem? a.pinged_already 1 ≡ some false))
unfolding is_small
ping_reaches_admin_example =
    ping_reaches_admin 40 0 7 1 100 (λ id. id) [] slave (1 ∷ 1 ∷ []) (false ∷ true ∷ []) asked-Holds
      empty-Holds (λ e. absurd (omega (arith, e))) refl (omega arith) (omega arith) refl
