-- ===== src/Queue/Tests.antt =====
-- Runs of the queue of src/generic_ipc.h, and the theorems there.
use super_searcher.Base.{
  ℕ, ◌<◌, ◌≤◌, ◌≡◌, refl, true, List, [], ◌∷◌, ◌==◌, if◌then◌else◌, length, arith,
}
use super_searcher.Base.Result.{ok, out_of_fuel}
use super_searcher.Queue.{Words, header, should_load, get_next_value, is_small, write_values}
use super_searcher.Queue.Fifo.{Holds, get_next_value-Holds, write_values-Holds}
use super_searcher.Queue.WrapAround.{read_values, senders_deadlock, receiver_overruns}

-- A mapping of 40 words with two words to read, at 37 and 38.
abbrev two_words : Words
two_words i = if i == 0 then 39 else if i == 1 then 39 else if i == 2 then 37 else i

two_words-Holds : Holds 40 two_words (37 ∷ 38 ∷ [])
two_words-Holds = record {
  settled = refl;
  behind_header = omega arith;
  ahead = refl;
  inside = omega arith;
  cells = (refl, (refl, tt));
}

-- The same early in the memory.
abbrev early : Words
early i = if i == 0 then 5 else if i == 1 then 5 else if i == 2 then 4 else i

early-Holds : Holds 40 early (4 ∷ [])
early-Holds = record {
  settled = refl;
  behind_header = omega arith;
  ahead = refl;
  inside = omega arith;
  cells = (refl, tt);
}

get_next_value-Holds_example :
    (should_load two_words ≡ true)
    × ((get_next_value 40 two_words).0 ≡ 37)
    × Holds 40 (get_next_value 40 two_words).1 (38 ∷ [])
get_next_value-Holds_example = get_next_value-Holds 40 two_words 37 (38 ∷ []) two_words-Holds

write_values-Holds_example :
    (q' : Words) × (write_values 40 1 (8 ∷ 9 ∷ []) early ≡ ok q')
    × Holds 40 q' (4 ∷ 8 ∷ 9 ∷ [])
    × (q' 2 ≡ 4)
unfolding is_small
write_values-Holds_example =
    write_values-Holds 40 0 (8 ∷ 9 ∷ []) (4 ∷ []) early early-Holds (omega arith) refl (omega arith)

senders_deadlock_example :
    (q' : Words) × (write_values 40 1 (8 ∷ []) two_words ≡ ok q')
    × (q' 0 ≡ header)
    × (q' 1 ≡ 40)
    × ((fuel' : ℕ) (more : List ℕ)
        → 0 < length more
        → is_small 40 (length more) ≡ true
        → write_values 40 fuel' more q' ≡ out_of_fuel)
unfolding is_small
senders_deadlock_example =
    senders_deadlock 40 0 (8 ∷ []) (37 ∷ 38 ∷ []) two_words (omega arith) (omega arith)
      two_words-Holds (omega arith) refl refl

-- The senders have turned back, the receiver stands at the last word.
abbrev last_word : Words
last_word i = if i == 0 then 5 else if i == 1 then 5 else if i == 2 then 39 else i

receiver_overruns_example :
    (q' : Words) × (write_values 40 1 (8 ∷ 9 ∷ []) last_word ≡ ok q')
    × (header ≤ q' 0)
    × (q' 0 < 40)
    × (q' 2 ≡ 39)
    × ((j : ℕ) → 40 ≤ j → q' j ≡ last_word j)
    × ((read_values 40 3 q').0 ≡ q' 39 ∷ 40 ∷ 41 ∷ [])
    × ((read_values 40 3 q').1 2 ≡ header)
unfolding is_small
receiver_overruns_example =
    receiver_overruns 40 0 (8 ∷ 9 ∷ []) last_word (omega arith) (omega arith) (omega arith)
      (omega arith) refl refl (omega arith) refl
