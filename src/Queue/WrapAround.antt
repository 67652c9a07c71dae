-- ===== src/Queue/WrapAround.antt =====
-- What the queue of src/generic_ipc.h does at the end of its memory.
use super_searcher.Base.{
  ℕ, ap, zero, suc, ◌+◌, ◌-◌, ◌≤◌, ◌<◌, ◌^◌, ◌≡◌, refl, ◌∙◌, ◌⊎◌, inl, inr, List, [], ◌∷◌, ◌==◌,
  length, true, false, ltb, arith,
}
use super_searcher.Base.Result.{ok, out_of_fuel}
use super_searcher.Queue.{
  Words, header, put, user_next, next_offset, ending_location, is_small, write_from, final_offset,
  commit_loop, commit_memory, write_values, get_next_value,
}
use super_searcher.Queue.Layout.{put-ne, put_self, write_from-outside}
use super_searcher.Queue.Fifo.{Holds}

-- commit_memory waits as long as the position of the senders that are done is another one.
commit_loop-waits :
    (fuel initial final : ℕ) (q : Words)
    → (q 1 == initial) ≡ false
    → commit_loop fuel initial final q ≡ out_of_fuel
unfolding commit_loop
commit_loop-waits zero initial final q h = refl
commit_loop-waits (suc fuel) initial final q h = rw h (commit_loop-waits fuel initial final q h)

nonzero : (n : ℕ) → 0 < n → ltb 0 n ≡ true
nonzero n h = ground arith

is_small-le :
    (mmap_size n : ℕ)
    → 23 ≤ mmap_size
    → mmap_size < 2 ^ 64
    → is_small mmap_size n ≡ true
    → n + 23 < mmap_size
unfolding is_small
is_small-le mmap_size n big fits h = ground arith

-- The words that a sender leaves whose values fill the memory exactly.
abbrev filled : ℕ → List ℕ → Words → Words
filled mmap_size values q = put (write_from mmap_size (q 0) values (put q 0 header)) 1 mmap_size

write_values-filled :
    (mmap_size fuel : ℕ) (values : List ℕ) (q : Words)
    → header ≤ q 0
    → q 0 ≡ q 1
    → 0 < length values
    → is_small mmap_size (length values) ≡ true
    → q 0 + length values ≡ mmap_size
    → write_values mmap_size (suc fuel) values q ≡ ok (filled mmap_size values q)
unfolding write_values commit_memory commit_loop
write_values-filled mmap_size fuel values q low settled some_values small full = rw (
  nonzero (length values) some_values,
  small,
  ending (q 0) (length values) low full,
  final (q 0) (length values) full,
  my_turn,
)
  where
    ending : (a n : ℕ) → header ≤ a → a + n ≡ mmap_size → ending_location mmap_size a n ≡ header
    ending a n l h = unfold ending_location in ground arith

    final : (a n : ℕ) → a + n ≡ mmap_size → final_offset mmap_size a n ≡ mmap_size
    final a n h = unfold final_offset in ground arith

    my_turn : (write_from mmap_size (q 0) values (put q 0 header) 1 == q 0) ≡ true
    my_turn =
        rw
          (
            write_from-outside mmap_size (q 0) values (put q 0 header) 1 (omega arith)
                (inl (omega arith)),
            put-ne q 0 header 1 (omega arith),
            settled,
          )
          (ground arith)

-- A sender that finds the reservations back at the start, and the finished ones at the end, never
-- returns.
write_values-waits :
    (mmap_size fuel : ℕ) (values : List ℕ) (q : Words)
    → q 0 ≡ header
    → q 1 ≡ mmap_size
    → header < mmap_size
    → 0 < length values
    → is_small mmap_size (length values) ≡ true
    → length values + 23 < mmap_size
    → write_values mmap_size fuel values q ≡ out_of_fuel
unfolding write_values commit_memory
write_values-waits mmap_size fuel values q reserve done room some_values small fits =
    rw (nonzero (length values) some_values, small, reserve)
      (commit_loop-waits fuel header _ _ not_my_turn)
  where
    not_my_turn :
        (write_from mmap_size header values
            (put q 0 (ending_location mmap_size header (length values)))
            1
          == header)
        ≡ false
    not_my_turn =
        rw
          (
            write_from-outside mmap_size header values
                (put q 0 (ending_location mmap_size header (length values))) 1 (omega arith)
                (inl (omega arith)),
            put-ne q 0 (ending_location mmap_size header (length values)) 1 (omega arith),
            done,
          )
          (ground arith)

-- The end of a reservation wraps at `mmap_size`, the end of a commit only beyond it. So once a
-- message ends exactly at the end of the memory, the position of finished senders stands at
-- `mmap_size` and that of reservations at the start, and every later call of write_values waits
-- for ever.
pub senders_deadlock :
    (mmap_size fuel : ℕ) (values pending : List ℕ) (q : Words)
    → 23 ≤ mmap_size
    → mmap_size < 2 ^ 64
    → Holds mmap_size q pending
    → 0 < length values
    → is_small mmap_size (length values) ≡ true
    → q 0 + length values ≡ mmap_size
    → (q' : Words) × (write_values mmap_size (suc fuel) values q ≡ ok q')
      × (q' 0 ≡ header)
      × (q' 1 ≡ mmap_size)
      × ((fuel' : ℕ) (more : List ℕ)
          → 0 < length more
          → is_small mmap_size (length more) ≡ true
          → write_values mmap_size fuel' more q' ≡ out_of_fuel)
senders_deadlock mmap_size fuel values pending q big fits h some_values small full =
    let low : header ≤ q 0 = omega (arith, h.settled, h.ahead, h.behind_header) in
    let reserve : filled mmap_size values q 0 ≡ header =
      put-ne _ 1 mmap_size 0 (omega arith)
      ∙ write_from-outside mmap_size (q 0) values _ 0 (omega arith) (inl (omega arith))
      ∙ put_self q 0 header in
    let done : filled mmap_size values q 1 ≡ mmap_size = put_self _ 1 mmap_size in
    (
      filled mmap_size values q,
      write_values-filled mmap_size fuel values q low h.settled some_values small full,
      reserve,
      done,
      λ fuel' more some_more more_small.
          write_values-waits mmap_size fuel' more _ reserve done (omega arith) some_more more_small
            (is_small-le mmap_size (length more) big fits more_small),
    )

next_offset-inside :
    (mmap_size offset : ℕ)
    → header ≤ offset
    → offset < mmap_size
    → (header ≤ next_offset mmap_size offset) × (next_offset mmap_size offset < mmap_size)
unfolding next_offset
next_offset-inside mmap_size offset low room = ground arith

-- A sender whose position lies inside the memory writes no word outside of it.
write_from-inside :
    (mmap_size offset : ℕ) (values : List ℕ) (q : Words) (j : ℕ)
    → header ≤ offset
    → offset < mmap_size
    → ((j < header) ⊎ (mmap_size ≤ j))
    → write_from mmap_size offset values q j ≡ q j
unfolding write_from
write_from-inside mmap_size offset [] q j low room out = refl
write_from-inside mmap_size offset (v ∷ vs) q j low room out =
    let (next_low, next_room) = next_offset-inside mmap_size offset low room in
    write_from-inside mmap_size (next_offset mmap_size offset) vs (put q offset v) j next_low
      next_room out
    ∙ put-ne q offset v j (omega arith)

-- The words that a sender leaves when no other sender is at work.
abbrev sent : ℕ → List ℕ → Words → Words
sent mmap_size values q =
    put
      (write_from mmap_size (q 0) values
        (put q 0 (ending_location mmap_size (q 0) (length values))))
      1 (final_offset mmap_size (q 0) (length values))

write_values-sent :
    (mmap_size fuel : ℕ) (values : List ℕ) (q : Words)
    → header ≤ q 0
    → q 0 < mmap_size
    → q 0 ≡ q 1
    → 0 < length values
    → is_small mmap_size (length values) ≡ true
    → write_values mmap_size (suc fuel) values q ≡ ok (sent mmap_size values q)
unfolding write_values commit_memory commit_loop
write_values-sent mmap_size fuel values q low room settled some_values small =
    rw (nonzero (length values) some_values, small, my_turn) refl
  where
    my_turn :
        (write_from mmap_size
            (q 0)
            values
            (put q 0 (ending_location mmap_size (q 0) (length values)))
            1
          == q 0)
        ≡ true
    my_turn =
        rw
          (
            write_from-inside mmap_size (q 0) values
                (put q 0 (ending_location mmap_size (q 0) (length values))) 1 low room
                (inl (omega arith)),
            put-ne q 0 (ending_location mmap_size (q 0) (length values)) 1 (omega arith),
            settled,
          )
          (ground arith)

-- The receiver reads this many values.
unfoldable pub read_values : ℕ → ℕ → Words → List ℕ × Words
read_values mmap_size zero q = ([], q)
read_values mmap_size (suc n) q =
    let (v, moved) = get_next_value mmap_size q in
    let (vs, last) = read_values mmap_size n moved in (v ∷ vs, last)

get_next_value-at :
    (mmap_size position : ℕ) (q : Words)
    → q 2 ≡ position
    → get_next_value mmap_size q ≡ (q position, put q 2 (user_next mmap_size position))
unfolding get_next_value
get_next_value-at mmap_size position q h = rw h refl

user_next-end :
    (mmap_size : ℕ)
    → header < mmap_size
    → (user_next mmap_size (mmap_size - 1) ≡ mmap_size)
      × (user_next mmap_size mmap_size ≡ mmap_size + 1)
      × (user_next mmap_size (mmap_size + 1) ≡ header)
unfolding user_next
user_next-end mmap_size room = (ground arith, ground arith, ground arith)

-- From the last word of the memory the receiver reads on behind its end.
read_values-end :
    (mmap_size : ℕ) (q : Words)
    → header < mmap_size
    → q 2 ≡ mmap_size - 1
    → ((read_values mmap_size 3 q).0 ≡ q (mmap_size - 1) ∷ q mmap_size ∷ q (mmap_size + 1) ∷ [])
      × ((read_values mmap_size 3 q).1 2 ≡ header)
unfolding read_values
read_values-end mmap_size q room h =
    let (last, after, back) = user_next-end mmap_size room in
    let beyond = put q 2 mmap_size in
    let further = put beyond 2 (mmap_size + 1) in
    let first : get_next_value mmap_size q ≡ (q (mmap_size - 1), beyond) =
      get_next_value-at mmap_size (mmap_size - 1) q h
      ∙ ap (λ p. (q (mmap_size - 1), put q 2 p)) last in
    let second : get_next_value mmap_size beyond ≡ (q mmap_size, further) =
      get_next_value-at mmap_size mmap_size beyond (put_self q 2 mmap_size)
      ∙ rw (put-ne q 2 mmap_size mmap_size (omega arith), after) refl in
    let third : get_next_value mmap_size further ≡ (q (mmap_size + 1), put further 2 header) =
      get_next_value-at mmap_size (mmap_size + 1) further (put_self beyond 2 (mmap_size + 1))
      ∙ rw
          (
            put-ne beyond 2 (mmap_size + 1) (mmap_size + 1) (omega arith),
            put-ne q 2 mmap_size (mmap_size + 1) (omega arith),
            back,
          )
          refl in
    rw (first, second, third) (refl, put_self further 2 header)

ending_location-inside :
    (mmap_size start n : ℕ)
    → header ≤ start
    → start < mmap_size
    → n + 23 < mmap_size
    → (header ≤ ending_location mmap_size start n) × (ending_location mmap_size start n < mmap_size)
unfolding ending_location
ending_location-inside mmap_size start n low room fits = ground arith

-- Let the memory have at least 23 and less than 2 ^ 64 words, the receiver stand at the last of them,
-- the reservations between the header and the end, and let no other sender be at work. A call of
-- write_values whose message is not empty and passes the check on its size succeeds; the
-- reservations stay between the header and the end, the receiver's position stays, and no word from
-- `mmap_size` on is written, whether the message wraps around or not. The receiver then gets from
-- its next three reads the last word and the two words at `mmap_size` and `mmap_size + 1`, as they
-- were before the sender ran; only then is it back behind the header.
pub receiver_overruns :
    (mmap_size fuel : ℕ) (values : List ℕ) (q : Words)
    → 23 ≤ mmap_size
    → mmap_size < 2 ^ 64
    → header ≤ q 0
    → q 0 < mmap_size
    → q 0 ≡ q 1
    → q 2 ≡ mmap_size - 1
    → 0 < length values
    → is_small mmap_size (length values) ≡ true
    → (q' : Words) × (write_values mmap_size (suc fuel) values q ≡ ok q')
      × (header ≤ q' 0)
      × (q' 0 < mmap_size)
      × (q' 2 ≡ q 2)
      × ((j : ℕ) → mmap_size ≤ j → q' j ≡ q j)
      × ((read_values mmap_size 3 q').0 ≡ q' (mmap_size - 1) ∷ q mmap_size ∷ q (mmap_size + 1) ∷ [])
      × ((read_values mmap_size 3 q').1 2 ≡ header)
receiver_overruns mmap_size fuel values q big fits low room settled user some_values small =
    let q' = sent mmap_size values q in
    let end = ending_location mmap_size (q 0) (length values) in
    let (end_low, end_room) =
      ending_location-inside mmap_size (q 0) (length values) low room
        (is_small-le mmap_size (length values) big fits small) in
    let reserve : q' 0 ≡ end =
      put-ne _ 1 _ 0 (omega arith)
      ∙ write_from-inside mmap_size (q 0) values _ 0 low room (inl (omega arith))
      ∙ put_self q 0 end in
    let kept : q' 2 ≡ q 2 =
      put-ne _ 1 _ 2 (omega arith)
      ∙ write_from-inside mmap_size (q 0) values _ 2 low room (inl (omega arith))
      ∙ put-ne q 0 end 2 (omega arith) in
    let outside : (j : ℕ) → mmap_size ≤ j → q' j ≡ q j = λ j out.
      put-ne _ 1 _ j (omega arith)
      ∙ write_from-inside mmap_size (q 0) values _ j low room (inr out)
      ∙ put-ne q 0 end j (omega arith) in
    let (reads, turned) = read_values-end mmap_size q' (omega arith) (kept ∙ user) in
    (
      q',
      write_values-sent mmap_size fuel values q low room settled some_values small,
      rw reserve end_low,
      rw reserve end_room,
      kept,
      outside,
      reads ∙ rw (outside mmap_size (omega arith), outside (mmap_size + 1) (omega arith)) refl,
      turned,
    )
