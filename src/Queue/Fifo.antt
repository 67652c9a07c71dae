-- ===== src/Queue/Fifo.antt =====
-- Below the end of its memory, the queue of src/generic_ipc.h is first in, first out.
use super_searcher.Base.{
  ℕ, suc, ◌+◌, ◌≤◌, ◌<◌, ◌≡◌, refl, sym, ◌∙◌, ◌⊎◌, inl, List, [], ◌∷◌, ◌++◌, ◌==◌, length,
  length-append, true, false, ltb, if◌then◌else◌, arith,
}
use super_searcher.Base.Result.{ok}
use super_searcher.Queue.{
  Words, header, put, initialize, should_load, user_next, get_next_value, ending_location, is_small,
  write_from, final_offset, commit_loop, commit_memory, write_values,
}
use super_searcher.Queue.Layout.{
  Cells, put-ne, put_self, Cells-frame, Cells-append, write_from-outside, write_from-Cells,
}

-- No sender is at work, and the words that the receiver has still to read are these.
pub record Holds (mmap_size : ℕ) (q : Words) (pending : List ℕ) : Type 0 where
  pub settled : q 0 ≡ q 1
  pub behind_header : header ≤ q 2
  pub ahead : q 1 ≡ q 2 + length pending
  pub inside : q 1 < mmap_size
  pub cells : Cells q (q 2) pending

-- A queue fresh from `initialize` holds nothing.
pub initialize-Holds :
    (mmap_size : ℕ) (q : Words) → header < mmap_size → Holds mmap_size (initialize q) []
unfolding initialize put
initialize-Holds mmap_size q room = record {
  settled = refl;
  behind_header = omega arith;
  ahead = refl;
  inside = room;
  cells = tt;
}

-- The receiver is told to read exactly if some word is pending. Then it gets the oldest one, and the
-- others stay pending in their order.
pub get_next_value-Holds :
    (mmap_size : ℕ) (q : Words) (v : ℕ) (pending : List ℕ)
    → Holds mmap_size q (v ∷ pending)
    → (should_load q ≡ true)
      × ((get_next_value mmap_size q).0 ≡ v)
      × Holds mmap_size (get_next_value mmap_size q).1 pending
unfolding get_next_value user_next should_load
get_next_value-Holds mmap_size q v pending h =
    let straight : (if ltb mmap_size (q 2) then header else q 2 + 1) ≡ q 2 + 1 =
      ground (arith, h.inside, h.ahead) in
    (
      ground (arith, h.ahead),
      h.cells.0,
      rw straight (record {
        settled = put-ne q 2 _ 0 (omega arith) ∙ h.settled ∙ sym (put-ne q 2 _ 1 (omega arith));
        behind_header = rw (put_self q 2 (q 2 + 1)) (omega (arith, h.behind_header));
        ahead =
            rw (put-ne q 2 (q 2 + 1) 1 (omega arith), put_self q 2 (q 2 + 1))
              (omega (arith, h.ahead));
        inside = rw (put-ne q 2 (q 2 + 1) 1 (omega arith)) h.inside;
        cells = rw (put_self q 2 (q 2 + 1)) (
            Cells-frame q _ (q 2 + 1) pending
              (λ j lo hi. put-ne q 2 _ j (omega (arith, h.behind_header))) h.cells.1);
      }),
    )

pub should_load-Holds : (mmap_size : ℕ) (q : Words) → Holds mmap_size q [] → should_load q ≡ false
unfolding should_load
should_load-Holds mmap_size q h = ground (arith, h.ahead)

-- The words that a sender leaves, from its position on, where nothing wraps around.
abbrev written : ℕ → ℕ → List ℕ → Words → Words
written mmap_size start values q =
    let end = start + length values in put (write_from mmap_size start values (put q 0 end)) 1 end

written-outside :
    (mmap_size start : ℕ) (values : List ℕ) (q : Words) (j : ℕ)
    → start + length values < mmap_size
    → 2 ≤ j
    → ((j < start) ⊎ (start + length values ≤ j))
    → written mmap_size start values q j ≡ q j
written-outside mmap_size start values q j room low out =
    put-ne _ 1 _ j (omega arith)
    ∙ write_from-outside mmap_size start values _ j (omega arith) out
    ∙ put-ne q 0 _ j (omega arith)

write_values-written :
    (mmap_size fuel : ℕ) (values : List ℕ) (q : Words)
    → header ≤ q 0
    → q 0 ≡ q 1
    → 0 < length values
    → is_small mmap_size (length values) ≡ true
    → q 0 + length values < mmap_size
    → write_values mmap_size (suc fuel) values q ≡ ok (written mmap_size (q 0) values q)
unfolding write_values commit_memory commit_loop
write_values-written mmap_size fuel values q low settled some_values small room = rw (
  nonzero (length values) some_values,
  small,
  ending (q 0) (length values) room,
  final (q 0) (length values) room,
  my_turn,
)
  where
    nonzero : (n : ℕ) → 0 < n → ltb 0 n ≡ true
    nonzero n h = ground arith

    ending : (a n : ℕ) → a + n < mmap_size → ending_location mmap_size a n ≡ a + n
    ending a n h = unfold ending_location in ground arith

    final : (a n : ℕ) → a + n < mmap_size → final_offset mmap_size a n ≡ a + n
    final a n h = unfold final_offset in ground arith

    my_turn : (write_from mmap_size (q 0) values (put q 0 (q 0 + length values)) 1 == q 0) ≡ true
    my_turn =
        rw
          (
            write_from-outside mmap_size (q 0) values (put q 0 (q 0 + length values)) 1
                (omega arith) (inl (omega arith)),
            put-ne q 0 (q 0 + length values) 1 (omega arith),
            settled,
          )
          (ground arith)

-- Up to the end of the memory, write_values puts its words behind those that are pending, in one
-- round of its loop; it leaves the receiver's position alone.
pub write_values-Holds :
    (mmap_size fuel : ℕ) (values pending : List ℕ) (q : Words)
    → Holds mmap_size q pending
    → 0 < length values
    → is_small mmap_size (length values) ≡ true
    → q 0 + length values < mmap_size
    → (q' : Words) × (write_values mmap_size (suc fuel) values q ≡ ok q')
      × Holds mmap_size q' (pending ++ values)
      × (q' 2 ≡ q 2)
write_values-Holds mmap_size fuel values pending q h some_values small room =
    let q' = written mmap_size (q 0) values q in
    let user : q' 2 ≡ q 2 =
      written-outside mmap_size (q 0) values q 2 room (omega arith)
        (inl (omega (arith, h.settled, h.ahead, h.behind_header))) in
    let reserve : q' 0 ≡ q 0 + length values =
      put-ne _ 1 _ 0 (omega arith)
      ∙ write_from-outside mmap_size (q 0) values _ 0 (omega arith)
          (inl (omega (arith, h.settled, h.ahead, h.behind_header)))
      ∙ put_self q 0 _ in
    let done : q' 1 ≡ q 0 + length values = put_self _ 1 _ in
    (
      q',
      write_values-written mmap_size fuel values q
          (omega (arith, h.settled, h.ahead, h.behind_header)) h.settled some_values small room,
      record {
        settled = reserve ∙ sym done;
        behind_header = rw user h.behind_header;
        ahead = omega (arith, done, user, h.settled, h.ahead, length-append pending values);
        inside = rw done room;
        cells = rw user (
            Cells-append q' (q 2) (q 0) pending values
              (Cells-frame q q' (q 2) pending
                (λ j lo hi.
                  written-outside mmap_size (q 0) values q j room (omega (arith, h.behind_header))
                    (inl (omega (arith, h.settled, h.ahead))))
                h.cells)
              (h.settled ∙ h.ahead)
              (Cells-frame _ q' (q 0) values
                (λ j lo hi. put-ne _ 1 _ j (omega (arith, h.settled, h.ahead, h.behind_header)))
                (write_from-Cells mmap_size (q 0) values _ room)));
      },
      user,
    )
