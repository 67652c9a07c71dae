-- ===== src/Vector/Pushback.antt =====
-- `pushback` of src/vector.h over the allocator of src/memory.cpp.
use super_searcher.Base.{
  ℕ, ◌+◌, ◌*◌, ◌/◌, ◌≤◌, ◌<◌, ◌≡◌, refl, sym, ◌∙◌, ap, subst, ◌⊎◌, inl, inr, true, false, List, [],
  ◌∷◌, ◌++◌, length, ◌==◌, ltb, leb, Bool-cases, All, arith,
}
use super_searcher.Base.Result.{ok, abort}
use super_searcher.Memory.State.{Machine, write}
use super_searcher.Memory.Blocks.{covered}
use super_searcher.Memory.Allocate.{IsTable, Allocated, allocate-cases}
use super_searcher.Vector.{element, grow, pushback}
use super_searcher.Vector.Words.{Words, write-ne, write_self}
use super_searcher.Vector.Reads.{IsVector}
use super_searcher.Vector.Build.{
  Owned, Owned-apart, build_size, built, vector_build-ok, vector_build-abort, built-outside,
  built-IsVector, first_element,
}
use super_searcher.Vector.Steps.{
  append-IsVector, IsVector-frame, appended, pushback-grow, grow-room, grow-full, grow-abort,
  pushback-abort,
}

-- What holds where pushback is called: the word at `slot` holds the address of a vector, and neither
-- lies in a free block nor overlaps the other.
pub record Ready (slot p room : ℕ) (s : Machine) (xs : List ℕ) : Type 0 where
  pub table : IsTable s
  pub idle : s.being_traced ≡ false
  pub holds : s.mem slot ≡ p
  pub vector : IsVector s.mem p room xs
  pub owned : Owned s p (2 + room)
  pub slot_owned : Owned s slot 1
  pub apart : (slot + 8 ≤ p) ⊎ (p + 8 * (2 + room) ≤ slot)

-- What pushback leaves: the slot holds a vector with one element more, and other words in use are
-- as they were.
pub record Pushed (slot v p room : ℕ) (s : Machine) (xs : List ℕ) (s' : Machine) : Type 0 where
  pub returns : pushback slot v s ≡ ok (tt, s')
  pub place : ℕ
  pub room' : ℕ
  pub ready : Ready slot place room' s' (xs ++ v ∷ [])
  pub kept :
      (b : ℕ)
      → covered s.free_memory b ≡ 0
      → ((b < slot) ⊎ (slot < b))
      → ((b < p) ⊎ (p + 8 * (2 + room) ≤ b))
      → s'.mem b ≡ s.mem b

module _ (slot v p room : ℕ) (s : Machine) (xs : List ℕ) (r : Ready slot p room s xs) where
  fits_test : leb (s.mem (s.mem slot)) (s.mem (s.mem slot + 8)) ≡ true
  fits_test = rw (r.holds, r.vector.size, r.vector.reserved) (ground (arith, r.vector.fits))

  pushback-room : length xs < room → (s' : Machine) × Pushed slot v p room s xs s'
  pushback-room space =
      let not_full : (s.mem (s.mem slot) == s.mem (s.mem slot + 8)) ≡ false =
        rw (r.holds, r.vector.size, r.vector.reserved) (ground arith) in
      let m' = appended s.mem p (length xs) v in
      (
        record s { mem = m' },
        record {
          returns =
              pushback-grow slot v p (length xs) s s fits_test (grow-room slot s not_full) r.holds
                r.vector.size;
          place = p;
          room' = room;
          ready = record {
            table = record {
              disjoint = r.table.disjoint;
              counted = r.table.counted;
              is_word = r.table.is_word;
            };
            idle = r.idle;
            holds =
                write-ne _ p _ slot (omega (arith, r.apart))
                ∙ write-ne s.mem _ v slot (omega (arith, r.apart))
                ∙ r.holds;
            vector = append-IsVector s.mem p room _ xs v r.vector space refl;
            owned = r.owned;
            slot_owned = r.slot_owned;
            apart = r.apart;
          };
          kept = λ b used not_slot out.
              write-ne _ p _ b (omega arith) ∙ write-ne s.mem _ v b (omega arith);
        },
      )

  -- The relocation: `t` is what allocate leaves.
  moved :
      (place : ℕ) (t : Machine)
      → room ≡ length xs
      → Allocated (build_size room) s place t
      → (s' : Machine) × Pushed slot v p room s xs s'
  moved place t full got =
      let big = 3 + room + room / 2 in
      let m1 = built t.mem place (element p 0) room in
      let m2 = write m1 slot place in
      let u : Machine = record t { mem = m2 } in
      let old_apart : (p + 8 * (2 + room) ≤ place) ⊎ (place + 8 * build_size room ≤ p) =
        Owned-apart s t (build_size room) place p (2 + room) (omega arith) (omega arith) r.owned
          got in
      let slot_apart : (slot + 8 * 1 ≤ place) ⊎ (place + 8 * build_size room ≤ slot) =
        Owned-apart s t (build_size room) place slot 1 (omega arith) (omega arith) r.slot_owned
          got in
      let words : Words t.mem (element p 0) xs =
        subst (λ m. Words m (element p 0) xs) (sym got.keeps.0)
          (subst (λ a. Words s.mem a xs) (sym (first_element p)) r.vector.contents) in
      let copied : IsVector m1 place big xs =
        built-IsVector t.mem place (element p 0) room xs full (omega arith) words in
      let relocated : IsVector m2 place big xs =
        IsVector-frame m1 m2 place big xs (λ b lo hi. write-ne m1 slot place b (omega arith))
          copied in
      let built_step = vector_build-ok (element p 0) room place s t got.returns in
      let grown : grow slot s ≡ ok (tt, u) =
        grow-full slot p room place s (record t { mem = m1 }) r.holds (r.vector.size ∙ sym full)
          r.vector.reserved built_step in
      (
        record t { mem = appended m2 place (length xs) v },
        record {
          returns =
              pushback-grow slot v place (length xs) s u fits_test grown (write_self m1 slot place)
                relocated.size;
          place = place;
          room' = big;
          ready = record {
            table = record {
              disjoint = got.table.disjoint;
              counted = got.table.counted;
              is_word = got.table.is_word;
            };
            idle = got.keeps.1;
            holds =
                write-ne _ place _ slot (omega arith)
                ∙ write-ne m2 _ v slot (omega arith)
                ∙ write_self m1 slot place;
            vector = append-IsVector m2 place big _ xs v relocated (omega arith) refl;
            owned = λ b lo hi. taken b (omega arith) (omega arith);
            slot_owned = λ b lo hi. omega (arith, r.slot_owned b lo hi, got.splits b);
            apart = omega arith;
          };
          kept = λ b used not_slot out.
              let away : (b < place) ⊎ (place + 8 * build_size room ≤ b) = used_outside b used in
              write-ne _ place _ b (omega arith)
              ∙ write-ne m2 _ v b (omega arith)
              ∙ write-ne m1 slot place b (omega arith)
              ∙ built-outside t.mem place (element p 0) room b away
              ∙ ap (λ m. m b) got.keeps.0;
        },
      )
    where
      taken : (b : ℕ) → place ≤ b → b < place + 8 * build_size room → covered t.free_memory b ≡ 0
      taken b lo hi = ground (arith, got.splits b, r.table.disjoint b)

      used_outside :
          (b : ℕ) → covered s.free_memory b ≡ 0 → (b < place) ⊎ (place + 8 * build_size room ≤ b)
      used_outside b used = ground (arith, got.splits b)

  pushback-full :
      room ≡ length xs
      → ((pushback slot v s ≡ abort) × All (λ b. b.0 < build_size room) s.free_memory)
        ⊎ ((s' : Machine) × Pushed slot v p room s xs s')
  pushback-full full =
      let size : s.mem p ≡ room = r.vector.size ∙ sym full in
      elim (allocate-cases (build_size room) s (omega arith) r.idle r.table) [
        | inl (failed, small) ↦ inl (
          pushback-abort slot v s fits_test (
              grow-abort slot p room s r.holds size r.vector.reserved
                (vector_build-abort _ room s failed)),
          small,
        )
        | inr (place, t, got) ↦ inr (moved place t full got)
      ]

-- A call of pushback on a vector ends the program exactly if the vector is full and no free block
-- has room for the bigger one. Otherwise it appends the value: the slot holds a vector with the old
-- elements and the new one behind them, in place or in a fresh block that the old vector was copied
-- to, and every other word in use is left as it was.
pub pushback-append :
    (slot v p room : ℕ) (s : Machine) (xs : List ℕ)
    → Ready slot p room s xs
    → ((pushback slot v s ≡ abort)
        × (room ≡ length xs)
        × All (λ b. b.0 < build_size room) s.free_memory)
      ⊎ ((s' : Machine) × Pushed slot v p room s xs s')
pushback-append slot v p room s xs r = elim (Bool-cases (ltb (length xs) room)) [
  | inl space ↦ inr (pushback-room slot v p room s xs r (ground arith))
  | inr no_space ↦
      let full : room ≡ length xs = ground (arith, r.vector.fits) in
      elim (pushback-full slot v p room s xs r full) [
        | inl (failed, small) ↦ inl (failed, full, small)
        | inr done ↦ inr done
      ]
]
