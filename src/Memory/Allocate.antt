-- ===== src/Memory/Allocate.antt =====
-- What `allocate` of src/memory.cpp does to the table of free blocks.
use super_searcher.Base.{
  ℕ, ◌+◌, ◌*◌, ◌-◌, ◌%◌, ◌^◌, ◌≤◌, ◌<◌, ◌≡◌, refl, sym, ◌∙◌, ◌⊎◌, inl, inr, true, false, none, some,
  List, ◌==◌, ltb, leb, if◌then◌else◌, Bool-cases, eq_of_==, Option-cases, get_elem?, All, arith,
}
use super_searcher.Base.Result.{ok, abort}
use super_searcher.Memory.{take_block, split_block, allocate}
use super_searcher.Memory.State.{Machine}
use super_searcher.Memory.Blocks.{
  Block, lower_bound, erase_at, insert, within, covered, total, covered-insert, total-insert,
  covered-erase_at, total-erase_at, lower_bound-le, lower_bound-none,
}

-- A block is the disjoint union of its front and the rest.
within-split :
    (n size p a : ℕ)
    → size ≤ n
    → within (n, p) a ≡ within (size, p) a + within (n - size, p + 8 * size) a
within-split n size p a h = ground arith

-- What is left of the table when the front of a block of `n` words at `p` is handed out.
abbrev pub remainder : ℕ → ℕ → ℕ → List Block → List Block
remainder size n p rest = if n == size then rest else insert (n - size, p + 8 * size) rest

pub take_block-found :
    (size : ℕ) (free : List Block) (n p : ℕ)
    → get_elem? free (lower_bound size free) ≡ some (n, p)
    → take_block size free ≡ some (p, remainder size n p (erase_at free (lower_bound size free)))
unfolding take_block split_block
take_block-found size free n p e =
    let big = lower_bound-le size free (n, p) e in
    rw (e, take_block)
      (elim (Bool-cases (n == size)) [
        | inl exact ↦ rw exact refl
        | inr larger ↦
            rw (larger, le→leb size n big, not_ltb_suc size n big larger, e, split_block) refl
      ])
  where
    le→leb : (x y : ℕ) → x ≤ y → leb x y ≡ true
    le→leb x y h = ground arith

    not_ltb_suc : (x y : ℕ) → x ≤ y → (y == x) ≡ false → ltb y (x + 1) ≡ false
    not_ltb_suc x y h h' = ground arith

pub take_block-none :
    (size : ℕ) (free : List Block)
    → get_elem? free (lower_bound size free) ≡ none
    → take_block size free ≡ none
unfolding take_block
take_block-none size free out = rw (out, take_block) refl

covered-remainder :
    (size n p : ℕ) (rest : List Block) (a : ℕ)
    → size ≤ n
    → within (size, p) a + covered (remainder size n p rest) a ≡ within (n, p) a + covered rest a
covered-remainder size n p rest a h = elim (Bool-cases (n == size)) [
  | inl exact ↦ rw exact (let e = eq_of_== n size exact in rw e refl)
  | inr larger ↦
      rw larger
        (omega (arith, covered-insert (n - size, p + 8 * size) rest a, within-split n size p a h))
]

total-remainder :
    (size n p : ℕ) (rest : List Block)
    → size ≤ n
    → size + total (remainder size n p rest) ≡ n + total rest
total-remainder size n p rest h = elim (Bool-cases (n == size)) [
  | inl exact ↦ rw exact (let e = eq_of_== n size exact in rw e refl)
  | inr larger ↦ rw larger (omega (arith, total-insert (n - size, p + 8 * size) rest))
]

-- The outcome of `take_block`: it fails exactly when every block is too small, and otherwise splits
-- the table.
pub take_block-cases :
    (size : ℕ) (free : List Block)
    → ((take_block size free ≡ none) × All (λ b. b.0 < size) free)
      ⊎ ((place : ℕ) × (free' : List Block) × (take_block size free ≡ some (place, free'))
          × ((a : ℕ) → covered free a ≡ within (size, place) a + covered free' a)
          × (total free ≡ size + total free'))
unfolding take_block
take_block-cases size free = elim (Option-cases (get_elem? free (lower_bound size free))) [
  | inl out ↦ inl (take_block-none size free out, lower_bound-none size free out)
  | inr ((n, p), e) ↦
      let big = lower_bound-le size free (n, p) e in
      let rest = erase_at free (lower_bound size free) in
      inr (
        p,
        remainder size n p rest,
        take_block-found size free n p e,
        λ a. covered-erase_at free _ (n, p) a e ∙ sym (covered-remainder size n p rest a big),
        total-erase_at free _ (n, p) e ∙ sym (total-remainder size n p rest big),
      )
]

-- What holds of the table of free blocks between calls: no byte is in two blocks, and the count of
-- free words is right.
pub record IsTable (s : Machine) : Type 0 where
  pub disjoint : (a : ℕ) → covered s.free_memory a ≤ 1
  pub counted : s.free_memory_count ≡ total s.free_memory
  pub is_word : total s.free_memory < 2 ^ 64

-- What `allocate` comes to when it hands out `size` words at `place`.
pub record Allocated (size : ℕ) (s : Machine) (place : ℕ) (s' : Machine) : Type 0 where
  pub returns : allocate size s ≡ ok (place, s')
  pub splits : (a : ℕ) → covered s.free_memory a ≡ within (size, place) a + covered s'.free_memory a
  pub table : IsTable s'
  pub keeps : (s'.mem ≡ s.mem) × (s'.being_traced ≡ false)

-- While no trace runs, a request for some words ends the program exactly when every free block is
-- too small. Otherwise it returns words that were free, are free no longer, and share no byte with
-- what is left in the table; memory is not written and the table stays sound.
pub allocate-cases :
    (size : ℕ) (s : Machine)
    → 0 < size
    → s.being_traced ≡ false
    → IsTable s
    → ((allocate size s ≡ abort) × All (λ b. b.0 < size) s.free_memory)
      ⊎ ((place : ℕ) × (s' : Machine) × Allocated size s place s')
unfolding allocate
allocate-cases size s pos idle ok_table = elim (take_block-cases size s.free_memory) [
  | inl (e, small) ↦ inl (rw (not_zero size pos, idle, e) refl, small)
  | inr (place, free', e, splits, words) ↦ inr (
    place,
    record s {
      free_memory = free';
      free_memory_count = (s.free_memory_count + 2 ^ 64 - size) % 2 ^ 64;
    },
    record {
      returns = simp (not_zero size pos, idle, e);
      splits = splits;
      table = record {
        disjoint = λ a. omega (arith, ok_table.disjoint a, splits a);
        counted = omega (arith, ok_table.counted, ok_table.is_word);
        is_word = omega (arith, ok_table.is_word);
      };
      keeps = (refl, idle);
    },
  )
]
  where
    not_zero : (n : ℕ) → 0 < n → (n == 0) ≡ false
    not_zero n h = ground arith

-- A request for no words, and any request during a trace, ends the program.
pub allocate-abort :
    (size : ℕ) (s : Machine) → ((size ≡ 0) ⊎ (s.being_traced ≡ true)) → allocate size s ≡ abort
unfolding allocate
allocate-abort size s (inl e) = rw e refl
allocate-abort size s (inr e) = ground arith
