-- ===== src/Memory/BestFit.antt =====
-- The order of `free_memory` (src/memory.cpp), and that `allocate` takes a smallest block that is
-- big enough.
use super_searcher.Base.{
  ℕ, zero, suc, ◌+◌, ◌-◌, ◌*◌, ◌==◌, ap, ◌∙◌, Option-cases, ◌≤◌, ◌≡◌, none, some, List, [], ◌∷◌,
  ltb, leb, get_elem?, All, arith, inl, inr, subst, Bool-cases,
}
use super_searcher.Base.Result.{ok}
use super_searcher.Memory.{take_block, allocate}
use super_searcher.Memory.State.{Machine}
use super_searcher.Memory.Allocate.{remainder, take_block-found, take_block-none}
use super_searcher.Memory.Blocks.{lower_bound-le, Block, lower_bound, erase_at, insert}

abbrev pub NotBelow : ℕ → List Block → Type 0
NotBelow n = All (λ b. n ≤ b.0)

-- The sizes do not fall along the list.
abbrev pub IsSorted : List Block → Type 0
IsSorted [] = Unit
IsSorted (b ∷ rest) = NotBelow b.0 rest × IsSorted rest

NotBelow-insert :
    (n : ℕ) (b : Block) (l : List Block) → n ≤ b.0 → NotBelow n l → NotBelow n (insert b l)
unfolding insert
NotBelow-insert n b [] h k = (h, tt)
NotBelow-insert n b (c ∷ rest) h k = elim (Bool-cases (leb c.0 b.0)) [
  | inl after ↦ rw after (k.0, NotBelow-insert n b rest h k.1)
  | inr before ↦ rw before (h, k)
]

NotBelow-mono : (m n : ℕ) (l : List Block) → m ≤ n → NotBelow n l → NotBelow m l
NotBelow-mono m n [] h k = tt
NotBelow-mono m n (b ∷ rest) h k = (omega arith, NotBelow-mono m n rest h k.1)

NotBelow-erase_at : (n k : ℕ) (l : List Block) → NotBelow n l → NotBelow n (erase_at l k)
unfolding erase_at
NotBelow-erase_at n k [] h = tt
NotBelow-erase_at n zero (b ∷ rest) h = h.1
NotBelow-erase_at n (suc k) (b ∷ rest) h = (h.0, NotBelow-erase_at n k rest h.1)

insert-IsSorted : (b : Block) (l : List Block) → IsSorted l → IsSorted (insert b l)
unfolding insert
insert-IsSorted b [] h = (tt, tt)
insert-IsSorted b (c ∷ rest) h = elim (Bool-cases (leb c.0 b.0)) [
  | inl after ↦ rw after (NotBelow-insert c.0 b rest (ground arith) h.0, insert-IsSorted b rest h.1)
  | inr before ↦
      let less : b.0 ≤ c.0 = ground arith in
      rw before ((less, NotBelow-mono b.0 c.0 rest less h.0), h)
]

erase_at-IsSorted : (k : ℕ) (l : List Block) → IsSorted l → IsSorted (erase_at l k)
unfolding erase_at
erase_at-IsSorted k [] h = tt
erase_at-IsSorted zero (b ∷ rest) h = h.1
erase_at-IsSorted (suc k) (b ∷ rest) h =
    (NotBelow-erase_at b.0 k rest h.0, erase_at-IsSorted k rest h.1)

-- In a sorted table, the block that `lower_bound` finds is a smallest one of those big enough.
lower_bound_smallest :
    (size : ℕ) (l : List Block) (b : Block)
    → IsSorted l
    → get_elem? l (lower_bound size l) ≡ some b
    → All (λ c. size ≤ c.0 → b.0 ≤ c.0) l
unfolding lower_bound
lower_bound_smallest size [] b h e = tt
lower_bound_smallest size (c ∷ rest) b h e = elim (Bool-cases (ltb c.0 size)) [
  | inl small ↦ (λ big. absurd (ground arith), lower_bound_smallest size rest b h.1 (rw small at e))
  | inr fits ↦
      let is : c ≡ b = first c rest (rw fits at e) in
      subst (λ d. All (λ x. size ≤ x.0 → d.0 ≤ x.0) (c ∷ rest)) is
        ((λ _. omega arith), weaken c.0 rest h.0)
]
  where
    first : (c : Block) (rest : List Block) → get_elem? (c ∷ rest) 0 ≡ some b → c ≡ b
    first c rest e = cc

    weaken : (n : ℕ) (l : List Block) → NotBelow n l → All (λ x. size ≤ x.0 → n ≤ x.0) l
    weaken n [] h = tt
    weaken n (x ∷ l) h = (λ _. h.0, weaken n l h.1)

remainder-IsSorted :
    (size n p : ℕ) (rest : List Block) → IsSorted rest → IsSorted (remainder size n p rest)
remainder-IsSorted size n p rest h = elim (Bool-cases (n == size)) [
  | inl exact ↦ rw exact h
  | inr larger ↦ rw larger (insert-IsSorted (n - size, p + 8 * size) rest h)
]

-- Where `allocate` succeeds on a table in order of size, it hands out the front of a block of the
-- table, no block that is big enough is smaller than that one, and the table stays in order.
pub allocate-best_fit :
    (size : ℕ) (s : Machine) {place : ℕ} {s' : Machine}
    → IsSorted s.free_memory
    → allocate size s ≡ ok (place, s')
    → (n : ℕ) × (at : ℕ) × (get_elem? s.free_memory at ≡ some (n, place))
      × (size ≤ n)
      × All (λ c. size ≤ c.0 → n ≤ c.0) s.free_memory
      × IsSorted s'.free_memory
unfolding allocate
allocate-best_fit size s {place} {s'} sorted h =
    elim (Option-cases (get_elem? s.free_memory (lower_bound size s.free_memory))) [
      | inl out ↦ absurd (failed (take_block-none size s.free_memory out))
      | inr ((n, p), e) ↦
          let got = succeeded (take_block-found size s.free_memory n p e) in
          (
            n,
            lower_bound size s.free_memory,
            e ∙ ap (λ q. some (n, q)) got.0,
            lower_bound-le size s.free_memory (n, p) e,
            lower_bound_smallest size s.free_memory (n, p) sorted e,
            rw got.1 (remainder-IsSorted size n p _ (erase_at-IsSorted _ s.free_memory sorted)),
          )
    ]
  where
    failed : take_block size s.free_memory ≡ none → ⊥
    failed e = ground (arith, e)

    succeeded :
        {p : ℕ} {free' : List Block}
        → take_block size s.free_memory ≡ some (p, free')
        → (p ≡ place) × (s'.free_memory ≡ free')
    succeeded e = ground (arith, e)
