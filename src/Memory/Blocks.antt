-- ===== src/Memory/Blocks.antt =====
-- `free_memory` of src/memory.cpp, a std::multimap from the sizes of free blocks to their addresses:
-- the list of its entries in order. An iterator is a position in the list.
use super_searcher.Base.{
  ℕ, zero, suc, ◌+◌, ◌*◌, ◌≤◌, ◌<◌, ◌≡◌, refl, ◌&&◌, none, some, List, [], ◌∷◌, ltb, leb,
  if◌then◌else◌, get_elem?, All, arith,
}

-- Size in words, then address in bytes.
abbrev pub Block : Type 0
Block = ℕ × ℕ

-- multimap::lower_bound, the first entry whose key is not below `size`; the end is the length.
unfoldable pub lower_bound : ℕ → List Block → ℕ
lower_bound size [] = 0
lower_bound size ((n, a) ∷ rest) = if ltb n size then suc (lower_bound size rest) else 0

-- multimap::upper_bound, the first entry whose key is above `size`.
unfoldable pub upper_bound : ℕ → List Block → ℕ
upper_bound size [] = 0
upper_bound size ((n, a) ∷ rest) = if leb n size then suc (upper_bound size rest) else 0

-- multimap::erase at an iterator.
unfoldable pub erase_at : List Block → ℕ → List Block
erase_at [] k = []
erase_at (b ∷ rest) zero = rest
erase_at (b ∷ rest) (suc k) = b ∷ erase_at rest k

-- multimap::insert, behind the entries with the same key.
unfoldable pub insert : Block → List Block → List Block
insert b [] = b ∷ []
insert b (c ∷ rest) = if leb c.0 b.0 then c ∷ insert b rest else b ∷ c ∷ rest

-- How many blocks, 0 or 1, hold the byte at an address.
abbrev pub within : Block → ℕ → ℕ
within (n, p) a = if leb p a && ltb a (p + 8 * n) then 1 else 0

abbrev pub covered : List Block → ℕ → ℕ
covered [] a = 0
covered (b ∷ rest) a = within b a + covered rest a

abbrev pub total : List Block → ℕ
total [] = 0
total (b ∷ rest) = b.0 + total rest

pub covered-insert :
    (b : Block) (l : List Block) (a : ℕ) → covered (insert b l) a ≡ within b a + covered l a
unfolding insert
covered-insert b [] a = refl
covered-insert b (c ∷ rest) a = ground (arith, covered-insert b rest a)

pub total-insert : (b : Block) (l : List Block) → total (insert b l) ≡ b.0 + total l
unfolding insert
total-insert b [] = refl
total-insert b (c ∷ rest) = ground (arith, total-insert b rest)

pub covered-erase_at :
    (l : List Block) (k : ℕ) (b : Block) (a : ℕ)
    → get_elem? l k ≡ some b
    → covered l a ≡ within b a + covered (erase_at l k) a
unfolding erase_at
covered-erase_at [] k b a h = cc
covered-erase_at (c ∷ rest) zero b a h = let e : c ≡ b = cc in rw e refl
covered-erase_at (c ∷ rest) (suc k) b a h = omega (arith, covered-erase_at rest k b a h)

pub total-erase_at :
    (l : List Block) (k : ℕ) (b : Block)
    → get_elem? l k ≡ some b
    → total l ≡ b.0 + total (erase_at l k)
unfolding erase_at
total-erase_at [] k b h = cc
total-erase_at (c ∷ rest) zero b h = let e : c ≡ b = cc in rw e refl
total-erase_at (c ∷ rest) (suc k) b h = omega (arith, total-erase_at rest k b h)

-- What `lower_bound` finds is big enough.
pub lower_bound-le :
    (size : ℕ) (l : List Block) (b : Block) → get_elem? l (lower_bound size l) ≡ some b → size ≤ b.0
unfolding lower_bound
lower_bound-le size [] b h = cc
lower_bound-le size ((n, p) ∷ rest) b h = ground (arith, lower_bound-le size rest b)

-- It finds nothing only if every block is too small.
pub lower_bound-none :
    (size : ℕ) (l : List Block) → get_elem? l (lower_bound size l) ≡ none → All (λ b. b.0 < size) l
unfolding lower_bound
lower_bound-none size [] h = tt
lower_bound-none size ((n, p) ∷ rest) h = ground (arith, lower_bound-none size rest)
