-- ===== src/Memory/Objects/Made.antt =====
-- Objects in fresh words: what the code leaves that allocates and writes nowhere else.
use super_searcher.Base.{
  ℕ, zero, suc, ◌+◌, ◌*◌, ◌≤◌, ◌<◌, ◌≡◌, refl, ◌∙◌, ◌⊎◌, inl, inr, false, List, [], ◌∷◌, length,
  All, arith,
}
use super_searcher.Base.Result.{ok, abort}
use super_searcher.Types.{Mem}
use super_searcher.Memory.{allocate}
use super_searcher.Memory.Objects.{read_words, write_words}
use super_searcher.Memory.State.{Machine, write}
use super_searcher.Memory.Blocks.{within, covered}
use super_searcher.Memory.Allocate.{IsTable, allocate-cases}
use super_searcher.Vector.Words.{Words, write-ne, write_self}

-- The `size` words at `place` were free and are not any more; no other word was written.
pub record Made (size : ℕ) (s : Machine) (place : ℕ) (s' : Machine) : Type 0 where
  pub splits : (a : ℕ) → covered s.free_memory a ≡ within (size, place) a + covered s'.free_memory a
  pub table : IsTable s'
  pub idle : s'.being_traced ≡ false
  pub frame : (b : ℕ) → ((b < place) ⊎ (place + 8 * size ≤ b)) → s'.mem b ≡ s.mem b

-- Nothing is traced and the table of free blocks is sound.
pub record IsIdle (s : Machine) : Type 0 where
  pub table : IsTable s
  pub idle : s.being_traced ≡ false

pub allocate-Made :
    (size : ℕ) (s : Machine)
    → 0 < size
    → IsIdle s
    → ((allocate size s ≡ abort) × All (λ b. b.0 < size) s.free_memory)
      ⊎ ((place : ℕ) × (s' : Machine) × (allocate size s ≡ ok (place, s'))
          × (s'.mem ≡ s.mem)
          × Made size s place s')
allocate-Made size s pos i = elim (allocate-cases size s pos i.idle i.table) [
  | inl none_left ↦ inl none_left
  | inr got ↦
      let a = got.2 in
      inr (
        got.0,
        got.1,
        a.returns,
        a.keeps.0,
        record {
          splits = a.splits;
          table = a.table;
          idle = a.keeps.1;
          frame = λ b out. ap_mem (a.keeps.0) b;
        },
      )
]
  where
    ap_mem : {m m' : Mem} → m' ≡ m → (b : ℕ) → m' b ≡ m b
    ap_mem e b = rw e refl

pub write_words-outside :
    (m : Mem) (a : ℕ) (vs : List ℕ) (b : ℕ)
    → ((b < a) ⊎ (a + 8 * length vs ≤ b))
    → write_words m a vs b ≡ m b
unfolding write_words
write_words-outside m a [] b out = refl
write_words-outside m a (v ∷ vs) b out =
    write_words-outside (write m a v) (a + 8) vs b (omega arith) ∙ write-ne m a v b (omega arith)

pub write_words-Words : (m : Mem) (a : ℕ) (vs : List ℕ) → Words (write_words m a vs) a vs
unfolding write_words
write_words-Words m a [] = tt
write_words-Words m a (v ∷ vs) = (
  write_words-outside (write m a v) (a + 8) vs a (omega arith) ∙ write_self m a v,
  write_words-Words (write m a v) (a + 8) vs,
)

pub length-read_words : (m : Mem) (a count : ℕ) → length (read_words m a count) ≡ count
unfolding read_words
length-read_words m a zero = refl
length-read_words m a (suc count) = omega (arith, length-read_words m (a + 8) count)

-- The free words that were taken are not those of a block that nobody may touch.
pub Made-apart :
    (size place p count : ℕ) (s s' : Machine)
    → 0 < size
    → 0 < count
    → ((b : ℕ) → p ≤ b → b < p + 8 * count → covered s.free_memory b ≡ 0)
    → Made size s place s'
    → (p + 8 * count ≤ place) ⊎ (place + 8 * size ≤ p)
Made-apart size place p count s s' hs hc owned got =
    ground (arith, owned p, owned place, got.splits p, got.splits place)

-- What was apart from the free blocks still is.
pub Made-covered :
    (size place b : ℕ) (s s' : Machine)
    → Made size s place s'
    → covered s.free_memory b ≡ 0
    → covered s'.free_memory b ≡ 0
Made-covered size place b s s' got h = omega (arith, got.splits b, h)

-- The words of an object that was made are in no free block.
pub Made-owned :
    (size place b : ℕ) (s s' : Machine)
    → IsIdle s
    → Made size s place s'
    → place ≤ b
    → b < place + 8 * size
    → covered s'.free_memory b ≡ 0
Made-owned size place b s s' i got lo hi = ground (arith, got.splits b, i.table.disjoint b)
