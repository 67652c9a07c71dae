-- ===== src/Vector/Build.antt =====
-- `vector_build` of src/vector.h over the allocator of src/memory.cpp.
use super_searcher.Base.{
  ℕ, ◌+◌, ◌*◌, ◌/◌, ◌≤◌, ◌<◌, ◌≡◌, refl, ◌∙◌, subst, ◌⊎◌, List, length, arith,
}
use super_searcher.Base.Result.{ok, abort}
use super_searcher.Types.{Mem}
use super_searcher.Memory.{allocate}
use super_searcher.Memory.State.{Machine, write}
use super_searcher.Memory.Blocks.{covered}
use super_searcher.Memory.Allocate.{Allocated}
use super_searcher.Vector.{element, copy_words, vector_build}
use super_searcher.Vector.Words.{
  Words, write-ne, write_self, Words-frame, copy_words-outside, copy_words-Words,
}
use super_searcher.Vector.Reads.{IsVector}

-- No byte of the `count` words at `p` is in a free block.
abbrev pub Owned : Machine → ℕ → ℕ → Type 0
Owned s p count = (b : ℕ) → p ≤ b → b < p + 8 * count → covered s.free_memory b ≡ 0

-- What was owned before an allocation is apart from what it hands out.
pub Owned-apart :
    (s s' : Machine) (size place p count : ℕ)
    → 0 < size
    → 0 < count
    → Owned s p count
    → Allocated size s place s'
    → (p + 8 * count ≤ place) ⊎ (place + 8 * size ≤ p)
Owned-apart s s' size place p count hs hc owned got =
    ground (arith, owned p, owned place, got.splits p, got.splits place)

-- The words that vector_build asks for.
abbrev pub build_size : ℕ → ℕ
build_size count = 2 + (3 + count + count / 2)

-- The memory that vector_build leaves.
abbrev pub built : Mem → ℕ → ℕ → ℕ → Mem
built m place elements count =
    copy_words (write (write m place count) (place + 8) (3 + count + count / 2)) elements
      (element place 0) count

pub vector_build-ok :
    (elements count place : ℕ) (s s' : Machine)
    → allocate (build_size count) s ≡ ok (place, s')
    → vector_build elements count s
      ≡ ok (place, record s' { mem = built s'.mem place elements count })
unfolding vector_build
vector_build-ok elements count place s s' e = rw e refl

pub vector_build-abort :
    (elements count : ℕ) (s : Machine)
    → allocate (build_size count) s ≡ abort
    → vector_build elements count s ≡ abort
unfolding vector_build
vector_build-abort elements count s e = rw e refl

pub first_element : (p : ℕ) → element p 0 ≡ p + 16
first_element p = omega arith

pub built-outside :
    (m : Mem) (place elements count b : ℕ)
    → ((b < place) ⊎ (place + 8 * build_size count ≤ b))
    → built m place elements count b ≡ m b
built-outside m place elements count b out =
    copy_words-outside _ elements (element place 0) count b (omega arith)
    ∙ write-ne _ (place + 8) _ b (omega arith)
    ∙ write-ne m place count b (omega arith)

pub built-IsVector :
    (m : Mem) (place elements count : ℕ) (xs : List ℕ)
    → count ≡ length xs
    → ((elements + 8 * count ≤ place) ⊎ (place + 8 * build_size count ≤ elements))
    → Words m elements xs
    → IsVector (built m place elements count) place (3 + count + count / 2) xs
built-IsVector m place elements count xs e apart words = record {
  size =
      copy_words-outside _ elements (element place 0) count place (omega arith)
      ∙ write-ne _ (place + 8) _ place (omega arith)
      ∙ write_self m place count
      ∙ e;
  reserved =
      copy_words-outside _ elements (element place 0) count (place + 8) (omega arith)
      ∙ write_self _ (place + 8) _;
  fits = omega arith;
  contents =
      subst (λ a. Words (built m place elements count) a xs) (first_element place)
        (copy_words-Words _ elements (element place 0) count xs e (omega arith) (
          Words-frame m _ elements xs
            (λ b lo hi.
              write-ne _ (place + 8) _ b (omega arith) ∙ write-ne m place count b (omega arith))
            words));
}
