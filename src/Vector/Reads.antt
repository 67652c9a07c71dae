-- ===== src/Vector/Reads.antt =====
-- The reading functions of src/vector.h on a vector whose contents are known.
use super_searcher.Base.{
  ℕ, ◌+◌, ◌≤◌, ◌<◌, ◌≡◌, refl, ◌⊎◌, inl, inr, true, false, List, length, none, some, get_elem?,
  get_elem?-none, Option-cases, ltb, arith,
}
use super_searcher.Types.{Mem}
use super_searcher.Vector.{element, vector_size, reference_at, vector_load}
use super_searcher.Vector.Words.{Words, Words-get}

-- At `p` stands a vector with these contents and room for `room` words.
pub record IsVector (m : Mem) (p room : ℕ) (xs : List ℕ) : Type 0 where
  pub size : m p ≡ length xs
  pub reserved : m (p + 8) ≡ room
  pub fits : length xs ≤ room
  pub contents : Words m (p + 16) xs

-- At an offset inside, `vector_load` gives the element and `reference_at` its address, which is not
-- null; at any other offset both give 0. `vector_size` gives the number of elements.
pub vector_reads :
    (m : Mem) (p room : ℕ) (xs : List ℕ) (i : ℕ)
    → IsVector m p room xs
    → (vector_size m p ≡ length xs)
      × (((get_elem? xs i ≡ none) × (vector_load m p i ≡ 0) × (reference_at m p i ≡ 0))
          ⊎ ((x : ℕ) × (get_elem? xs i ≡ some x)
              × (vector_load m p i ≡ x)
              × (m (reference_at m p i) ≡ x)
              × (0 < reference_at m p i)))
unfolding vector_size vector_load reference_at
vector_reads m p room xs i v = (
  v.size,
  elim (Option-cases (get_elem? xs i)) [
    | inl out ↦
        let past : ltb i (m p) ≡ false = ground (arith, get_elem?-none xs i out, v.size) in
        inl (out, rw past refl, rw past refl)
    | inr (x, at) ↦
        let got = Words-get m (p + 16) xs i (element p i) x v.contents (omega arith) at in
        let inside : ltb i (m p) ≡ true = ground (arith, got.1, v.size) in
        inr (x, at, rw inside got.0, rw inside got.0, rw inside (omega arith))
  ],
)
