-- ===== src/Vector.antt =====
-- Vectors of words, from src/vector.h. An svector at `p` has its size at `p`, the size of its room
-- at `p + 8`, and its elements behind. An ArrayRef is an address and a count. Sizes are those of
-- objects in the pool, so the sums here stay far below 2^64.
pub mod Words
pub mod Reads
pub mod Build
pub mod Steps
pub mod Pushback
mod Tests
use super_searcher.Base.{
  ℕ, zero, suc, ◌+◌, ◌*◌, ◌/◌, Bool, true, false, List, ◌==◌, ltb, leb, if◌then◌else◌,
}
use super_searcher.Types.{Mem, addresses}
use super_searcher.Memory.{allocate}
use super_searcher.Memory.State.{Machine, Cmd, pure, assert, write, load, store, ◌>>=◌, ◌>>◌}

-- vector_header_size
abbrev pub header : ℕ
header = 2

-- The address of (*s)[i].
abbrev pub element : ℕ → ℕ → ℕ
element s i = s + 8 + 8 * (i + 1)

-- The loop `new[x] = old[x]` over `count` words.
unfoldable pub copy_words : Mem → ℕ → ℕ → ℕ → Mem
copy_words m source target zero = m
copy_words m source target (suc count) =
    copy_words (write m target (m source)) (source + 8) (target + 8) count

-- vector_build
unfoldable pub vector_build : ℕ → ℕ → Cmd ℕ
vector_build elements count = do
  let reserved_size = 3 + count + count / 2
  new_location ← allocate (header + reserved_size)
  store new_location count
  store (new_location + 8) reserved_size
  (λ s.
      pure new_location
        (record s { mem = copy_words s.mem elements (element new_location 0) count }))

-- new_vector
unfoldable pub new_vector : Cmd ℕ
unfolding vector_build
new_vector = vector_build 0 0

-- The relocation of a full vector, in pushback_int: `slot` holds the vector's address.
unfoldable pub grow : ℕ → Cmd (Unit {0})
grow slot = do
  s ← load slot
  size ← load s
  reserved ← load (s + 8)
  if size == reserved then (do s' ← vector_build (element s 0) size; store slot s') else pure tt

-- pushback_int and pushback; the vector's address is in the word at `slot`.
unfoldable pub pushback : ℕ → ℕ → Cmd (Unit {0})
pushback slot value = do
  s ← load slot
  size ← load s
  reserved ← load (s + 8)
  assert (leb size reserved)
  grow slot
  s' ← load slot
  size' ← load s'
  store (element s' size') value
  store s' (size' + 1)

unfoldable pub vector_size : Mem → ℕ → ℕ
vector_size m s = m s

-- reference_at: the address of an element, or 0.
unfoldable pub reference_at : Mem → ℕ → ℕ → ℕ
reference_at m s offset = if ltb offset (m s) then element s offset else 0

unfoldable pub vector_load : Mem → ℕ → ℕ → ℕ
vector_load m s offset = if ltb offset (m s) then m (element s offset) else 0

-- Vector_range: the addresses of the elements.
unfoldable pub vector_range : Mem → ℕ → List ℕ
unfolding addresses
vector_range m t = addresses (element t 0) (m t)
