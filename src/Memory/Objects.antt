-- ===== src/Memory/Objects.antt =====
-- Objects written word by word, from src/memory.h, and reading a run of words.
pub mod Made
use super_searcher.Base.{ℕ, zero, suc, ◌+◌, List, [], ◌∷◌, length}
use super_searcher.Base.Result.{Result, ok}
use super_searcher.Types.{Mem}
use super_searcher.Memory.{allocate}
use super_searcher.Memory.State.{Machine, Cmd, pure, write, ◌>>=◌, ◌>>◌}

-- The words `a`, `a + 8`, ..., `count` of them.
unfoldable pub read_words : Mem → ℕ → ℕ → List ℕ
read_words m a zero = []
read_words m a (suc count) = m a ∷ read_words m (a + 8) count

-- write_single, and the loops that fill the fields of a new object.
unfoldable pub write_words : Mem → ℕ → List ℕ → Mem
write_words m a [] = m
write_words m a (v ∷ vs) = write_words (write m a v) (a + 8) vs

abbrev pub store_words : ℕ → List ℕ → Cmd (Unit {0})
store_words a vs s = ok (tt, record s { mem = write_words s.mem a vs })

-- new_object_value
unfoldable pub new_object_value : List ℕ → Cmd ℕ
new_object_value args = do
  new_memory_slot ← allocate (length args)
  store_words new_memory_slot args
  pure new_memory_slot
