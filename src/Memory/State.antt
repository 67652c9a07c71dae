-- ===== src/Memory/State.antt =====
-- The state that the memory manager keeps in globals, and commands over it: the words of memory,
-- the table of free blocks, the count of free words, the flag that a trace is running, and the table
-- of unique types, whose entries are words.
use super_searcher.Base.{ℕ, Bool, true, false, List, ◌==◌, if◌then◌else◌}
use super_searcher.Base.Result.{Result, ok, abort, out_of_fuel}
use super_searcher.Base.Result
use super_searcher.Memory.Blocks.{Block}
use super_searcher.Types.{Mem}

pub record Machine : Type 0 where
  pub mem : Mem
  pub free_memory : List Block
  pub free_memory_count : ℕ
  pub being_traced : Bool
  pub type_hash_table : List ℕ

abbrev pub Cmd : Type 0 → Type 0
Cmd A = Machine → Result (A × Machine)

abbrev pub pure : {A : Type 0} → A → Cmd A
pure a s = ok (a, s)

-- `check(condition, message)`
abbrev pub assert : Bool → Cmd (Unit {0})
assert true s = ok (tt, s)
assert false s = abort

module _ {A B : Type 0} where
  abbrev pub and_then : Result (A × Machine) → (A → Cmd B) → Result (B × Machine)
  and_then (ok (a, s)) k = k a s
  and_then abort k = abort
  and_then out_of_fuel k = out_of_fuel

  infixl 5 ◌>>=◌ ◌>>◌
  abbrev pub ◌>>=◌ : Cmd A → (A → Cmd B) → Cmd B
  ◌>>=◌ m k s = and_then (m s) k

  abbrev pub ◌>>◌ : Cmd A → Cmd B → Cmd B
  ◌>>◌ m n s = and_then (m s) (λ _. n)

-- Memory with one word overwritten.
unfoldable pub write : Mem → ℕ → ℕ → Mem
write m a v b = if b == a then v else m b

abbrev pub load : ℕ → Cmd ℕ
load a s = ok (s.mem a, s)

abbrev pub store : ℕ → ℕ → Cmd (Unit {0})
store a v s = ok (tt, record s { mem = write s.mem a v })

-- Code that reads memory and may fail.
abbrev pub read : {A : Type 0} → (Mem → Result A) → Cmd A
read f s = Result.◌>>=◌ (f s.mem) (λ a. ok (a, s))
