-- ===== src/Collector/State.antt =====
-- The state of a trace (globals of src/memory.cpp), and commands over it. `machine` has the words of
-- memory, the free blocks and the table of unique types.
use super_searcher.Base.{ℕ, Bool, true, false, List}
use super_searcher.Base.Result.{Result, ok, abort, out_of_fuel}
use super_searcher.Types.{Mem, Tptr}
use super_searcher.Memory.State.{Machine, Cmd}
use super_searcher.Memory.Sweep.{Living}
use super_searcher.Memory.Functions.{Flags}

-- living_objects, function_pool_flags, sweep_function_pool_flags, first_possible_empty_function_block,
-- UNSERIALIZATION_MODE and u::vector_of_ASTs; `destroyed` are the functions that a destructor ran for.
pub record Collector : Type 0 where
  pub machine : Machine
  pub living_objects : List Living
  pub function_flags : Flags
  pub sweep_flags : Flags
  pub first_block : ℕ
  pub unserializing : Bool
  pub vector_of_asts : Tptr
  pub destroyed : List ℕ

abbrev pub Trace : Type 0 → Type 0
Trace A = Collector → Result (A × Collector)

unfoldable pub pure : {A : Type 0} → A → Trace A
pure a s = ok (a, s)

unfoldable pub assert : Bool → Trace (Unit {0})
assert true s = ok (tt, s)
assert false s = abort

module _ {A B : Type 0} where
  abbrev pub and_then : Result (A × Collector) → (A → Trace B) → Result (B × Collector)
  and_then (ok (a, s)) k = k a s
  and_then abort k = abort
  and_then out_of_fuel k = out_of_fuel

  infixl 5 ◌>>=◌ ◌>>◌
  unfoldable pub ◌>>=◌ : Trace A → (A → Trace B) → Trace B
  ◌>>=◌ m k s = and_then (m s) k

  unfoldable pub ◌>>◌ : Trace A → Trace B → Trace B
  ◌>>◌ m n s = and_then (m s) (λ _. n)

-- The end of a command on the machine.
abbrev pub put_machine : {A : Type 0} → Collector → Result (A × Machine) → Result (A × Collector)
put_machine s (ok (a, machine)) = ok (a, record s { machine = machine })
put_machine s abort = abort
put_machine s out_of_fuel = out_of_fuel

-- Code that knows only the machine.
unfoldable pub on_machine : {A : Type 0} → Cmd A → Trace A
on_machine command s = put_machine s (command s.machine)

abbrev pub give : {A : Type 0} → Collector → Result A → Result (A × Collector)
give s (ok a) = ok (a, s)
give s abort = abort
give s out_of_fuel = out_of_fuel

-- Code that reads memory and may fail.
unfoldable pub read : {A : Type 0} → (Mem → Result A) → Trace A
read f s = give s (f s.machine.mem)

unfoldable pub load : ℕ → Trace ℕ
load a s = ok (s.machine.mem a, s)
