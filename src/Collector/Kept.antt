-- ===== src/Collector/Kept.antt =====
-- What the commands of a trace (src/memory.cpp) leave as it was.
use super_searcher.Base.{ℕ, ◌+◌, ◌%◌, ◌^◌, ◌≡◌, refl, ◌∙◌, Bool, true, false, if◌then◌else◌}
use super_searcher.Base.Result.{Result, ok, abort, out_of_fuel}
use super_searcher.Base.Result
use super_searcher.Types.{Mem}
use super_searcher.Memory.State.{Machine, Cmd}
use super_searcher.Memory.State as Commands
use super_searcher.Memory.Sweep.Layout.{living_total}
use super_searcher.Memory.Living.{is_living}
use super_searcher.Collector.State.{
  Collector, Trace, pure, assert, ◌>>=◌, ◌>>◌, and_then, on_machine, put_machine, read, load, give,
}

-- The free blocks and their count, and that a trace is running.
pub record Same (s s' : Machine) : Type 0 where
  pub free : s'.free_memory ≡ s.free_memory
  pub traced : s'.being_traced ≡ s.being_traced
  pub count : s'.free_memory_count ≡ s.free_memory_count

-- No free block changes, what free_memory_count loses the living objects gain, and what lives, lives
-- on.
pub record Kept (s s' : Collector) : Type 0 where
  pub free : s'.machine.free_memory ≡ s.machine.free_memory
  pub traced : s'.machine.being_traced ≡ s.machine.being_traced
  pub words :
      (s'.machine.free_memory_count + living_total s'.living_objects) % 2 ^ 64
      ≡ (s.machine.free_memory_count + living_total s.living_objects) % 2 ^ 64
  pub alive : (a : ℕ) → is_living a s.living_objects ≡ true → is_living a s'.living_objects ≡ true
  pub flags : s'.function_flags ≡ s.function_flags
  pub destroyed : s'.destroyed ≡ s.destroyed

module _ {A : Type 0} where
  abbrev pub AfterMachine : Machine → Result (A × Machine) → Type 0
  AfterMachine s (ok (a, s')) = Same s s'
  AfterMachine s abort = Unit
  AfterMachine s out_of_fuel = Unit

  -- While a trace runs, the command leaves the free blocks alone.
  pub record SafeCmd (c : Cmd A) : Type 0 where
    pub run : (s : Machine) → s.being_traced ≡ true → AfterMachine s (c s)

  abbrev pub After : Collector → Result (A × Collector) → Type 0
  After s (ok (a, s')) = Kept s s'
  After s abort = Unit
  After s out_of_fuel = Unit

  pub record Safe (c : Trace A) : Type 0 where
    pub keeps : (s : Collector) → s.machine.being_traced ≡ true → After s (c s)

Same-trans : (s s' s'' : Machine) → Same s s' → Same s' s'' → Same s s''
Same-trans s s' s'' h h' = record {
  free = h'.free ∙ h.free;
  traced = h'.traced ∙ h.traced;
  count = h'.count ∙ h.count;
}

Kept-trans : (s s' s'' : Collector) → Kept s s' → Kept s' s'' → Kept s s''
Kept-trans s s' s'' h h' = record {
  free = h'.free ∙ h.free;
  traced = h'.traced ∙ h.traced;
  words = h'.words ∙ h.words;
  alive = λ a lives. h'.alive a (h.alive a lives);
  flags = h'.flags ∙ h.flags;
  destroyed = h'.destroyed ∙ h.destroyed;
}

pub Kept-refl : (s : Collector) → Kept s s
Kept-refl s = record {
  free = refl;
  traced = refl;
  words = refl;
  alive = λ a lives. lives;
  flags = refl;
  destroyed = refl;
}

pub Same-refl : (s : Machine) → Same s s
Same-refl s = record { free = refl; traced = refl; count = refl }

module _ {A : Type 0} where
  After-before :
      (s s' : Collector) (r : Result (A × Collector)) → Kept s s' → After s' r → After s r
  After-before s s' (ok (a, s'')) h h' = Kept-trans s s' s'' h h'
  After-before s s' abort h h' = tt
  After-before s s' out_of_fuel h h' = tt

  AfterMachine-before :
      (s s' : Machine) (r : Result (A × Machine)) → Same s s' → AfterMachine s' r → AfterMachine s r
  AfterMachine-before s s' (ok (a, s'')) h h' = Same-trans s s' s'' h h'
  AfterMachine-before s s' abort h h' = tt
  AfterMachine-before s s' out_of_fuel h h' = tt

module _ {A B : Type 0} where
  After-and_then :
      (s : Collector) (r : Result (A × Collector)) (k : A → Trace B)
      → s.machine.being_traced ≡ true
      → After s r
      → ((a : A) → Safe (k a))
      → After s (and_then r k)
  After-and_then s (ok (a, s')) k traced h rest =
      After-before s s' (k a s') h ((rest a).keeps s' (h.traced ∙ traced))
  After-and_then s abort k traced h rest = tt
  After-and_then s out_of_fuel k traced h rest = tt

  pub bind-Safe : {m : Trace A} {k : A → Trace B} → Safe m → ((a : A) → Safe (k a)) → Safe (m >>= k)
  unfolding ◌>>=◌
  bind-Safe {m} {k} h rest = record {
    keeps = λ s traced. After-and_then s (m s) k traced (h.keeps s traced) rest;
  }

  pub then-Safe : {m : Trace A} {n : Trace B} → Safe m → Safe n → Safe (m >> n)
  unfolding ◌>>◌
  then-Safe {m} {n} h rest = record {
    keeps = λ s traced. After-and_then s (m s) (λ _. n) traced (h.keeps s traced) (λ _. rest);
  }

  AfterMachine-and_then :
      (s : Machine) (r : Result (A × Machine)) (k : A → Cmd B)
      → s.being_traced ≡ true
      → AfterMachine s r
      → ((a : A) → SafeCmd (k a))
      → AfterMachine s (Commands.and_then r k)
  AfterMachine-and_then s (ok (a, s')) k traced h rest =
      AfterMachine-before s s' (k a s') h ((rest a).run s' (h.traced ∙ traced))
  AfterMachine-and_then s abort k traced h rest = tt
  AfterMachine-and_then s out_of_fuel k traced h rest = tt

  pub cmd_bind :
      {m : Cmd A} {k : A → Cmd B}
      → SafeCmd m
      → ((a : A) → SafeCmd (k a))
      → SafeCmd (Commands.◌>>=◌ m k)
  cmd_bind {m} {k} h rest = record {
    run = λ s traced. AfterMachine-and_then s (m s) k traced (h.run s traced) rest;
  }

  pub cmd_then : {m : Cmd A} {n : Cmd B} → SafeCmd m → SafeCmd n → SafeCmd (Commands.◌>>◌ m n)
  cmd_then {m} {n} h rest = record {
    run = λ s traced. AfterMachine-and_then s (m s) (λ _. n) traced (h.run s traced) (λ _. rest);
  }

module _ {A : Type 0} where
  pub pure-Safe : (a : A) → Safe (pure a)
  unfolding pure
  pure-Safe a = record { keeps = λ s traced. Kept-refl s }

  pub ite-Safe : (b : Bool) {m n : Trace A} → Safe m → Safe n → Safe (if b then m else n)
  ite-Safe true h h' = h
  ite-Safe false h h' = h'

  give-Safe : (s : Collector) (r : Result A) → After s (give s r)
  give-Safe s (ok a) = Kept-refl s
  give-Safe s abort = tt
  give-Safe s out_of_fuel = tt

  pub read-Safe : (f : Mem → Result A) → Safe (read f)
  unfolding read
  read-Safe f = record { keeps = λ s traced. give-Safe s (f s.machine.mem) }

  put-Safe :
      (s : Collector) (r : Result (A × Machine))
      → AfterMachine s.machine r
      → After s (put_machine s r)
  put-Safe s (ok (a, machine)) h = record {
    free = h.free;
    traced = h.traced;
    words = rw h.count refl;
    alive = λ a lives. lives;
    flags = refl;
    destroyed = refl;
  }
  put-Safe s abort h = tt
  put-Safe s out_of_fuel h = tt

  pub machine-Safe : {c : Cmd A} → SafeCmd c → Safe (on_machine c)
  unfolding on_machine
  machine-Safe {c} h = record {
    keeps = λ s traced. put-Safe s (c s.machine) (h.run s.machine traced);
  }

  pub cmd_pure : (a : A) → SafeCmd (Commands.pure a)
  cmd_pure a = record { run = λ s traced. Same-refl s }

  pub cmd_if : (b : Bool) {m n : Cmd A} → SafeCmd m → SafeCmd n → SafeCmd (if b then m else n)
  cmd_if true h h' = h
  cmd_if false h h' = h'

pub assert-Safe : (b : Bool) → Safe (assert b)
unfolding assert
assert-Safe true = record { keeps = λ s traced. Kept-refl s }
assert-Safe false = record { keeps = λ s traced. tt }

pub load-Safe : (a : ℕ) → Safe (load a)
unfolding load
load-Safe a = record { keeps = λ s traced. Kept-refl s }

pub cmd_assert : (b : Bool) → SafeCmd (Commands.assert b)
cmd_assert true = record { run = λ s traced. Same-refl s }
cmd_assert false = record { run = λ s traced. tt }

pub cmd_load : (a : ℕ) → SafeCmd (Commands.load a)
cmd_load a = record { run = λ s traced. Same-refl s }

pub cmd_store : (a v : ℕ) → SafeCmd (Commands.store a v)
cmd_store a v = record { run = λ s traced. record { free = refl; traced = refl; count = refl } }

pub cmd_given :
    {A : Type 0} → (s : Machine) (r : Result A) → AfterMachine s (Result.◌>>=◌ r (λ a. ok (a, s)))
cmd_given s (ok a) = Same-refl s
cmd_given s abort = tt
cmd_given s out_of_fuel = tt

pub cmd_read : {A : Type 0} (f : Mem → Result A) → SafeCmd (Commands.read f)
cmd_read f = record { run = λ s traced. cmd_given s (f s.mem) }
