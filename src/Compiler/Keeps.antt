-- ===== src/Compiler/Keeps.antt =====
-- What the commands of a compilation (src/cs11.cpp, src/cs11.h) keep: the scope that they start in.
use super_searcher.Base.{
  ℕ, ◌≤◌, ◌≡◌, sym, subst, Bool, true, false, Option, none, some, List, if◌then◌else◌, length, All,
}
use super_searcher.Base.Result.{Result, ok, abort, out_of_fuel}
use super_searcher.Base.Command.{
  pure, fail, assert, gets, modify, ◌>>=◌, ◌>>◌, and_then, on_part, put_back,
}
use super_searcher.Compiler.Llvm.{Llvm}
use super_searcher.Compiler.Emission.{Emission, Emit}
use super_searcher.Compiler.State.{
  no_error, is_error, ReturnInfo, null_object, Compiler, Gen, on_emission, stack_size,
}
use super_searcher.Compiler.Finish.{by_option}
use super_searcher.Compiler.Scope.{keys, Distinct, Above, OnSome, Above-length}

abbrev pub is_some : {A : Type 0} → Option A → Bool
is_some none = false
is_some (some x) = true

module _ {Value : Type 0} where
  -- A hidden reference lies in memory.
  abbrev pub HiddenPlaced : ReturnInfo Value → Type 0
  HiddenPlaced r = r.hidden_reference ≡ true → is_some r.place ≡ true

  -- A result that others may see: it has no error.
  abbrev pub Alive : ReturnInfo Value → Type 0
  Alive r = (r.error_code ≡ no_error) × HiddenPlaced r

  -- A result of generate_IR: an error comes with nothing else.
  abbrev pub Documented : ReturnInfo Value → Type 0
  Documented r =
      (is_error r.error_code ≡ true → r ≡ record null_object { error_code = r.error_code })
      × HiddenPlaced r

abbrev pub Any : {A : Type 0} → A → Type 0
Any x = Unit

-- Objects and stack agree; the stack ends in `base`, and the set of the ASTs that are being looked at
-- is `caught`.
pub record Scoped {llvm : Llvm} (base caught : List ℕ) (s : Compiler llvm) : Type 0 where
  pub same : s.object_stack ≡ keys s.objects
  pub distinct : Distinct (keys s.objects)
  pub above : Above base (keys s.objects)
  pub living : All (λ e. Alive e.1) s.objects
  pub catcher : s.loop_catcher ≡ caught

module _ {llvm : Llvm} {A : Type 0} where
  abbrev pub After : (base caught : List ℕ) → (A → Type 0) → Result (A × Compiler llvm) → Type 0
  After base caught P (ok (a, s)) = P a × Scoped base caught s
  After base caught P abort = Unit
  After base caught P out_of_fuel = Unit

  -- From the scope, the command comes back to the scope, with a result of which P holds.
  pub record Keeps (base caught : List ℕ) (P : A → Type 0) (c : Gen llvm A) : Type 0 where
    pub run : (s : Compiler llvm) → Scoped base caught s → After base caught P (c s)

  abbrev Given : (A → Type 0) → Result (A × Emission llvm) → Type 0
  Given P (ok (a, s)) = P a
  Given P abort = Unit
  Given P out_of_fuel = Unit

  -- Code that is emitted gives a result of which P holds.
  pub record Gives (P : A → Type 0) (c : Emit llvm A) : Type 0 where
    pub gives : (s : Emission llvm) → Given P (c s)

module _ {llvm : Llvm} {A B : Type 0} {base caught : List ℕ} where
  After-and_then :
      {P : A → Type 0} {Q : B → Type 0} (r : Result (A × Compiler llvm)) (k : A → Gen llvm B)
      → After base caught P r
      → ((a : A) → P a → Keeps base caught Q (k a))
      → After base caught Q (and_then r k)
  After-and_then (ok (a, s)) k h rest = (rest a h.0).run s h.1
  After-and_then abort k h rest = tt
  After-and_then out_of_fuel k h rest = tt

  pub bind-Keeps :
      {P : A → Type 0} {Q : B → Type 0} {m : Gen llvm A} {k : A → Gen llvm B}
      → Keeps base caught P m
      → ((a : A) → P a → Keeps base caught Q (k a))
      → Keeps base caught Q (m >>= k)
  unfolding ◌>>=◌
  bind-Keeps {P} {Q} {m} {k} h rest = record {
    run = λ s scoped. After-and_then {P = P} {Q = Q} (m s) k (h.run s scoped) rest;
  }

  pub then-Keeps :
      {P : A → Type 0} {Q : B → Type 0} {m : Gen llvm A} {n : Gen llvm B}
      → Keeps base caught P m
      → Keeps base caught Q n
      → Keeps base caught Q (m >> n)
  unfolding ◌>>◌
  then-Keeps {P} {Q} {m} {n} h rest = record {
    run = λ s scoped. After-and_then {P = P} {Q = Q} (m s) (λ _. n) (h.run s scoped) (λ _ _. rest);
  }

module _ {llvm : Llvm} {A B : Type 0} where
  Given-and_then :
      {Q : B → Type 0} (r : Result (A × Emission llvm)) (k : A → Emit llvm B)
      → ((a : A) → Gives Q (k a))
      → Given Q (and_then r k)
  Given-and_then (ok (a, s)) k rest = (rest a).gives s
  Given-and_then abort k rest = tt
  Given-and_then out_of_fuel k rest = tt

  pub bind-Gives :
      {Q : B → Type 0} (m : Emit llvm A) {k : A → Emit llvm B}
      → ((a : A) → Gives Q (k a))
      → Gives Q (m >>= k)
  unfolding ◌>>=◌
  bind-Gives {Q} m {k} rest = record { gives = λ s. Given-and_then {Q = Q} (m s) k rest }

module _ {llvm : Llvm} {A : Type 0} where
  pub pure-Gives : {P : A → Type 0} (a : A) → P a → Gives {llvm = llvm} P (pure a)
  unfolding pure
  pure-Gives a h = record { gives = λ s. h }

  Given-Any : (r : Result (A × Emission llvm)) → Given Any r
  Given-Any (ok (a, s)) = tt
  Given-Any abort = tt
  Given-Any out_of_fuel = tt

  pub Gives-Any : (c : Emit llvm A) → Gives Any c
  Gives-Any c = record { gives = λ s. Given-Any (c s) }

OnSome-Any : {X : Type 0} (o : Option X) → OnSome Any o
OnSome-Any none = tt
OnSome-Any (some x) = tt

module _ {llvm : Llvm} {base caught : List ℕ} where
  module _ {A : Type 0} where
    put_back-After :
        (P : A → Type 0) (s : Compiler llvm) (r : Result (A × Emission llvm))
        → Scoped base caught s
        → Given P r
        → After base caught P (put_back (λ e s. record s { emission = e }) s r)
    put_back-After P s (ok (a, e)) scoped h = (
      h,
      record {
        same = scoped.same;
        distinct = scoped.distinct;
        above = scoped.above;
        living = scoped.living;
        catcher = scoped.catcher;
      },
    )
    put_back-After P s abort scoped h = tt
    put_back-After P s out_of_fuel scoped h = tt

  module _ {A : Type 0} {P : A → Type 0} where
    pub pure-Keeps : (a : A) → P a → Keeps {llvm = llvm} base caught P (pure a)
    unfolding pure
    pure-Keeps a h = record { run = λ s scoped. (h, scoped) }

    pub fail-Keeps : Keeps {llvm = llvm} base caught P fail
    unfolding fail
    fail-Keeps = record { run = λ s scoped. tt }

    pub ite-Keeps :
        (b : Bool) {m n : Gen llvm A}
        → Keeps base caught P m
        → Keeps base caught P n
        → Keeps base caught P (if b then m else n)
    ite-Keeps true h h' = h
    ite-Keeps false h h' = h'

    pub by_option-Keeps :
        {X : Type 0} {Q : X → Type 0} (o : Option X) {m : Gen llvm A} {k : X → Gen llvm A}
        → OnSome Q o
        → Keeps base caught P m
        → ((x : X) → Q x → Keeps base caught P (k x))
        → Keeps base caught P (by_option o m k)
    unfolding by_option
    by_option-Keeps none q h h' = h
    by_option-Keeps (some x) q h h' = h' x q

    -- The same, where nothing is known of the value.
    pub option-Keeps :
        {X : Type 0} (o : Option X) {m : Gen llvm A} {k : X → Gen llvm A}
        → Keeps base caught P m
        → ((x : X) → Keeps base caught P (k x))
        → Keeps base caught P (by_option o m k)
    option-Keeps o h h' = by_option-Keeps {Q = Any} o (OnSome-Any o) h (λ x _. h' x)

    pub emission-Keeps : {c : Emit llvm A} → Gives P c → Keeps base caught P (on_emission c)
    unfolding on_emission on_part
    emission-Keeps {c} h = record {
      run = λ s scoped. put_back-After P s (c s.emission) scoped (h.gives s.emission);
    }

  module _ {A B : Type 0} {Q : B → Type 0} where
    -- After any code that is emitted.
    pub emit-Keeps :
        (c : Emit llvm A) {k : A → Gen llvm B}
        → ((a : A) → Keeps base caught Q (k a))
        → Keeps base caught Q (on_emission c >>= k)
    emit-Keeps c h = bind-Keeps {P = Any} (emission-Keeps (Gives-Any c)) (λ a _. h a)

    pub emit_then :
        (c : Emit llvm A) {n : Gen llvm B}
        → Keeps base caught Q n
        → Keeps base caught Q (on_emission c >> n)
    emit_then c h = then-Keeps {P = Any} (emission-Keeps (Gives-Any c)) h

    pub gets-Keeps :
        (f : Compiler llvm → A) {k : A → Gen llvm B}
        → ((a : A) → Keeps base caught Q (k a))
        → Keeps base caught Q (gets f >>= k)
    unfolding gets ◌>>=◌
    gets-Keeps f h = record { run = λ s scoped. (h (f s)).run s scoped }

  module _ {B : Type 0} {Q : B → Type 0} where
    pub assert_then :
        (b : Bool) {n : Gen llvm B} → Keeps base caught Q n → Keeps base caught Q (assert b >> n)
    unfolding assert ◌>>◌
    assert_then true h = record { run = λ s scoped. h.run s scoped }
    assert_then false h = record { run = λ s scoped. tt }

    -- The size of the stack is at least that of the stack below.
    pub stack_size-Keeps :
        {k : ℕ → Gen llvm B}
        → ((n : ℕ) → length base ≤ n → Keeps base caught Q (k n))
        → Keeps base caught Q (stack_size >>= k)
    unfolding stack_size ◌>>=◌
    stack_size-Keeps h = record {
      run = λ s scoped.
          (h (length s.object_stack) (
              subst (λ xs. length base ≤ length xs) (sym scoped.same)
                (Above-length base (keys s.objects) scoped.above))).run
            s scoped;
    }

    -- A change of members that the scope is not about.
    pub modify_then :
        (f : Compiler llvm → Compiler llvm) {n : Gen llvm B}
        → ((s : Compiler llvm) → Scoped base caught s → Scoped base caught (f s))
        → Keeps base caught Q n
        → Keeps base caught Q (modify f >> n)
    unfolding modify ◌>>◌
    modify_then f change h = record { run = λ s scoped. h.run (f s) (change s scoped) }
