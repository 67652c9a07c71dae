-- ===== src/Base/Command.antt =====
-- Commands over a state, for code that changes the members of an object: the compiler's, and the
-- console's reader.
use mathlib.Core.Bool.{Bool, true, false}
use super_searcher.Base.Result.{Result, ok, abort, out_of_fuel}

abbrev pub Cmd : Type 0 → Type 0 → Type 0
Cmd S A = S → Result (A × S)

module _ {S : Type 0} where
  unfoldable pub pure : {A : Type 0} → A → Cmd S A
  pure a s = ok (a, s)

  unfoldable pub fail : {A : Type 0} → Cmd S A
  fail s = abort

  -- `check(condition, message)`
  unfoldable pub assert : Bool → Cmd S (Unit {0})
  assert true s = ok (tt, s)
  assert false s = abort

  unfoldable pub gets : {A : Type 0} → (S → A) → Cmd S A
  gets f s = ok (f s, s)

  unfoldable pub modify : (S → S) → Cmd S (Unit {0})
  modify f s = ok (tt, f s)

  module _ {A B : Type 0} where
    abbrev pub and_then : Result (A × S) → (A → Cmd S B) → Result (B × S)
    and_then (ok (a, s)) k = k a s
    and_then abort k = abort
    and_then out_of_fuel k = out_of_fuel

    infixl 5 ◌>>=◌ ◌>>◌
    unfoldable pub ◌>>=◌ : Cmd S A → (A → Cmd S B) → Cmd S B
    ◌>>=◌ m k s = and_then (m s) k

    unfoldable pub ◌>>◌ : Cmd S A → Cmd S B → Cmd S B
    ◌>>◌ m n s = and_then (m s) (λ _. n)

-- Code that knows only a part of the state.
module _ {S T A : Type 0} where
  abbrev pub put_back : (T → S → S) → S → Result (A × T) → Result (A × S)
  put_back set s (ok (a, t)) = ok (a, set t s)
  put_back set s abort = abort
  put_back set s out_of_fuel = out_of_fuel

  unfoldable pub on_part : (S → T) → (T → S → S) → Cmd T A → Cmd S A
  on_part get set command s = put_back set s (command (get s))
