-- ===== src/Base/Result.antt =====
-- What a call of the program's code comes to. `abort` is a call of `error()`, which a failed
-- `check()` makes too; `out_of_fuel` says that the bound on a loop or a recursion was too small.
use mathlib.Core.Bool.{Bool, true, false}

pub data Result {ℓ} (A : Type ℓ) : Type ℓ where
  out_of_fuel abort : Result A
  ok : A → Result A

-- `check(condition, message)` of globalinfo.h: the program stops where the condition is false.
abbrev pub check : Bool → Result (Unit {0})
check false = abort
check true = ok tt

-- A call, then the rest of the code, which does not run where the call did not return.
infixl 5 ◌>>=◌
abbrev pub ◌>>=◌ {ℓ₀ ℓ₁} :
    {Value : Type ℓ₀} {Answer : Type ℓ₁} → Result Value → (Value → Result Answer) → Result Answer
out_of_fuel >>= rest = out_of_fuel
abort >>= rest = abort
ok value >>= rest = rest value

infixl 5 ◌>>◌
abbrev pub ◌>>◌ {ℓ₀} : {Answer : Type ℓ₀} → Result (Unit {0}) → Result Answer → Result Answer
out_of_fuel >> rest = out_of_fuel
abort >> rest = abort
ok done >> rest = rest
