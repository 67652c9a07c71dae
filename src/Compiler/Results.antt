-- ===== src/Compiler/Results.antt =====
-- What generate_IR (src/cs11.cpp) returns and leaves behind.
use super_searcher.Base.{
  ℕ, ◌≡◌, ◌<◌, refl, sym, ap, subst, ◌∙◌, arith, ◌⊎◌, inl, inr, Bool-cases, true, false, List, [],
  ◌∷◌, ◌++◌, All,
}
use super_searcher.Base.Result.{ok}
use super_searcher.Types.{Mem, Tptr, get_size}
use super_searcher.Types.Check.{TypeCheckResult, rvo, is_perfect, perfect_fit}
use super_searcher.Types.Compare.{compare}
use super_searcher.Types.Compare.Code.{type_check-compare}
use super_searcher.Types.Sizes.{perfect_fit-get_size}
use super_searcher.Types.Tree.{Ty, Rep, depth}
use super_searcher.Base.Command.{pure, ◌>>=◌}
use super_searcher.Compiler.Llvm.{Llvm}
use super_searcher.Compiler.Emission.{Emission, read, lift}
use super_searcher.Compiler.State.{ReturnInfo, Compiler, Context, type_fits, perfect_answer}
use super_searcher.Compiler.Control.{if_type}
use super_searcher.Compiler.Generate.{generate_ir}
use super_searcher.Compiler.Scope.{keys, Distinct, Above, WellFormed}
use super_searcher.Compiler.Keeps.{Alive, Documented, After, Scoped}
use super_searcher.Compiler.Whole.{generate_ir-Sound}

-- The lists of a compilation: objects and stack agree, and the objects have no errors.
pub record Consistent {llvm : Llvm} (s : Compiler llvm) : Type 0 where
  pub well_formed : WellFormed s
  pub living : All (λ e. Alive e.1) s.objects

Above-refl : (xs : List ℕ) → Above xs xs
Above-refl [] = refl
Above-refl (x ∷ xs) = inl refl

Above-front : (base xs : List ℕ) → Above base xs → (front : List ℕ) × (xs ≡ front ++ base)
Above-front base [] e = ([], e)
Above-front base (x ∷ xs) (inl e) = ([], e)
Above-front base (x ∷ xs) (inr h) =
    let (front, e) = Above-front base xs h in (x ∷ front, ap (λ ys. x ∷ ys) e)

-- Values of the two types take the same number of words.
abbrev pub SameSize : Mem → Tptr → Tptr → Type 0
SameSize m a b = (size : ℕ) × (get_size m a ≡ ok size) × (get_size m b ≡ ok size)

module _ {llvm : Llvm} where
  Consistent-Scoped : (s : Compiler llvm) → Consistent s → Scoped s.object_stack s.loop_catcher s
  Consistent-Scoped s h = record {
    same = h.well_formed.same;
    distinct = subst Distinct h.well_formed.same h.well_formed.distinct;
    above = subst (Above s.object_stack) h.well_formed.same (Above-refl s.object_stack);
    living = h.living;
    catcher = refl;
  }

  after_call :
      (fuel : ℕ) (ctx : Context) (t stack_degree : ℕ) (s s' : Compiler llvm)
      (result : ReturnInfo llvm.Value)
      → Consistent s
      → generate_ir fuel ctx t stack_degree s ≡ ok (result, s')
      → Documented result × Scoped s.object_stack s.loop_catcher s'
  after_call fuel ctx t stack_degree s s' result h e =
      subst (After s.object_stack s.loop_catcher Documented) e (
        ((generate_ir-Sound ctx fuel).holds s.object_stack s.loop_catcher t stack_degree).run s
          (Consistent-Scoped s h))

  -- From a consistent state, a call of generate_IR that comes back, with a result or with an error,
  -- leaves a consistent state: the objects that lived before the call are still on the stack, below
  -- the new ones, and loop_catcher is as it was.
  pub generate_ir-Consistent :
      (fuel : ℕ) (ctx : Context) (t stack_degree : ℕ) (s s' : Compiler llvm)
      (result : ReturnInfo llvm.Value)
      → Consistent s
      → generate_ir fuel ctx t stack_degree s ≡ ok (result, s')
      → Consistent s'
        × ((front : List ℕ) × (s'.object_stack ≡ front ++ s.object_stack))
        × (s'.loop_catcher ≡ s.loop_catcher)
  generate_ir-Consistent fuel ctx t stack_degree s s' result h e =
      let (documented, scoped) = after_call fuel ctx t stack_degree s s' result h e in
      let (front, end) = Above-front s.object_stack (keys s'.objects) scoped.above in
      (
        record {
          well_formed = record {
            same = scoped.same;
            distinct = subst Distinct (sym scoped.same) scoped.distinct;
          };
          living = scoped.living;
        },
        (front, scoped.same ∙ end),
        scoped.catcher,
      )

  -- From a consistent state, a result of generate_IR with an error is the error code and nothing
  -- else, and a result that is a hidden reference has a place in memory.
  pub generate_ir-Documented :
      (fuel : ℕ) (ctx : Context) (t stack_degree : ℕ) (s s' : Compiler llvm)
      (result : ReturnInfo llvm.Value)
      → Consistent s
      → generate_ir fuel ctx t stack_degree s ≡ ok (result, s')
      → Documented result
  generate_ir-Documented fuel ctx t stack_degree s s' result h e =
      (after_call fuel ctx t stack_degree s s' result h e).0

  type_fits-compare :
      (ctx : Context) (e n : Tptr) (s : Emission llvm) (te tn : Ty)
      → depth te < ctx.type_fuel
      → Rep s.machine.mem e te
      → Rep s.machine.mem n tn
      → type_fits ctx e n s ≡ ok (is_perfect (compare rvo te tn), s)
  unfolding type_fits perfect_answer read lift pure
  type_fits-compare ctx e n s te tn lt he hn =
      rw (type_check-compare ctx.type_fuel s.machine.mem rvo e n te tn lt he hn) refl

  same_size :
      (ctx : Context) (e n : Tptr) (s : Emission llvm) (te tn : Ty)
      → depth te < ctx.type_fuel
      → Rep s.machine.mem e te
      → Rep s.machine.mem n tn
      → is_perfect (compare rvo te tn) ≡ true
      → SameSize s.machine.mem e n
  same_size ctx e n s te tn lt he hn h =
      perfect_fit-get_size ctx.type_fuel s.machine.mem rvo e n te tn lt he hn (
        type_check-compare ctx.type_fuel s.machine.mem rvo e n te tn lt he hn ∙ ap ok (perfect _ h))
    where
      perfect : (r : TypeCheckResult) → is_perfect r ≡ true → r ≡ perfect_fit
      perfect r h = ground arith

  -- For two types that are trees in memory, below the bound on the recursion, the type of an `if`
  -- is found without an error and without a change. It is that of the first case where a value of
  -- the other case's type may be stored there; else that of the other case where a value of the
  -- first case's type may be stored there; else it is the null type. Where it is not null, the
  -- values of both cases, which meet in one phi, have the same size.
  pub if_type-size :
      (ctx : Context) (a b : Tptr) (s : Emission llvm) (ta tb : Ty)
      → depth ta < ctx.type_fuel
      → depth tb < ctx.type_fuel
      → Rep s.machine.mem a ta
      → Rep s.machine.mem b tb
      → ((is_perfect (compare rvo tb ta) ≡ true)
          × (if_type ctx a b s ≡ ok (a, s))
          × SameSize s.machine.mem a b)
        ⊎ ((is_perfect (compare rvo tb ta) ≡ false)
            × (is_perfect (compare rvo ta tb) ≡ true)
            × (if_type ctx a b s ≡ ok (b, s))
            × SameSize s.machine.mem a b)
        ⊎ ((is_perfect (compare rvo tb ta) ≡ false)
            × (is_perfect (compare rvo ta tb) ≡ false)
            × (if_type ctx a b s ≡ ok (0, s)))
  unfolding if_type ◌>>=◌ pure
  if_type-size ctx a b s ta tb la lb ha hb =
      let back = type_fits-compare ctx b a s tb ta lb hb ha in
      let forth = type_fits-compare ctx a b s ta tb la ha hb in
      elim (Bool-cases (is_perfect (compare rvo tb ta))) [
        | inl first ↦
            let (size, sb, sa) = same_size ctx b a s tb ta lb hb ha first in
            inl (first, rw (back, first) refl, (size, sa, sb))
        | inr other ↦ elim (Bool-cases (is_perfect (compare rvo ta tb))) [
          | inl second ↦ inr (
              inl (
                other,
                second,
                rw (back, other, forth, second) refl,
                same_size ctx a b s ta tb la ha hb second,
              ))
          | inr neither ↦ inr (inr (other, neither, rw (back, other, forth, neither) refl))
        ]
      ]
