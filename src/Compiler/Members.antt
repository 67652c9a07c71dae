-- ===== src/Compiler/Members.antt =====
-- What the members of compiler_object (src/cs11.h, src/cs11.cpp) keep, in the terms of Keeps.
use super_searcher.Base.{
  ℕ, ◌≤◌, ◌≡◌, refl, sym, ap, subst, inr, true, false, not, Option, none, some, List, ◌∷◌, ◌==◌,
  length,
}
use super_searcher.Ast.Tag
use super_searcher.Base.Command.{modify}
use super_searcher.Compiler.Llvm.{Llvm}
use super_searcher.Compiler.State.{
  IrgenStatus, is_error, ReturnInfo, null_object, Compiler, find, find_object, put_living,
  new_living_object, clear_stack, return_code, or_return,
}
use super_searcher.Compiler.Finish.{Out, Generator}
use super_searcher.Compiler.Scope.{
  Distinct, OnSome, last, WellFormed, with_objects, find-absent, find-OnSome, last-Distinct,
  last-All, last-Above, clear_stack-last,
}
use super_searcher.Compiler.Keeps.{
  Alive, Documented, Any, Scoped, After, Keeps, pure-Keeps, ite-Keeps, assert_then, modify_then,
}

module _ {llvm : Llvm} {base caught : List ℕ} where
  pub find_object-Keeps : (t : ℕ) → Keeps {llvm = llvm} base caught (OnSome Alive) (find_object t)
  unfolding find_object
  find_object-Keeps t = record {
    run = λ s scoped. (find-OnSome Alive t s.objects scoped.living, scoped);
  }

  put_living-Scoped :
      (s : Compiler llvm) (t : ℕ) (r : ReturnInfo llvm.Value) (o : Option (ReturnInfo llvm.Value))
      → find t s.objects ≡ o
      → Alive r
      → Scoped base caught s
      → Scoped base caught (put_living t r o s)
  put_living-Scoped s t r none e living scoped = record {
    same = ap (λ xs. t ∷ xs) scoped.same;
    distinct = (find-absent t s.objects e, scoped.distinct);
    above = inr scoped.above;
    living = (living, scoped.living);
    catcher = scoped.catcher;
  }
  put_living-Scoped s t r (some old) e living scoped = scoped

  pub new_living_object-Keeps :
      (t : ℕ) (r : ReturnInfo llvm.Value)
      → Alive r
      → Keeps {llvm = llvm} base caught Any (new_living_object t r)
  unfolding new_living_object
  new_living_object-Keeps t r living = assert_then (not (r.type == Tag.pointer)) (record {
    run =
        unfold modify in
        λ s scoped. (tt, put_living-Scoped s t r (find t s.objects) refl living scoped);
  })

  last-Scoped :
      (n : ℕ) (s : Compiler llvm)
      → length base ≤ n
      → Scoped base caught s
      → Scoped base caught (with_objects s (last n s.objects))
  last-Scoped n s bound scoped = record {
    same = refl;
    distinct = last-Distinct n s.objects scoped.distinct;
    above = last-Above base n s.objects bound scoped.above;
    living = last-All (λ e. Alive e.1) n s.objects scoped.living;
    catcher = scoped.catcher;
  }

  Scoped-WellFormed : (s : Compiler llvm) → Scoped base caught s → WellFormed s
  Scoped-WellFormed s scoped = record {
    same = scoped.same;
    distinct = subst Distinct (sym scoped.same) scoped.distinct;
  }

  pub clear_stack-Keeps :
      (n : ℕ) → length base ≤ n → Keeps {llvm = llvm} base caught Any (clear_stack n)
  clear_stack-Keeps n bound = record {
    run = λ s scoped.
        subst (After base caught Any) (sym (clear_stack-last s n (Scoped-WellFormed s scoped)))
          (tt, last-Scoped n s bound scoped);
  }

  pub return_code-Keeps :
      (code : IrgenStatus) (t field : ℕ)
      → Keeps {llvm = llvm} base caught Documented (return_code code t field)
  unfolding return_code
  return_code-Keeps code t field =
      modify_then _
        (λ s scoped. record {
          same = scoped.same;
          distinct = scoped.distinct;
          above = scoped.above;
          living = scoped.living;
          catcher = scoped.catcher;
        })
        (pure-Keeps _ (λ e. refl, λ e. e))

  pub or_return-Keeps :
      (r : ReturnInfo llvm.Value) {n : Out llvm}
      → Documented r
      → Keeps base caught Documented n
      → Keeps base caught Documented (or_return r n)
  unfolding or_return
  or_return-Keeps r h rest = ite-Keeps (is_error r.error_code) (pure-Keeps r h) rest

-- In every scope the calls of generate_IR keep the scope and give documented results.
pub record Sound {llvm : Llvm} (gen : Generator llvm) : Type 0 where
  pub holds :
      (base caught : List ℕ) (t stack_degree : ℕ)
      → Keeps base caught Documented (gen t stack_degree)

module _ {Value : Type 0} where
  pub Alive-Documented : (r : ReturnInfo Value) → Alive r → Documented r
  Alive-Documented r h = (λ e. absurd (subst (λ code. is_error code ≡ true) h.0 e), h.1)
    where
      absurd : false ≡ true → r ≡ record null_object { error_code = r.error_code }
      absurd e = cc

  pub null-Documented : Documented {Value = Value} null_object
  null-Documented = (λ e. refl, λ e. e)
