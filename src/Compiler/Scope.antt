-- ===== src/Compiler/Scope.antt =====
-- The living objects of a compilation: `objects` and `object_stack` of src/cs11.h together, and
-- clear_stack of src/cs11.cpp on them.
use super_searcher.Base.{
  ℕ, suc, ◌≤◌, ◌≡◌, refl, sym, ap, subst, ◌⊎◌, inl, inr, Bool, true, false, Option, none, some,
  List, [], ◌∷◌, ◌==◌, ltb, if◌then◌else◌, length, All, arith, Bool-cases,
}
use super_searcher.Base.Result.{ok}
use super_searcher.Base.Command.{pure, assert, gets, modify, ◌>>=◌, ◌>>◌}
use super_searcher.Compiler.Llvm.{Llvm}
use super_searcher.Compiler.State.{
  ReturnInfo, Compiler, find, contains, erase_key, count, pop_object, clear_loop, clear_stack,
}

abbrev pub keys : {A : Type 0} → List (ℕ × A) → List ℕ
keys [] = []
keys ((k, x) ∷ rest) = k ∷ keys rest

abbrev pub Distinct : List ℕ → Type 0
Distinct [] = Unit
Distinct (x ∷ xs) = (contains x xs ≡ false) × Distinct xs

-- The list ends in `base`.
abbrev pub Above : List ℕ → List ℕ → Type 0
Above base [] = [] ≡ base
Above base (x ∷ xs) = ((x ∷ xs) ≡ base) ⊎ Above base xs

-- What holds of a value, where there is one.
abbrev pub OnSome : {A : Type 0} → (A → Type 0) → Option A → Type 0
OnSome P none = Unit
OnSome P (some x) = P x

-- The last `n` elements, or all if there are not so many.
unfoldable pub last : {A : Type 0} → ℕ → List A → List A
last n [] = []
last n (x ∷ xs) = if ltb n (length (x ∷ xs)) then last n xs else x ∷ xs

-- The objects and the stack hold the same ASTs in the same order, none of them twice.
pub record WellFormed {llvm : Llvm} (s : Compiler llvm) : Type 0 where
  pub same : s.object_stack ≡ keys s.objects
  pub distinct : Distinct s.object_stack

abbrev pub with_objects :
    {llvm : Llvm} → Compiler llvm → List (ℕ × ReturnInfo llvm.Value) → Compiler llvm
with_objects s os = record s { object_stack = keys os; objects = os }

==-refl : (x : ℕ) → (x == x) ≡ true
==-refl x = ground arith

module _ {A : Type 0} where
  pub length-keys : (os : List (ℕ × A)) → length (keys os) ≡ length os
  length-keys [] = refl
  length-keys ((k, x) ∷ os) = omega (arith, length-keys os)

  count-absent : (t : ℕ) (os : List (ℕ × A)) → contains t (keys os) ≡ false → count t os ≡ 0
  unfolding count contains
  count-absent t [] e = refl
  count-absent t ((k, x) ∷ os) e = ground (arith, count-absent t os)

  erase_key-absent :
      (t : ℕ) (os : List (ℕ × A)) → contains t (keys os) ≡ false → erase_key t os ≡ os
  unfolding erase_key contains
  erase_key-absent t [] e = refl
  erase_key-absent t ((k, x) ∷ os) e = ground (arith, erase_key-absent t os)

  pub find-absent : (t : ℕ) (os : List (ℕ × A)) → find t os ≡ none → contains t (keys os) ≡ false
  unfolding find contains
  find-absent t [] e = refl
  find-absent t ((k, x) ∷ os) e = ground (arith, find-absent t os)

  OnSome-ite :
      (P : A → Type 0) (b : Bool) (x : A) (o : Option A)
      → P x
      → OnSome P o
      → OnSome P (if b then some x else o)
  OnSome-ite P true x o h rest = h
  OnSome-ite P false x o h rest = rest

  pub find-OnSome :
      (P : A → Type 0) (t : ℕ) (os : List (ℕ × A)) → All (λ e. P e.1) os → OnSome P (find t os)
  unfolding find
  find-OnSome P t [] h = tt
  find-OnSome P t ((k, x) ∷ os) h = OnSome-ite P (t == k) x (find t os) h.0 (find-OnSome P t os h.1)

  Distinct-ite :
      (b : Bool) (xs ys : List (ℕ × A))
      → Distinct (keys xs)
      → Distinct (keys ys)
      → Distinct (keys (if b then xs else ys))
  Distinct-ite true xs ys h h' = h
  Distinct-ite false xs ys h h' = h'

  pub last-Distinct : (n : ℕ) (os : List (ℕ × A)) → Distinct (keys os) → Distinct (keys (last n os))
  unfolding last
  last-Distinct n [] h = tt
  last-Distinct n ((k, x) ∷ os) h =
      Distinct-ite (ltb n (suc (length os))) (last n os) ((k, x) ∷ os) (last-Distinct n os h.1) h

  All-ite :
      (P : ℕ × A → Type 0) (b : Bool) (xs ys : List (ℕ × A))
      → All P xs
      → All P ys
      → All P (if b then xs else ys)
  All-ite P true xs ys h h' = h
  All-ite P false xs ys h h' = h'

  pub last-All : (P : ℕ × A → Type 0) (n : ℕ) (os : List (ℕ × A)) → All P os → All P (last n os)
  unfolding last
  last-All P n [] h = tt
  last-All P n ((k, x) ∷ os) h =
      All-ite P (ltb n (suc (length os))) (last n os) ((k, x) ∷ os) (last-All P n os h.1) h

  pub last-Above :
      (base : List ℕ) (n : ℕ) (os : List (ℕ × A))
      → length base ≤ n
      → Above base (keys os)
      → Above base (keys (last n os))
  unfolding last
  last-Above base n [] bound h = h
  last-Above base n ((k, x) ∷ os) bound h = elim (Bool-cases (ltb n (suc (length os)))) [
    | inl deep ↦ rw deep (last-Above base n os bound (below h deep))
    | inr flat ↦ rw flat h
  ]
    where
      below :
          ((k ∷ keys os) ≡ base) ⊎ Above base (keys os)
          → ltb n (suc (length os)) ≡ true
          → Above base (keys os)
      below (inr h) deep = h
      below (inl e) deep = grind (arith, length-keys os, ap length e)

pub Above-length : (base xs : List ℕ) → Above base xs → length base ≤ length xs
Above-length base [] e = rw (sym e) (omega arith)
Above-length base (x ∷ xs) (inl e) = rw (sym e) (omega arith)
Above-length base (x ∷ xs) (inr h) = omega (arith, Above-length base xs h)

module _ {llvm : Llvm} where
  -- A round of the loop removes the object on top, and its check does not fail.
  pop_object-top :
      (s : Compiler llvm) (k : ℕ) (r : ReturnInfo llvm.Value)
      (os : List (ℕ × ReturnInfo llvm.Value))
      → contains k (keys os) ≡ false
      → pop_object k (keys os) (with_objects s ((k, r) ∷ os)) ≡ ok (tt, with_objects s os)
  unfolding pop_object ◌>>=◌ ◌>>◌ gets modify assert count erase_key
  pop_object-top s k r os absent =
      rw (==-refl k, count-absent k os absent, erase_key-absent k os absent) refl

  clear_loop-last :
      (n : ℕ) (s : Compiler llvm) (os : List (ℕ × ReturnInfo llvm.Value))
      → Distinct (keys os)
      → clear_loop n (keys os) (with_objects s os) ≡ ok (tt, with_objects s (last n os))
  unfolding clear_loop last ◌>>◌ pure
  clear_loop-last n s [] distinct = refl
  clear_loop-last n s ((k, r) ∷ os) distinct = elim (Bool-cases (ltb n (suc (length os)))) [
    | inl deep ↦
        rw (length-keys os, deep, pop_object-top s k r os distinct.0)
          (clear_loop-last n s os distinct.1)
    | inr flat ↦ rw (length-keys os, flat) refl
  ]

  pub with_objects-WellFormed : (s : Compiler llvm) → WellFormed s → with_objects s s.objects ≡ s
  with_objects-WellFormed s h = ap (λ stack. record s { object_stack = stack }) (sym h.same)

  -- From a well-formed state clear_stack never fails its check. It keeps the oldest objects, as many
  -- as it is asked to, on the stack and in the map, and changes nothing else.
  pub clear_stack-last :
      (s : Compiler llvm) (n : ℕ)
      → WellFormed s
      → clear_stack n s ≡ ok (tt, with_objects s (last n s.objects))
  unfolding clear_stack
  clear_stack-last s n h =
      subst (λ t. clear_stack n t ≡ ok (tt, with_objects s (last n s.objects)))
        (with_objects-WellFormed s h)
        (clear_loop-last n s s.objects (subst Distinct h.same h.distinct))
