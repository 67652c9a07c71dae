-- ===== src/Ancestry/Pruned.antt =====
-- What `death` of src/ancestry.h does to the other users: it deletes dead nodes only.
use super_searcher.Base.{
  ℕ, zero, suc, ◌≡◌, ◌≢◌, refl, sym, ◌∙◌, ◌⊎◌, inl, inr, true, false, Bool-cases, List, [], ◌∷◌,
  ◌==◌, Option, none, some, arith,
}
use super_searcher.Base.Result.{Result, ok, abort, out_of_fuel, ◌>>=◌}
use super_searcher.Ancestry.{
  UserNode, Nodes, put_node, delete_node, get_node, erase, insert, kill_below, kill_root, kill_node,
  kill_if_useless, death,
}

-- What may become of a place: a node stays, living or dead as before, or was dead and is deleted.
abbrev pub PrunedAt : Option UserNode → Option UserNode → Type 0
PrunedAt none none = Unit
PrunedAt none (some n') = ⊥
PrunedAt (some n) none = n.zombie_node ≡ true
PrunedAt (some n) (some n') = (n'.zombie_node ≡ n.zombie_node) × (n'.id ≡ n.id)

pub record Pruned (nodes nodes' : Nodes) : Type 0 where
  pub at : (x : ℕ) → PrunedAt (nodes x) (nodes' x)

abbrev pub Outcome : Nodes → Result Nodes → Type 0
Outcome nodes (ok nodes') = Pruned nodes nodes'
Outcome nodes abort = Unit
Outcome nodes out_of_fuel = Unit

PrunedAt-refl : (n : Option UserNode) → PrunedAt n n
PrunedAt-refl none = tt
PrunedAt-refl (some n) = (refl, refl)

PrunedAt-trans : (a b c : Option UserNode) → PrunedAt a b → PrunedAt b c → PrunedAt a c
PrunedAt-trans none none c h h' = h'
PrunedAt-trans none (some b) c h h' = absurd h
PrunedAt-trans (some a) none none h h' = h
PrunedAt-trans (some a) none (some c) h h' = absurd h'
PrunedAt-trans (some a) (some b) none h h' = sym h.0 ∙ h'
PrunedAt-trans (some a) (some b) (some c) h h' = (h'.0 ∙ h.0, h'.1 ∙ h.1)

pub Pruned-refl : (nodes : Nodes) → Pruned nodes nodes
Pruned-refl nodes = record { at = λ x. PrunedAt-refl (nodes x) }

Pruned-trans : (a b c : Nodes) → Pruned a b → Pruned b c → Pruned a c
Pruned-trans a b c h h' = record { at = λ x. PrunedAt-trans (a x) (b x) (c x) (h.at x) (h'.at x) }

-- A node overwritten by one that is as dead.
put-Pruned :
    (nodes : Nodes) (this : ℕ) (n n' : UserNode)
    → nodes this ≡ some n
    → n'.zombie_node ≡ n.zombie_node
    → n'.id ≡ n.id
    → Pruned nodes (put_node nodes this n')
unfolding put_node
put-Pruned nodes this n n' here dead same = record {
  at = λ x. elim (Bool-cases (x == this)) [
    | inl e ↦ let place : x ≡ this = ground (arith, e) in rw (e, place, here) (dead, same)
    | inr other ↦ rw other (PrunedAt-refl (nodes x))
  ];
}

-- A dead node deleted, after other changes.
delete-Pruned :
    (nodes killed : Nodes) (this : ℕ) (n : UserNode)
    → nodes this ≡ some n
    → n.zombie_node ≡ true
    → Pruned nodes killed
    → Pruned nodes (delete_node killed this)
unfolding delete_node
delete-Pruned nodes killed this n here dead h = record {
  at = λ x. elim (Bool-cases (x == this)) [
    | inl e ↦ let place : x ≡ this = ground (arith, e) in rw (e, place, here) dead
    | inr other ↦ rw other (h.at x)
  ];
}

given :
    (base : Nodes) (o : Option UserNode) (k : UserNode → Result Nodes)
    → ((p : UserNode) → o ≡ some p → Outcome base (k p))
    → Outcome base (elim o as (λ x. Result UserNode) [ none ↦ abort | some n ↦ ok n ] >>= k)
given base none k h = tt
given base (some p) k h = h p refl

after_get :
    (base nodes : Nodes) (x : ℕ) (k : UserNode → Result Nodes)
    → ((p : UserNode) → nodes x ≡ some p → Outcome base (k p))
    → Outcome base (get_node nodes x >>= k)
unfolding get_node
after_get base nodes x k h = given base (nodes x) k h

after_kill :
    (base nodes : Nodes) (this : ℕ) (n : UserNode) (r : Result Nodes)
    → base this ≡ some n
    → n.zombie_node ≡ true
    → Pruned base nodes
    → Outcome nodes r
    → Outcome base (r >>= λ killed. ok (delete_node killed this))
after_kill base nodes this n (ok killed) here dead before h =
    delete-Pruned base killed this n here dead (Pruned-trans base nodes killed before h)
after_kill base nodes this n abort here dead before h = tt
after_kill base nodes this n out_of_fuel here dead before h = tt

module _ (kill : ℕ → Nodes → Result Nodes)
    (h : (x : ℕ) (now : Nodes) → Outcome now (kill x now)) where
  module _ (this : ℕ) (n : UserNode) (dead : n.zombie_node ≡ true) where
    kill_below-Outcome :
        (parent : ℕ) (l : List ℕ) (nodes : Nodes)
        → nodes this ≡ some n
        → Outcome nodes (kill_below kill this parent l nodes)
    unfolding kill_below
    kill_below-Outcome parent [] nodes here = after_get nodes nodes parent _ (λ p at_parent.
        let erased =
          put-Pruned nodes parent p (record p { descendants = erase this p.descendants }) at_parent
            refl refl in
        after_kill nodes _ this n _ here dead erased (h parent _))
    kill_below-Outcome parent (child ∷ []) nodes here =
        after_get nodes nodes parent _ (λ p at_parent.
          let p' : UserNode = record p { descendants = insert child (erase this p.descendants) } in
          let moved = put-Pruned nodes parent p p' at_parent refl refl in
          after_get nodes (put_node nodes parent p') child _ (λ c at_child.
            let adopted =
              put-Pruned (put_node nodes parent p') child c (record c { parent = parent }) at_child
                refl refl in
            after_kill nodes _ this n _ here dead (Pruned-trans nodes _ _ moved adopted)
              (h parent _)))
    kill_below-Outcome parent (child ∷ other ∷ others) nodes here = Pruned-refl nodes

    kill_root-Outcome :
        (l : List ℕ) (nodes : Nodes)
        → nodes this ≡ some n
        → Outcome nodes (kill_root kill this l nodes)
    unfolding kill_root
    kill_root-Outcome [] nodes here = tt
    kill_root-Outcome (child ∷ []) nodes here = after_get nodes nodes child _ (λ c at_child.
        let freed = put-Pruned nodes child c (record c { parent = 0 }) at_child refl refl in
        after_kill nodes _ this n _ here dead freed (h child _))
    kill_root-Outcome (child ∷ other ∷ others) nodes here = Pruned-refl nodes

  kill_node-Outcome :
      (this : ℕ) (n : UserNode) (nodes : Nodes)
      → nodes this ≡ some n
      → Outcome nodes (kill_node kill this n nodes)
  unfolding kill_node
  kill_node-Outcome this n nodes here = elim (Bool-cases n.zombie_node) [
    | inr living ↦ rw living (Pruned-refl nodes)
    | inl dead ↦ elim (Bool-cases (n.parent == 0)) [
      | inl root ↦ rw (dead, root) (kill_root-Outcome this n dead n.descendants nodes here)
      | inr below ↦
          rw (dead, below) (kill_below-Outcome this n dead n.parent n.descendants nodes here)
    ]
  ]

kill_if_useless-Outcome :
    (fuel this : ℕ) (nodes : Nodes) → Outcome nodes (kill_if_useless fuel this nodes)
unfolding kill_if_useless
kill_if_useless-Outcome zero this nodes = tt
kill_if_useless-Outcome (suc fuel) this nodes = after_get nodes nodes this _ (λ n here.
    kill_node-Outcome (kill_if_useless fuel) (kill_if_useless-Outcome fuel) this n nodes here)

-- The nodes once the user `this` has died.
pub record Died (this : ℕ) (nodes nodes' : Nodes) : Type 0 where
  pub own :
      (nodes' this ≡ none) ⊎ ((n : UserNode) × (nodes' this ≡ some n) × (n.zombie_node ≡ true))
  pub others : (x : ℕ) → x ≢ this → PrunedAt (nodes x) (nodes' x)

abbrev pub DeathOutcome : ℕ → Nodes → Result Nodes → Type 0
DeathOutcome this nodes (ok nodes') = Died this nodes nodes'
DeathOutcome this nodes abort = Unit
DeathOutcome this nodes out_of_fuel = Unit

dead_place :
    (n : UserNode) (b : Option UserNode)
    → n.zombie_node ≡ true
    → PrunedAt (some n) b
    → (b ≡ none) ⊎ ((n' : UserNode) × (b ≡ some n') × (n'.zombie_node ≡ true))
dead_place n none dead h = inl refl
dead_place n (some n') dead h = inr (n', refl, h.0 ∙ dead)

died :
    (this : ℕ) (n : UserNode) (nodes : Nodes) (r : Result Nodes)
    → n.zombie_node ≡ true
    → Outcome (put_node nodes this n) r
    → DeathOutcome this nodes r
unfolding put_node
died this n nodes (ok nodes') dead h =
    let self : (this == this) ≡ true = ground arith in
    record {
      own = dead_place n (nodes' this) dead (rw self at (h.at this));
      others = λ x other.
          let apart : (x == this) ≡ false = ground (arith, other) in rw apart at (h.at x);
    }
died this n nodes abort dead h = tt
died this n nodes out_of_fuel dead h = tt

died_given :
    (fuel this : ℕ) (nodes : Nodes) (o : Option UserNode)
    → DeathOutcome this nodes (
        elim o as (λ x. Result UserNode) [ none ↦ abort | some n ↦ ok n ] >>= λ n.
        kill_if_useless fuel this (put_node nodes this (record n { zombie_node = true })))
died_given fuel this nodes none = tt
died_given fuel this nodes (some n) =
    let n' : UserNode = record n { zombie_node = true } in
    died this n' nodes _ refl (kill_if_useless-Outcome fuel this (put_node nodes this n'))

-- The death of a user harms no other. Whatever the tree, the call fails, runs out of fuel, or returns
-- with the user deleted or marked as dead, while each other node is as alive as before under the same
-- number, or was dead already and is deleted, and no node is new.
pub death-Died : (fuel this : ℕ) (nodes : Nodes) → DeathOutcome this nodes (death fuel this nodes)
unfolding death get_node
death-Died fuel this nodes = died_given fuel this nodes (nodes this)
