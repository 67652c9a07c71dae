-- ===== src/Ancestry.antt =====
-- The tree of users of src/ancestry.h. A user_node is an address, 0 for nullptr; memory maps the
-- addresses of the nodes that exist to their fields. The set of descendants is a list without
-- repetitions. Access to a node that does not exist, which the source leaves undefined, is `abort`.
pub mod Pruned
mod Tests
use super_searcher.Base.{
  ℕ, zero, suc, ◌+◌, Bool, true, false, not, List, [], ◌∷◌, ◌++◌, ◌==◌, Option, none, some,
  if◌then◌else◌, length,
}
use super_searcher.Base.Result.{Result, ok, abort, out_of_fuel, ◌>>=◌}

pub record UserNode : Type 0 where
  pub zombie_node : Bool
  pub id : ℕ
  pub parent : ℕ
  pub descendants : List ℕ

abbrev pub Nodes : Type 0
Nodes = ℕ → Option UserNode

unfoldable pub put_node : Nodes → ℕ → UserNode → Nodes
put_node nodes this n x = if x == this then some n else nodes x

-- delete this
unfoldable pub delete_node : Nodes → ℕ → Nodes
delete_node nodes this x = if x == this then none else nodes x

unfoldable pub get_node : Nodes → ℕ → Result UserNode
get_node nodes this = elim (nodes this) [ none ↦ abort | some n ↦ ok n ]

-- unordered_set::erase and unordered_set::insert
unfoldable pub erase : ℕ → List ℕ → List ℕ
erase x [] = []
erase x (y ∷ ys) = if x == y then ys else y ∷ erase x ys

unfoldable pub is_member : ℕ → List ℕ → Bool
is_member x [] = false
is_member x (y ∷ ys) = if x == y then true else is_member x ys

unfoldable pub insert : ℕ → List ℕ → List ℕ
unfolding is_member
insert x ys = if is_member x ys then ys else x ∷ ys

-- The constructor; it leaves zombie_node as it finds it.
unfoldable pub user_node : Bool → ℕ → ℕ → UserNode
user_node before i p = record { zombie_node = before; id = i; parent = p; descendants = [] }

module _ (kill : ℕ → Nodes → Result Nodes) (this : ℕ) where
  -- kill_if_useless on a dead node below `parent`, by its descendants; `kill` stands for the calls of
  -- itself.
  unfoldable pub kill_below : ℕ → List ℕ → Nodes → Result Nodes
  unfolding put_node delete_node get_node erase insert
  kill_below parent [] nodes = do
    p ← get_node nodes parent
    killed ←
        kill parent (put_node nodes parent (record p { descendants = erase this p.descendants }))
    ok (delete_node killed this)
  kill_below parent (child ∷ []) nodes = do
    p ← get_node nodes parent
    let moved =
        put_node nodes parent (record p { descendants = insert child (erase this p.descendants) })
    c ← get_node moved child
    killed ← kill parent (put_node moved child (record c { parent = parent }))
    ok (delete_node killed this)
  kill_below parent (child ∷ other ∷ others) nodes = ok nodes

  -- The same for a dead root.
  unfoldable pub kill_root : List ℕ → Nodes → Result Nodes
  unfolding put_node delete_node get_node
  kill_root [] nodes = abort
  kill_root (child ∷ []) nodes = do
    c ← get_node nodes child
    killed ← kill child (put_node nodes child (record c { parent = 0 }))
    ok (delete_node killed this)
  kill_root (child ∷ other ∷ others) nodes = ok nodes

  -- kill_if_useless, on a node with the fields n.
  unfoldable pub kill_node : UserNode → Nodes → Result Nodes
  unfolding kill_below kill_root
  kill_node n nodes =
      if not n.zombie_node
      then ok nodes
      else if not (n.parent == 0)
      then kill_below n.parent n.descendants nodes
      else kill_root n.descendants nodes

-- kill_if_useless; the recursion moves along the tree, and takes fuel.
unfoldable pub kill_if_useless : ℕ → ℕ → Nodes → Result Nodes
kill_if_useless zero this nodes = out_of_fuel
kill_if_useless (suc fuel) this nodes = do
  n ← get_node nodes this
  kill_node (kill_if_useless fuel) this n nodes

-- death
unfoldable pub death : ℕ → ℕ → Nodes → Result Nodes
death fuel this nodes = do
  n ← get_node nodes this
  kill_if_useless fuel this (put_node nodes this (record n { zombie_node = true }))

-- The loop of list_all_living over the descendants, where `list` stands for its calls of itself.
unfoldable pub list_descendants : (ℕ → Result (List ℕ)) → List ℕ → Result (List ℕ)
list_descendants list [] = ok []
list_descendants list (x ∷ rest) =
    let later = list_descendants list rest in do k ← list x; r ← later; ok (k ++ r)

-- list_all_living; the recursion descends the tree, and takes fuel.
unfoldable pub list_all_living : ℕ → Nodes → ℕ → ℕ → Result (List ℕ)
list_all_living zero nodes avoid this = out_of_fuel
list_all_living (suc fuel) nodes avoid this = if this == avoid then ok [] else do
  n ← get_node nodes this
  below ← list_descendants (list_all_living fuel nodes avoid) n.descendants
  ok ((if not n.zombie_node then this ∷ [] else []) ++ below)

-- The choices of find_far_user, from the node `this` up to the root; the source ends without choosing
-- one.
unfoldable pub find_far_user : ℕ → Nodes → ℕ → ℕ → Result (List ℕ)
unfolding list_all_living
find_far_user zero nodes origin this = out_of_fuel
find_far_user (suc fuel) nodes origin this =
    let above = (λ (parent : ℕ). find_far_user fuel nodes this parent) in
    do
      n ← get_node nodes this
      if not (n.parent == 0)
          then above n.parent
          else if origin == 0
          then list_all_living (suc fuel) nodes 0 this
          else do
            choices ← list_all_living (suc fuel) nodes origin this
            if length choices == 1 then list_all_living (suc fuel) nodes 0 this else ok choices
