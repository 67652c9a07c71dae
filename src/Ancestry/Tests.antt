-- ===== src/Ancestry/Tests.antt =====
-- Runs on a small tree of users (src/ancestry.h), and the theorems there.
use super_searcher.Base.{
  ℕ, ◌≡◌, refl, Bool, true, false, List, [], ◌∷◌, ◌==◌, Option, none, some, if◌then◌else◌,
}
use super_searcher.Base.Result.{Result, ok}
use super_searcher.Ancestry.{
  UserNode, Nodes, death, list_all_living, list_descendants, get_node, put_node, delete_node, erase,
  insert, is_member, kill_if_useless, kill_node, kill_below,
}
use super_searcher.Ancestry.Pruned.{DeathOutcome, death-Died}

abbrev node : Bool → ℕ → List ℕ → Option UserNode
node dead parent below =
    some (record { zombie_node = dead; id = 7; parent = parent; descendants = below })

-- The king at 1 above 2, 2 above 3 and 4.
abbrev tree : Nodes
tree x =
    if x == 1
    then node false 0 (2 ∷ [])
    else if x == 2
    then node true 1 (3 ∷ 4 ∷ [])
    else if x == 3
    then node false 2 []
    else if x == 4
    then node false 2 []
    else none

living_users : list_all_living 3 tree 3 1 ≡ ok (1 ∷ 4 ∷ [])
unfolding list_all_living list_descendants get_node
living_users = refl

-- After the death of 3 the dead node 2 is useless too, and its last descendant moves up.
abbrev user_left : ℕ → Result Nodes → Option UserNode
user_left x (ok nodes) = nodes x
user_left x r = none

death_prunes :
    (user_left 3 (death 4 3 tree) ≡ none)
    × (user_left 2 (death 4 3 tree) ≡ none)
    × (user_left 4 (death 4 3 tree) ≡ node false 1 [])
    × (user_left 1 (death 4 3 tree) ≡ node false 0 (4 ∷ []))
unfolding death kill_if_useless kill_node kill_below get_node put_node delete_node erase insert
    is_member
death_prunes = (refl, refl, refl, refl)

death-Died_example : DeathOutcome 3 tree (death 4 3 tree)
death-Died_example = death-Died 4 3 tree
