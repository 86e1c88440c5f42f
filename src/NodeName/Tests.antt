-- ===== src/NodeName/Tests.antt =====
-- Runs of the functions of nodename.rs, after its own unit tests, and the theorems at inputs that
-- meet their conditions.
use aimless_onions.Prelude.{
  ◌⊎◌, suc, map, replicate, ◌≡◌, ◌≤◌, ◌<◌, ◌+◌, ◌↔◌, refl, arith, true, false, some, [], ◌∷◌,
}
use aimless_onions.NodeName.{
  NodeName, identity_matrix, root, new, number, left, right, parent, contains, subtree_size, walk,
  is_empty, canonicalized,
}
use aimless_onions.NodeName.Canonical.{IsCanonical}
use aimless_onions.NodeName.Family.{HasChildren, children_lem, parent_inverse}
use aimless_onions.NodeName.Leaves.{leaf, first_leaf, contains_interval}
use aimless_onions.NodeName.Matrix.{identity_matrix_lem}
use aimless_onions.Outcome.{ok}
use aimless_onions.NodeName.Split.{SplitsInto, children-SplitsInto}
use aimless_onions.NodeName.Walk.{way, IsWayDown, walk-IsWayDown}

abbrev left_node : NodeName
left_node = record { len = 1; path = 0 }

abbrev right_node : NodeName
right_node = record { len = 1; path = 1 }

-- The node `ROOT.left().right().right()`.
abbrev deep_node : NodeName
deep_node = record { len = 3; path = 3 }

left_child : left root ≡ some left_node
unfolding left
left_child = refl

right_child : right root ≡ some right_node
unfolding right
right_child = refl

new_cuts : new 1 6 ≡ some left_node
unfolding new canonicalized
new_cuts = refl

walk_deep : walk deep_node ≡ some (left_node ∷ record { len = 2; path = 1 } ∷ deep_node ∷ [])
unfolding walk parent is_empty
walk_deep = refl

contains_right : (contains root right_node ≡ true) × (contains left_node right_node ≡ false)
unfolding contains
contains_right = (refl, refl)

root-IsCanonical : IsCanonical root
root-IsCanonical = record { within = omega arith; fits = omega arith }

deep-IsCanonical : IsCanonical deep_node
deep-IsCanonical = record { within = omega arith; fits = omega arith }

children_lem_example : (l : NodeName) × (r : NodeName) × HasChildren deep_node l r
children_lem_example = children_lem deep_node deep-IsCanonical (omega arith)

parent_inverse_example :
    (p : NodeName) × (parent deep_node ≡ some p)
    × IsCanonical p
    × ((left p ≡ some deep_node) ⊎ (right p ≡ some deep_node))
parent_inverse_example = parent_inverse deep_node deep-IsCanonical (omega arith)

contains_interval_example :
    (contains deep_node (number 7) ≡ true)
    ↔ ((first_leaf deep_node ≤ leaf 7) × (leaf 7 < first_leaf deep_node + subtree_size deep_node))
contains_interval_example = contains_interval deep_node 7 deep-IsCanonical

children-SplitsInto_example : SplitsInto root left_node right_node
unfolding left right
children-SplitsInto_example =
    children-SplitsInto root left_node right_node root-IsCanonical refl refl

walk-IsWayDown_example : IsWayDown deep_node (way 3 3)
walk-IsWayDown_example = walk-IsWayDown deep_node deep-IsCanonical

small_matrix : identity_matrix (λ ds. some (map suc ds)) ≡ ok (replicate 32 (1 ∷ 2 ∷ []))
small_matrix = identity_matrix_lem suc
