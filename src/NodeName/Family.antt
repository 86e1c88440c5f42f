-- ===== src/NodeName/Family.antt =====
-- Parents and children of canonical names, from nodename.rs.
use aimless_onions.Prelude.{◌+◌, ◌-◌, ◌*◌, ◌/◌, ◌%◌, ◌<◌, ◌≡◌, ◌⊎◌, inl, inr, ap, ◌∙◌, some, arith}
use aimless_onions.NodeName.{NodeName, hierarchy_depth, left, right, parent}
use aimless_onions.NodeName.Canonical.{
  IsCanonical, left_lem, right_lem, parent_lem, left-IsCanonical, right-IsCanonical,
  parent-IsCanonical,
}

-- `node` has the children `l` and `r`, which are two different canonical names and whose parent
-- it is.
pub record HasChildren (node l r : NodeName) : Type 0 where
  pub left_child : left node ≡ some l
  pub right_child : right node ≡ some r
  pub left_up : parent l ≡ some node
  pub right_up : parent r ≡ some node
  pub left_canonical : IsCanonical l
  pub right_canonical : IsCanonical r
  pub apart : l.path < r.path

-- A canonical name above the leaves has two children, and is the parent of both.
pub children_lem :
    (node : NodeName)
    → IsCanonical node
    → node.len < hierarchy_depth
    → (l : NodeName) × (r : NodeName) × HasChildren node l r
children_lem node c h = (
  record { len = node.len + 1; path = node.path * 2 },
  record { len = node.len + 1; path = node.path * 2 + 1 },
  record {
    left_child = left_lem c h;
    right_child = right_lem c h;
    left_up = parent_lem _ (omega arith) ∙ ap some (ground arith);
    right_up = parent_lem _ (omega arith) ∙ ap some (ground arith);
    left_canonical = left-IsCanonical c h;
    right_canonical = right-IsCanonical c h;
    apart = omega arith;
  },
)

-- A canonical name below the root has a canonical parent, and is its left or its right child.
pub parent_inverse :
    (node : NodeName)
    → IsCanonical node
    → 0 < node.len
    → (p : NodeName) × (parent node ≡ some p)
      × IsCanonical p
      × ((left p ≡ some node) ⊎ (right p ≡ some node))
parent_inverse node c h =
    let up = parent-IsCanonical node c h in
    let parity : (node.path % 2 ≡ 0) ⊎ (node.path % 2 ≡ 1) = omega arith in
    (
      record { len = node.len - 1; path = node.path / 2 },
      parent_lem node h,
      up,
      elim parity [
        | inl even ↦ inl (left_lem up (omega arith) ∙ ap some (ground arith))
        | inr odd ↦ inr (right_lem up (omega arith) ∙ ap some (ground arith))
      ],
    )
