-- ===== src/NodeName/Split.antt =====
-- How the leaves below a node are shared out between its two children, from nodename.rs.
use aimless_onions.Prelude.{
  ℕ, ◌+◌, ◌-◌, ◌*◌, ◌^◌, ◌≤◌, ◌<◌, ◌≡◌, ◌⊎◌, inl, inr, sym, ap, ◌∙◌, ◌↔◌, some, arith, true,
}
use aimless_onions.Prelude.Powers.{two_pow_pred}
use aimless_onions.NodeName.{NodeName, hierarchy_depth, left, right, number, contains, subtree_size}
use aimless_onions.NodeName.Canonical.{IsCanonical, left_lem, right_lem, right-IsCanonical}
use aimless_onions.NodeName.Leaves.{leaf, first_leaf, subtree_size_lem, contains_interval}

-- The leaves of `node` are those of `l` and those of `r`, half of them each, and none of both.
pub record SplitsInto (node l r : NodeName) : Type 0 where
  pub covered :
      (x : ℕ)
      → (contains node (number x) ≡ true)
        ↔ ((contains l (number x) ≡ true) ⊎ (contains r (number x) ≡ true))
  pub apart : (x : ℕ) → contains l (number x) ≡ true → ¬ (contains r (number x) ≡ true)
  pub halves : subtree_size l + subtree_size r ≡ subtree_size node
  pub equal_halves : subtree_size l ≡ subtree_size r

module _ (node : NodeName) (c : IsCanonical node) (h : node.len < hierarchy_depth) where
  abbrev lower : ℕ → NodeName
  lower b = record { len = node.len + 1; path = node.path * 2 + b }

  lower-IsCanonical : (b : ℕ) → b < 2 → IsCanonical (lower b)
  lower-IsCanonical b small = record {
    within = omega arith;
    fits = omega (arith, (right-IsCanonical c h).fits);
  }

  lower-size : (b : ℕ) → subtree_size (lower b) * 2 ≡ subtree_size node
  lower-size b =
      rw (subtree_size_lem (lower b) (omega arith), subtree_size_lem node c.within)
        (ap (λ (t : ℕ). 2 ^ t * 2) below ∙ sym (two_pow_pred (32 - node.len) (omega arith)))
    where
      below : 32 - (node.len + 1) ≡ 32 - node.len - 1
      below = omega arith

  lower-first : (b : ℕ) → first_leaf (lower b) ≡ first_leaf node + b * subtree_size (lower b)
  unfolding first_leaf
  lower-first b = omega (arith, ap (λ (t : ℕ). node.path * t) (lower-size b))

  abbrev Holds : NodeName → ℕ → Type 0
  Holds n x = contains n (number x) ≡ true

  abbrev half : ℕ
  half = subtree_size (lower 0)

  child_interval :
      (b x : ℕ)
      → b < 2
      → Holds (lower b) x
        ↔ ((first_leaf node + b * half ≤ leaf x) × (leaf x < first_leaf node + b * half + half))
  child_interval b x small =
      let same : subtree_size (lower b) ≡ half = omega (arith, lower-size b, lower-size 0) in
      let start : first_leaf (lower b) ≡ first_leaf node + b * half =
        lower-first b ∙ ap (λ (t : ℕ). first_leaf node + b * t) same in
      let i = contains_interval (lower b) x (lower-IsCanonical b small) in rw (start, same) at i

  first_child :
      (x : ℕ) → Holds (lower 0) x ↔ ((first_leaf node ≤ leaf x) × (leaf x < first_leaf node + half))
  first_child x =
      let i = child_interval 0 x (omega arith) in
      (λ t. (omega (arith, i.0 t), omega (arith, i.0 t)), λ b. i.1 (omega arith, omega arith))

  second_child :
      (x : ℕ)
      → Holds (lower 1) x
        ↔ ((first_leaf node + half ≤ leaf x) × (leaf x < first_leaf node + half + half))
  second_child x =
      let i = child_interval 1 x (omega arith) in
      (λ t. (omega (arith, i.0 t), omega (arith, i.0 t)), λ b. i.1 (omega arith, omega arith))

  -- The interval of a node is that of its first child, and then that of its second.
  lower_covered : (x : ℕ) → Holds node x ↔ (Holds (lower 0) x ⊎ Holds (lower 1) x)
  lower_covered x = (
    λ inside.
        let i = (contains_interval node x c).0 inside in
        let side : (leaf x < first_leaf node + half) ⊎ (first_leaf node + half ≤ leaf x) =
          omega arith in
        elim side [
          | inl below ↦ inl ((first_child x).1 (omega (arith, i), omega arith))
          | inr above ↦ inr ((second_child x).1 (omega arith, omega (arith, i, lower-size 0)))
        ],
    λ inside. (contains_interval node x c).1 (elim inside [
      | inl at_left ↦
          let i = (first_child x).0 at_left in (omega (arith, i), omega (arith, i, lower-size 0))
      | inr at_right ↦
          let i = (second_child x).0 at_right in (omega (arith, i), omega (arith, i, lower-size 0))
    ]),
  )

  lower-SplitsInto : SplitsInto node (lower 0) (lower 1)
  lower-SplitsInto = record {
    covered = lower_covered;
    apart =
        λ x at_left at_right. omega (arith, (first_child x).0 at_left, (second_child x).0 at_right);
    halves = omega (arith, lower-size 0, lower-size 1);
    equal_halves = omega (arith, lower-size 0, lower-size 1);
  }

-- A name that `left` accepts stands above the leaves.
pub left-above : (node : NodeName) {l : NodeName} → left node ≡ some l → node.len < hierarchy_depth
unfolding left
left-above node e = ground arith

-- When `left` and `right` return, the leaves of a canonical name are shared out between the results.
pub children-SplitsInto :
    (node l r : NodeName)
    → IsCanonical node
    → left node ≡ some l
    → right node ≡ some r
    → SplitsInto node l r
children-SplitsInto node l r c el er =
    let h = left-above node el in
    let l_is : l ≡ lower node c h 0 = ground (arith, left_lem c h) in
    let r_is : r ≡ lower node c h 1 = ground (arith, right_lem c h) in
    rw (l_is, r_is) (lower-SplitsInto node c h)
