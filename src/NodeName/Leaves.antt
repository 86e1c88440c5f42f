-- ===== src/NodeName/Leaves.antt =====
-- Which identities a node stands for: `contains`, `subtree_size` and `number` of nodename.rs,
-- read as intervals of leaves.
use aimless_onions.Prelude.{
  ℕ, suc, ◌+◌, ◌-◌, ◌*◌, ◌/◌, ◌%◌, ◌^◌, ◌≤◌, ◌<◌, ◌≡◌, refl, sym, ap, ◌∙◌, ◌↔◌, arith, true, ==_iff,
  ◌==◌, le→leb,
}
use aimless_onions.Prelude.Powers.{two_pow_pos, two_pow_add}
use native.Mathlib.Nat.{mul-le-mul_right, div-mul-le_self, lt-div-mul-add, div-eq_of_lt-le}
use aimless_onions.NodeName.{root, NodeName, number, contains, subtree_size}
use aimless_onions.NodeName.Canonical.{IsCanonical, number_lem}

-- The identities that `number` makes into leaves, each written by its low 32 bits.
abbrev pub leaf : ℕ → ℕ
leaf x = x % 2 ^ 32

-- The first leaf below a node.
unfoldable pub first_leaf : NodeName → ℕ
first_leaf n = n.path * subtree_size n

pub subtree_size_lem : (n : NodeName) → n.len ≤ 32 → subtree_size n ≡ 2 ^ (32 - n.len)
unfolding subtree_size
subtree_size_lem n h = ap (λ (t : ℕ). 2 ^ t) (omega arith)

-- A node contains a leaf when the digits of the leaf above the node's depth are the node's path.
pub contains-number :
    (n : NodeName) (x : ℕ)
    → n.len ≤ 32
    → contains n (number x) ≡ (leaf x / subtree_size n == n.path)
unfolding contains
contains-number n x h =
    let count : (32 - n.len) % 64 ≡ 32 - n.len = omega arith in
    rw (number_lem x, subtree_size_lem n h, count, le→leb n.len 32 h)

-- `y / s` is the number of the interval of `s` numbers that holds `y`.
pub div-eq_iff : (y s p : ℕ) → 0 < s → (y / s ≡ p) ↔ ((p * s ≤ y) × (y < p * s + s))
div-eq_iff y s p h = (
  λ e. (rw (← e) (div-mul-le_self y s), rw (← e) (lt-div-mul-add h)),
  λ b. div-eq_of_lt-le s b.0 (omega (arith, b.1)),
)

pub subtree_size-pos : (n : NodeName) → n.len ≤ 32 → 1 ≤ subtree_size n
subtree_size-pos n h = rw (subtree_size_lem n h) (two_pow_pos (32 - n.len))

-- A node contains exactly the leaves from its first one on, as many as its subtree size.
pub contains_interval :
    (n : NodeName) (x : ℕ)
    → IsCanonical n
    → (contains n (number x) ≡ true)
      ↔ ((first_leaf n ≤ leaf x) × (leaf x < first_leaf n + subtree_size n))
unfolding first_leaf
contains_interval n x c =
    let both = div-eq_iff (leaf x) (subtree_size n) n.path (subtree_size-pos n c.within) in
    rw (contains-number n x c.within)
      (λ h. both.0 ((==_iff _ _).0 h), λ b. (==_iff _ _).1 (both.1 b))

-- The intervals of the canonical names stay within the 2 ^ 32 leaves.
pub first_leaf-within : (n : NodeName) → IsCanonical n → first_leaf n + subtree_size n ≤ 2 ^ 32
unfolding first_leaf
first_leaf-within n c =
    let levels : n.len + (32 - n.len) ≡ 32 = omega arith in
    let whole : 2 ^ n.len * 2 ^ (32 - n.len) ≡ 2 ^ 32 =
      sym (two_pow_add n.len (32 - n.len)) ∙ ap (λ (t : ℕ). 2 ^ t) levels in
    let room : suc n.path * 2 ^ (32 - n.len) ≤ 2 ^ n.len * 2 ^ (32 - n.len) =
      mul-le-mul_right (2 ^ (32 - n.len)) c.fits in
    rw (subtree_size_lem n c.within) (omega arith)

-- The root has all the leaves.
pub subtree_size-root : subtree_size root ≡ 2 ^ 32
unfolding subtree_size
subtree_size-root = refl

pub contains-root : (x : ℕ) → contains root (number x) ≡ true
contains-root x =
    (contains_interval root x (record { within = omega arith; fits = omega arith })).1
      (unfold first_leaf in (omega arith, omega (arith, subtree_size-root)))
