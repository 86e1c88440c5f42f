-- ===== src/NodeName.antt =====
-- aimless-onions/src/nodename.rs: the names of the nodes of the binary tree over the identities.
-- A Rust `assert!` that fails is a panic, here `none`. Arithmetic is that of a release build.
pub mod Canonical
pub mod Digits
pub mod Family
pub mod Leaves
pub mod Matrix
pub mod Split
pub mod Walk
mod Tests
use aimless_onions.Prelude.{
  ℕ, zero, suc, ◌+◌, ◌-◌, ◌*◌, ◌/◌, ◌%◌, ◌^◌, Bool, true, false, ◌&&◌, Option, none, some, List, [],
  ◌∷◌, ◌++◌, map, ltb, leb, ◌==◌, if◌then◌else◌, u64_max, shl64, shr64, bit_and, bit_or, bit_xor,
  length,
}
use aimless_onions.Outcome.{Outcome, ok, ◌>>=◌, or_panic}

-- `NodeName(u8, u64)`: the depth, and the steps from the root as binary digits, the last one lowest.
pub record NodeName : Type 0 where
  pub len : ℕ
  pub path : ℕ

abbrev pub hierarchy_depth : ℕ
hierarchy_depth = 32

abbrev pub root : NodeName
root = record { len = 0; path = 0 }

-- `NodeName::MAX`, whose path is not canonical.
abbrev pub max_node : NodeName
max_node = record { len = hierarchy_depth; path = u64_max }

-- The loop of `canonicalized`: `mask ^= 1 << i` for the `rounds` bits from `i` on.
clear_bits : (rounds i mask : ℕ) → ℕ
clear_bits zero i mask = mask
clear_bits (suc rounds) i mask = clear_bits rounds (i + 1) (bit_xor mask (shl64 1 i))

pub canonicalized : NodeName → NodeName
unfolding clear_bits
canonicalized n = record n { path = bit_and n.path (clear_bits (64 - n.len) n.len u64_max) }

pub number : ℕ → NodeName
number path = canonicalized (record { len = hierarchy_depth; path = path })

pub new : ℕ → ℕ → Option NodeName
new length path =
    if leb length hierarchy_depth
    then some (canonicalized (record { len = length; path = path }))
    else none

unfoldable pub parent : NodeName → Option NodeName
parent n = if ltb 0 n.len then some (record { len = n.len - 1; path = shr64 n.path 1 }) else none

unfoldable pub left : NodeName → Option NodeName
left n =
    if ltb n.len hierarchy_depth
    then some (record { len = n.len + 1; path = shl64 n.path 1 })
    else none

unfoldable pub right : NodeName → Option NodeName
right n =
    if ltb n.len hierarchy_depth
    then some (record { len = n.len + 1; path = bit_or (shl64 n.path 1) 1 })
    else none

pub is_leaf : NodeName → Bool
is_leaf n = n.len == hierarchy_depth

pub is_left : NodeName → Bool
unfolding is_leaf
is_left n = bit_and n.path 1 == 0 && is_leaf n

pub is_right : NodeName → Bool
unfolding is_leaf
is_right n = bit_and n.path 1 == 1 && is_leaf n

-- `1 << (HIERARCHY_DEPTH - self.len())`: the difference is a u8, the shift is of a u128.
unfoldable pub subtree_size : NodeName → ℕ
subtree_size n = 2 ^ ((hierarchy_depth + 256 - n.len) % 256 % 128)

pub is_empty : NodeName → Bool
is_empty n = n.len == 0

-- `self` is `other` or an ancestor of it.
unfoldable pub contains : NodeName → NodeName → Bool
contains self other =
    leb self.len other.len && (shr64 other.path (other.len - self.len) == self.path)

-- The loop of `walk`: `parents` is the array built so far, last element first. It has room for
-- `hierarchy_depth` names, and a push beyond panics. So the fuel is enough to end or to panic.
walk_up : (fuel : ℕ) (node : NodeName) (parents : List NodeName) → Option (List NodeName)
walk_up zero node parents = none
walk_up (suc fuel) node parents = elim (is_empty node) [
  | true ↦ some parents
  | false ↦ elim (ltb (length parents) hierarchy_depth) [
    | false ↦ none
    | true ↦ elim (parent node) [ none ↦ none | some above ↦ walk_up fuel above (node ∷ parents) ]
  ]
]

-- The names on the way from the root, which is left out, down to `node`.
pub walk : NodeName → Option (List NodeName)
unfolding walk_up
walk node = walk_up (hierarchy_depth + 1) node []

-- The digits that `map_identity` hands to the mapper: one for each level, from the root down.
level_bits : (i rounds len path : ℕ) → List ℕ
level_bits i zero len path = []
level_bits i (suc rounds) len path =
    bit_and (shr64 path (len - i)) 1 ∷ level_bits (i + 1) rounds len path

pub path_bits : NodeName → List ℕ
unfolding level_bits
path_bits n = level_bits 1 n.len n.len n.path

-- `HashMapper`, of the crate hohibe, is the argument; `none` is an `Err`.
unfoldable pub map_identity : {A : Type 0} → (List ℕ → Option (List A)) → NodeName → Option (List A)
map_identity hash_mapper n = hash_mapper (path_bits n)

-- `zip`, with a vector of both elements.
unfoldable pub zip_pairs : {A : Type 0} → List A → List A → List (List A)
zip_pairs [] bs = []
zip_pairs (a ∷ as') [] = []
zip_pairs (a ∷ as') (b ∷ bs) = (a ∷ b ∷ []) ∷ zip_pairs as' bs

unfoldable pub identity_matrix : {A : Type 0} → (List ℕ → Option (List A)) → Outcome (List (List A))
identity_matrix hash_mapper = do
  id_a ← or_panic (map_identity hash_mapper (number 0))
  id_b ← or_panic (map_identity hash_mapper (number u64_max))
  ok (zip_pairs id_a id_b)
