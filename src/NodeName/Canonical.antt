-- ===== src/NodeName/Canonical.antt =====
-- Canonical names, those whose path has no digits beyond the depth, and how the constructors of
-- nodename.rs make and keep them.
use aimless_onions.Prelude.{
  ℕ, zero, suc, ◌+◌, ◌-◌, ◌*◌, ◌/◌, ◌%◌, ◌^◌, ◌≤◌, ◌<◌, ◌≡◌, ◌⊎◌, refl, Bool, true, ◌&&◌, some,
  none, arith, ◌==◌, u64_max,
}
use aimless_onions.Prelude.Bits.{bit_and_mask, bit_or-double}
use aimless_onions.Prelude.Powers.{two_pow_le, two_pow_succ, two_pow_pred, mod-two_pow-lt}
use native.Mathlib.Nat.{mod-eq_of_lt}
use aimless_onions.NodeName.{
  NodeName, hierarchy_depth, clear_bits, canonicalized, number, new, left, right, parent,
}

pub record IsCanonical (n : NodeName) : Type 0 where
  pub within : n.len ≤ hierarchy_depth
  pub fits : n.path < 2 ^ n.len

-- Every depth up to 64 was tried: the loop leaves a mask of `len` ones.
masks_upto : ℕ → Bool
masks_upto zero = true
masks_upto (suc k) = (clear_bits (64 - k) k u64_max == 2 ^ k - 1) && masks_upto k

masks_upto_sound :
    (n k : ℕ) → masks_upto n ≡ true → k < n → clear_bits (64 - k) k u64_max ≡ 2 ^ k - 1
unfolding masks_upto
masks_upto_sound zero k h below = absurd (omega arith)
masks_upto_sound (suc n) k h below = ground (arith, masks_upto_sound n k)

masks_all : masks_upto 65 ≡ true
unfolding masks_upto clear_bits
masks_all = refl

-- Canonicalising keeps the depth and cuts the path to that many digits.
canonicalized_lem :
    (n : NodeName)
    → n.len ≤ 64
    → canonicalized n ≡ record { len = n.len; path = n.path % 2 ^ n.len }
unfolding canonicalized
canonicalized_lem n h =
    rw (masks_upto_sound 65 n.len masks_all (omega arith), bit_and_mask n.len n.path)

pub number_lem : (x : ℕ) → number x ≡ record { len = 32; path = x % 2 ^ 32 }
unfolding number
number_lem x = canonicalized_lem (record { len = 32; path = x }) (omega arith)

-- `new` makes the name of the given depth whose path is cut to that many digits, and it panics for
-- a depth beyond the hierarchy.
pub new_lem :
    (len path : ℕ)
    → ((len ≤ 32) × (new len path ≡ some (record { len = len; path = path % 2 ^ len })))
      ⊎ ((32 < len) × (new len path ≡ none))
unfolding new
new_lem len path = ground (arith, canonicalized_lem (record { len = len; path = path }))

pub number-IsCanonical : (x : ℕ) → IsCanonical (number x)
number-IsCanonical x =
    rw (number_lem x) (record { within = omega arith; fits = mod-two_pow-lt 32 x })

-- A canonical path above the leaves fits 31 digits, so the shift loses none.
path-lt : {n : NodeName} → IsCanonical n → n.len < 32 → n.path < 2 ^ 31
path-lt {n} c h = omega (arith, c.fits, two_pow_le n.len 31 (omega arith))

-- What `left` and `right` are on canonical names above the leaves.
pub left_lem :
    {n : NodeName}
    → IsCanonical n
    → n.len < 32
    → left n ≡ some (record { len = n.len + 1; path = n.path * 2 })
unfolding left
left_lem {n} c h = ground (arith, path-lt c h)

pub right_lem :
    {n : NodeName}
    → IsCanonical n
    → n.len < 32
    → right n ≡ some (record { len = n.len + 1; path = n.path * 2 + 1 })
unfolding right
right_lem {n} c h =
    let kept : n.path * 2 % 2 ^ 64 ≡ n.path * 2 = mod-eq_of_lt (omega (arith, path-lt c h)) in
    ground (arith, kept, bit_or-double n.path)

pub parent_lem :
    (n : NodeName) → 0 < n.len → parent n ≡ some (record { len = n.len - 1; path = n.path / 2 })
unfolding parent
parent_lem n h = ground arith

pub left-IsCanonical :
    {n : NodeName}
    → IsCanonical n
    → n.len < 32
    → IsCanonical (record { len = n.len + 1; path = n.path * 2 })
left-IsCanonical {n} c h = record { within = omega arith; fits = omega (arith, two_pow_succ n.len) }

pub right-IsCanonical :
    {n : NodeName}
    → IsCanonical n
    → n.len < 32
    → IsCanonical (record { len = n.len + 1; path = n.path * 2 + 1 })
right-IsCanonical {n} c h = record {
  within = omega arith;
  fits = omega (arith, two_pow_succ n.len);
}

pub parent-IsCanonical :
    (n : NodeName)
    → IsCanonical n
    → 0 < n.len
    → IsCanonical (record { len = n.len - 1; path = n.path / 2 })
parent-IsCanonical n c h = record {
  within = omega arith;
  fits = omega (arith, two_pow_pred n.len h);
}
