-- ===== src/Wire.antt =====
-- The data of aimless-onions/src/format.rs: shares, hops, onions and their sizes in bytes.
use aimless_onions.Prelude.{
  ℕ, zero, suc, ◌+◌, ◌*◌, ◌/◌, ◌%◌, Bool, true, false, ◌&&◌, List, [], ◌∷◌, replicate, ◌==◌, ==_iff,
  ◌≡◌, refl, arith,
}
use mathlib.Core.Path.{ap₂}

abbrev pub Bytes : Type 0
Bytes = List ℕ

-- The prime of the secret sharing, of 160 bits.
abbrev pub prime : ℕ
prime = 927659228076472818176252176283652096798126523793

abbrev pub int_size : ℕ
int_size = 160 / 8

abbrev pub hibe_overhead : ℕ
hibe_overhead = 48 + 96 + 8

abbrev pub share_size : ℕ
share_size = int_size + hibe_overhead

abbrev pub tag_size : ℕ
tag_size = 32

pub record Share : Type 0 where
  pub bytes : Bytes

pub record HopInfo : Type 0 where
  pub delay : ℕ
  pub tag : Bytes

-- `HopInfo` is laid out as in C: the tag follows the four bytes of the delay.
abbrev pub hop_macced_prefix_len : ℕ
hop_macced_prefix_len = 4

abbrev pub hop_info_size : ℕ
hop_info_size = 36

abbrev pub identity_size : ℕ
identity_size = 8

abbrev pub per_hop_size : ℕ → ℕ
per_hop_size num_authorities = hop_info_size + identity_size + 8 + num_authorities * share_size

pub record Onion : Type 0 where
  pub identity : ℕ
  pub shares : List Share
  pub header : Bytes
  pub payload : Bytes

-- The triple that a hop's part of the header holds.
pub record HopHeader : Type 0 where
  pub hop : HopInfo
  pub identity : ℕ
  pub shares : List Share

-- Equality of byte arrays.
unfoldable pub bytes_eq : Bytes → Bytes → Bool
bytes_eq [] [] = true
bytes_eq [] (y ∷ ys) = false
bytes_eq (x ∷ xs) [] = false
bytes_eq (x ∷ xs) (y ∷ ys) = x == y && bytes_eq xs ys

abbrev pub empty_share : Share
empty_share = record { bytes = replicate share_size 0 }

unfoldable pub is_empty_share : Share → Bool
is_empty_share s = bytes_eq s.bytes (replicate share_size 0)

unfoldable pub all_empty : List Share → Bool
all_empty [] = true
all_empty (s ∷ ss) = is_empty_share s && all_empty ss

unfoldable pub is_final_destination : Onion → Bool
is_final_destination o = o.identity == 0 && all_empty o.shares

-- The low `n` bytes of a number, the lowest first.
unfoldable pub to_le_bytes : ℕ → ℕ → Bytes
to_le_bytes zero x = []
to_le_bytes (suc n) x = x % 256 ∷ to_le_bytes n (x / 256)

pub bytes_eq_refl : (xs : Bytes) → bytes_eq xs xs ≡ true
unfolding bytes_eq
bytes_eq_refl [] = refl
bytes_eq_refl (x ∷ xs) = ground (arith, bytes_eq_refl xs)

pub &&-both : (a b : Bool) → (a && b) ≡ true → (a ≡ true) × (b ≡ true)
&&-both true true h = (refl, refl)
&&-both true false h = cc
&&-both false b h = cc

pub bytes_eq→≡ : (xs ys : Bytes) → bytes_eq xs ys ≡ true → xs ≡ ys
unfolding bytes_eq
bytes_eq→≡ [] [] e = refl
bytes_eq→≡ [] (y ∷ ys) e = cc
bytes_eq→≡ (x ∷ xs) [] e = cc
bytes_eq→≡ (x ∷ xs) (y ∷ ys) e =
    let (here, rest) = &&-both (x == y) (bytes_eq xs ys) e in
    ap₂ ◌∷◌ ((==_iff x y).0 here) (bytes_eq→≡ xs ys rest)
