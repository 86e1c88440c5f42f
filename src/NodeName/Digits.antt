-- ===== src/NodeName/Digits.antt =====
-- The digits by which aimless-onions/src/nodename.rs maps a name.
use aimless_onions.Prelude.{
  ℕ, zero, suc, ◌+◌, ◌-◌, ◌/◌, ◌%◌, ◌^◌, ◌≤◌, ◌≡◌, refl, ap, sym, ◌∙◌, arith, length, [], ◌∷◌, ◌++◌,
  shr64, bit_and,
}
use native.Mathlib.Nat.{div-div-eq-div-mul, div-one, pow-suc}
use aimless_onions.NodeName.{NodeName, level_bits, path_bits}

length-level_bits : (i rounds len path : ℕ) → length (level_bits i rounds len path) ≡ rounds
unfolding level_bits
length-level_bits i zero len path = refl
length-level_bits i (suc rounds) len path = ap suc (length-level_bits (i + 1) rounds len path)

pub length-path_bits : (n : NodeName) → length (path_bits n) ≡ n.len
unfolding path_bits
length-path_bits n = length-level_bits 1 n.len n.len n.path

-- One bit further to the right.
shr64_more : (path d : ℕ) → d ≤ 31 → shr64 path (suc d) ≡ shr64 (path / 2) d
shr64_more path d small =
    let more : suc d % 64 ≡ suc (d % 64) = omega arith in
    ap (λ (k : ℕ). path / 2 ^ k) more
    ∙ ap (λ (k : ℕ). path / k) (pow-suc 2 (d % 64) ∙ omega arith)
    ∙ sym (div-div-eq-div-mul path 2 (2 ^ (d % 64)))

level_bits-child :
    (i k len path : ℕ)
    → len ≤ 31
    → i + k ≡ suc len
    → level_bits i (suc k) (suc len) path ≡ level_bits i k len (path / 2) ++ bit_and path 1 ∷ []
unfolding level_bits
level_bits-child i zero len path small at =
    let last : (suc len - i) % 64 ≡ 0 = omega (arith, at) in
    let whole : shr64 path (suc len - i) ≡ path =
      ap (λ (k : ℕ). path / 2 ^ k) last ∙ div-one path in
    ap (λ (x : ℕ). bit_and x 1 ∷ []) whole
level_bits-child i (suc k) len path small at =
    let further : suc len - i ≡ suc (len - i) = omega (arith, at) in
    let here : shr64 path (suc len - i) ≡ shr64 (path / 2) (len - i) =
      ap (shr64 path) further ∙ shr64_more path (len - i) (omega (arith, small)) in
    let later = level_bits-child (i + 1) k len path small (omega (arith, at)) in
    λ i'. bit_and (here i') 1 ∷ later i'

-- A child has the digits of its parent and one more.
pub path_bits-child :
    (parent child : NodeName)
    → child.len ≡ suc parent.len
    → child.len ≤ 32
    → child.path / 2 ≡ parent.path
    → path_bits child ≡ path_bits parent ++ bit_and child.path 1 ∷ []
unfolding path_bits
path_bits-child parent child deeper within above =
    ap (λ (l : ℕ). level_bits 1 l l child.path) deeper
    ∙ level_bits-child 1 parent.len parent.len child.path (omega (arith, deeper, within))
        (omega arith)
    ∙ ap (λ (q : ℕ). level_bits 1 parent.len parent.len q ++ bit_and child.path 1 ∷ []) above
