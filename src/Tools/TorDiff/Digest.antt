-- ===== src/Tools/TorDiff/Digest.antt =====
-- Which part of a consensus `compute_consensus_digest` of tor-diff-size/src/main.rs takes.
use aimless_onions.Prelude.{
  ℕ, suc, ◌+◌, ◌≤◌, ◌<◌, ◌≡◌, refl, ap, ◌∙◌, arith, true, false, ◌&&◌, some, [], ◌∷◌, ◌++◌, length,
  length-append, drop, ◌==◌, ==_iff,
}
use aimless_onions.Prelude.Splice.{take-append_exact}
use aimless_onions.Outcome.{ok}
use aimless_onions.Wire.{Bytes}
use aimless_onions.Shared.{Text}
use aimless_onions.Tools.TorDiff.{
  begins_with, find_from, hex_upper, needle, compute_consensus_digest,
}

-- What follows a text that is long enough does not change what it begins with.
begins_with-append : (n t m : Text) → length n ≤ length t → begins_with n (t ++ m) ≡ begins_with n t
unfolding begins_with
begins_with-append [] t m long = refl
begins_with-append (x ∷ n) [] m long = absurd (omega (arith, long))
begins_with-append (x ∷ n) (y ∷ t) m long =
    ap (λ b. x == y && b) (begins_with-append n t m (omega (arith, long)))

begins_with_refl : (n : Text) → begins_with n n ≡ true
unfolding begins_with
begins_with_refl [] = refl
begins_with_refl (x ∷ n) = rw ((==_iff x x).1 refl, begins_with_refl n) refl

begins_with-prefix : (n m : Text) → begins_with n (n ++ m) ≡ true
begins_with-prefix n m = begins_with-append n n m (omega arith) ∙ begins_with_refl n

-- The pattern does not begin at any place of the text before the pattern.
abbrev pub IsFirst : Text → Text → Type 0
IsFirst n before = (j : ℕ) → j < length before → begins_with n (drop j (before ++ n)) ≡ false

find_from-here : (i : ℕ) (n t : Text) → begins_with n t ≡ true → find_from i n t ≡ some i
unfolding find_from
find_from-here i n [] here = rw here refl
find_from-here i n (x ∷ t) here = rw here refl

find_from-first :
    (i : ℕ) (n before after : Text)
    → IsFirst n before
    → find_from i n ((before ++ n) ++ after) ≡ some (i + length before)
unfolding find_from
find_from-first i n [] after first =
    find_from-here i n (n ++ after) (begins_with-prefix n after) ∙ ap some (omega arith)
find_from-first i n (x ∷ before) after first =
    let long : length (before ++ n) ≡ length before + length n = length-append before n in
    let other : begins_with n (x ∷ ((before ++ n) ++ after)) ≡ false =
      begins_with-append n (x ∷ (before ++ n)) after (omega (arith, long))
      ∙ first 0 (omega arith) in
    let rest =
      find_from-first (suc i) n before after (λ j below. first (suc j) (omega (arith, below))) in
    rw other (rest ∙ ap some (omega arith))

-- The digest of a text is the hash, in upper case hexadecimal digits, of what comes up to and with
-- the first "directory-signature ", whatever follows it.
pub compute_consensus_digest-signed :
    (sha3_256 : Text → Bytes) (before after : Text)
    → IsFirst needle before
    → compute_consensus_digest sha3_256 ((before ++ needle) ++ after)
      ≡ ok (hex_upper (sha3_256 (before ++ needle)))
unfolding compute_consensus_digest
compute_consensus_digest-signed sha3_256 before after first =
    let signed : length (before ++ needle) ≡ length before + length needle =
      length-append before needle in
    rw (find_from-first 0 needle before after first) (
      ap (λ (t : Text). ok (hex_upper (sha3_256 t)))
        (take-append_exact (0 + length before + length needle) (before ++ needle) after
          (omega (arith, signed))))
