-- ===== src/Tools/TorDiff.antt =====
-- tor-diff-size/src/main.rs: the differences between consensuses of Tor that a directory sends. The
-- stream to the directory (arti), the files and the hash are arguments.
pub mod Digest
use aimless_onions.Prelude.{
  ℕ, suc, ◌+◌, ◌/◌, ◌%◌, Bool, true, false, ◌&&◌, Option, none, some, List, [], ◌∷◌, ◌++◌, length,
  take, ltb, ◌==◌, if◌then◌else◌,
}
use aimless_onions.Outcome.{Outcome, ok, or_panic, ◌>>=◌}
use aimless_onions.Wire.{Bytes}
use aimless_onions.Shared.{Text}

-- Whether a text begins with another one, and where the first place is at which it does (`find`).
unfoldable pub begins_with : Text → Text → Bool
begins_with [] t = true
begins_with (x ∷ xs) [] = false
begins_with (x ∷ xs) (y ∷ ys) = x == y && begins_with xs ys

unfoldable pub find_from : ℕ → Text → Text → Option ℕ
find_from i needle [] = if begins_with needle [] then some i else none
find_from i needle (x ∷ xs) =
    let rest = find_from (suc i) needle xs in if begins_with needle (x ∷ xs) then some i else rest

-- `hex::encode` and `to_uppercase`.
abbrev pub hex_digit : ℕ → ℕ
hex_digit d = if ltb d 10 then 48 + d else 55 + d

unfoldable pub hex_upper : Bytes → Text
hex_upper [] = []
hex_upper (b ∷ bs) = hex_digit (b / 16) ∷ hex_digit (b % 16) ∷ hex_upper bs

abbrev pub needle : Text
needle =
    100 ∷ 105 ∷ 114 ∷ 101 ∷ 99 ∷ 116 ∷ 111 ∷ 114 ∷ 121 ∷ 45 ∷ 115 ∷ 105 ∷ 103 ∷ 110 ∷ 97 ∷ 116 ∷ 117
    ∷ 114 ∷ 101 ∷ 32 ∷ []

unfoldable pub compute_consensus_digest : (Text → Bytes) → Text → Outcome Text
compute_consensus_digest sha3_256 content = do
  stop ← or_panic (find_from 0 needle content)
  ok (hex_upper (sha3_256 (take (stop + length needle) content)))

abbrev pub microdesc : Text
microdesc = 45 ∷ 109 ∷ 105 ∷ 99 ∷ 114 ∷ 111 ∷ 100 ∷ 101 ∷ 115 ∷ 99 ∷ []

unfoldable pub flavor : Text → Text
flavor arg = elim (find_from 0 microdesc arg) [ none ↦ [] | some i ↦ microdesc ]

-- The parts that are written to the stream.
unfoldable pub request : Text → Text → List Text
request arg digest =
    ((71 ∷ 69 ∷ 84 ∷ 32 ∷ 47 ∷ 116 ∷ 111 ∷ 114 ∷ 47 ∷ 115 ∷ 116 ∷ 97 ∷ 116 ∷ 117 ∷ 115 ∷ 45 ∷ 118
        ∷ 111 ∷ 116 ∷ 101 ∷ 47 ∷ 99 ∷ 117 ∷ 114 ∷ 114 ∷ 101 ∷ 110 ∷ 116 ∷ 47 ∷ 99 ∷ 111 ∷ 110 ∷ 115
        ∷ 101 ∷ 110 ∷ 115 ∷ 117 ∷ 115 ∷ [])
      ++ flavor arg
      ++ (32 ∷ 72 ∷ 84 ∷ 84 ∷ 80 ∷ 47 ∷ 49 ∷ 46 ∷ 49 ∷ 13 ∷ 10 ∷ []))
    ∷ (65 ∷ 99 ∷ 99 ∷ 101 ∷ 112 ∷ 116 ∷ 45 ∷ 69 ∷ 110 ∷ 99 ∷ 111 ∷ 100 ∷ 105 ∷ 110 ∷ 103 ∷ 58 ∷ 32
        ∷ 122 ∷ 115 ∷ 116 ∷ 100 ∷ 44 ∷ 105 ∷ 100 ∷ 101 ∷ 110 ∷ 116 ∷ 105 ∷ 116 ∷ 121 ∷ 13 ∷ 10 ∷ [])
    ∷ ((88 ∷ 45 ∷ 79 ∷ 114 ∷ 45 ∷ 68 ∷ 105 ∷ 102 ∷ 102 ∷ 45 ∷ 70 ∷ 114 ∷ 111 ∷ 109 ∷ 45 ∷ 67 ∷ 111
          ∷ 110 ∷ 115 ∷ 101 ∷ 110 ∷ 115 ∷ 117 ∷ 115 ∷ 58 ∷ 32 ∷ [])
        ++ digest
        ++ (13 ∷ 10 ∷ []))
    ∷ (13 ∷ 10 ∷ [])
    ∷ []

-- The files by name, what is read from a stream for what was written to it, and the files written.
unfoldable pub process :
    (Text → Bytes)
    → (Text → Option Text)
    → (List Text → Option Bytes)
    → Text
    → List (Text × Bytes)
    → Outcome (List (Text × Bytes))
process sha3_256 read_to_string exchange arg written = do
  content ← or_panic (read_to_string arg)
  digest ← compute_consensus_digest sha3_256 content
  result ← or_panic (exchange (request arg digest))
  ok (written ++ (arg ++ (46 ∷ 100 ∷ 105 ∷ 102 ∷ 102 ∷ []), result) ∷ [])

unfoldable pub main :
    (Text → Bytes)
    → (Text → Option Text)
    → (List Text → Option Bytes)
    → List Text
    → List (Text × Bytes)
    → Outcome (List (Text × Bytes))
main sha3_256 read_to_string exchange [] written = ok written
main sha3_256 read_to_string exchange (arg ∷ args) written = do
  written' ← process sha3_256 read_to_string exchange arg written
  main sha3_256 read_to_string exchange args written'
