-- ===== src/Consensus.antt =====
-- aimless-onions/src/consensus.rs: the weights of the relays in a consensus of Tor. The file is the list
-- of what `read_line` returns, `none` being an `Err`; `captures` stands for the crate regex with the
-- pattern `Bandwidth=(\\d+)`, and gives the digits.
use aimless_onions.Prelude.{
  ℕ, ◌+◌, ◌-◌, ◌*◌, ◌^◌, ◌&&◌, Option, none, some, List, [], ◌∷◌, ◌++◌, ltb, leb, if◌then◌else◌,
}
use aimless_onions.Outcome.{Outcome, ok, or_panic, ◌>>=◌}
use aimless_onions.Shared.{Text}

pub record Relay : Type 0 where
  pub weight : ℕ

-- The number that digits make, after `n`; a u32 that does not fit and other characters are an `Err`.
unfoldable pub parse_digits : ℕ → Text → Option ℕ
parse_digits n [] = some n
parse_digits n (d ∷ ds) =
    let rest = parse_digits (n * 10 + (d - 48)) ds in
    if leb 48 d && leb d 57 && ltb (n * 10 + (d - 48)) (2 ^ 32) then rest else none

-- `parse::<u32>` of a text without sign.
unfoldable pub parse_u32 : Text → Option ℕ
parse_u32 [] = none
parse_u32 (d ∷ ds) = parse_digits 0 (d ∷ ds)

-- The loop of `read`: an `Err` of `read_line` ends it like the end of the file.
unfoldable pub read_lines :
    (Text → Option Text) → List (Option Text) → List Relay → Outcome (List Relay)
read_lines captures [] result = ok result
read_lines captures (none ∷ lines) result = ok result
read_lines captures (some line ∷ lines) result = elim (captures line) [
  | none ↦ read_lines captures lines result
  | some digits ↦ do
    weight ← or_panic (parse_u32 digits)
    read_lines captures lines (result ++ record { weight = weight } ∷ [])
]

unfoldable pub read : (Text → Option Text) → List (Option Text) → Outcome (List Relay)
read captures lines = read_lines captures lines []
