-- ===== src/Tools/Tests.antt =====
-- Runs of the command line tools of aimless-onions/src/bin/ and of src/consensus.rs.
use aimless_onions.Prelude.{
  ℕ, suc, zero, ◌++◌, ◌+◌, ◌*◌, ◌≡◌, refl, arith, Option, none, some, [], ◌∷◌, length,
}
use aimless_onions.Outcome.{ok, panic}
use aimless_onions.Wire.{Onion, share_size}
use aimless_onions.Shared.{Text}
use aimless_onions.Sample.{sample, SampleKey, sample-IsSound}
use aimless_onions.Onion.{wrap}
use aimless_onions.Onion.Delivery.{IsDelivered, wrap-IsDelivered}
use aimless_onions.Consensus.{read, read_lines, parse_u32, parse_digits}
use aimless_onions.Tools.Allocate.{statistics, maximum, minimum, positive, sum}
use aimless_onions.Tools.TorDiff.{
  find_from, begins_with, hex_upper, needle, compute_consensus_digest,
}
use aimless_onions.Tools.TorDiff.Digest.{IsFirst, compute_consensus_digest-signed}
use aimless_onions.Tools.OnionSizes.{Row, row}
use aimless_onions.Tools.OnionSizes.Exact.{IsBincode, IsExact, row-IsExact}

-- A line of digits is its own capture, and an empty one has none.
abbrev digits_of : Text → Option Text
digits_of [] = none
digits_of (d ∷ ds) = some (d ∷ ds)

-- The line after an error is not read.
two_relays :
    read digits_of (some (52 ∷ 50 ∷ []) ∷ some [] ∷ some (55 ∷ []) ∷ none ∷ some (56 ∷ []) ∷ [])
    ≡ ok (record { weight = 42 } ∷ record { weight = 7 } ∷ [])
unfolding read read_lines parse_u32 parse_digits
two_relays = refl

-- 4294967296 is no u32.
too_large :
    read digits_of (some (52 ∷ 50 ∷ 57 ∷ 52 ∷ 57 ∷ 54 ∷ 55 ∷ 50 ∷ 57 ∷ 54 ∷ []) ∷ []) ≡ panic
unfolding read read_lines parse_u32 parse_digits
too_large = refl

some_statistics :
    statistics (3 ∷ 0 ∷ 5 ∷ 2 ∷ []) ≡ ok (record { max = 5; min = 2; total = 10; number = 4 })
unfolding statistics maximum minimum positive sum
some_statistics = refl

abbrev bincode_size : Onion → ℕ
bincode_size o =
    8 + (8 + length o.shares * share_size) + (8 + length o.header) + (8 + length o.payload)

bincode_size-IsBincode : IsBincode bincode_size
bincode_size-IsBincode = record { layout = λ o sizes. refl }

abbrev wrapped :
    (o : Onion) × (rng' : ℕ) × (wrap sample 5 (3 ∷ []) (10 ∷ []) (11 ∷ []) (72 ∷ []) ≡ ok (o, rng'))
    × IsDelivered sample SampleKey sample-IsSound
        (11 ∷ [])
        (λ i. 11 ∷ [])
        (3 ∷ [])
        (10 ∷ [])
        (72 ∷ [])
        o
wrapped =
    wrap-IsDelivered sample SampleKey sample-IsSound 5 (3 ∷ []) (10 ∷ []) (11 ∷ []) (λ i. 11 ∷ [])
      (72 ∷ []) (omega arith) refl (omega arith, tt) (omega arith, tt) ((refl, tt), tt)

-- One hop, one authority and one byte, out of longer lists.
abbrev one_row : Row × ℕ
one_row = (
  record { path_length = 1; authority_count = 1; payload_size = 1; size = bincode_size wrapped.0 },
  wrapped.1,
)

one_row_is :
    row sample bincode_size (11 ∷ 12 ∷ []) (3 ∷ 4 ∷ []) (10 ∷ 20 ∷ []) (72 ∷ 73 ∷ []) 5 1 1 1
    ≡ ok one_row
unfolding row
one_row_is = rw wrapped.2 refl

row-IsExact_example : IsExact one_row.0
row-IsExact_example =
    row-IsExact sample SampleKey sample-IsSound bincode_size bincode_size-IsBincode (11 ∷ 12 ∷ [])
      (3 ∷ 4 ∷ []) (10 ∷ 20 ∷ []) (72 ∷ 73 ∷ []) 5 1 1 1 one_row (omega arith) (omega arith)
      (omega arith) (omega arith) one_row_is

-- The third place is the first at which the text has the two characters.
found_at : find_from 0 (7 ∷ 8 ∷ []) (7 ∷ 1 ∷ 7 ∷ 8 ∷ 7 ∷ 8 ∷ []) ≡ some 2
unfolding find_from begins_with
found_at = refl

-- 175 is AF.
upper : hex_upper (175 ∷ 0 ∷ []) ≡ 65 ∷ 70 ∷ 48 ∷ 48 ∷ []
unfolding hex_upper
upper = refl

-- The signed part is a line feed and the pattern; a signature follows.
abbrev line_feed : Text
line_feed = 10 ∷ []

line_feed-IsFirst : IsFirst needle line_feed
unfolding begins_with
line_feed-IsFirst zero below = refl
line_feed-IsFirst (suc j) below = absurd (omega (arith, below))

compute_consensus_digest-signed_example :
    compute_consensus_digest (λ t. length t ∷ []) ((line_feed ++ needle) ++ 65 ∷ 66 ∷ [])
    ≡ ok (hex_upper (21 ∷ []))
compute_consensus_digest-signed_example =
    compute_consensus_digest-signed (λ t. length t ∷ []) line_feed (65 ∷ 66 ∷ []) line_feed-IsFirst
