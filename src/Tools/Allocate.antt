-- ===== src/Tools/Allocate.antt =====
-- aimless-onions/src/bin/allocate.rs: how many nodes each relay of a consensus gets. The average, which
-- is printed as an f32, is left as the sum and the number.
use aimless_onions.Prelude.{
  ℕ, suc, ◌+◌, ◌^◌, Option, none, some, List, [], ◌∷◌, map, length, ltb, replicate, ◌==◌,
  if◌then◌else◌,
}
use aimless_onions.Outcome.{Outcome, ok, or_panic, assert, ◌>>=◌}
use aimless_onions.Allocation
use aimless_onions.Allocation.{AllocationRequest, Allocation}
use aimless_onions.Shared.{Text}
use aimless_onions.Consensus.{Relay, read}

-- `enumerate` and `map`, from id `i` on; the id is a u32.
unfoldable pub requests_from : ℕ → List Relay → Outcome (List AllocationRequest)
requests_from i [] = ok []
requests_from i (r ∷ rs) = do
  rest ← requests_from (suc i) rs
  assert (ltb i (2 ^ 32)) (ok (record { id = i; key = replicate 16 0; weight = r.weight } ∷ rest))

-- `max` and `min` of an iterator.
unfoldable pub maximum : List ℕ → Option ℕ
maximum [] = none
maximum (n ∷ ns) = elim (maximum ns) [ none ↦ some n | some m ↦ if ltb n m then some m else some n ]

unfoldable pub minimum : List ℕ → Option ℕ
minimum [] = none
minimum (n ∷ ns) = elim (minimum ns) [ none ↦ some n | some m ↦ if ltb m n then some m else some n ]

unfoldable pub sum : List ℕ → ℕ
sum [] = 0
sum (n ∷ ns) = n + sum ns

unfoldable pub positive : List ℕ → List ℕ
positive [] = []
positive (n ∷ ns) = let rest = positive ns in if n == 0 then rest else n ∷ rest

-- What is printed.
pub record Statistics : Type 0 where
  pub max : ℕ
  pub min : ℕ
  pub total : ℕ
  pub number : ℕ

unfoldable pub statistics : List ℕ → Outcome Statistics
statistics keycount = do
  max ← or_panic (maximum keycount)
  min ← or_panic (minimum (positive keycount))
  ok (record { max = max; min = min; total = sum keycount; number = length keycount })

unfoldable pub main : (Text → Option Text) → List (Option Text) → Outcome Statistics
main captures lines = do
  relays ← read captures lines
  requests ← requests_from 0 relays
  allocation ← or_panic (Allocation.allocate requests)
  statistics (map (λ (a : Allocation). length a.nodes) allocation)
