-- ===== src/Allocation/Weights.antt =====
-- The sorting and scaling of the weights in aimless-onions/src/allocation.rs.
use aimless_onions.Prelude.{
  ℕ, ◌+◌, ◌*◌, ◌/◌, ◌^◌, ◌≤◌, ◌<◌, ◌≡◌, refl, inl, inr, some, List, [], ◌∷◌, arith, sum_by, length,
  if◌then◌else◌, ◌==◌, ◌||◌, ◌⊎◌,
}
use native.Mathlib.Nat.{
  div-mul-le_self, lt-div-mul-add, div-le_of_le-mul, le_of_mul-le-mul_right, mul-le-mul_right,
}
use aimless_onions.Allocation.{
  AllocationRequest, sort_by_key, insert_by_key, scale, scale_all, weight_space_size,
}
use aimless_onions.Allocation.Round.{total_weight, weight_of}
use aimless_onions.Allocation.Loop.{has_request}

insert_by_key-sum :
    (f : AllocationRequest → ℕ) (r : AllocationRequest) (rs : List AllocationRequest)
    → sum_by f (insert_by_key r rs) ≡ f r + sum_by f rs
unfolding insert_by_key
insert_by_key-sum f r [] = refl
insert_by_key-sum f r (s ∷ rs) = ground (arith, insert_by_key-sum f r rs)

-- Sorting keeps every sum over the requests.
pub sort_by_key-sum :
    (f : AllocationRequest → ℕ) (rs : List AllocationRequest)
    → sum_by f (sort_by_key rs) ≡ sum_by f rs
unfolding sort_by_key
sort_by_key-sum f [] = refl
sort_by_key-sum f (r ∷ rs) =
    omega (arith, insert_by_key-sum f r (sort_by_key rs), sort_by_key-sum f rs)

insert_by_key-has :
    (i : ℕ) (r : AllocationRequest) (rs : List AllocationRequest)
    → has_request i (insert_by_key r rs) ≡ (r.id == i || has_request i rs)
unfolding insert_by_key has_request
insert_by_key-has i r [] = refl
insert_by_key-has i r (s ∷ rs) = ground (arith, insert_by_key-has i r rs)

pub sort_by_key-has :
    (i : ℕ) (rs : List AllocationRequest) → has_request i (sort_by_key rs) ≡ has_request i rs
unfolding sort_by_key has_request
sort_by_key-has i [] = refl
sort_by_key-has i (r ∷ rs) =
    ground (arith, insert_by_key-has i r (sort_by_key rs), sort_by_key-has i rs)

-- The part of the weight space that a weight buys, out of a total.
abbrev pub share : ℕ → AllocationRequest → ℕ
share total r = weight_space_size * r.weight / total

pub record Scales (total : ℕ) (before after : List AllocationRequest) : Type 0 where
  pub weights :
      (i : ℕ) → weight_of i after ≡ sum_by (λ r. if r.id == i then share total r else 0) before
  pub whole : total_weight after ≡ sum_by (share total) before
  pub same_requests : (i : ℕ) → has_request i after ≡ has_request i before

share-le : (total : ℕ) (r : AllocationRequest) → r.weight ≤ total → share total r ≤ 2 ^ 32
share-le total r h = div-le_of_le-mul total (omega arith)

scale_lem :
    (total : ℕ) (r : AllocationRequest)
    → 0 < total
    → r.weight ≤ total
    → scale total r ≡ some (record r { weight = share total r })
unfolding scale
scale_lem total r pos h = ground (arith, share-le total r h)

pub scale_all-Scales :
    (total : ℕ) (rs : List AllocationRequest)
    → 0 < total
    → total_weight rs ≤ total
    → (ss : List AllocationRequest) × (scale_all total rs ≡ some ss) × Scales total rs ss
unfolding scale_all has_request
scale_all-Scales total [] pos h =
    ([], refl, record { weights = λ i. refl; whole = refl; same_requests = λ i. refl })
scale_all-Scales total (r ∷ rs) pos h =
    let (ss, e, sc) = scale_all-Scales total rs pos (omega arith) in
    (
      record r { weight = share total r } ∷ ss,
      ground (arith, scale_lem total r pos (omega arith), e),
      record {
        weights = λ i. omega (arith, sc.weights i);
        whole = omega (arith, sc.whole);
        same_requests = λ i. rw (sc.same_requests i);
      },
    )

-- The rounding down: the shares together lose less than one leaf for each request.
pub shares_below :
    (total : ℕ) (rs : List AllocationRequest)
    → sum_by (share total) rs * total ≤ 2 ^ 32 * total_weight rs
shares_below total [] = omega arith
shares_below total (r ∷ rs) =
    omega (arith, div-mul-le_self (2 ^ 32 * r.weight) total, shares_below total rs)

pub shares_above :
    (total : ℕ) (rs : List AllocationRequest)
    → 0 < total
    → 2 ^ 32 * total_weight rs + length rs ≤ sum_by (share total) rs * total + length rs * total
shares_above total [] pos = omega arith
shares_above total (r ∷ rs) pos =
    omega (arith, lt-div-mul-add {a = 2 ^ 32 * r.weight} {b = total} pos, shares_above total rs pos)

some_request : (rs : List AllocationRequest) → 0 < total_weight rs → 1 ≤ length rs
some_request [] pos = pos
some_request (r ∷ rs) pos = omega arith

-- Of a total that is the sum of the weights, the shares fill the weight space but for less than
-- one leaf for each request.
pub shares_fit :
    (rs : List AllocationRequest)
    → 0 < total_weight rs
    → (sum_by (share (total_weight rs)) rs ≤ 2 ^ 32)
      × (2 ^ 32 < sum_by (share (total_weight rs)) rs + length rs)
shares_fit rs pos = (
  le_of_mul-le-mul_right (shares_below total rs) pos,
  elim enough [
    | inl more ↦ more
    | inr less ↦
        absurd (
          omega
            (arith, shares_above total rs pos, some_request rs pos, mul-le-mul_right total less))
  ],
)
  where
    total : ℕ
    total = total_weight rs

    placed : ℕ
    placed = sum_by (share total) rs + length rs

    enough : (2 ^ 32 < placed) ⊎ (placed ≤ 2 ^ 32)
    enough = omega arith
