-- ===== src/Allocation/Shares.antt =====
-- What `allocate` of aimless-onions/src/allocation.rs promises to the relays.
use aimless_onions.Prelude.{
  ℕ, ◌+◌, ◌^◌, ◌≤◌, ◌<◌, ◌≡◌, refl, ap, ◌∙◌, sym, subst, Bool, false, some, List, [], ◌∷◌, arith,
  sum_by, length, if◌then◌else◌, ◌==◌, ◌||◌,
}
use native.Mathlib.Nat.{mod-eq_of_lt}
use mathlib.Core.Option.{some-injective}
use aimless_onions.Allocation.{
  AllocationRequest, Allocation, allocate, sort_by_key, scale_all, sum_weight, has_id, run, initial,
  enough_fuel, insert_empty,
}
use aimless_onions.Allocation.Cells.{owners, size_of, all_sizes, ids}
use aimless_onions.Allocation.Round.{total_weight, weight_of}
use aimless_onions.Allocation.Loop.{
  IsAllocated, run-IsAllocated, initial-IsRunning, has_request, insert_empty-has_id,
}
use aimless_onions.Allocation.Weights.{
  share, Scales, scale_all-Scales, sort_by_key-sum, sort_by_key-has, shares_fit,
}

-- Weights that add up to a total that is positive and fits the u64.
pub record IsWeighted (requests : List AllocationRequest) : Type 0 where
  pub positive : 0 < total_weight requests
  pub fits : total_weight requests < 2 ^ 64

-- What `allocate` computes before its loop, and that the loop reaches its aim from there.
pub record Outcome (requests : List AllocationRequest) : Type 0 where
  pub scaled : List AllocationRequest
  pub result : List Allocation
  pub returns : allocate requests ≡ some result
  pub scales : Scales (total_weight requests) (sort_by_key requests) scaled
  pub good :
      IsAllocated
        (λ i. weight_of i scaled)
        (total_weight scaled)
        (ids (insert_empty [] scaled))
        result

module _ (requests : List AllocationRequest) (w : IsWeighted requests) where
  abbrev sorted : List AllocationRequest
  sorted = sort_by_key requests

  same_total : total_weight sorted ≡ total_weight requests
  same_total = sort_by_key-sum (λ r. r.weight) requests

  sum_is_total : sum_weight sorted ≡ total_weight requests
  unfolding sum_weight
  sum_is_total = mod-eq_of_lt (rw same_total w.fits) ∙ same_total

  same_shares :
      sum_by (share (total_weight requests)) sorted
      ≡ sum_by (share (total_weight requests)) requests
  same_shares = sort_by_key-sum (share (total_weight requests)) requests

  allocate_steps :
      (scaled : List AllocationRequest) (result : List Allocation)
      → scale_all (total_weight requests) sorted ≡ some scaled
      → run enough_fuel (initial scaled) ≡ some result
      → allocate requests ≡ some result
  unfolding allocate
  allocate_steps scaled result e ran = rw (sum_is_total, e, allocate) ran

  pub outcome : Outcome requests
  outcome =
      let (scaled, e, sc) =
        scale_all-Scales (total_weight requests) sorted w.positive (omega (arith, same_total)) in
      let room : total_weight scaled ≤ 2 ^ 32 =
        omega (arith, sc.whole, same_shares, shares_fit requests w.positive) in
      let (result, ran, good) =
        run-IsAllocated (λ i. weight_of i scaled) (total_weight scaled)
          (ids (insert_empty [] scaled)) enough_fuel (initial scaled)
          (initial-IsRunning scaled room) (omega (arith, room)) in
      record {
        scaled = scaled;
        result = result;
        returns = allocate_steps scaled result e ran;
        scales = sc;
        good = good;
      }

-- The part of the weight space that an id's requests buy together.
abbrev pub bought : List AllocationRequest → ℕ → ℕ
bought requests i = sum_by (λ r. if r.id == i then share (total_weight requests) r else 0) requests

pub the_result :
    (requests : List AllocationRequest) (w : IsWeighted requests) {result : List Allocation}
    → allocate requests ≡ some result
    → (outcome requests w).result ≡ result
the_result requests w e = some-injective _ _ (sym (outcome requests w).returns ∙ e)

outcome-sizes :
    (requests : List AllocationRequest) (w : IsWeighted requests) (i : ℕ)
    → size_of i (outcome requests w).result ≡ bought requests i
outcome-sizes requests w i =
    let o = outcome requests w in
    o.good.sizes i
    ∙ o.scales.weights i
    ∙ sort_by_key-sum (λ r. if r.id == i then share (total_weight requests) r else 0) requests

abbrev pub has_name : ℕ → List ℕ → Bool
has_name i [] = false
has_name i (n ∷ ns) = n == i || has_name i ns

pub has_id-ids : (i : ℕ) (as' : List Allocation) → has_id i as' ≡ has_name i (ids as')
unfolding has_id
has_id-ids i [] = refl
has_id-ids i (a ∷ as') = rw (has_id-ids i as')

outcome-entries :
    (requests : List AllocationRequest) (w : IsWeighted requests) (i : ℕ)
    → has_id i (outcome requests w).result ≡ has_request i requests
unfolding has_id
outcome-entries requests w i =
    let o = outcome requests w in
    has_id-ids i o.result
    ∙ ap (has_name i) o.good.entries
    ∙ sym (has_id-ids i (insert_empty [] o.scaled))
    ∙ insert_empty-has_id i [] o.scaled
    ∙ o.scales.same_requests i
    ∙ sort_by_key-has i requests

-- When the weights have a positive total below 2 ^ 64, `allocate` returns: its loop ends, it never
-- runs out of free cells, never splits a leaf and never misses an entry of its map.
pub allocate_total :
    (requests : List AllocationRequest)
    → IsWeighted requests
    → (result : List Allocation) × (allocate requests ≡ some result)
allocate_total requests w = ((outcome requests w).result, (outcome requests w).returns)

-- When the weights have a positive total below 2 ^ 64 and `allocate` returns, the nodes of each id
-- have together exactly the size that its requests buy, each weight being rounded down to a number
-- of leaves.
pub allocate_sizes :
    (requests : List AllocationRequest) (result : List Allocation)
    → IsWeighted requests
    → allocate requests ≡ some result
    → (i : ℕ) → size_of i result ≡ bought requests i
allocate_sizes requests result w e i =
    subst (λ (t : List Allocation). size_of i t ≡ bought requests i) (the_result requests w e)
      (outcome-sizes requests w i)

-- When the weights have a positive total below 2 ^ 64 and `allocate` returns, no identity is held by
-- two of the nodes that it gave out.
pub allocate_exclusive :
    (requests : List AllocationRequest) (result : List Allocation)
    → IsWeighted requests
    → allocate requests ≡ some result
    → (x : ℕ) → owners x result ≤ 1
allocate_exclusive requests result w e x =
    subst (λ (t : List Allocation). owners x t ≤ 1) (the_result requests w e)
      ((outcome requests w).good.exclusive x)

-- When the weights have a positive total below 2 ^ 64 and `allocate` returns, an id has an entry in
-- the result exactly when a request has that id.
pub allocate_entries :
    (requests : List AllocationRequest) (result : List Allocation)
    → IsWeighted requests
    → allocate requests ≡ some result
    → (i : ℕ) → has_id i result ≡ has_request i requests
allocate_entries requests result w e i =
    subst (λ (t : List Allocation). has_id i t ≡ has_request i requests) (the_result requests w e)
      (outcome-entries requests w i)

-- When the weights have a positive total below 2 ^ 64 and `allocate` returns, the nodes that it gave
-- out take up the whole weight space but for less than one leaf for each request.
pub allocate_coverage :
    (requests : List AllocationRequest) (result : List Allocation)
    → IsWeighted requests
    → allocate requests ≡ some result
    → (all_sizes result ≤ 2 ^ 32) × (2 ^ 32 < all_sizes result + length requests)
allocate_coverage requests result w e =
    let o = outcome requests w in
    let whole : all_sizes result ≡ sum_by (share (total_weight requests)) requests =
      ap all_sizes (sym (the_result requests w e))
      ∙ o.good.total
      ∙ o.scales.whole
      ∙ same_shares requests w in
    rw whole (shares_fit requests w.positive)
