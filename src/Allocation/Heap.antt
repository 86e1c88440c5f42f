-- ===== src/Allocation/Heap.antt =====
-- The priority queue of aimless-onions/src/allocation.rs: what a pop takes out and what it leaves.
use aimless_onions.Prelude.{
  ℕ, ◌+◌, ◌≤◌, ◌≡◌, refl, true, false, some, none, List, [], ◌∷◌, arith, sum_by, All, if◌then◌else◌,
  Bool-cases, inl, inr, subst, sym, Bool,
}
use mathlib.Core.Option.{some-injective}
use aimless_onions.Allocation.{AllocationRequest, pop_heap, take_largest, partial_cmp, is_lt}

abbrev largest_of : AllocationRequest → List AllocationRequest → AllocationRequest
largest_of best rs = (take_largest best rs).0

abbrev rest_of : AllocationRequest → List AllocationRequest → List AllocationRequest
rest_of best rs = (take_largest best rs).1

take_largest-sum :
    (f : AllocationRequest → ℕ) (best : AllocationRequest) (rs : List AllocationRequest)
    → f (largest_of best rs) + sum_by f (rest_of best rs) ≡ f best + sum_by f rs
unfolding take_largest
take_largest-sum f best [] = refl
take_largest-sum f best (r ∷ rs) = elim (Bool-cases (is_lt (partial_cmp best r))) [
  | inl lt ↦ rw lt (omega (arith, take_largest-sum f r rs))
  | inr ge ↦ rw ge (omega (arith, take_largest-sum f best rs))
]

take_largest-All {ℓ} :
    (P : AllocationRequest → Type ℓ) (best : AllocationRequest) (rs : List AllocationRequest)
    → P best
    → All P rs
    → P (largest_of best rs) × All P (rest_of best rs)
unfolding take_largest
take_largest-All P best [] h hs = (h, tt)
take_largest-All P best (r ∷ rs) h hs = elim (Bool-cases (is_lt (partial_cmp best r))) [
  | inl lt ↦ rw lt (let rest = take_largest-All P r rs hs.0 hs.1 in (rest.0, (h, rest.1)))
  | inr ge ↦ rw ge (let rest = take_largest-All P best rs h hs.1 in (rest.0, (hs.0, rest.1)))
]

is_lt-weight : (r s : AllocationRequest) → is_lt (partial_cmp r s) ≡ true → r.weight ≤ s.weight
unfolding is_lt partial_cmp
is_lt-weight r s h = ground arith

not-is_lt-weight : (r s : AllocationRequest) → is_lt (partial_cmp r s) ≡ false → s.weight ≤ r.weight
unfolding is_lt partial_cmp
not-is_lt-weight r s h = ground arith

abbrev Largest : AllocationRequest → AllocationRequest × List AllocationRequest → Type 0
Largest best p = (best.weight ≤ p.0.weight) × All (λ r. r.weight ≤ p.0.weight) p.1

-- One step of the search, for the outcome `b` of its comparison.
abbrev search_step :
    Bool
    → AllocationRequest
    → AllocationRequest
    → List AllocationRequest
    → AllocationRequest × List AllocationRequest
search_step b best r rs = (
  largest_of (if b then r else best) rs,
  (if b then best else r) ∷ rest_of (if b then r else best) rs,
)

take_largest-step :
    (b : Bool) (best r : AllocationRequest) (rs : List AllocationRequest)
    → is_lt (partial_cmp best r) ≡ b
    → take_largest best (r ∷ rs) ≡ search_step b best r rs
unfolding take_largest
take_largest-step b best r rs e = rw e

take_largest-max :
    (best : AllocationRequest) (rs : List AllocationRequest) → Largest best (take_largest best rs)
take_largest-max best [] = unfold take_largest in (omega arith, tt)
take_largest-max best (r ∷ rs) = elim (Bool-cases (is_lt (partial_cmp best r))) [
  | inl lt ↦
      let rest = take_largest-max r rs in
      subst (Largest best) (sym (take_largest-step true best r rs lt))
        (omega (arith, is_lt-weight best r lt), (omega (arith, is_lt-weight best r lt), rest.1))
  | inr ge ↦
      let rest = take_largest-max best rs in
      subst (Largest best) (sym (take_largest-step false best r rs ge))
        (omega arith, (omega (arith, not-is_lt-weight best r ge), rest.1))
]

-- A pop from the heap: sums are those of the element and of the rest, no weight of the rest is
-- larger, and what holds of every element holds of the parts.
pub record Pops (before : List AllocationRequest) (top : AllocationRequest)
    (after : List AllocationRequest) : Type 1 where
  pub sums : (f : AllocationRequest → ℕ) → f top + sum_by f after ≡ sum_by f before
  pub largest : All (λ r. r.weight ≤ top.weight) after
  pub keeps : (P : AllocationRequest → Type 0) → All P before → P top × All P after

pub pop_heap-Pops :
    (before : List AllocationRequest) {top : AllocationRequest} {after : List AllocationRequest}
    → pop_heap before ≡ some (top, after)
    → Pops before top after
unfolding pop_heap
pop_heap-Pops [] e = cc
pop_heap-Pops (r ∷ rs) {top} {after} e =
    subst (λ p. Pops (r ∷ rs) p.0 p.1) (some-injective _ _ e)
      (record {
        sums = λ f. take_largest-sum f r rs;
        largest = (take_largest-max r rs).1;
        keeps = λ P h. take_largest-All P r rs h.0 h.1;
      })

pub pop_heap-none :
    (f : AllocationRequest → ℕ) (rs : List AllocationRequest) → pop_heap rs ≡ none → sum_by f rs ≡ 0
unfolding pop_heap
pop_heap-none f [] e = refl
pop_heap-none f (r ∷ rs) e = cc
