-- ===== src/Allocation/Loop.antt =====
-- The loop of aimless-onions/src/allocation.rs from its start to its end.
use aimless_onions.Prelude.{
  ℕ, zero, suc, ◌+◌, ◌-◌, ◌^◌, ◌≤◌, ◌<◌, ◌≡◌, refl, ◌∙◌, inl, inr, true, false, some, List, [], ◌∷◌,
  ◌++◌, arith, All, if◌then◌else◌, ◌==◌, Bool-cases, Option-cases, sum_by-append, ◌||◌, Bool, subst,
  ==_iff,
}
use aimless_onions.NodeName.{root}
use aimless_onions.NodeName.Leaves.{subtree_size-root}
use aimless_onions.Allocation.{
  AllocationRequest, Allocation, State, has_id, insert_empty, pop_heap, run, initial,
}
use aimless_onions.Allocation.Cells.{
  IsCell, holders, holds-root, owners, size_of, all_sizes, ids, nodes_size,
}
use aimless_onions.Allocation.Heap.{pop_heap-Pops, pop_heap-none, Pops}
use aimless_onions.Allocation.Round.{IsRunning, total_weight, weight_of, round-Proceeds}

-- What the loop has to reach: each id has nodes of the size that it is owed, all nodes have the
-- size that is owed in all, and no identity is held by two nodes.
pub record IsAllocated (owed : ℕ → ℕ) (whole : ℕ) (names : List ℕ) (result : List Allocation)
    : Type 0 where
  pub sizes : (i : ℕ) → size_of i result ≡ owed i
  pub total : all_sizes result ≡ whole
  pub exclusive : (x : ℕ) → owners x result ≤ 1
  pub entries : ids result ≡ names

weight_of-zero :
    (i w : ℕ) (rs : List AllocationRequest)
    → w ≡ 0
    → All (λ r. r.weight ≤ w) rs
    → weight_of i rs ≡ 0
weight_of-zero i w [] e h = refl
weight_of-zero i w (r ∷ rs) e h = ground (arith, weight_of-zero i w rs e h.1)

-- After a pop of weight 0 no request has weight left.
popped_zero :
    {before after : List AllocationRequest} {top : AllocationRequest}
    → Pops before top after
    → top.weight ≡ 0
    → (i : ℕ) → weight_of i before ≡ 0
popped_zero {after} {top} p zero_weight i = ground (
  arith,
  p.sums (λ r. if r.id == i then r.weight else 0),
  weight_of-zero i top.weight after zero_weight p.largest,
)

total_weight-zero :
    (w : ℕ) (rs : List AllocationRequest) → w ≡ 0 → All (λ r. r.weight ≤ w) rs → total_weight rs ≡ 0
total_weight-zero w [] e h = refl
total_weight-zero w (r ∷ rs) e h = omega (arith, total_weight-zero w rs e h.1)

total_zero :
    {before after : List AllocationRequest} {top : AllocationRequest}
    → Pops before top after
    → top.weight ≡ 0
    → total_weight before ≡ 0
total_zero {after} {top} p zero_weight =
    omega (arith, p.sums (λ r. r.weight), total_weight-zero top.weight after zero_weight p.largest)

module _ (owed : ℕ → ℕ) (whole : ℕ) (names : List ℕ) where
  ends :
      (s : State)
      → IsRunning owed whole names s
      → ((i : ℕ) → weight_of i s.heap ≡ 0)
      → total_weight s.heap ≡ 0
      → IsAllocated owed whole names s.allocations
  ends s v nothing_left no_weight = record {
    sizes = λ i. omega (arith, v.paid i, nothing_left i);
    total = omega (arith, v.all_paid);
    exclusive = λ x. omega (arith, v.once x);
    entries = v.entries;
  }

  pub run-IsAllocated :
      (fuel : ℕ) (s : State) (v : IsRunning owed whole names s)
      → total_weight s.heap + (32 - v.depth) < fuel
      → (result : List Allocation) × (run fuel s ≡ some result)
        × IsAllocated owed whole names result
  unfolding run
  run-IsAllocated zero s v h = absurd (omega arith)
  run-IsAllocated (suc fuel) s v h = elim (Option-cases (pop_heap s.heap)) [
    | inl none_left ↦ (
      s.allocations,
      rw (none_left, run),
      ends s v (λ i. pop_heap-none (λ r. if r.id == i then r.weight else 0) s.heap none_left)
          (pop_heap-none (λ r. r.weight) s.heap none_left),
    )
    | inr (popped, e) ↦
        let p = pop_heap-Pops s.heap {top = popped.0} {after = popped.1} e in
        elim (Bool-cases (popped.0.weight == 0)) [
          | inl done ↦ (
            s.allocations,
            rw (e, run) (rw done),
            ends s v (popped_zero p (ground arith)) (total_zero p (ground arith)),
          )
          | inr more ↦
              let (t, step, w, less) =
                round-Proceeds owed whole names s v popped.0 popped.1 p (ground arith) in
              let (result, returns, good) = run-IsAllocated fuel t w (omega arith) in
              (result, rw (e, run) (rw (more, step) returns), good)
        ]
  ]

-- The entries at the start: every request has one, and none has a node.
pub record IsEmptyMap (as' : List Allocation) : Type 0 where
  pub no_sizes : (i : ℕ) → size_of i as' ≡ 0
  pub no_size : all_sizes as' ≡ 0
  pub no_owners : (x : ℕ) → owners x as' ≡ 0

has_id-append :
    (i id : ℕ) (as' : List Allocation)
    → has_id i (as' ++ record { id = id; nodes = [] } ∷ []) ≡ (has_id i as' || (id == i))
unfolding has_id
has_id-append i id [] = ground arith
has_id-append i id (a ∷ as') = ground (arith, has_id-append i id as')

insert_empty-IsEmptyMap :
    (as' : List Allocation) (rs : List AllocationRequest)
    → IsEmptyMap as'
    → IsEmptyMap (insert_empty as' rs)
unfolding insert_empty
insert_empty-IsEmptyMap as' [] h = h
insert_empty-IsEmptyMap as' (r ∷ rs) h = elim (Bool-cases (has_id r.id as')) [
  | inl old ↦ rw old (insert_empty-IsEmptyMap as' rs h)
  | inr new ↦ rw new (
      insert_empty-IsEmptyMap _ rs (record {
        no_sizes = λ i. ground (
          arith,
          sum_by-append (λ a. if a.id == i then nodes_size a.nodes else 0) as'
              (record { id = r.id; nodes = [] } ∷ []),
          h.no_sizes i,
        );
        no_size = omega (
          arith,
          sum_by-append (λ a. nodes_size a.nodes) as' (record { id = r.id; nodes = [] } ∷ []),
          h.no_size,
        );
        no_owners = λ x. omega (
          arith,
          sum_by-append (λ a. holders x a.nodes) as' (record { id = r.id; nodes = [] } ∷ []),
          h.no_owners x,
        );
      }))
]

-- An id is in the map after the filling when it was there before, or a request has it.
unfoldable pub has_request : ℕ → List AllocationRequest → Bool
has_request i [] = false
has_request i (r ∷ rs) = r.id == i || has_request i rs

known_already :
    (i : ℕ) (r : AllocationRequest) (as' : List Allocation) (rs : List AllocationRequest)
    → has_id r.id as' ≡ true
    → (has_id i as' || has_request i rs) ≡ (has_id i as' || has_request i (r ∷ rs))
unfolding has_request
known_already i r as' rs old = elim (Bool-cases (r.id == i)) [
  | inl same ↦
      let here : has_id i as' ≡ true =
        subst (λ (t : ℕ). has_id t as' ≡ true) ((==_iff r.id i).0 same) old in
      rw here
  | inr other ↦ rw other
]

pub insert_empty-has_id :
    (i : ℕ) (as' : List Allocation) (rs : List AllocationRequest)
    → has_id i (insert_empty as' rs) ≡ (has_id i as' || has_request i rs)
unfolding insert_empty has_request
insert_empty-has_id i as' [] = ground arith
insert_empty-has_id i as' (r ∷ rs) = elim (Bool-cases (has_id r.id as')) [
  | inl old ↦ rw old (insert_empty-has_id i as' rs ∙ known_already i r as' rs old)
  | inr new ↦ rw new (insert_empty-has_id i _ rs ∙ ground (arith, has_id-append i r.id as'))
]

abbrev RequestsKnown : List Allocation → List AllocationRequest → Type 0
RequestsKnown as' = All (λ r. has_id r.id as' ≡ true)

has_request-known :
    (as' : List Allocation) (rs : List AllocationRequest)
    → ((i : ℕ) → has_request i rs ≡ true → has_id i as' ≡ true)
    → RequestsKnown as' rs
unfolding has_request
has_request-known as' [] h = tt
has_request-known as' (r ∷ rs) h =
    (h r.id (ground arith), has_request-known as' rs (λ i e. h i (ground arith)))

root-IsCell : IsCell 0 root
root-IsCell = record {
  canonical = record { within = omega arith; fits = omega arith };
  depth = refl;
}

-- The invariant holds before the first round, when the weights fit the weight space.
pub initial-IsRunning :
    (rs : List AllocationRequest)
    → total_weight rs ≤ 2 ^ 32
    → IsRunning (λ i. weight_of i rs) (total_weight rs) (ids (insert_empty [] rs)) (initial rs)
unfolding has_id
initial-IsRunning rs fits = record {
  depth = 0;
  shallow = omega arith;
  size = subtree_size-root;
  cells = (root-IsCell, tt);
  budget = omega (arith, subtree_size-root, fits);
  paid = λ i. omega (arith, empty.no_sizes i);
  all_paid = omega (arith, empty.no_size);
  once = λ x. omega (arith, empty.no_owners x, holds-root x);
  known = has_request-known (insert_empty [] rs) rs (λ i e. insert_empty-has_id i [] rs ∙ e);
  entries = refl;
}
  where
    empty : IsEmptyMap (insert_empty [] rs)
    empty =
        insert_empty-IsEmptyMap [] rs
          (record { no_sizes = λ i. refl; no_size = refl; no_owners = λ x. refl })
