-- ===== src/Allocation.antt =====
-- aimless-onions/src/allocation.rs: the identities' tree is shared out to the relays by weight.
-- `none` is a panic of the source, or fuel that has run out.
pub mod Heap
pub mod Cells
pub mod Round
pub mod Loop
pub mod Weights
pub mod Shares
pub mod Depth
pub mod Entries
pub mod Sorting
pub mod Alike
pub mod Renaming
pub mod Twins
pub mod Agreement
pub mod Tests
use Prim.Native.Nat.{compare, Ordering}
use aimless_onions.Prelude.{
  ℕ, zero, suc, ◌+◌, ◌-◌, ◌*◌, ◌/◌, ◌%◌, ◌^◌, Bool, true, false, ◌||◌, Option, none, some, List, [],
  ◌∷◌, ◌++◌, ltb, ◌==◌, if◌then◌else◌, sum_by,
}
use aimless_onions.ApiTypes.{RelayKey}
use aimless_onions.NodeName.{NodeName, root, subtree_size, left, right}

abbrev pub weight_space_size : ℕ
weight_space_size = 2 ^ 32

pub record AllocationRequest : Type 0 where
  pub id : ℕ
  pub key : RelayKey
  pub weight : ℕ

pub record Allocation : Type 0 where
  pub id : ℕ
  pub nodes : List NodeName

-- Arrays of bytes are ordered from the first byte on.
pub key_cmp : RelayKey → RelayKey → Ordering
key_cmp [] [] = Ordering.eq
key_cmp [] (b ∷ bs) = Ordering.lt
key_cmp (a ∷ as') [] = Ordering.gt
key_cmp (a ∷ as') (b ∷ bs) = elim (compare a b) [
  | Ordering.lt ↦ Ordering.lt
  | Ordering.eq ↦ key_cmp as' bs
  | Ordering.gt ↦ Ordering.gt
]

-- `PartialOrd::partial_cmp`: the weights first, then the keys.
pub partial_cmp : AllocationRequest → AllocationRequest → Ordering
unfolding key_cmp
partial_cmp r s = elim (compare r.weight s.weight) [
  | Ordering.lt ↦ Ordering.lt
  | Ordering.eq ↦ key_cmp r.key s.key
  | Ordering.gt ↦ Ordering.gt
]

-- `Ord::cmp`: the weights alone.
pub cmp : AllocationRequest → AllocationRequest → Ordering
cmp r s = compare r.weight s.weight

-- `requests.sort_by_key(|r| r.key)`, a stable sort.
pub insert_by_key : AllocationRequest → List AllocationRequest → List AllocationRequest
insert_by_key r [] = r ∷ []
insert_by_key r (s ∷ rs) = elim (key_cmp s.key r.key) [
  | Ordering.gt ↦ r ∷ s ∷ rs
  | Ordering.lt ↦ s ∷ insert_by_key r rs
  | Ordering.eq ↦ r ∷ s ∷ rs
]

pub sort_by_key : List AllocationRequest → List AllocationRequest
sort_by_key [] = []
sort_by_key (r ∷ rs) = insert_by_key r (sort_by_key rs)

-- The pop of `BinaryHeap`, which compares by `partial_cmp`: a largest element, and the rest. Among
-- equal elements, which have the same weight and the same key, the first one given is taken.
is_lt : Ordering → Bool
is_lt Ordering.lt = true
is_lt Ordering.eq = false
is_lt Ordering.gt = false

pub take_largest :
    AllocationRequest → List AllocationRequest → AllocationRequest × List AllocationRequest
take_largest best [] = (best, [])
take_largest best (r ∷ rs) =
    let smaller = is_lt (partial_cmp best r) in
    let (top, rest) = take_largest (if smaller then r else best) rs in
    (top, (if smaller then best else r) ∷ rest)

pub pop_heap : List AllocationRequest → Option (AllocationRequest × List AllocationRequest)
unfolding take_largest
pop_heap [] = none
pop_heap (r ∷ rs) = some (take_largest r rs)

-- The map from ids to allocations, and its filling: one entry with no nodes for each id.
unfoldable pub has_id : ℕ → List Allocation → Bool
has_id id [] = false
has_id id (a ∷ as') = a.id == id || has_id id as'

pub insert_empty : List Allocation → List AllocationRequest → List Allocation
unfolding has_id
insert_empty as' [] = as'
insert_empty as' (r ∷ rs) =
    insert_empty (if has_id r.id as' then as' else as' ++ record { id = r.id; nodes = [] } ∷ []) rs

-- `allocations.get_mut(&id).unwrap().nodes.push(node)`
pub push_node : ℕ → NodeName → List Allocation → Option (List Allocation)
push_node id node [] = none
push_node id node (a ∷ as') =
    let rest = push_node id node as' in
    if a.id == id
    then some (record a { nodes = a.nodes ++ node ∷ [] } ∷ as')
    else elim rest [ none ↦ none | some bs ↦ some (a ∷ bs) ]

-- The variables of the loop. `free_cells` has the last cell of the vector first.
pub record State : Type 0 where
  pub heap : List AllocationRequest
  pub free_cells : List NodeName
  pub cell_size : ℕ
  pub allocations : List Allocation

-- Each free cell is replaced by its two children.
pub split_cells : List NodeName → Option (List NodeName)
split_cells [] = some []
split_cells (c ∷ cs) =
    let rest = split_cells cs in
    elim (left c) [
      | none ↦ none
      | some l ↦ elim (right c) [
        | none ↦ none
        | some r ↦ elim rest [ none ↦ none | some ds ↦ some (r ∷ l ∷ ds) ]
      ]
    ]

-- The two branches in the body of the loop, for the request that was popped.
pub split_round : State → AllocationRequest → List AllocationRequest → Option State
split_round s largest heap = elim (split_cells s.free_cells) [
  | none ↦ none
  | some cells ↦ some (record {
    heap = largest ∷ heap;
    free_cells = cells;
    cell_size = s.cell_size / 2;
    allocations = s.allocations;
  })
]

pub take_round : State → AllocationRequest → List AllocationRequest → Option State
take_round s largest heap = elim s.free_cells [
  | [] ↦ none
  | cell ∷ cells ↦ elim (push_node largest.id cell s.allocations) [
    | none ↦ none
    | some as' ↦ some (record {
      heap = record largest { weight = largest.weight - s.cell_size } ∷ heap;
      free_cells = cells;
      cell_size = s.cell_size;
      allocations = as';
    })
  ]
]

pub round : State → AllocationRequest → List AllocationRequest → Option State
round s largest heap =
    if ltb largest.weight s.cell_size then split_round s largest heap else take_round s largest heap

pub run : ℕ → State → Option (List Allocation)
run zero s = none
run (suc fuel) s = elim (pop_heap s.heap) [
  | none ↦ some s.allocations
  | some (largest, heap) ↦ elim (largest.weight == 0) [
    | true ↦ some s.allocations
    | false ↦ elim (round s largest heap) [ none ↦ none | some t ↦ run fuel t ]
  ]
]

-- `sum` of u64 values, which wraps, and the weight in parts of the weight space. The division by
-- zero panics; so does a quotient that leaves the u64.
pub sum_weight : List AllocationRequest → ℕ
sum_weight rs = sum_by (λ r. r.weight) rs % 2 ^ 64

pub scale : ℕ → AllocationRequest → Option AllocationRequest
scale total r =
    if total == 0
    then none
    else let weight = weight_space_size * r.weight / total in
      if ltb weight (2 ^ 64) then some (record r { weight = weight }) else none

pub scale_all : ℕ → List AllocationRequest → Option (List AllocationRequest)
unfolding scale
scale_all total [] = some []
scale_all total (r ∷ rs) =
    let rest = scale_all total rs in
    elim (scale total r) [
      | none ↦ none
      | some s ↦ elim rest [ none ↦ none | some ss ↦ some (s ∷ ss) ]
    ]

abbrev pub initial : List AllocationRequest → State
initial requests = record {
  heap = requests;
  free_cells = root ∷ [];
  cell_size = subtree_size root;
  allocations = insert_empty [] requests;
}

-- Rounds that are enough: one for each unit of weight, and one for each level of the tree.
abbrev pub enough_fuel : ℕ
enough_fuel = 2 ^ 32 + 34

pub allocate : List AllocationRequest → Option (List Allocation)
allocate requests =
    let sorted = sort_by_key requests in
    elim (scale_all (sum_weight sorted) sorted) [
      | none ↦ none
      | some scaled ↦ run enough_fuel (initial scaled)
    ]
