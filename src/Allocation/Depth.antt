-- ===== src/Allocation/Depth.antt =====
-- How deep the nodes are that `allocate` of aimless-onions/src/allocation.rs gives out.
use aimless_onions.Prelude.{
  ℕ, zero, suc, ◌-◌, ◌≤◌, ◌≡◌, refl, arith, subst, Bool-cases, inl, inr, Option-cases, none, some,
  List, [], ◌∷◌, ◌++◌, All, ◌==◌, ltb,
}
use mathlib.Core.Option.{some-injective}
use aimless_onions.NodeName.{NodeName, left, right}
use aimless_onions.Allocation.{
  AllocationRequest, Allocation, State, push_node, split_cells, split_round, take_round, round, run,
  pop_heap, insert_empty, has_id, scale_all, sum_weight, sort_by_key, initial, enough_fuel,
  allocate,
}

abbrev pub AreShallow : List NodeName → Type 0
AreShallow = All (λ n. n.len ≤ 32)

abbrev pub GivesShallow : List Allocation → Type 0
GivesShallow = All (λ a. AreShallow a.nodes)

left-shallow : (n l : NodeName) → left n ≡ some l → l.len ≤ 32
unfolding left
left-shallow n l e = ground arith

right-shallow : (n r : NodeName) → right n ≡ some r → r.len ≤ 32
unfolding right
right-shallow n r e = ground arith

split_cells-AreShallow :
    (cells split : List NodeName) → split_cells cells ≡ some split → AreShallow split
unfolding split_cells
split_cells-AreShallow [] split e = ground arith
split_cells-AreShallow (c ∷ cs) split e = elim (Option-cases (left c)) [
  | inl e1 ↦ cc (rw (e1, split_cells) at e)
  | inr (l, e1) ↦ elim (Option-cases (right c)) [
    | inl e2 ↦ cc (rw (e1, e2, split_cells) at e)
    | inr (r, e2) ↦ elim (Option-cases (split_cells cs)) [
      | inl e3 ↦ cc (rw (e1, e2, e3, split_cells) at e)
      | inr (ds, e3) ↦
          subst AreShallow (some-injective _ _ (rw (e1, e2, e3, split_cells) at e))
            (right-shallow c r e2, (left-shallow c l e1, split_cells-AreShallow cs ds e3))
    ]
  ]
]

AreShallow-append :
    (ns : List NodeName) (n : NodeName) → AreShallow ns → n.len ≤ 32 → AreShallow (ns ++ n ∷ [])
AreShallow-append [] n shallow here = (here, tt)
AreShallow-append (m ∷ ns) n shallow here = (shallow.0, AreShallow-append ns n shallow.1 here)

push_node-GivesShallow :
    (id : ℕ) (node : NodeName) (as' result : List Allocation)
    → push_node id node as' ≡ some result
    → node.len ≤ 32
    → GivesShallow as'
    → GivesShallow result
unfolding push_node
push_node-GivesShallow id node [] result e here shallow = cc
push_node-GivesShallow id node (a ∷ as') result e here shallow = elim (Bool-cases (a.id == id)) [
  | inl e1 ↦
      subst GivesShallow (some-injective _ _ (rw e1 at e))
        (AreShallow-append a.nodes node shallow.0 here, shallow.1)
  | inr e1 ↦ elim (Option-cases (push_node id node as')) [
    | inl e2 ↦ cc (rw (e1, e2) at e)
    | inr (bs, e2) ↦
        subst GivesShallow (some-injective _ _ (rw (e1, e2) at e))
          (shallow.0, push_node-GivesShallow id node as' bs e2 here shallow.1)
  ]
]

pub record IsShallow (s : State) : Type 0 where
  pub cells : AreShallow s.free_cells
  pub given : GivesShallow s.allocations

split_round-IsShallow :
    (s t : State) (largest : AllocationRequest) (heap : List AllocationRequest)
    → split_round s largest heap ≡ some t
    → IsShallow s
    → IsShallow t
unfolding split_round
split_round-IsShallow s t largest heap e shallow = elim (Option-cases (split_cells s.free_cells)) [
  | inl e1 ↦ cc (rw (e1, split_round) at e)
  | inr (cells, e1) ↦
      subst IsShallow (some-injective _ _ (rw (e1, split_round) at e))
        (record { cells = split_cells-AreShallow s.free_cells cells e1; given = shallow.given })
]

take_round-IsShallow :
    (s t : State) (largest : AllocationRequest) (heap : List AllocationRequest)
    → take_round s largest heap ≡ some t
    → IsShallow s
    → IsShallow t
unfolding take_round
take_round-IsShallow s t largest heap e shallow = take s.free_cells refl shallow.cells e
  where
    take :
        (cells : List NodeName)
        → s.free_cells ≡ cells
        → AreShallow cells
        → (elim cells [
          | [] ↦ none
          | cell ∷ cells' ↦ elim (push_node largest.id cell s.allocations) [
            | none ↦ none
            | some as' ↦ some (record {
              heap = record largest { weight = largest.weight - s.cell_size } ∷ heap;
              free_cells = cells';
              cell_size = s.cell_size;
              allocations = as';
            })
          ]
        ])
          ≡ some t
        → IsShallow t
    take [] is cells e' = cc
    take (cell ∷ cells') is cells e' =
        elim (Option-cases (push_node largest.id cell s.allocations)) [
          | inl e1 ↦ cc (rw e1 at e')
          | inr (as', e1) ↦ subst IsShallow (some-injective _ _ (rw e1 at e')) (record {
            cells = cells.1;
            given =
                push_node-GivesShallow largest.id cell s.allocations as' e1 cells.0 shallow.given;
          })
        ]

round-IsShallow :
    (s t : State) (largest : AllocationRequest) (heap : List AllocationRequest)
    → round s largest heap ≡ some t
    → IsShallow s
    → IsShallow t
unfolding round
round-IsShallow s t largest heap e shallow = elim (Bool-cases (ltb largest.weight s.cell_size)) [
  | inl e1 ↦ split_round-IsShallow s t largest heap (rw e1 at e) shallow
  | inr e1 ↦ take_round-IsShallow s t largest heap (rw e1 at e) shallow
]

run-GivesShallow :
    (fuel : ℕ) (s : State) (result : List Allocation)
    → run fuel s ≡ some result
    → IsShallow s
    → GivesShallow result
unfolding run
run-GivesShallow zero s result e shallow = cc
run-GivesShallow (suc fuel) s result e shallow = elim (Option-cases (pop_heap s.heap)) [
  | inl e1 ↦ subst GivesShallow (some-injective _ _ (rw (e1, run) at e)) shallow.given
  | inr ((largest, heap), e1) ↦ elim (Bool-cases (largest.weight == 0)) [
    | inl e2 ↦ subst GivesShallow (some-injective _ _ (rw (e1, e2, run) at e)) shallow.given
    | inr e2 ↦ elim (Option-cases (round s largest heap)) [
      | inl e3 ↦ cc (rw (e1, e2, e3, run) at e)
      | inr (t, e3) ↦
          run-GivesShallow fuel t result (rw (e1, e2, e3, run) at e)
            (round-IsShallow s t largest heap e3 shallow)
    ]
  ]
]

GivesShallow-append :
    (as' : List Allocation) (i : ℕ)
    → GivesShallow as'
    → GivesShallow (as' ++ record { id = i; nodes = [] } ∷ [])
GivesShallow-append [] i shallow = (tt, tt)
GivesShallow-append (a ∷ as') i shallow = (shallow.0, GivesShallow-append as' i shallow.1)

insert_empty-GivesShallow :
    (as' : List Allocation) (rs : List AllocationRequest)
    → GivesShallow as'
    → GivesShallow (insert_empty as' rs)
unfolding insert_empty
insert_empty-GivesShallow as' [] shallow = shallow
insert_empty-GivesShallow as' (r ∷ rs) shallow = elim (Bool-cases (has_id r.id as')) [
  | inl old ↦ rw old (insert_empty-GivesShallow as' rs shallow)
  | inr new ↦ rw new (insert_empty-GivesShallow _ rs (GivesShallow-append as' r.id shallow))
]

-- No node that `allocate` gives out lies below the leaves, whatever the weights.
pub allocate-GivesShallow :
    (requests : List AllocationRequest) (result : List Allocation)
    → allocate requests ≡ some result
    → GivesShallow result
unfolding allocate
allocate-GivesShallow requests result e =
    let sorted = sort_by_key requests in
    elim (Option-cases (scale_all (sum_weight sorted) sorted)) [
      | inl e1 ↦ cc (rw (e1, allocate) at e)
      | inr (scaled, e1) ↦
          run-GivesShallow enough_fuel (initial scaled) result (rw (e1, allocate) at e)
            (record { cells = (omega arith, tt); given = insert_empty-GivesShallow [] scaled tt })
    ]
