-- ===== src/Allocation/Twins.antt =====
-- The loop of `allocate` of aimless-onions/src/allocation.rs gives out the same nodes whatever the ids.
use aimless_onions.Prelude.{
  ℕ, zero, suc, ◌-◌, ◌/◌, ◌≡◌, refl, ap, sym, ◌∙◌, subst, Bool-cases, inl, inr, ◌⊎◌, Option-cases,
  none, some, List, [], ◌∷◌, ◌==◌, ltb,
}
use mathlib.Core.Option.{some-injective}
use aimless_onions.NodeName.{NodeName}
use aimless_onions.Allocation.{
  AllocationRequest, Allocation, State, take_largest, pop_heap, push_node, split_cells, split_round,
  take_round, round, run,
}
use aimless_onions.Allocation.Renaming.{
  IsTwin, AreTwins, AreCopies, push_node-AreCopies, take_largest-AreTwins,
}

module _ (R : ℕ → ℕ → Type 0)
    (paired : (i j i' j' : ℕ) → R i j → R i' j' → (i == i') ≡ (j == j')) where
  pub record IsTwinState (s t : State) : Type 0 where
    pub heap : AreTwins R paired s.heap t.heap
    pub cells : s.free_cells ≡ t.free_cells
    pub size : s.cell_size ≡ t.cell_size
    pub given : AreCopies R paired s.allocations t.allocations

  -- Two pops: of nothing, or of twins that leave twins.
  abbrev Pops : List AllocationRequest → List AllocationRequest → Type 0
  Pops hs ks =
      ((pop_heap hs ≡ none) × (pop_heap ks ≡ none))
      ⊎ ((top : AllocationRequest) × (top' : AllocationRequest) × (rest : List AllocationRequest)
          × (rest' : List AllocationRequest) × (pop_heap hs ≡ some (top, rest))
          × (pop_heap ks ≡ some (top', rest'))
          × IsTwin R paired top top'
          × AreTwins R paired rest rest')

  pop_heap-AreTwins : (hs ks : List AllocationRequest) → AreTwins R paired hs ks → Pops hs ks
  unfolding pop_heap
  pop_heap-AreTwins [] [] twins = inl (refl, refl)
  pop_heap-AreTwins [] (k ∷ ks) twins = absurd twins
  pop_heap-AreTwins (h ∷ hs) [] twins = absurd twins
  pop_heap-AreTwins (h ∷ hs) (k ∷ ks) twins =
      let (top, rest) = take_largest-AreTwins R paired h k hs ks twins.0 twins.1 in
      inr (
        (take_largest h hs).0,
        (take_largest k ks).0,
        (take_largest h hs).1,
        (take_largest k ks).1,
        refl,
        refl,
        top,
        rest,
      )

  split_round-IsTwinState :
      (s t s' : State) (top top' : AllocationRequest) (rest rest' : List AllocationRequest)
      → IsTwinState s t
      → IsTwin R paired top top'
      → AreTwins R paired rest rest'
      → split_round s top rest ≡ some s'
      → (t' : State) × (split_round t top' rest' ≡ some t') × IsTwinState s' t'
  unfolding split_round
  split_round-IsTwinState s t s' top top' rest rest' twin tops rests e =
      elim (Option-cases (split_cells s.free_cells)) [
        | inl e1 ↦ cc (rw (e1, split_round) at e)
        | inr (cells, e1) ↦
            let e2 : split_cells t.free_cells ≡ some cells = ap split_cells (sym twin.cells) ∙ e1 in
            let t' : State = record {
              heap = top' ∷ rest';
              free_cells = cells;
              cell_size = t.cell_size / 2;
              allocations = t.allocations;
            } in
            (
              t',
              rw (e2, split_round) refl,
              subst (λ (u : State). IsTwinState u t')
                  (some-injective _ _ (rw (e1, split_round) at e))
                  (record {
                    heap = (tops, rests);
                    cells = refl;
                    size = ap (λ (n : ℕ). n / 2) twin.size;
                    given = twin.given;
                  }),
            )
      ]

  -- The state after a cell was given out.
  abbrev taken :
      State → AllocationRequest → List AllocationRequest → List NodeName → List Allocation → State
  taken s top rest cells as' = record {
    heap = record top { weight = top.weight - s.cell_size } ∷ rest;
    free_cells = cells;
    cell_size = s.cell_size;
    allocations = as';
  }

  take_round_steps :
      (s : State) (top : AllocationRequest) (rest : List AllocationRequest) (cell : NodeName)
      (cells : List NodeName) (as' : List Allocation)
      → s.free_cells ≡ cell ∷ cells
      → push_node top.id cell s.allocations ≡ some as'
      → take_round s top rest ≡ some (taken s top rest cells as')
  unfolding take_round
  take_round_steps s top rest cell cells as' has pushed = rw (has, pushed, take_round) refl

  take_round_parts :
      (s s' : State) (top : AllocationRequest) (rest : List AllocationRequest)
      → take_round s top rest ≡ some s'
      → (cell : NodeName) × (cells : List NodeName) × (as' : List Allocation) × (s.free_cells
          ≡ cell ∷ cells)
        × (push_node top.id cell s.allocations ≡ some as')
        × (s' ≡ taken s top rest cells as')
  unfolding take_round
  take_round_parts s s' top rest e = at s.free_cells refl e
    where
      at :
          (cs : List NodeName)
          → s.free_cells ≡ cs
          → (elim cs [
            | [] ↦ none
            | cell ∷ cells ↦ elim (push_node top.id cell s.allocations) [
              | none ↦ none
              | some as' ↦ some (record {
                heap = record top { weight = top.weight - s.cell_size } ∷ rest;
                free_cells = cells;
                cell_size = s.cell_size;
                allocations = as';
              })
            ]
          ])
            ≡ some s'
          → (cell : NodeName) × (cells : List NodeName) × (as' : List Allocation) × (s.free_cells
              ≡ cell ∷ cells)
            × (push_node top.id cell s.allocations ≡ some as')
            × (s' ≡ taken s top rest cells as')
      at [] is e' = cc
      at (cell ∷ cells) is e' = elim (Option-cases (push_node top.id cell s.allocations)) [
        | inl e1 ↦ cc (rw e1 at e')
        | inr (as', e1) ↦ (cell, cells, as', is, e1, sym (some-injective _ _ (rw e1 at e')))
      ]

  take_round-IsTwinState :
      (s t s' : State) (top top' : AllocationRequest) (rest rest' : List AllocationRequest)
      → IsTwinState s t
      → IsTwin R paired top top'
      → AreTwins R paired rest rest'
      → take_round s top rest ≡ some s'
      → (t' : State) × (take_round t top' rest' ≡ some t') × IsTwinState s' t'
  take_round-IsTwinState s t s' top top' rest rest' twin tops rests e =
      let (cell, cells, as', has, pushed, is) = take_round_parts s s' top rest e in
      let (bs, pushed', copies) =
        push_node-AreCopies R paired top.id top'.id cell s.allocations t.allocations as' tops.ids
          twin.given pushed in
      let t' : State = taken t top' rest' cells bs in
      (
        t',
        take_round_steps t top' rest' cell cells bs (sym twin.cells ∙ has) pushed',
        subst (λ (u : State). IsTwinState u t') (sym is)
            (record {
              heap = (
                record {
                  same_key = tops.same_key;
                  same_weight = λ i. tops.same_weight i - twin.size i;
                  ids = tops.ids;
                },
                rests,
              );
              cells = refl;
              size = twin.size;
              given = copies;
            }),
      )

  round-IsTwinState :
      (s t s' : State) (top top' : AllocationRequest) (rest rest' : List AllocationRequest)
      → IsTwinState s t
      → IsTwin R paired top top'
      → AreTwins R paired rest rest'
      → round s top rest ≡ some s'
      → (t' : State) × (round t top' rest' ≡ some t') × IsTwinState s' t'
  unfolding round
  round-IsTwinState s t s' top top' rest rest' twin tops rests e =
      let same : ltb top.weight s.cell_size ≡ ltb top'.weight t.cell_size =
        λ i. ltb (tops.same_weight i) (twin.size i) in
      elim (Bool-cases (ltb top'.weight t.cell_size)) [
        | inl small ↦
            let (t', run_it, twins) =
              split_round-IsTwinState s t s' top top' rest rest' twin tops rests
                (rw (same ∙ small) at e) in
            (t', rw small run_it, twins)
        | inr large ↦
            let (t', run_it, twins) =
              take_round-IsTwinState s t s' top top' rest rest' twin tops rests
                (rw (same ∙ large) at e) in
            (t', rw large run_it, twins)
      ]

  -- The runs end together, and give the same nodes.
  pub run-AreCopies :
      (fuel : ℕ) (s t : State) (result : List Allocation)
      → IsTwinState s t
      → run fuel s ≡ some result
      → (result' : List Allocation) × (run fuel t ≡ some result')
        × AreCopies R paired result result'
  unfolding run
  run-AreCopies zero s t result twin e = cc
  run-AreCopies (suc fuel) s t result twin e = elim (pop_heap-AreTwins s.heap t.heap twin.heap) [
    | inl (empty, empty') ↦ (
      t.allocations,
      rw (empty', run) refl,
      subst (λ (u : List Allocation). AreCopies R paired u t.allocations)
          (some-injective _ _ (rw (empty, run) at e)) twin.given,
    )
    | inr (top, top', rest, rest', popped, popped', tops, rests) ↦
        let same : (top.weight == 0) ≡ (top'.weight == 0) = λ i. tops.same_weight i == 0 in
        elim (Bool-cases (top'.weight == 0)) [
          | inl done ↦ (
            t.allocations,
            rw (popped', done, run) refl,
            subst (λ (u : List Allocation). AreCopies R paired u t.allocations)
                (some-injective _ _ (rw (popped, same ∙ done, run) at e)) twin.given,
          )
          | inr more ↦ elim (Option-cases (round s top rest)) [
            | inl stuck ↦ cc (rw (popped, same ∙ more, stuck, run) at e)
            | inr (s', stepped) ↦
                let (t', stepped', twin') =
                  round-IsTwinState s t s' top top' rest rest' twin tops rests stepped in
                let (result', ran, copies) =
                  run-AreCopies fuel s' t' result twin'
                    (rw (popped, same ∙ more, stepped, run) at e) in
                (result', rw (popped', more, stepped', run) ran, copies)
          ]
        ]
  ]
