-- ===== src/Allocation/Renaming.antt =====
-- Runs of the loop of `allocate` of aimless-onions/src/allocation.rs that differ in the ids alone.
use aimless_onions.Prelude.{
  ℕ, ◌≡◌, refl, ap, ◌∙◌, subst, Bool-cases, inl, inr, ◌||◌, Option-cases, some, List, [], ◌∷◌, ◌++◌,
  ◌==◌,
}
use mathlib.Core.Option.{some-injective}
use aimless_onions.NodeName.{NodeName}
use aimless_onions.Allocation.{
  AllocationRequest, Allocation, partial_cmp, is_lt, take_largest, has_id, insert_empty, push_node,
}

module _ (R : ℕ → ℕ → Type 0)
    (paired : (i j i' j' : ℕ) → R i j → R i' j' → (i == i') ≡ (j == j')) where
  -- Requests, allocations and states that differ in the ids alone, which `R` pairs.
  pub record IsTwin (r s : AllocationRequest) : Type 0 where
    pub same_key : r.key ≡ s.key
    pub same_weight : r.weight ≡ s.weight
    pub ids : R r.id s.id

  abbrev pub AreTwins : List AllocationRequest → List AllocationRequest → Type 0
  AreTwins [] [] = Unit
  AreTwins [] (s ∷ ss) = ⊥
  AreTwins (r ∷ rs) [] = ⊥
  AreTwins (r ∷ rs) (s ∷ ss) = IsTwin r s × AreTwins rs ss

  pub record IsCopy (a b : Allocation) : Type 0 where
    pub ids : R a.id b.id
    pub nodes : a.nodes ≡ b.nodes

  abbrev pub AreCopies : List Allocation → List Allocation → Type 0
  AreCopies [] [] = Unit
  AreCopies [] (b ∷ bs) = ⊥
  AreCopies (a ∷ as') [] = ⊥
  AreCopies (a ∷ as') (b ∷ bs) = IsCopy a b × AreCopies as' bs

  has_id-AreCopies :
      (i j : ℕ) (as' bs : List Allocation) → R i j → AreCopies as' bs → has_id i as' ≡ has_id j bs
  unfolding has_id
  has_id-AreCopies i j [] [] ids copies = refl
  has_id-AreCopies i j [] (b ∷ bs) ids copies = absurd copies
  has_id-AreCopies i j (a ∷ as') [] ids copies = absurd copies
  has_id-AreCopies i j (a ∷ as') (b ∷ bs) ids copies =
      let here = paired a.id b.id i j copies.0.ids ids in
      let rest = has_id-AreCopies i j as' bs ids copies.1 in λ k. here k || rest k

  AreCopies-append :
      (i j : ℕ) (as' bs : List Allocation)
      → R i j
      → AreCopies as' bs
      → AreCopies
          (as' ++ record { id = i; nodes = [] } ∷ [])
          (bs ++ record { id = j; nodes = [] } ∷ [])
  AreCopies-append i j [] [] ids copies = (record { ids = ids; nodes = refl }, tt)
  AreCopies-append i j [] (b ∷ bs) ids copies = absurd copies
  AreCopies-append i j (a ∷ as') [] ids copies = absurd copies
  AreCopies-append i j (a ∷ as') (b ∷ bs) ids copies =
      (copies.0, AreCopies-append i j as' bs ids copies.1)

  pub insert_empty-AreCopies :
      (as' bs : List Allocation) (rs ss : List AllocationRequest)
      → AreTwins rs ss
      → AreCopies as' bs
      → AreCopies (insert_empty as' rs) (insert_empty bs ss)
  unfolding insert_empty
  insert_empty-AreCopies as' bs [] [] twins copies = copies
  insert_empty-AreCopies as' bs [] (s ∷ ss) twins copies = absurd twins
  insert_empty-AreCopies as' bs (r ∷ rs) [] twins copies = absurd twins
  insert_empty-AreCopies as' bs (r ∷ rs) (s ∷ ss) twins copies =
      let same = has_id-AreCopies r.id s.id as' bs twins.0.ids copies in
      elim (Bool-cases (has_id s.id bs)) [
        | inl old ↦ rw (same ∙ old, old) (insert_empty-AreCopies as' bs rs ss twins.1 copies)
        | inr new ↦
            rw (same ∙ new, new)
              (insert_empty-AreCopies _ _ rs ss twins.1
                (AreCopies-append r.id s.id as' bs twins.0.ids copies))
      ]

  pub push_node-AreCopies :
      (i j : ℕ) (node : NodeName) (as' bs as'' : List Allocation)
      → R i j
      → AreCopies as' bs
      → push_node i node as' ≡ some as''
      → (bs' : List Allocation) × (push_node j node bs ≡ some bs') × AreCopies as'' bs'
  unfolding push_node
  push_node-AreCopies i j node [] [] as'' ids copies e = cc
  push_node-AreCopies i j node [] (b ∷ bs) as'' ids copies e = absurd copies
  push_node-AreCopies i j node (a ∷ as') [] as'' ids copies e = absurd copies
  push_node-AreCopies i j node (a ∷ as') (b ∷ bs) as'' ids copies e =
      let same = paired a.id b.id i j copies.0.ids ids in
      elim (Bool-cases (b.id == j)) [
        | inl here ↦ (
          record b { nodes = b.nodes ++ node ∷ [] } ∷ bs,
          rw here refl,
          subst
              (λ (t : List Allocation).
                AreCopies t (record b { nodes = b.nodes ++ node ∷ [] } ∷ bs))
              (some-injective _ _ (rw (same ∙ here) at e))
              (
                record {
                  ids = copies.0.ids;
                  nodes = ap (λ (t : List NodeName). t ++ node ∷ []) copies.0.nodes;
                },
                copies.1,
              ),
        )
        | inr other ↦ elim (Option-cases (push_node i node as')) [
          | inl e2 ↦ cc (rw (same ∙ other, e2, push_node) at e)
          | inr (cs, e2) ↦
              let (ds, pushed, rest) = push_node-AreCopies i j node as' bs cs ids copies.1 e2 in
              (
                b ∷ ds,
                rw (other, pushed, push_node) refl,
                subst (λ (t : List Allocation). AreCopies t (b ∷ ds))
                    (some-injective _ _ (rw (same ∙ other, e2, push_node) at e)) (copies.0, rest),
              )
        ]
      ]

  partial_cmp-IsTwin :
      (r s r' s' : AllocationRequest)
      → IsTwin r r'
      → IsTwin s s'
      → partial_cmp r s ≡ partial_cmp r' s'
  unfolding partial_cmp
  partial_cmp-IsTwin r s r' s' twin twin' = λ i.
      partial_cmp (record { id = 0; key = twin.same_key i; weight = twin.same_weight i })
        (record { id = 0; key = twin'.same_key i; weight = twin'.same_weight i })

  pub take_largest-AreTwins :
      (best best' : AllocationRequest) (rs ss : List AllocationRequest)
      → IsTwin best best'
      → AreTwins rs ss
      → IsTwin (take_largest best rs).0 (take_largest best' ss).0
        × AreTwins (take_largest best rs).1 (take_largest best' ss).1
  unfolding take_largest
  take_largest-AreTwins best best' [] [] twin twins = (twin, tt)
  take_largest-AreTwins best best' [] (s ∷ ss) twin twins = absurd twins
  take_largest-AreTwins best best' (r ∷ rs) [] twin twins = absurd twins
  take_largest-AreTwins best best' (r ∷ rs) (s ∷ ss) twin twins =
      let same = ap is_lt (partial_cmp-IsTwin best r best' s twin twins.0) in
      elim (Bool-cases (is_lt (partial_cmp best' s))) [
        | inl lt ↦
            rw (same ∙ lt, lt)
              (let (top, rest) = take_largest-AreTwins r s rs ss twins.0 twins.1 in
                (top, (twin, rest)))
        | inr ge ↦
            rw (same ∙ ge, ge)
              (let (top, rest) = take_largest-AreTwins best best' rs ss twin twins.1 in
                (top, (twins.0, rest)))
      ]
