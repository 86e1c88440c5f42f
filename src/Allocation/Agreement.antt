-- ===== src/Allocation/Agreement.antt =====
-- `allocate` of aimless-onions/src/allocation.rs gives out the same nodes for the same keys and weights,
-- whatever the ids and the order of the requests.
use aimless_onions.Prelude.{
  ℕ, ◌*◌, ◌/◌, ◌%◌, ◌^◌, ◌+◌, ◌≡◌, refl, ap, sym, ◌∙◌, subst, true, false, Bool-cases, inl, inr,
  Option-cases, some, List, [], ◌∷◌, ◌==◌, ltb, sum_by,
}
use mathlib.Core.Path.{ap₂}
use mathlib.Core.Option.{some-injective}
use aimless_onions.Allocation.{
  AllocationRequest, Allocation, scale, scale_all, sum_weight, sort_by_key, initial,
  weight_space_size, enough_fuel, allocate,
}
use aimless_onions.Allocation.Entries.{find_id}
use aimless_onions.Allocation.Renaming.{IsTwin, AreTwins, AreCopies, insert_empty-AreCopies}
use aimless_onions.Allocation.Twins.{run-AreCopies}

module _ (R : ℕ → ℕ → Type 0)
    (paired : (i j i' j' : ℕ) → R i j → R i' j' → (i == i') ≡ (j == j')) where
  pub sum_by-AreTwins :
      (rs ss : List AllocationRequest)
      → AreTwins R paired rs ss
      → sum_by (λ r. r.weight) rs ≡ sum_by (λ r. r.weight) ss
  sum_by-AreTwins [] [] twins = refl
  sum_by-AreTwins [] (s ∷ ss) twins = absurd twins
  sum_by-AreTwins (r ∷ rs) [] twins = absurd twins
  sum_by-AreTwins (r ∷ rs) (s ∷ ss) twins =
      ap₂ (λ (a b : ℕ). a + b) twins.0.same_weight (sum_by-AreTwins rs ss twins.1)

  scale-IsTwin :
      (total : ℕ) (r s r' : AllocationRequest)
      → IsTwin R paired r s
      → scale total r ≡ some r'
      → (s' : AllocationRequest) × (scale total s ≡ some s') × IsTwin R paired r' s'
  unfolding scale
  scale-IsTwin total r s r' twin e = elim (Bool-cases (total == 0)) [
    | inl none_of_it ↦ cc (rw (none_of_it, scale) at e)
    | inr some_of_it ↦
        let part : weight_space_size * r.weight / total ≡ weight_space_size * s.weight / total =
          ap (λ (w : ℕ). weight_space_size * w / total) twin.same_weight in
        elim (Bool-cases (ltb (weight_space_size * s.weight / total) (2 ^ 64))) [
          | inl fits ↦
              let s' : AllocationRequest = record s {
                weight = weight_space_size * s.weight / total;
              } in
              let fits' : ltb (weight_space_size * r.weight / total) (2 ^ 64) ≡ true =
                ap (λ (w : ℕ). ltb w (2 ^ 64)) part ∙ fits in
              (
                s',
                rw (some_of_it, fits) refl,
                subst (λ (t : AllocationRequest). IsTwin R paired t s')
                    (some-injective _ _ (rw (some_of_it, fits', scale) at e))
                    (record { same_key = twin.same_key; same_weight = part; ids = twin.ids }),
              )
          | inr large ↦
              let large' : ltb (weight_space_size * r.weight / total) (2 ^ 64) ≡ false =
                ap (λ (w : ℕ). ltb w (2 ^ 64)) part ∙ large in
              cc (rw (some_of_it, large', scale) at e)
        ]
  ]

  scale_all-AreTwins :
      (total : ℕ) (rs ss rs' : List AllocationRequest)
      → AreTwins R paired rs ss
      → scale_all total rs ≡ some rs'
      → (ss' : List AllocationRequest) × (scale_all total ss ≡ some ss') × AreTwins R paired rs' ss'
  unfolding scale_all
  scale_all-AreTwins total [] [] rs' twins e = (
    [],
    refl,
    subst (λ (t : List AllocationRequest). AreTwins R paired t []) (some-injective _ _ e) tt,
  )
  scale_all-AreTwins total [] (s ∷ ss) rs' twins e = absurd twins
  scale_all-AreTwins total (r ∷ rs) [] rs' twins e = absurd twins
  scale_all-AreTwins total (r ∷ rs) (s ∷ ss) rs' twins e = elim (Option-cases (scale total r)) [
    | inl e1 ↦ cc (rw (e1, scale_all) at e)
    | inr (r', e1) ↦ elim (Option-cases (scale_all total rs)) [
      | inl e2 ↦ cc (rw (e1, e2, scale_all) at e)
      | inr (rest, e2) ↦
          let (s', scaled, twin) = scale-IsTwin total r s r' twins.0 e1 in
          let (rest', all_scaled, rests) = scale_all-AreTwins total rs ss rest twins.1 e2 in
          (
            s' ∷ rest',
            rw (scaled, all_scaled, scale_all) refl,
            subst (λ (t : List AllocationRequest). AreTwins R paired t (s' ∷ rest'))
                (some-injective _ _ (rw (e1, e2, scale_all) at e)) (twin, rests),
          )
    ]
  ]

  -- Requests that are sorted to twins are given the same nodes.
  pub allocate-AreCopies :
      (rs ss : List AllocationRequest) (result : List Allocation)
      → AreTwins R paired (sort_by_key rs) (sort_by_key ss)
      → allocate rs ≡ some result
      → (result' : List Allocation) × (allocate ss ≡ some result')
        × AreCopies R paired result result'
  unfolding allocate sum_weight
  allocate-AreCopies rs ss result twins e =
      let same : sum_weight (sort_by_key rs) ≡ sum_weight (sort_by_key ss) =
        ap (λ (t : ℕ). t % 2 ^ 64) (sum_by-AreTwins (sort_by_key rs) (sort_by_key ss) twins) in
      elim (Option-cases (scale_all (sum_weight (sort_by_key rs)) (sort_by_key rs))) [
        | inl e1 ↦ cc (rw (e1, allocate) at e)
        | inr (scaled, e1) ↦
            let (scaled', e2, all_twins) =
              scale_all-AreTwins (sum_weight (sort_by_key rs)) (sort_by_key rs) (sort_by_key ss)
                scaled twins e1 in
            let e2' : scale_all (sum_weight (sort_by_key ss)) (sort_by_key ss) ≡ some scaled' =
              ap (λ (t : ℕ). scale_all t (sort_by_key ss)) (sym same) ∙ e2 in
            let (result', ran, copies) =
              run-AreCopies R paired enough_fuel (initial scaled) (initial scaled') result
                (record {
                  heap = all_twins;
                  cells = refl;
                  size = refl;
                  given = insert_empty-AreCopies R paired [] [] scaled scaled' all_twins tt;
                })
                (rw (e1, allocate) at e) in
            (result', rw (e2', allocate) ran, copies)
      ]

  -- The entries of paired ids have the same nodes.
  pub find_id-AreCopies :
      (i j : ℕ) (as' bs : List Allocation) (a b : Allocation)
      → R i j
      → AreCopies R paired as' bs
      → find_id i as' ≡ some a
      → find_id j bs ≡ some b
      → a.nodes ≡ b.nodes
  find_id-AreCopies i j [] bs a b ids copies e f = cc
  find_id-AreCopies i j (a' ∷ as') [] a b ids copies e f = absurd copies
  find_id-AreCopies i j (a' ∷ as') (b' ∷ bs) a b ids copies e f =
      let same = paired a'.id b'.id i j copies.0.ids ids in
      elim (Bool-cases (b'.id == j)) [
        | inl here ↦
            ap (λ (t : Allocation). t.nodes) (sym (some-injective _ _ (rw (same ∙ here) at e)))
            ∙ copies.0.nodes
            ∙ ap (λ (t : Allocation). t.nodes) (some-injective _ _ (rw here at f))
        | inr other ↦
            find_id-AreCopies i j as' bs a b ids copies.1 (rw (same ∙ other) at e) (rw other at f)
      ]
