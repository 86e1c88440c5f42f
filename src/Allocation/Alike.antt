-- ===== src/Allocation/Alike.antt =====
-- Requests with the same keys and weights, in whatever order, are sorted to lists that are alike by
-- `allocate` of aimless-onions/src/allocation.rs.
use Prim.Native.Nat.{Ordering}
use aimless_onions.Prelude.{
  ℕ, ◌≡◌, refl, ap, sym, ◌∙◌, subst, Bool, true, false, Bool-cases, inl, inr, Option, none, some,
  List, [], ◌∷◌, All, All-map, if◌then◌else◌,
}
use mathlib.Core.Option.{some-injective}
use aimless_onions.ApiTypes.{RelayKey}
use aimless_onions.Wire.{bytes_eq, bytes_eq→≡, bytes_eq_refl}
use aimless_onions.Maps.Once.{bytes_eq_comm}
use aimless_onions.Allocation.{AllocationRequest, key_cmp, insert_by_key, sort_by_key}
use aimless_onions.Allocation.Sorting.{
  key_cmp_eq, key_cmp_gt, key_cmp_trans, key_cmp_ne, IsSorted, IsNew, Compared, compared, AreApart,
  sort_by_key-All,
}

-- The weight of the request with this key.
abbrev pub weight_at : RelayKey → List AllocationRequest → Option ℕ
weight_at k [] = none
weight_at k (r ∷ rs) = if bytes_eq r.key k then some r.weight else weight_at k rs

weight_at-other : (k : RelayKey) (rs : List AllocationRequest) → IsNew k rs → weight_at k rs ≡ none
weight_at-other k [] new = refl
weight_at-other k (r ∷ rs) new = rw new.0 (weight_at-other k rs new.1)

weight_at-insert_by_key :
    (k : RelayKey) (r : AllocationRequest) (rs : List AllocationRequest)
    → IsNew r.key rs
    → weight_at k (insert_by_key r rs) ≡ weight_at k (r ∷ rs)
unfolding insert_by_key
weight_at-insert_by_key k r [] new = refl
weight_at-insert_by_key k r (s ∷ rs) new = elim (compared s.key r.key) [
  | Compared.smaller e ↦
      rw (e, insert_by_key)
        (rw (weight_at-insert_by_key k r rs new.1) (
          swapped (bytes_eq s.key k) (bytes_eq r.key k) (λ here there.
            let keys_are : s.key ≡ r.key =
              bytes_eq→≡ s.key k here ∙ sym (bytes_eq→≡ r.key k there) in
            let apart = new.0 in
            let self : bytes_eq s.key r.key ≡ true =
              subst (λ (t : RelayKey). bytes_eq s.key t ≡ true) keys_are (bytes_eq_refl s.key) in
            cc)))
  | Compared.equal e ↦ rw (e, insert_by_key) refl
  | Compared.greater e ↦ rw (e, insert_by_key) refl
]
  where
    swapped :
        (p q : Bool)
        → (p ≡ true → q ≡ true → ⊥)
        → (if p then some s.weight else (if q then some r.weight else weight_at k rs))
          ≡ (if q then some r.weight else (if p then some s.weight else weight_at k rs))
    swapped true true never = absurd (never refl refl)
    swapped true false never = refl
    swapped false true never = refl
    swapped false false never = refl

pub weight_at-sort_by_key :
    (k : RelayKey) (rs : List AllocationRequest)
    → AreApart rs
    → weight_at k (sort_by_key rs) ≡ weight_at k rs
unfolding sort_by_key
weight_at-sort_by_key k [] apart = refl
weight_at-sort_by_key k (r ∷ rs) apart =
    weight_at-insert_by_key k r (sort_by_key rs)
      (sort_by_key-All (λ s. bytes_eq s.key r.key ≡ false) rs apart.0)
    ∙ ap (λ (t : Option ℕ). if bytes_eq r.key k then some r.weight else t)
        (weight_at-sort_by_key k rs apart.1)

-- The same keys with the same weights, one after the other.
abbrev pub AreAlike : List AllocationRequest → List AllocationRequest → Type 0
AreAlike [] [] = Unit
AreAlike [] (s ∷ ss) = ⊥
AreAlike (r ∷ rs) [] = ⊥
AreAlike (r ∷ rs) (s ∷ ss) = (r.key ≡ s.key) × (r.weight ≡ s.weight) × AreAlike rs ss

-- A key before all of them is none of them.
below-IsNew :
    (k : RelayKey) (rs : List AllocationRequest)
    → All (λ s. key_cmp k s.key ≡ Ordering.lt) rs
    → weight_at k rs ≡ none
below-IsNew k [] below = refl
below-IsNew k (r ∷ rs) below =
    rw (bytes_eq_comm r.key k ∙ key_cmp_ne k r.key below.0) (below-IsNew k rs below.1)

-- The same for a list of which the first key comes later.
missing :
    (k : RelayKey) (s : AllocationRequest) (ss : List AllocationRequest)
    → key_cmp k s.key ≡ Ordering.lt
    → IsSorted (s ∷ ss)
    → weight_at k (s ∷ ss) ≡ none
missing k s ss first sorted = below-IsNew k (s ∷ ss) (
  first,
  All-map (λ (t : AllocationRequest). key_cmp s.key t.key ≡ Ordering.lt)
      (λ (t : AllocationRequest). key_cmp k t.key ≡ Ordering.lt) ss
      (λ t later. key_cmp_trans k s.key t.key first later) sorted.0,
)

weight_at-here :
    (k : RelayKey) (r : AllocationRequest) (rs : List AllocationRequest)
    → r.key ≡ k
    → weight_at k (r ∷ rs) ≡ some r.weight
weight_at-here k r rs same =
    let here : bytes_eq r.key k ≡ true =
      subst (λ (t : RelayKey). bytes_eq r.key t ≡ true) same (bytes_eq_refl r.key) in
    rw here refl

same_tails :
    (r s : AllocationRequest) (rs ss : List AllocationRequest)
    → r.key ≡ s.key
    → IsSorted (r ∷ rs)
    → IsSorted (s ∷ ss)
    → ((k : RelayKey) → weight_at k (r ∷ rs) ≡ weight_at k (s ∷ ss))
    → (k : RelayKey) → weight_at k rs ≡ weight_at k ss
same_tails r s rs ss same sorted sorted' weights k = elim (Bool-cases (bytes_eq r.key k)) [
  | inl here ↦
      let key_is : r.key ≡ k = bytes_eq→≡ r.key k here in
      subst (λ (t : RelayKey). weight_at t rs ≡ none) key_is (below-IsNew r.key rs sorted.0)
      ∙ sym (
          subst (λ (t : RelayKey). weight_at t ss ≡ none) (sym same ∙ key_is)
            (below-IsNew s.key ss sorted'.0))
  | inr other ↦
      let other' : bytes_eq s.key k ≡ false =
        subst (λ (t : RelayKey). bytes_eq t k ≡ false) same other in
      rw (other, other') at (weights k)
]

-- Sorted lists with the same weights under all keys are alike.
pub IsSorted-AreAlike :
    (rs ss : List AllocationRequest)
    → IsSorted rs
    → IsSorted ss
    → ((k : RelayKey) → weight_at k rs ≡ weight_at k ss)
    → AreAlike rs ss
IsSorted-AreAlike [] [] sorted sorted' weights = tt
IsSorted-AreAlike [] (s ∷ ss) sorted sorted' weights =
    let here = bytes_eq_refl s.key in cc (rw here at (weights s.key))
IsSorted-AreAlike (r ∷ rs) [] sorted sorted' weights =
    let here = bytes_eq_refl r.key in cc (rw here at (weights r.key))
IsSorted-AreAlike (r ∷ rs) (s ∷ ss) sorted sorted' weights = elim (compared r.key s.key) [
  | Compared.smaller e ↦
      cc (weights r.key, weight_at-here r.key r rs refl, missing r.key s ss e sorted')
  | Compared.equal e ↦
      let same : r.key ≡ s.key = key_cmp_eq r.key s.key e in
      (
        same,
        some-injective _ _ (
            sym (weight_at-here r.key r rs refl)
            ∙ weights r.key
            ∙ weight_at-here r.key s ss (sym same)),
        IsSorted-AreAlike rs ss sorted.1 sorted'.1
            (same_tails r s rs ss same sorted sorted' weights),
      )
  | Compared.greater e ↦ cc (
    weights s.key,
    weight_at-here s.key s ss refl,
    missing s.key r rs (key_cmp_gt r.key s.key e) sorted,
  )
]
