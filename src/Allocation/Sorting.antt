-- ===== src/Allocation/Sorting.antt =====
-- The order in which `allocate` of aimless-onions/src/allocation.rs takes the requests: that of their
-- keys, in whatever order they are given.
use Prim.Native.Nat.{Ordering}
use aimless_onions.Prelude.{
  ◌≡◌, refl, sym, subst, arith, true, false, Bool-cases, inl, inr, List, [], ◌∷◌, All, All-map,
}
use aimless_onions.ApiTypes.{RelayKey}
use aimless_onions.Wire.{bytes_eq, bytes_eq→≡, bytes_eq_refl}
use aimless_onions.Allocation.{AllocationRequest, key_cmp, insert_by_key, sort_by_key}

key_cmp_refl : (a : RelayKey) → key_cmp a a ≡ Ordering.eq
unfolding key_cmp
key_cmp_refl [] = refl
key_cmp_refl (x ∷ a) = ground (arith, key_cmp_refl a)

pub key_cmp_eq : (a b : RelayKey) → key_cmp a b ≡ Ordering.eq → a ≡ b
unfolding key_cmp
key_cmp_eq [] [] e = refl
key_cmp_eq [] (y ∷ b) e = cc
key_cmp_eq (x ∷ a) [] e = cc
key_cmp_eq (x ∷ a) (y ∷ b) e = ground (arith, key_cmp_eq a b)

pub key_cmp_gt : (a b : RelayKey) → key_cmp a b ≡ Ordering.gt → key_cmp b a ≡ Ordering.lt
unfolding key_cmp
key_cmp_gt [] [] e = cc
key_cmp_gt [] (y ∷ b) e = cc
key_cmp_gt (x ∷ a) [] e = refl
key_cmp_gt (x ∷ a) (y ∷ b) e = ground (arith, key_cmp_gt a b)

pub key_cmp_trans :
    (a b d : RelayKey)
    → key_cmp a b ≡ Ordering.lt
    → key_cmp b d ≡ Ordering.lt
    → key_cmp a d ≡ Ordering.lt
unfolding key_cmp
key_cmp_trans [] [] d e f = cc
key_cmp_trans [] (y ∷ b) [] e f = cc
key_cmp_trans [] (y ∷ b) (z ∷ d) e f = refl
key_cmp_trans (x ∷ a) [] d e f = cc
key_cmp_trans (x ∷ a) (y ∷ b) [] e f = cc
key_cmp_trans (x ∷ a) (y ∷ b) (z ∷ d) e f = ground (arith, key_cmp_trans a b d)

pub key_cmp_ne : (a b : RelayKey) → key_cmp a b ≡ Ordering.lt → bytes_eq a b ≡ false
key_cmp_ne a b e = elim (Bool-cases (bytes_eq a b)) [
  | inl same ↦
      let self : key_cmp a a ≡ Ordering.lt =
        subst (λ (t : RelayKey). key_cmp a t ≡ Ordering.lt) (sym (bytes_eq→≡ a b same)) e in
      cc (key_cmp_refl a)
  | inr other ↦ other
]

-- Every key comes before those that follow.
abbrev pub IsSorted : List AllocationRequest → Type 0
IsSorted [] = Unit {0}
IsSorted (r ∷ rs) = All (λ s. key_cmp r.key s.key ≡ Ordering.lt) rs × IsSorted rs

-- No request has the key.
abbrev pub IsNew : RelayKey → List AllocationRequest → Type 0
IsNew k = All (λ s. bytes_eq s.key k ≡ false)

pub insert_by_key-All :
    (P : AllocationRequest → Type 0) (r : AllocationRequest) (rs : List AllocationRequest)
    → P r
    → All P rs
    → All P (insert_by_key r rs)
unfolding insert_by_key
insert_by_key-All P r [] here all = (here, tt)
insert_by_key-All P r (s ∷ rs) here all =
    elim (key_cmp s.key r.key)
      as (λ o. All P (elim o [
        | Ordering.gt ↦ r ∷ s ∷ rs
        | Ordering.lt ↦ s ∷ insert_by_key r rs
        | Ordering.eq ↦ r ∷ s ∷ rs
      ])) [
        | Ordering.gt ↦ (here, all)
        | Ordering.lt ↦ (all.0, insert_by_key-All P r rs here all.1)
        | Ordering.eq ↦ (here, all)
      ]

pub sort_by_key-All :
    (P : AllocationRequest → Type 0) (rs : List AllocationRequest)
    → All P rs
    → All P (sort_by_key rs)
unfolding sort_by_key
sort_by_key-All P [] all = tt
sort_by_key-All P (r ∷ rs) all =
    insert_by_key-All P r (sort_by_key rs) all.0 (sort_by_key-All P rs all.1)

pub data Compared (a b : RelayKey) : Type 0 where
  smaller : key_cmp a b ≡ Ordering.lt → Compared a b
  equal : key_cmp a b ≡ Ordering.eq → Compared a b
  greater : key_cmp a b ≡ Ordering.gt → Compared a b

pub compared : (a b : RelayKey) → Compared a b
compared a b = at (key_cmp a b) refl
  where
    at : (o : Ordering) → key_cmp a b ≡ o → Compared a b
    at Ordering.lt e = Compared.smaller e
    at Ordering.eq e = Compared.equal e
    at Ordering.gt e = Compared.greater e

insert_by_key-IsSorted :
    (r : AllocationRequest) (rs : List AllocationRequest)
    → IsNew r.key rs
    → IsSorted rs
    → IsSorted (insert_by_key r rs)
unfolding insert_by_key
insert_by_key-IsSorted r [] new sorted = (tt, tt)
insert_by_key-IsSorted r (s ∷ rs) new sorted = elim (compared s.key r.key) [
  | Compared.smaller e ↦
      rw (e, insert_by_key)
        (
          insert_by_key-All (λ t. key_cmp s.key t.key ≡ Ordering.lt) r rs e sorted.0,
          insert_by_key-IsSorted r rs new.1 sorted.1,
        )
  | Compared.equal e ↦
      let self : bytes_eq s.key r.key ≡ true =
        subst (λ (t : RelayKey). bytes_eq s.key t ≡ true) (key_cmp_eq s.key r.key e)
          (bytes_eq_refl s.key) in
      let new' = new.0 in cc
  | Compared.greater e ↦
      let above : key_cmp r.key s.key ≡ Ordering.lt = key_cmp_gt s.key r.key e in
      rw (e, insert_by_key)
        (
          (
            above,
            All-map (λ (t : AllocationRequest). key_cmp s.key t.key ≡ Ordering.lt)
                (λ (t : AllocationRequest). key_cmp r.key t.key ≡ Ordering.lt) rs
                (λ t below. key_cmp_trans r.key s.key t.key above below) sorted.0,
          ),
          sorted,
        )
]

-- Different keys, in any order.
abbrev pub AreApart : List AllocationRequest → Type 0
AreApart [] = Unit {0}
AreApart (r ∷ rs) = IsNew r.key rs × AreApart rs

pub sort_by_key-IsSorted : (rs : List AllocationRequest) → AreApart rs → IsSorted (sort_by_key rs)
unfolding sort_by_key
sort_by_key-IsSorted [] apart = tt
sort_by_key-IsSorted (r ∷ rs) apart =
    insert_by_key-IsSorted r (sort_by_key rs)
      (sort_by_key-All (λ s. bytes_eq s.key r.key ≡ false) rs apart.0)
      (sort_by_key-IsSorted rs apart.1)
