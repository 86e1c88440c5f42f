-- ===== src/Authority/Registry.antt =====
-- The requests that the authority of aimless-onions/src/bin/authority.rs collects in an epoch.
use aimless_onions.Prelude.{
  ◌+◌, ◌%◌, ◌^◌, ◌<◌, ◌≡◌, ◌≢◌, refl, ap, sym, ◌∙◌, arith, Bool-cases, inl, inr, List, [], ◌∷◌, All,
  All-map,
}
use native.Mathlib.Nat.{mod-eq_of_lt}
use aimless_onions.ApiTypes.{RelayKey, RegisterRelay}
use aimless_onions.Wire.{bytes_eq}
use aimless_onions.Maps.Once.{AreOnce, insert-AreOnce}
use aimless_onions.Maps.{insert, keys, values, insert_key, keys-insert, insert-All}
use aimless_onions.Allocation.{AllocationRequest}
use aimless_onions.Authority.{InnerRequests, insert_request, handle_request}

-- Each id belongs to one request.
abbrev pub AreDistinct : List AllocationRequest → Type 0
AreDistinct [] = Unit {0}
AreDistinct (r ∷ rs) = All (λ s. r.id ≢ s.id) rs × AreDistinct rs

-- Every registered relay has one request, with its key, and one address, and the ids are different
-- and below the counter.
pub record IsRegistry (r : InnerRequests) : Type 0 where
  pub same_keys : keys r.requests ≡ keys r.addresses
  pub once : AreOnce (keys r.requests)
  pub own_key : All (λ (e : RelayKey × AllocationRequest). e.1.key ≡ e.0) r.requests
  pub below : All (λ (e : RelayKey × AllocationRequest). e.1.id < r.counter) r.requests
  pub distinct : AreDistinct (values r.requests)

All-values :
    (P : AllocationRequest → Type 0) (m : List (RelayKey × AllocationRequest))
    → All (λ (e : RelayKey × AllocationRequest). P e.1) m
    → All P (values m)
All-values P [] h = tt
All-values P ((k, r) ∷ m) h = (h.0, All-values P m h.1)

All-values_insert :
    (P : AllocationRequest → Type 0) (k : RelayKey) (r : AllocationRequest)
    (m : List (RelayKey × AllocationRequest))
    → P r
    → All P (values m)
    → All P (values (insert k r m))
unfolding insert
All-values_insert P k r [] here rest = (here, tt)
All-values_insert P k r ((k', s) ∷ m) here rest = elim (Bool-cases (bytes_eq k' k)) [
  | inl e ↦ rw e (here, rest.1)
  | inr e ↦ rw e (rest.0, All-values_insert P k r m here rest.1)
]

insert-AreDistinct :
    (k : RelayKey) (r : AllocationRequest) (m : List (RelayKey × AllocationRequest))
    → All (λ (e : RelayKey × AllocationRequest). e.1.id < r.id) m
    → AreDistinct (values m)
    → AreDistinct (values (insert k r m))
unfolding insert
insert-AreDistinct k r [] below distinct = (tt, tt)
insert-AreDistinct k r ((k', s) ∷ m) below distinct = elim (Bool-cases (bytes_eq k' k)) [
  | inl e ↦ rw e (
    All-map (λ (q : AllocationRequest). q.id < r.id) (λ (q : AllocationRequest). r.id ≢ q.id)
        (values m) (λ q h e'. omega (arith, h, e')) (All-values (λ q. q.id < r.id) m below.1),
    distinct.1,
  )
  | inr e ↦ rw e (
    All-values_insert (λ q. s.id ≢ q.id) k r m (λ e'. omega (arith, below.0, e')) distinct.0,
    insert-AreDistinct k r m below.1 distinct.1,
  )
]

-- A registration, the first of a relay or a later one, keeps the registry in order, as long as the
-- counter does not wrap around: one request and one address for each key, all with different ids.
pub handle_request-IsRegistry :
    (q : RegisterRelay) (r : InnerRequests)
    → IsRegistry r
    → r.counter + 1 < 2 ^ 32
    → IsRegistry (handle_request q r)
unfolding handle_request insert_request
handle_request-IsRegistry q r registry room =
    let request : AllocationRequest = record { id = r.counter; key = q.key; weight = q.weight } in
    let counted : (r.counter + 1) % 2 ^ 32 ≡ r.counter + 1 = mod-eq_of_lt room in
    record {
      same_keys =
          keys-insert q.key request r.requests
          ∙ ap (insert_key q.key) registry.same_keys
          ∙ sym (keys-insert q.key (q.address, q.port) r.addresses);
      once = insert-AreOnce q.key request r.requests registry.once;
      own_key =
          insert-All (λ (e : RelayKey × AllocationRequest). e.1.key ≡ e.0) q.key request r.requests
            refl registry.own_key;
      below = rw counted (
          insert-All (λ (e : RelayKey × AllocationRequest). e.1.id < r.counter + 1) q.key request
            r.requests (omega arith)
            (All-map (λ (e : RelayKey × AllocationRequest). e.1.id < r.counter)
              (λ (e : RelayKey × AllocationRequest). e.1.id < r.counter + 1) r.requests
              (λ e h. omega (arith, h)) registry.below));
      distinct = insert-AreDistinct q.key request r.requests registry.below registry.distinct;
    }
