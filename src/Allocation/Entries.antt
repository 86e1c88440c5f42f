-- ===== src/Allocation/Entries.antt =====
-- The entries of the map of allocations of aimless-onions/src/allocation.rs.
use aimless_onions.Prelude.{
  ℕ, ◌≡◌, refl, sym, ap, ◌∙◌, subst, arith, Bool-cases, inl, inr, true, false, Option, none, some,
  List, [], ◌∷◌, ◌++◌, ◌||◌, ◌==◌, ==_iff, if◌then◌else◌,
}
use aimless_onions.Allocation.{AllocationRequest, Allocation, has_id, insert_empty, allocate}
use aimless_onions.Allocation.Cells.{size_of, nodes_size, ids}
use aimless_onions.Allocation.Shares.{IsWeighted, outcome, the_result, has_name, has_id-ids}

-- Every name stands once.
abbrev pub AreOnce : List ℕ → Type 0
AreOnce [] = Unit {0}
AreOnce (n ∷ ns) = (has_name n ns ≡ false) × AreOnce ns

has_name-append : (i n : ℕ) (ns : List ℕ) → has_name i (ns ++ n ∷ []) ≡ (has_name i ns || (n == i))
has_name-append i n [] = ground arith
has_name-append i n (m ∷ ns) = ground (arith, has_name-append i n ns)

AreOnce-append : (n : ℕ) (ns : List ℕ) → has_name n ns ≡ false → AreOnce ns → AreOnce (ns ++ n ∷ [])
AreOnce-append n [] new once = (refl, tt)
AreOnce-append n (m ∷ ns) new once = elim (Bool-cases (m == n)) [
  | inl e ↦ cc (rw e at new)
  | inr e ↦
      (has_name-append m n ns ∙ ground (arith, once.0, e), AreOnce-append n ns (rw e at new) once.1)
]

ids-append : (as' : List Allocation) (a : Allocation) → ids (as' ++ a ∷ []) ≡ ids as' ++ a.id ∷ []
ids-append [] a = refl
ids-append (b ∷ as') a = ap (◌∷◌ b.id) (ids-append as' a)

insert_empty-AreOnce :
    (as' : List Allocation) (rs : List AllocationRequest)
    → AreOnce (ids as')
    → AreOnce (ids (insert_empty as' rs))
unfolding insert_empty
insert_empty-AreOnce as' [] once = once
insert_empty-AreOnce as' (r ∷ rs) once = elim (Bool-cases (has_id r.id as')) [
  | inl old ↦ rw old (insert_empty-AreOnce as' rs once)
  | inr new ↦ rw new (
      insert_empty-AreOnce (as' ++ record { id = r.id; nodes = [] } ∷ []) rs (
        subst AreOnce (sym (ids-append as' (record { id = r.id; nodes = [] })))
          (AreOnce-append r.id (ids as') (sym (has_id-ids r.id as') ∙ new) once)))
]

-- The result of `allocate` has one entry for each of its ids.
pub allocate-AreOnce :
    (requests : List AllocationRequest) (result : List Allocation)
    → IsWeighted requests
    → allocate requests ≡ some result
    → AreOnce (ids result)
allocate-AreOnce requests result w e =
    let o = outcome requests w in
    subst (λ (t : List Allocation). AreOnce (ids t)) (the_result requests w e)
      (subst AreOnce (sym o.good.entries) (insert_empty-AreOnce [] o.scaled tt))

-- The first entry of an id.
abbrev pub find_id : ℕ → List Allocation → Option Allocation
find_id i [] = none
find_id i (a ∷ as') = if a.id == i then some a else find_id i as'

size_of-missing : (i : ℕ) (as' : List Allocation) → has_name i (ids as') ≡ false → size_of i as' ≡ 0
size_of-missing i [] missing = refl
size_of-missing i (a ∷ as') missing = elim (Bool-cases (a.id == i)) [
  | inl e ↦ cc (rw e at missing)
  | inr e ↦ rw e (omega (arith, size_of-missing i as' (rw e at missing)))
]

-- The size that an id has is that of its entry.
pub find_id-size :
    (i : ℕ) (as' : List Allocation)
    → AreOnce (ids as')
    → has_id i as' ≡ true
    → (a : Allocation) × (find_id i as' ≡ some a)
      × (a.id ≡ i)
      × (nodes_size a.nodes ≡ size_of i as')
unfolding has_id
find_id-size i [] once has = cc
find_id-size i (a ∷ as') once has = elim (Bool-cases (a.id == i)) [
  | inl e ↦
      let same : a.id ≡ i = (==_iff a.id i).0 e in
      let others =
        size_of-missing i as' (subst (λ (t : ℕ). has_name t (ids as') ≡ false) same once.0) in
      (a, rw e refl, same, rw e (omega (arith, others)))
  | inr e ↦
      let (a', found, same, size) = find_id-size i as' once.1 (rw e at has) in
      (a', rw e found, same, rw e (omega (arith, size)))
]

-- An id that has no entry is not found.
pub find_id-missing :
    (i : ℕ) (as' : List Allocation) → has_name i (ids as') ≡ false → find_id i as' ≡ none
find_id-missing i [] missing = refl
find_id-missing i (a ∷ as') missing = elim (Bool-cases (a.id == i)) [
  | inl e ↦ cc (rw e at missing)
  | inr e ↦ rw e (find_id-missing i as' (rw e at missing))
]
