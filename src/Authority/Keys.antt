-- ===== src/Authority/Keys.antt =====
-- The keys that the authority of aimless-onions/src/bin/authority.rs hands out to a relay.
use aimless_onions.Prelude.{
  ℕ, ◌≤◌, ◌≡◌, arith, length, All, Option-cases, inl, inr, refl, ap, Option, none, some, List, [],
  ◌∷◌, map,
}
use aimless_onions.Outcome.{ok}
use aimless_onions.ApiTypes.{GetHibeKeys, KeyPair}
use aimless_onions.NodeName.{NodeName, path_bits}
use aimless_onions.NodeName.Digits.{length-path_bits}
use aimless_onions.Maps.{lookup}
use aimless_onions.Allocation.{Allocation}
use aimless_onions.Authority.{Bbg, InnerAllocations, generate_keys, handle_get_hibe_keys}

abbrev pub nodes_of : Option Allocation → List NodeName
nodes_of none = []
nodes_of (some a) = a.nodes

module _ (b : Bbg) where
  open b use {Rng, PublicParams, MasterKey, PrivateKey}

  -- `generate_key` has an answer for every name of at most 32 digits, the depth of the scheme.
  abbrev pub NeverFails : Type 0
  NeverFails =
      (rng : Rng) (params : PublicParams) (master : MasterKey) (digits : List ℕ)
      → length digits ≤ 32
      → (key : PrivateKey) × ((b.generate_key rng params master digits).0 ≡ some key)

  generate_keys-nodes :
      (sure : NeverFails) (rng : Rng) (params : PublicParams) (master : MasterKey)
      (ns : List NodeName)
      → All (λ n. n.len ≤ 32) ns
      → (pairs : List (KeyPair PrivateKey)) × (rng' : Rng) × (generate_keys b rng params master ns
          ≡ ok (pairs, rng'))
        × (map (λ p. p.node) pairs ≡ ns)
  unfolding generate_keys
  generate_keys-nodes sure rng params master [] deep = ([], rng, refl, refl)
  generate_keys-nodes sure rng params master (n ∷ ns) deep =
      let (key, made) =
        sure rng params master (path_bits n) (omega (arith, deep.0, length-path_bits n)) in
      let (pairs, rng', rest, nodes) =
        generate_keys-nodes sure (b.generate_key rng params master (path_bits n)).1 params master ns
          deep.1 in
      (record { node = n; key = key } ∷ pairs, rng', rw (made, rest), ap (◌∷◌ n) nodes)

  -- When the generation of keys does not fail for names of at most 32 digits and the nodes of the
  -- relay's allocation are no deeper, the relay gets one key for each of the nodes, in order, and a
  -- key of a relay that has no allocation gets none.
  pub handle_get_hibe_keys-nodes :
      (rng : Rng) (q : GetHibeKeys) (a : InnerAllocations b)
      → NeverFails
      → All (λ n. n.len ≤ 32) (nodes_of (lookup q.key a.allocations))
      → (pairs : List (KeyPair PrivateKey)) × (rng' : Rng) × (handle_get_hibe_keys b rng q a
          ≡ ok (pairs, rng'))
        × (map (λ p. p.node) pairs ≡ nodes_of (lookup q.key a.allocations))
  unfolding handle_get_hibe_keys
  handle_get_hibe_keys-nodes rng q a sure deep = elim (Option-cases (lookup q.key a.allocations)) [
    | inl e ↦ ([], rng, rw (e, handle_get_hibe_keys), rw e)
    | inr found ↦
        let (pairs, rng', made, nodes) =
          generate_keys-nodes sure rng a.public_params a.master_key found.0.nodes
            (rw found.1 at deep) in
        (pairs, rng', rw (found.1, handle_get_hibe_keys) made, rw found.1 nodes)
  ]
