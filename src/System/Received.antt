-- ===== src/System/Received.antt =====
-- What `receive_keys` of aimless-onions/src/bin/relay.rs makes of the keys that
-- `handle_get_hibe_keys` of aimless-onions/src/bin/authority.rs hands out.
use aimless_onions.Prelude.{
  ◌≤◌, ◌≡◌, refl, ap, sym, ◌∙◌, subst, Bool, true, false, Bool-cases, inl, inr, ◌||◌, some, List,
  [], ◌∷◌, map, All,
}
use aimless_onions.Outcome.{Outcome, ok}
use aimless_onions.ApiTypes.{KeyPair}
use aimless_onions.NodeName.{NodeName, contains, path_bits}
use aimless_onions.Crypto.{Crypto}
use aimless_onions.Net.{Http}
use aimless_onions.Allocation.Depth.{AreShallow}
use aimless_onions.Authority.{Bbg, generate_keys, any_contains}
use aimless_onions.Relay.{Keygen}
use aimless_onions.Relay.Keys.{IsKeygen, covers, AreKeys}
use aimless_onions.Relay.Kept.{node_eq→≡}
use aimless_onions.Relay.Network.{node_eq, insert_node, receive_keys}

or_twice : (a b : Bool) → (a || b) ≡ (a || (a || b))
or_twice true b = refl
or_twice false b = refl

or_swap : (a b d : Bool) → (a || (b || d)) ≡ (b || (a || d))
or_swap true true d = refl
or_swap true false d = refl
or_swap false b d = refl

or_assoc : (a b d : Bool) → (a || (b || d)) ≡ ((a || b) || d)
or_assoc true b d = refl
or_assoc false b d = refl

insert_node-entries :
    {A : Type 0} (P : NodeName × A → Type 0) (n : NodeName) (v : A) (m : List (NodeName × A))
    → P (n, v)
    → All P m
    → All P (insert_node n v m)
unfolding insert_node
insert_node-entries P n v [] here good = (here, tt)
insert_node-entries {A} P n v ((n', w) ∷ m) here good = elim (Bool-cases (node_eq n' n)) [
  | inl e ↦ rw e (subst (λ (t : NodeName). P (t, v)) (sym (node_eq→≡ n' n e)) here, good.1)
  | inr e ↦ rw e (good.0, insert_node-entries P n v m here good.1)
]

module _ (b : Bbg) (c : Crypto) (g : Keygen c.PrivateKey c.Rng) (h : Http c.PublicKey c.PrivateKey)
    (make_cache : c.PublicKey → Outcome g.Cache) (KeyFor : c.PrivateKey → NodeName → Type 0)
    (IsCache : g.Cache → Type 0) (keygen : IsKeygen c g KeyFor IsCache)
    (read_key : b.PrivateKey → c.PrivateKey) where
  open g use {Cache}

  -- What the relay reads of a pair.
  abbrev pub read_pair : KeyPair b.PrivateKey → KeyPair c.PrivateKey
  read_pair p = record { node = p.node; key = read_key p.key }

  -- The scheme's `generate_key` makes a key for every name of at most 32 digits, which the relay can
  -- read.
  abbrev pub Issues : b.PublicParams → b.MasterKey → Type 0
  Issues params master =
      (rng : b.Rng) (n : NodeName)
      → n.len ≤ 32
      → (key : b.PrivateKey) × ((b.generate_key rng params master (path_bits n)).0 ≡ some key)
        × KeyFor (read_key key) n

  pub generate_keys-For :
      (params : b.PublicParams) (master : b.MasterKey)
      → Issues params master
      → (rng : b.Rng) (ns : List NodeName) → AreShallow ns
      → (pairs : List (KeyPair b.PrivateKey)) × (rng' : b.Rng) × (generate_keys b rng params master
            ns
          ≡ ok (pairs, rng'))
        × (map (λ p. p.node) pairs ≡ ns)
        × All (λ p. KeyFor (read_key p.key) p.node) pairs
  unfolding generate_keys
  generate_keys-For params master issues rng [] shallow = ([], rng, refl, refl, tt)
  generate_keys-For params master issues rng (n ∷ ns) shallow =
      let (key, made, good) = issues rng n shallow.0 in
      let (pairs, rng', rest, nodes, all_good) =
        generate_keys-For params master issues (b.generate_key rng params master (path_bits n)).1 ns
          shallow.1 in
      (
        record { node = n; key = key } ∷ pairs,
        rng',
        rw (made, rest),
        ap (◌∷◌ n) nodes,
        (good, all_good),
      )

  insert_node-covers :
      (x n : NodeName) (v : Cache × c.PrivateKey) (m : List (NodeName × (Cache × c.PrivateKey)))
      → covers c g KeyFor IsCache keygen x (insert_node n v m)
        ≡ (contains n x || covers c g KeyFor IsCache keygen x m)
  unfolding insert_node
  insert_node-covers x n v [] = refl
  insert_node-covers x n v ((n', w) ∷ m) = elim (Bool-cases (node_eq n' n)) [
    | inl e ↦
        let same : contains n' x ≡ contains n x =
          ap (λ (t : NodeName). contains t x) (node_eq→≡ n' n e) in
        rw e (rw same (or_twice (contains n x) (covers c g KeyFor IsCache keygen x m)))
    | inr e ↦ rw e (
        ap (λ (t : Bool). contains n' x || t) (insert_node-covers x n v m)
        ∙ or_swap (contains n' x) (contains n x) (covers c g KeyFor IsCache keygen x m))
  ]

  pub receive_keys-covers :
      (x : NodeName) (pk : c.PublicKey) (cache : Cache)
      → make_cache pk ≡ ok cache
      → IsCache cache
      → (pairs : List (KeyPair b.PrivateKey)) (acc : List (NodeName × (Cache × c.PrivateKey)))
      → All (λ p. KeyFor (read_key p.key) p.node) pairs
      → AreKeys c g KeyFor IsCache keygen acc
      → (received : List (NodeName × (Cache × c.PrivateKey))) × (receive_keys c g h make_cache pk
            (map read_pair pairs)
            acc
          ≡ ok received)
        × AreKeys c g KeyFor IsCache keygen received
        × (covers c g KeyFor IsCache keygen x received
            ≡ (any_contains x (map (λ p. p.node) pairs) || covers c g KeyFor IsCache keygen x acc))
  unfolding receive_keys any_contains
  receive_keys-covers x pk cache made cached [] acc good kept = (acc, refl, kept, refl)
  receive_keys-covers x pk cache made cached (p ∷ pairs) acc good kept =
      let acc' = insert_node p.node (cache, read_key p.key) acc in
      let kept' =
        insert_node-entries
          (λ (e : NodeName × (Cache × c.PrivateKey)). IsCache e.1.0 × KeyFor e.1.1 e.0) p.node
          (cache, read_key p.key) acc (cached, good.0) kept in
      let (received, run, all_kept, all_covered) =
        receive_keys-covers x pk cache made cached pairs acc' good.1 kept' in
      (
        received,
        rw made run,
        all_kept,
        all_covered
            ∙ ap (λ (t : Bool). any_contains x (map (λ p. p.node) pairs) || t)
                (insert_node-covers x p.node (cache, read_key p.key) acc)
            ∙ or_swap (any_contains x (map (λ p. p.node) pairs)) (contains p.node x)
                (covers c g KeyFor IsCache keygen x acc)
            ∙ or_assoc (contains p.node x) (any_contains x (map (λ p. p.node) pairs))
                (covers c g KeyFor IsCache keygen x acc),
      )
