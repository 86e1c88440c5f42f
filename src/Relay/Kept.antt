-- ===== src/Relay/Kept.antt =====
-- Which keys a relay of aimless-onions/src/bin/relay.rs has after it was given some.
use aimless_onions.Prelude.{
  ◌≡◌, refl, ap, sym, ◌∙◌, subst, Bool, true, false, Bool-cases, inl, inr, Option, none, some, List,
  [], ◌∷◌, ◌==◌, ==_iff, if◌then◌else◌,
}
use aimless_onions.Outcome.{Outcome, ok, err, panic}
use aimless_onions.ApiTypes.{KeyPair}
use aimless_onions.NodeName.{NodeName}
use aimless_onions.Wire.{&&-both}
use aimless_onions.Crypto.{Crypto}
use aimless_onions.Net.{Http}
use aimless_onions.Relay.{Keygen}
use aimless_onions.Relay.Network.{node_eq, insert_node, receive_keys}

pub node_eq→≡ : (a b : NodeName) → node_eq a b ≡ true → a ≡ b
unfolding node_eq
node_eq→≡ a b e =
    let (depth, path) = &&-both (a.len == b.len) (a.path == b.path) e in
    λ i. record { len = (==_iff a.len b.len).0 depth i; path = (==_iff a.path b.path).0 path i }

-- What a map of names holds under a name.
abbrev pub held_at : {A : Type 0} → NodeName → List (NodeName × A) → Option A
held_at n [] = none
held_at n ((n', v) ∷ m) = if node_eq n' n then some v else held_at n m

if_twice :
    {A : Type 0} (b : Bool) (x y z : A)
    → (if b then x else z) ≡ (if b then x else (if b then y else z))
if_twice true x y z = refl
if_twice false x y z = refl

-- What is inserted under a name is held under it, and the others stay.
held_at-insert_node :
    {A : Type 0} (n n0 : NodeName) (v : A) (m : List (NodeName × A))
    → held_at n (insert_node n0 v m) ≡ (if node_eq n0 n then some v else held_at n m)
unfolding insert_node
held_at-insert_node n n0 v [] = refl
held_at-insert_node n n0 v ((n', w) ∷ m) = elim (Bool-cases (node_eq n' n0)) [
  | inl e ↦
      let same : node_eq n' n ≡ node_eq n0 n =
        ap (λ (t : NodeName). node_eq t n) (node_eq→≡ n' n0 e) in
      rw (e, same) (if_twice (node_eq n0 n) (some v) (some w) (held_at n m))
  | inr e ↦ elim (Bool-cases (node_eq n' n)) [
    | inl here ↦ elim (Bool-cases (node_eq n0 n)) [
      | inl there ↦
          let same =
            subst (λ (t : NodeName). node_eq n' t ≡ true) (sym (node_eq→≡ n0 n there)) here in
          cc (sym e ∙ same)
      | inr apart ↦ rw (e, here, apart) refl
    ]
    | inr other ↦ rw (e, other) (held_at-insert_node n n0 v m)
  ]
]

-- The key that comes last for a name, after some that was held.
abbrev pub last_key : {A : Type 0} → NodeName → Option A → List (KeyPair A) → Option A
last_key n held [] = held
last_key n held (p ∷ ps) = last_key n (if node_eq p.node n then some p.key else held) ps

module _ (c : Crypto) (g : Keygen c.PrivateKey c.Rng) (h : Http c.PublicKey c.PrivateKey)
    (make_cache : c.PublicKey → Outcome g.Cache) where
  open c use {PublicKey, PrivateKey}
  open g use {Cache}

  abbrev pub key_of : Option (Cache × PrivateKey) → Option PrivateKey
  key_of none = none
  key_of (some v) = some v.1

  key_of-if :
      (b : Bool) (v : Cache × PrivateKey) (held : Option (Cache × PrivateKey))
      → key_of (if b then some v else held) ≡ (if b then some v.1 else key_of held)
  key_of-if true v held = refl
  key_of-if false v held = refl

  -- Under every name the relay holds the key that it was given last for it.
  pub receive_keys-last_key :
      (pk : PublicKey) (pairs : List (KeyPair PrivateKey))
      (acc received : List (NodeName × (Cache × PrivateKey)))
      → receive_keys c g h make_cache pk pairs acc ≡ ok received
      → (n : NodeName) → key_of (held_at n received) ≡ last_key n (key_of (held_at n acc)) pairs
  unfolding receive_keys
  receive_keys-last_key pk [] acc received e n =
      let same : acc ≡ received = cc in
      ap (λ (m : List (NodeName × (Cache × PrivateKey))). key_of (held_at n m)) (sym same)
  receive_keys-last_key pk (p ∷ pairs) acc received e n =
      at
        (λ cached e'.
          receive_keys-last_key pk pairs (insert_node p.node (cached, p.key) acc) received e' n
          ∙ ap (λ (held : Option PrivateKey). last_key n held pairs)
              (ap key_of (held_at-insert_node n p.node (cached, p.key) acc)
                ∙ key_of-if (node_eq p.node n) (cached, p.key) (held_at n acc)))
        (make_cache pk) e
    where
      at :
          ((cached : Cache)
            → receive_keys c g h make_cache pk pairs (insert_node p.node (cached, p.key) acc)
              ≡ ok received
            → key_of (held_at n received) ≡ last_key n (key_of (held_at n acc)) (p ∷ pairs))
          → (r : Outcome Cache)
          → (elim r [
            | ok cached ↦
                receive_keys c g h make_cache pk pairs (insert_node p.node (cached, p.key) acc)
            | err x ↦ panic
            | panic ↦ panic
          ])
            ≡ ok received
          → key_of (held_at n received) ≡ last_key n (key_of (held_at n acc)) (p ∷ pairs)
      at go_on (ok cached) e' = go_on cached e'
      at go_on (err x) e' = cc
      at go_on panic e' = cc
