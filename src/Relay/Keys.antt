-- ===== src/Relay/Keys.antt =====
-- The keys that a relay of aimless-onions/src/bin/relay.rs derives for an identity.
use aimless_onions.Prelude.{
  ℕ, zero, suc, ◌-◌, ◌/◌, ◌^◌, ◌≤◌, ◌<◌, ◌≡◌, refl, ap, sym, subst, ◌∙◌, arith, Bool, true, false,
  Bool-cases, ◌||◌, inl, inr, Option, none, some, List, [], ◌∷◌, ◌++◌, length, All, leb, le→leb,
  dec_le,
}
use native.Mathlib.Nat.{div-div-eq-div-mul, div-one, pow-suc}
use mathlib.Core.List.{append_assoc, append-nil}
use aimless_onions.Outcome.{ok}
use aimless_onions.NodeName.{NodeName, contains, number, path_bits}
use aimless_onions.NodeName.Canonical.{IsCanonical, number-IsCanonical}
use aimless_onions.NodeName.Digits.{length-path_bits}
use aimless_onions.NodeName.Walk.{way, walk_lem, contains_iff}
use aimless_onions.Crypto.{Crypto}
use aimless_onions.Relay.{
  Keygen, LiveAuthority, split_last, derive_step, derive_down, find_key, get_private_key,
}

split_last-some : (ds : List ℕ) → 0 < length ds → (r : ℕ × List ℕ) × (split_last ds ≡ some r)
unfolding split_last
split_last-some [] h = absurd (omega (arith, h))
split_last-some (d ∷ []) h = ((d, []), refl)
split_last-some (d ∷ e ∷ ds) h =
    let (r, found) = split_last-some (e ∷ ds) (omega arith) in ((r.0, d ∷ r.1), rw found)

module _ (c : Crypto) (g : Keygen c.PrivateKey c.Rng) (KeyFor : c.PrivateKey → NodeName → Type 0)
    (IsCache : g.Cache → Type 0) where
  open c use {Rng, PrivateKey}
  open g use {Cache, derive_key}

  -- What derive_key promises: with a good cache it makes from the key of a name the key of a child.
  pub record IsKeygen : Type 0 where
    pub derives :
        (rng : Rng) (cache : Cache) (key : PrivateKey) (parent child : NodeName)
        (digits : ℕ × List ℕ)
        → child.len ≡ suc parent.len
        → child.len ≤ 32
        → child.path / 2 ≡ parent.path
        → split_last (path_bits child) ≡ some digits
        → IsCache cache
        → KeyFor key parent
        → (key' : PrivateKey) × ((derive_key rng cache key digits.1 digits.0).0 ≡ some key')
          × KeyFor key' child

  module _ (keygen : IsKeygen) where
    derive_step-KeyFor :
        (rng : Rng) (cache : Cache) (key : PrivateKey) (parent child : NodeName)
        → child.len ≡ suc parent.len
        → child.len ≤ 32
        → child.path / 2 ≡ parent.path
        → IsCache cache
        → KeyFor key parent
        → (key' : PrivateKey) × (rng' : Rng) × (derive_step c g rng cache key child
            ≡ ok (key', rng'))
          × KeyFor key' child
    unfolding derive_step
    derive_step-KeyFor rng cache key parent child deeper within above cached has =
        let (digits, parts) =
          split_last-some (path_bits child) (omega (arith, deeper, length-path_bits child)) in
        let (key', made, has') =
          keygen.derives rng cache key parent child digits deeper within above parts cached has in
        (key', (derive_key rng cache key digits.1 digits.0).1, rw (parts, made), has')

    -- Names that are no deeper than the key's are passed over.
    derive_down_skips :
        (rng : Rng) (cache : Cache) (name : NodeName) (key : PrivateKey) (k path : ℕ)
        (rest : List NodeName)
        → k ≤ name.len
        → derive_down c g rng cache name key (way k path ++ rest)
          ≡ derive_down c g rng cache name key rest
    unfolding derive_down way
    derive_down_skips rng cache name key zero path rest short = refl
    derive_down_skips rng cache name key (suc k) path rest short =
        let here : NodeName = record { len = suc k; path = path } in
        ap (derive_down c g rng cache name key) (append_assoc (way k (path / 2)) (here ∷ []) rest)
        ∙ derive_down_skips rng cache name key k (path / 2) (here ∷ rest) (omega (arith, short))
        ∙ rw (le→leb (suc k) name.len short)

    -- The name with `k` digits on the way to a node, from the name of the key.
    same_name :
        (name : NodeName) (key : PrivateKey) (k path : ℕ)
        → name.len ≡ k
        → name.path ≡ path / 2 ^ (k - name.len)
        → KeyFor key name
        → KeyFor key (record { len = k; path = path })
    same_name name key k path depth above has =
        let none_left : k - name.len ≡ 0 = omega (arith, depth) in
        let whole : path / 2 ^ (k - name.len) ≡ path =
          ap (λ (e : ℕ). path / 2 ^ e) none_left ∙ div-one path in
        let here : name.path ≡ path = above ∙ whole in
        subst (KeyFor key) (λ i. record { len = depth i; path = here i }) has

    derive_down-KeyFor :
        (rng : Rng) (cache : Cache) (name : NodeName) (key : PrivateKey) (k path : ℕ)
        (rest : List NodeName)
        → name.len ≤ k
        → k ≤ 32
        → name.path ≡ path / 2 ^ (k - name.len)
        → IsCache cache
        → KeyFor key name
        → (key' : PrivateKey) × (rng' : Rng) × (derive_down c g rng cache name key
              (way k path ++ rest)
            ≡ derive_down c g rng' cache name key' rest)
          × KeyFor key' (record { len = k; path = path })
    unfolding derive_down way
    derive_down-KeyFor rng cache name key zero path rest over within above cached has =
        (key, rng, refl, same_name name key 0 path (omega (arith, over)) above has)
    derive_down-KeyFor rng cache name key (suc k) path rest over within above cached has =
        elim (dec_le (suc k) name.len) [
          | yes at ↦ (
            key,
            rng,
            derive_down_skips rng cache name key (suc k) path rest at,
            same_name name key (suc k) path (omega (arith, over, at)) above has,
          )
          | no deeper ↦
              let here : NodeName = record { len = suc k; path = path } in
              let one_less : suc k - name.len ≡ suc (k - name.len) = omega (arith, deeper) in
              let above' : name.path ≡ path / 2 / 2 ^ (k - name.len) =
                above
                ∙ ap (λ (e : ℕ). path / e)
                    (ap (λ (t : ℕ). 2 ^ t) one_less ∙ pow-suc 2 (k - name.len) ∙ omega arith)
                ∙ sym (div-div-eq-div-mul path 2 (2 ^ (k - name.len))) in
              let (key1, rng1, steps, has1) =
                derive_down-KeyFor rng cache name key k (path / 2) (here ∷ rest)
                  (omega (arith, deeper)) (omega (arith, within)) above' cached has in
              let (key2, rng2, step, has2) =
                derive_step-KeyFor rng1 cache key1 (record { len = k; path = path / 2 }) here refl
                  within refl cached has1 in
              let below : leb (suc k) name.len ≡ false = ground (arith, deeper) in
              (
                key2,
                rng2,
                ap (derive_down c g rng cache name key)
                      (append_assoc (way k (path / 2)) (here ∷ []) rest)
                    ∙ steps
                    ∙ rw (below, step),
                has2,
              )
        ]

    -- Whether a received key is for a name that contains the node.
    abbrev pub covers : NodeName → List (NodeName × (Cache × PrivateKey)) → Bool
    covers node [] = false
    covers node ((name, k) ∷ rest) = contains name node || covers node rest

    -- No key for a node that no received name contains, and a key for it otherwise.
    abbrev pub IsAnswer :
        NodeName → List (NodeName × (Cache × PrivateKey)) → Option PrivateKey → Type 0
    IsAnswer node received none = covers node received ≡ false
    IsAnswer node received (some key) = (covers node received ≡ true) × KeyFor key node

    abbrev pub AreKeys : List (NodeName × (Cache × PrivateKey)) → Type 0
    AreKeys = All (λ (e : NodeName × (Cache × PrivateKey)). IsCache e.1.0 × KeyFor e.1.1 e.0)

    IsAnswer-later :
        (node name : NodeName) (k : Cache × PrivateKey)
        (rest : List (NodeName × (Cache × PrivateKey))) (answer : Option PrivateKey)
        → contains name node ≡ false
        → IsAnswer node rest answer
        → IsAnswer node ((name, k) ∷ rest) answer
    IsAnswer-later node name k rest none out h = rw (out, h)
    IsAnswer-later node name k rest (some key) out h = (rw (out, h.0), h.1)

    pub find_key-IsAnswer :
        (rng : Rng) (node : NodeName) (received : List (NodeName × (Cache × PrivateKey)))
        → IsCanonical node
        → AreKeys received
        → (answer : Option PrivateKey) × (rng' : Rng) × (find_key c g rng node received
            ≡ ok (answer, rng'))
          × IsAnswer node received answer
    unfolding find_key derive_down
    find_key-IsAnswer rng node [] canonical good = (none, rng, refl, refl)
    find_key-IsAnswer rng node ((name, (cache, key)) ∷ rest) canonical good =
        elim (Bool-cases (contains name node)) [
          | inl e ↦
              let (over, above) = (contains_iff name node canonical.within).0 e in
              let (key', rng', steps, has) =
                derive_down-KeyFor rng cache name key node.len node.path [] over canonical.within
                  (sym above) good.0.0 good.0.1 in
              let down : derive_down c g rng cache name key (way node.len node.path)
                  ≡ ok (key', rng') =
                ap (derive_down c g rng cache name key) (sym (append-nil (way node.len node.path)))
                ∙ steps in
              (some key', rng', rw (e, walk_lem node canonical.within, down), (rw e, has))
          | inr e ↦
              let (answer, rng', found, h) = find_key-IsAnswer rng node rest canonical good.1 in
              (answer, rng', rw e found, IsAnswer-later node name (cache, key) rest answer e h)
        ]

    -- When the key derivation makes with a good cache from the key of a name the keys of its children,
    -- and the received keys belong to their names and have good caches, get_private_key does not panic for any identity: it returns a key
    -- for the identity's leaf if a received name contains it, and none if no name does.
    pub get_private_key-IsAnswer :
        (rng : Rng) (a : LiveAuthority c g) (identity : ℕ)
        → AreKeys a.received_keys
        → (answer : Option PrivateKey) × (rng' : Rng) × (get_private_key c g rng a identity
            ≡ ok (answer, rng'))
          × IsAnswer (number identity) a.received_keys answer
    unfolding get_private_key
    get_private_key-IsAnswer rng a identity good =
        find_key-IsAnswer rng (number identity) a.received_keys (number-IsCanonical identity) good
