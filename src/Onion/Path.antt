-- ===== src/Onion/Path.antt =====
-- An onion of `wrap` of aimless-onions/src/format.rs on its way: every relay unwraps one layer.
use aimless_onions.Prelude.{
  ℕ, suc, ◌+◌, ◌-◌, ◌^◌, ◌<◌, ◌≡◌, refl, ap, ◌∙◌, arith, List, [], ◌∷◌, ◌++◌, length, length-append,
  All,
}
use mathlib.Core.List.{reverse_aux}
use aimless_onions.Outcome.{ok}
use aimless_onions.NodeName.{NodeName}
use aimless_onions.Wire.{Bytes, Onion, per_hop_size}
use aimless_onions.Crypto.{Crypto, IsSound, AreBytes}
use aimless_onions.Onion.{zeros, gen_nonces, wrap_layers}
use aimless_onions.Onion.Route.{Leads}
use aimless_onions.Onion.Ready.{IsReady, IsLayer}
use aimless_onions.Onion.Sealing.{wrap_with_nonce-IsLayer}
use aimless_onions.Onion.Filler.{trail, IsStage, length-trail}

pub All-reverse_aux {ℓ} :
    {A : Type ℓ} (P : A → Type 0) (xs ys : List A) → All P xs → All P ys → All P (reverse_aux xs ys)
All-reverse_aux P [] ys hx hy = hy
All-reverse_aux P (x ∷ xs) ys hx hy = All-reverse_aux P xs (x ∷ ys) hx.1 (hx.0, hy)

pub length-reverse_aux {ℓ} :
    {A : Type ℓ} (xs ys : List A) → length (reverse_aux xs ys) ≡ length xs + length ys
length-reverse_aux [] ys = omega arith
length-reverse_aux (x ∷ xs) ys = omega (arith, length-reverse_aux xs (x ∷ ys))

-- The stops of a path: identities with their delays, in order.
unfoldable pub stops : List ℕ → List ℕ → List (ℕ × ℕ)
stops [] ds = []
stops (i ∷ is) [] = []
stops (i ∷ is) (d ∷ ds) = (i, d) ∷ stops is ds

-- The same from lists in reverse, before others.
abbrev pub stops_onto : List ℕ → List ℕ → List (ℕ × ℕ) → List (ℕ × ℕ)
stops_onto [] ds rest = rest
stops_onto (i ∷ is) [] rest = rest
stops_onto (i ∷ is) (d ∷ ds) rest = stops_onto is ds ((i, d) ∷ rest)

pub stops_onto-reverse_aux :
    (is ds is' ds' : List ℕ) (rest : List (ℕ × ℕ))
    → length is ≡ length ds
    → stops_onto (reverse_aux is is') (reverse_aux ds ds') rest
      ≡ stops_onto is' ds' (stops is ds ++ rest)
unfolding stops
stops_onto-reverse_aux [] [] is' ds' rest e = refl
stops_onto-reverse_aux [] (d ∷ ds) is' ds' rest e = absurd (omega arith)
stops_onto-reverse_aux (i ∷ is) [] is' ds' rest e = absurd (omega arith)
stops_onto-reverse_aux (i ∷ is) (d ∷ ds) is' ds' rest e =
    stops_onto-reverse_aux is ds (i ∷ is') (d ∷ ds') rest (omega arith)

module _ (c : Crypto) (HasKey : c.PublicKey → NodeName → c.PrivateKey → Type 0)
    (sound : IsSound c HasKey) where
  open c use {Rng, PublicKey, PrivateKey}
  open sound use {cipher, nonce_length, nonce_bytes}

  abbrev pub IsNonce : Bytes → Type 0
  IsNonce n = (length n ≡ 16) × AreBytes n

  pub gen_nonces_lem :
      (rng : Rng) (is : List ℕ)
      → (length (gen_nonces c rng is).0 ≡ length is) × All IsNonce (gen_nonces c rng is).0
  unfolding gen_nonces
  gen_nonces_lem rng [] = (refl, tt)
  gen_nonces_lem rng (i ∷ is) =
      let (size, nonces) = gen_nonces_lem (c.gen_nonce rng).1 is in
      (ap suc size, ((nonce_length rng, nonce_bytes rng), nonces))

  -- One identity of the path with what belongs to it.
  module _ (pks : List PublicKey) (some_keys : 0 < length pks) (total : ℕ) where
    -- The loop of `wrap` from an onion with fillers for its nonces.
    pub record IsWrapped (ids delays : List ℕ) (o o' : Onion) : Type 0 where
      pub header_size : length o'.header ≡ total
      pub leads :
          (seen : List (ℕ × ℕ)) (last : Onion)
          → Leads c HasKey sound pks o seen last
          → Leads c HasKey sound pks o' (stops_onto ids delays seen) last

    stage-IsReady :
        (nonce : Bytes) (ns : List Bytes) (o : Onion)
        → (stage : IsStage c cipher (length pks) total (nonce ∷ ns) o)
        → IsReady c HasKey sound pks nonce stage.front (trail c cipher (length pks) total ns) o
    stage-IsReady nonce ns o stage = record {
      header_is =
          let below = trail c cipher (length pks) total ns in
          let place : total - length below ≡ per_hop_size (length pks) + length stage.front =
            omega (
              arith,
              stage.header_size,
              ap length stage.header_is,
              length-append stage.front (trail c cipher (length pks) total (nonce ∷ ns)),
              length-trail c cipher (length pks) total (nonce ∷ ns),
              length-trail c cipher (length pks) total ns,
            ) in
          stage.header_is
          ∙ ap
              (λ (p : ℕ).
                stage.front
                ++ c.apply_keystream nonce p (below ++ zeros (per_hop_size (length pks))))
              place;
      count = stage.count;
      sizes = stage.sizes;
      identity_fits = stage.identity_fits;
    }

    layer-IsStage :
        (i d : ℕ) (ns : List Bytes) (o o1 : Onion)
        → IsLayer c HasKey sound pks i d (trail c cipher (length pks) total ns) o o1
        → length o.header ≡ total
        → i < 2 ^ 64
        → IsStage c cipher (length pks) total ns o1
    layer-IsStage i d ns o o1 layer size fits = record {
      front = layer.front;
      header_is = layer.header_is;
      header_size = layer.same_length ∙ size;
      count = layer.count;
      sizes = layer.sizes;
      identity_fits = rw layer.identity_is fits;
    }

    pub wrap_layers-IsWrapped :
        (rng : Rng) (ids delays : List ℕ) (ns : List Bytes) (o : Onion)
        → length ids ≡ length delays
        → length ids ≡ length ns
        → All (λ i. i < 2 ^ 64) ids
        → All (λ d. d < 2 ^ 32) delays
        → All IsNonce ns
        → IsStage c cipher (length pks) total ns o
        → (o' : Onion) × (rng' : Rng) × (wrap_layers c rng pks ids delays ns o ≡ ok (o', rng'))
          × IsWrapped ids delays o o'
    unfolding wrap_layers
    wrap_layers-IsWrapped rng [] ds ns o ed en fi fd nonces stage =
        (o, rng, refl, record { header_size = stage.header_size; leads = λ seen last route. route })
    wrap_layers-IsWrapped rng (i ∷ ids) [] ns o ed en fi fd nonces stage =
        absurd (omega (arith, ed))
    wrap_layers-IsWrapped rng (i ∷ ids) (d ∷ ds) [] o ed en fi fd nonces stage =
        absurd (omega (arith, en))
    wrap_layers-IsWrapped rng (i ∷ ids) (d ∷ ds) (n ∷ ns) o ed en fi fd nonces stage =
        let (o1, rng1, made, layer) =
          wrap_with_nonce-IsLayer c HasKey sound rng n i pks d o stage.front
            (trail c cipher (length pks) total ns) (stage-IsReady n ns o stage) nonces.0.0
            nonces.0.1 fd.0 some_keys in
        let stage1 = layer-IsStage i d ns o o1 layer stage.header_size fi.0 in
        let (o', rng', rest, wrapped) =
          wrap_layers-IsWrapped rng1 ids ds ns o1 (omega arith) (omega arith) fi.1 fd.1 nonces.1
            stage1 in
        (
          o',
          rng',
          rw (made, rest),
          record {
            header_size = wrapped.header_size;
            leads = λ seen last route.
                wrapped.leads ((i, d) ∷ seen) last
                  (Leads.through i d layer.identity_is layer.unwraps route);
          },
        )
