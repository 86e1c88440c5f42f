-- ===== src/Onion/Delivery.antt =====
-- What `wrap` of aimless-onions/src/format.rs promises: the onion reaches the end of its path.
use aimless_onions.Prelude.{
  ℕ, zero, suc, ◌+◌, ◌*◌, ◌^◌, ◌<◌, ◌≡◌, refl, ap, sym, subst, ◌∙◌, arith, true, List, [], ◌∷◌,
  length, length-replicate, All, replicate, ==_iff,
}
use mathlib.Core.List.{append-nil, reverse}
use aimless_onions.Outcome.{ok}
use aimless_onions.NodeName.{NodeName}
use aimless_onions.Wire.{
  Bytes, Onion, share_size, per_hop_size, empty_share, is_final_destination, all_empty,
  is_empty_share,
}
use aimless_onions.Crypto.{Crypto, IsSound}
use aimless_onions.Onion.{zeros, fresh, compute_filler, compute_fillers, gen_nonces, wrap}
use aimless_onions.Wire.{bytes_eq_refl}
use aimless_onions.Onion.Filler.{room_lem, IsStage, compute_fillers-IsStage}
use aimless_onions.Onion.Path.{
  All-reverse_aux, length-reverse_aux, stops, stops_onto-reverse_aux, IsNonce, gen_nonces_lem,
  wrap_layers-IsWrapped,
}
use aimless_onions.Onion.Route.{travel, AreKeysOf, Leads, Leads-travel}

length-stops : (is ds : List ℕ) → length is ≡ length ds → length (stops is ds) ≡ length is
unfolding stops
length-stops [] ds e = refl
length-stops (i ∷ is) [] e = absurd (omega arith)
length-stops (i ∷ is) (d ∷ ds) e = ap suc (length-stops is ds (omega arith))

pub stops-All :
    (P : ℕ → Type 0) (is ds : List ℕ) → All P is → All (λ (s : ℕ × ℕ). P s.0) (stops is ds)
unfolding stops
stops-All P [] ds all = tt
stops-All P (i ∷ is) [] all = tt
stops-All P (i ∷ is) (d ∷ ds) all = (all.0, stops-All P is ds all.1)

module _ (c : Crypto) (HasKey : c.PublicKey → NodeName → c.PrivateKey → Type 0)
    (sound : IsSound c HasKey) where
  open c use {Rng, PublicKey, PrivateKey}
  open sound use {cipher}

  length-replicate_zeros : (n : ℕ) → length (zeros n) ≡ n
  length-replicate_zeros n = length-replicate {A = ℕ} n 0

  all_empty-replicate : (n : ℕ) → all_empty (replicate n empty_share) ≡ true
  unfolding all_empty is_empty_share
  all_empty-replicate zero = refl
  all_empty-replicate (suc n) = rw (bytes_eq_refl (replicate share_size 0), all_empty-replicate n)

  sizes-replicate : (n : ℕ) → All (λ s. length s.bytes ≡ share_size) (replicate n empty_share)
  sizes-replicate zero = tt
  sizes-replicate (suc n) = (refl, sizes-replicate n)

  -- What `compute_filler` leaves alone.
  record IsSameMessage (o o' : Onion) : Type 0 where
    payload_is : o'.payload ≡ o.payload
    identity_is : o'.identity ≡ o.identity
    shares_are : o'.shares ≡ o.shares

  compute_fillers-IsSameMessage :
      (ns : List Bytes) (o : Onion) → IsSameMessage o (compute_fillers c ns o)
  unfolding compute_fillers compute_filler
  compute_fillers-IsSameMessage [] o = record {
    payload_is = refl;
    identity_is = refl;
    shares_are = refl;
  }
  compute_fillers-IsSameMessage (n ∷ ns) o =
      let rest = compute_fillers-IsSameMessage ns (compute_filler c n o) in
      record {
        payload_is = rest.payload_is;
        identity_is = rest.identity_is;
        shares_are = rest.shares_are;
      }

  -- What the relays of a path make of an onion.
  pub record IsDelivered (pks : List PublicKey) (keys : ℕ → List PrivateKey) (ids delays : List ℕ)
      (content : Bytes) (o : Onion) : Type 0 where
    pub header_size : length o.header ≡ length ids * per_hop_size (length pks)
    pub last : Onion
    pub travels : travel c pks keys (length ids) o ≡ ok (stops ids delays, last)
    pub final : is_final_destination last ≡ true
    pub arrives : last.payload ≡ content

  fresh-IsStage :
      (k hops : ℕ) (content : Bytes)
      → IsStage c cipher k (hops * per_hop_size k) [] (fresh k hops content)
  unfolding fresh
  fresh-IsStage k hops content = record {
    front = zeros (hops * per_hop_size k);
    header_is = sym (append-nil (zeros (hops * per_hop_size k)));
    header_size = length-replicate {A = ℕ} (hops * per_hop_size k) 0;
    count = length-replicate k empty_share;
    sizes = sizes-replicate k;
    identity_fits = omega arith;
  }

  final_if_fresh :
      (k hops : ℕ) (content : Bytes) (o : Onion)
      → IsSameMessage (fresh k hops content) o
      → is_final_destination o ≡ true
  unfolding fresh is_final_destination
  final_if_fresh k hops content o same =
      rw (same.identity_is, same.shares_are) (all_empty-replicate k)

  -- Where an onion leads, whatever keys the relays of the path have.
  pub record IsRouted (pks : List PublicKey) (ids delays : List ℕ) (content : Bytes) (o : Onion)
      : Type 0 where
    pub header_size : length o.header ≡ length ids * per_hop_size (length pks)
    pub last : Onion
    pub leads : Leads c HasKey sound pks o (stops ids delays) last
    pub final : is_final_destination last ≡ true
    pub arrives : last.payload ≡ content

  pub wrap-IsRouted :
      (rng : Rng) (ids delays : List ℕ) (pks : List PublicKey) (content : Bytes)
      → 0 < length pks
      → length ids ≡ length delays
      → All (λ i. i < 2 ^ 64) ids
      → All (λ d. d < 2 ^ 32) delays
      → (o : Onion) × (rng' : Rng) × (wrap c rng ids delays pks content ≡ ok (o, rng'))
        × IsRouted pks ids delays content o
  unfolding wrap fresh
  wrap-IsRouted rng ids delays pks content some_keys ed fi fd =
      let total = length ids * per_hop_size (length pks) in
      let (nonces, rng1) = gen_nonces c rng ids in
      let (en, good) = gen_nonces_lem c HasKey sound rng ids in
      let start = fresh (length pks) (length ids) content in
      let same = compute_fillers-IsSameMessage nonces start in
      let filled =
        room_lem c cipher (length pks) total nonces
        ∙ ap (λ (n : ℕ). n * per_hop_size (length pks)) en in
      let stage =
        compute_fillers-IsStage c cipher (length pks) total nonces [] start
          (fresh-IsStage (length pks) (length ids) content) (omega (arith, filled)) in
      let ids_count : length (reverse ids) ≡ length ids =
        omega (arith, length-reverse_aux ids []) in
      let delays_count : length (reverse delays) ≡ length delays =
        omega (arith, length-reverse_aux delays []) in
      let nonces_count : length (reverse nonces) ≡ length nonces =
        omega (arith, length-reverse_aux nonces []) in
      let no_more : length (reverse ids) + 0 ≡ length ids = omega (arith, ids_count) in
      let last = compute_fillers c nonces start in
      let (o, rng', made, wrapped) =
        wrap_layers-IsWrapped c HasKey sound pks some_keys total rng1 (reverse ids) (reverse delays)
          (reverse nonces) last (ids_count ∙ ed ∙ sym delays_count)
          (ids_count ∙ sym en ∙ sym nonces_count) (All-reverse_aux (λ i. i < 2 ^ 64) ids [] fi tt)
          (All-reverse_aux (λ d. d < 2 ^ 32) delays [] fd tt)
          (All-reverse_aux (IsNonce c HasKey sound) nonces [] good tt) stage in
      (
        o,
        rng',
        rw ((==_iff (length ids) (length delays)).1 ed) made,
        record {
          header_size = wrapped.header_size;
          last = last;
          leads =
              subst (λ (seen : List (ℕ × ℕ)). Leads c HasKey sound pks o seen last)
                (stops_onto-reverse_aux ids delays [] [] [] ed ∙ append-nil (stops ids delays))
                (wrapped.leads [] last Leads.arrived);
          final = final_if_fresh (length pks) (length ids) content last same;
          arrives = same.payload_is;
        },
      )

  pub IsRouted-IsDelivered :
      (ids delays : List ℕ) (pks : List PublicKey) (keys : ℕ → List PrivateKey) (content : Bytes)
      (o : Onion)
      → length ids ≡ length delays
      → All (AreKeysOf c HasKey sound pks keys) ids
      → IsRouted pks ids delays content o
      → IsDelivered pks keys ids delays content o
  IsRouted-IsDelivered ids delays pks keys content o ed has routed =
      let visited = stops-All (AreKeysOf c HasKey sound pks keys) ids delays has in
      record {
        header_size = routed.header_size;
        last = routed.last;
        travels =
            subst (λ (n : ℕ). travel c pks keys n o ≡ ok (stops ids delays, routed.last))
              (length-stops ids delays ed)
              (Leads-travel c HasKey sound pks keys visited routed.leads);
        final = routed.final;
        arrives = routed.arrives;
      }

  -- With cryptography as IsSound describes it, for delays and identities of the sizes of their
  -- types, as many of the ones as of the others, and at least one authority, `wrap` returns an
  -- onion whose header has the size of all its hops' parts. When relays with the keys of the
  -- identities unwrap it one after the other, they see the identities and delays of the path in
  -- order, and what is left is at its final destination and has the content as its payload.
  pub wrap-IsDelivered :
      (rng : Rng) (ids delays : List ℕ) (pks : List PublicKey) (keys : ℕ → List PrivateKey)
      (content : Bytes)
      → 0 < length pks
      → length ids ≡ length delays
      → All (λ i. i < 2 ^ 64) ids
      → All (λ d. d < 2 ^ 32) delays
      → All (AreKeysOf c HasKey sound pks keys) ids
      → (o : Onion) × (rng' : Rng) × (wrap c rng ids delays pks content ≡ ok (o, rng'))
        × IsDelivered pks keys ids delays content o
  wrap-IsDelivered rng ids delays pks keys content some_keys ed fi fd has =
      let (o, rng', made, routed) = wrap-IsRouted rng ids delays pks content some_keys ed fi fd in
      (o, rng', made, IsRouted-IsDelivered ids delays pks keys content o ed has routed)
