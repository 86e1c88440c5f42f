-- ===== src/Onion/Filler.antt =====
-- The headers that `compute_filler` of aimless-onions/src/format.rs leaves for the layers to come.
use aimless_onions.Prelude.{
  ℕ, ◌+◌, ◌-◌, ◌*◌, ◌^◌, ◌≤◌, ◌<◌, ◌≡◌, refl, ap, sym, ◌∙◌, arith, List, [], ◌∷◌, ◌++◌, length,
  length-append, length-replicate, All,
}
use aimless_onions.Prelude.Splice.{drop-append_exact, split-at}
use mathlib.Core.List.{append_assoc, reverse_aux}
use mathlib.Core.Path.{ap₂}
use aimless_onions.Wire.{Bytes, Onion, share_size, per_hop_size}
use aimless_onions.Crypto.{Crypto, IsStreamCipher}
use aimless_onions.Onion.{zeros, compute_filler, compute_fillers}

module _ (c : Crypto) (cipher : IsStreamCipher c) (keys total : ℕ) where
  open c use {apply_keystream}

  -- The end of the header after the fillers of some nonces, of which the latest stands first.
  abbrev pub trail : List Bytes → Bytes
  trail [] = []
  trail (n ∷ ns) =
      apply_keystream n (total - length (trail ns)) (trail ns ++ zeros (per_hop_size keys))

  -- The bytes of a hop's part for each nonce.
  abbrev pub room : List Bytes → ℕ
  room [] = 0
  room (n ∷ ns) = per_hop_size keys + room ns

  pub length-trail : (ns : List Bytes) → length (trail ns) ≡ room ns
  length-trail [] = refl
  length-trail (n ∷ ns) = omega (
    arith,
    length-trail ns,
    cipher.keeps_length n (total - length (trail ns)) (trail ns ++ zeros (per_hop_size keys)),
    length-append (trail ns) (zeros (per_hop_size keys)),
    length-replicate {A = ℕ} (per_hop_size keys) 0,
  )

  -- An onion between two steps of `wrap`, with layers for the nonces still to be added.
  pub record IsStage (ns : List Bytes) (o : Onion) : Type 0 where
    pub front : Bytes
    pub header_is : o.header ≡ front ++ trail ns
    pub header_size : length o.header ≡ total
    pub count : length o.shares ≡ keys
    pub sizes : All (λ s. length s.bytes ≡ share_size) o.shares
    pub identity_fits : o.identity < 2 ^ 64

  -- A filler makes room for a layer, as long as there is place before the trail.
  compute_filler-IsStage :
      (nonce : Bytes) (ns : List Bytes) (o : Onion)
      → IsStage ns o
      → room (nonce ∷ ns) ≤ total
      → IsStage (nonce ∷ ns) (compute_filler c nonce o)
  unfolding compute_filler
  compute_filler-IsStage nonce ns o stage room_left =
      let phs = per_hop_size keys in
      let place : total - length (trail ns) ≡ 0 + length stage.front = omega (
        arith,
        stage.header_size,
        ap length stage.header_is,
        length-append stage.front (trail ns),
      ) in
      let fits : phs ≤ length (apply_keystream nonce 0 stage.front) =
        omega (arith, place, room_left, length-trail ns, cipher.keeps_length nonce 0 stage.front) in
      let (gone, front, parts, size) = split-at phs (apply_keystream nonce 0 stage.front) fits in
      let enciphered : apply_keystream nonce 0 (o.header ++ zeros phs)
          ≡ gone ++ (front ++ trail (nonce ∷ ns)) =
        ap (λ (h : Bytes). apply_keystream nonce 0 (h ++ zeros phs)) stage.header_is
        ∙ ap (apply_keystream nonce 0) (append_assoc stage.front (trail ns) (zeros phs))
        ∙ cipher.in_order nonce 0 stage.front (trail ns ++ zeros phs)
        ∙ ap₂ (λ (x : Bytes) (p : ℕ). x ++ apply_keystream nonce p (trail ns ++ zeros phs)) parts
            (sym place)
        ∙ append_assoc gone front (trail (nonce ∷ ns)) in
      record {
        front = front;
        header_is =
            rw (stage.count, enciphered)
              (drop-append_exact phs gone (front ++ trail (nonce ∷ ns)) size);
        header_size =
            rw (stage.count, enciphered)
              (rw (drop-append_exact phs gone (front ++ trail (nonce ∷ ns)) size) (
                omega (
                  arith,
                  room_left,
                  length-append front (trail (nonce ∷ ns)),
                  length-trail (nonce ∷ ns),
                  length-trail ns,
                  ap length parts,
                  length-append gone front,
                  cipher.keeps_length nonce 0 stage.front,
                )));
        count = stage.count;
        sizes = stage.sizes;
        identity_fits = stage.identity_fits;
      }

  pub room_lem : (ns : List Bytes) → room ns ≡ length ns * per_hop_size keys
  room_lem [] = omega arith
  room_lem (n ∷ ns) = omega (arith, room_lem ns)

  pub compute_fillers-IsStage :
      (ms ns : List Bytes) (o : Onion)
      → IsStage ns o
      → room ms + room ns ≤ total
      → IsStage (reverse_aux ms ns) (compute_fillers c ms o)
  unfolding compute_fillers
  compute_fillers-IsStage [] ns o stage room = stage
  compute_fillers-IsStage (m ∷ ms) ns o stage room =
      compute_fillers-IsStage ms (m ∷ ns) (compute_filler c m o)
        (compute_filler-IsStage m ns o stage (omega arith)) (omega arith)
