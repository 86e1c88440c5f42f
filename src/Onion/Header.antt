-- ===== src/Onion/Header.antt =====
-- The bytes of a header under the stream cipher, for `wrap_with_nonce` and `unwrap` of
-- aimless-onions/src/format.rs. A hop's part `delay ++ (blank ++ rest)` stands before the inner
-- header, which is `front ++ hidden`; `hidden` is what the filler has put there for the zeros that
-- unwrapping appends.
use aimless_onions.Prelude.{
  ℕ, ◌+◌, ◌≡◌, ap, sym, ◌∙◌, arith, ◌++◌, length, take, drop, length-append,
}
use aimless_onions.Prelude.Splice.{take-append_exact, drop-append_exact}
use mathlib.Core.List.{append_assoc}
use mathlib.Core.Path.{ap₂}
use aimless_onions.Wire.{Bytes}
use aimless_onions.Crypto.{Crypto, IsStreamCipher}
use aimless_onions.Onion.{zeros, get_tag, set_tag}

abbrev pub marked : Bytes → Bytes → Bytes → Bytes
marked delay t rest = delay ++ (t ++ rest)

-- Slices of a header whose first 36 bytes are known in parts.
module _ (delay rest : Bytes) (l4 : length delay ≡ 4) where
  pub take-marked : (t : Bytes) → take 4 (marked delay t rest) ≡ delay
  take-marked t = take-append_exact 4 delay (t ++ rest) l4

  pub drop-marked : (t : Bytes) → length t ≡ 32 → drop 36 (marked delay t rest) ≡ rest
  drop-marked t h =
      rw (← append_assoc delay t rest)
        (drop-append_exact 36 (delay ++ t) rest (omega (arith, length-append delay t)))

  pub set_tag-marked :
      (blank tag : Bytes)
      → length blank ≡ 32
      → set_tag (marked delay blank rest) tag ≡ marked delay tag rest
  unfolding set_tag
  set_tag-marked blank tag h =
      rw (take-marked blank) (ap (λ (t : Bytes). delay ++ (tag ++ t)) (drop-marked blank h))

  pub get_tag-marked : (tag : Bytes) → length tag ≡ 32 → get_tag (marked delay tag rest) ≡ tag
  unfolding get_tag
  get_tag-marked tag h =
      rw (drop-append_exact 4 delay (tag ++ rest) l4) (take-append_exact 32 tag rest h)

module _ (c : Crypto) (cipher : IsStreamCipher c) (key : Bytes) where
  abbrev pub enc : ℕ → Bytes → Bytes
  enc = c.apply_keystream key

  -- A cipher at position 0 over a header in three parts.
  enc-marked :
      (d t r : Bytes)
      → length d ≡ 4
      → length t ≡ 32
      → enc 0 (marked d t r) ≡ marked (enc 0 d) (enc 4 t) (enc 36 r)
  enc-marked d t r ld lt =
      cipher.in_order key 0 d (t ++ r)
      ∙ ap (λ (x : Bytes). enc 0 d ++ x) (rw (ld, cipher.in_order key 4 t r, lt))

  module _ (d r front below : Bytes) (phs : ℕ) where
    -- Where the hidden bytes stand, and what they are.
    abbrev pub position : ℕ
    position = length d + 32 + length r + length front

    abbrev pub hidden : Bytes
    hidden = enc position (below ++ zeros phs)

    abbrev pub sealed : Bytes → Bytes
    sealed t = marked (enc 0 d) t (enc 36 (r ++ front))

    regroup : (t : Bytes) → marked d t r ++ (front ++ hidden) ≡ marked d t (r ++ front) ++ hidden
    regroup t = simp append_assoc

    length-marked : (t : Bytes) → length t ≡ 32 → 0 + length (marked d t (r ++ front)) ≡ position
    length-marked t h = omega (
      arith,
      length-append d (t ++ (r ++ front)),
      length-append t (r ++ front),
      length-append r front,
    )

    length-sealed : (t : Bytes) → length t ≡ 32 → 0 + length (sealed t) ≡ position
    length-sealed t h = omega (
      arith,
      length-append (enc 0 d) (t ++ enc 36 (r ++ front)),
      length-append t (enc 36 (r ++ front)),
      length-append r front,
      cipher.keeps_length key 0 d,
      cipher.keeps_length key 36 (r ++ front),
    )

    -- Wrapping: the hidden bytes come out as the bytes below and zeros.
    pub enc-wrapped :
        (blank : Bytes)
        → length d ≡ 4
        → length blank ≡ 32
        → enc 0 (marked d blank r ++ (front ++ hidden))
          ≡ sealed (enc 4 blank) ++ (below ++ zeros phs)
    enc-wrapped blank ld lb =
        ap (enc 0) (regroup blank)
        ∙ cipher.in_order key 0 (marked d blank (r ++ front)) hidden
        ∙ ap₂ ◌++◌ (enc-marked d blank (r ++ front) ld lb) (
            ap (λ (p : ℕ). enc p hidden) (length-marked blank lb)
            ∙ cipher.undoes_itself key position (below ++ zeros phs))

    -- Deciphering the sealed part gives the hop's part and the front back, with another tag.
    enc-sealed :
        (tag : Bytes)
        → length d ≡ 4
        → length tag ≡ 32
        → enc 0 (sealed tag) ≡ marked d (enc 4 tag) (r ++ front)
    enc-sealed tag ld lt =
        enc-marked (enc 0 d) tag (enc 36 (r ++ front)) (cipher.keeps_length key 0 d ∙ ld) lt
        ∙ ap₂ (λ (x y : Bytes). marked x (enc 4 tag) y) (cipher.undoes_itself key 0 d)
            (cipher.undoes_itself key 36 (r ++ front))

    -- Unwrapping: with the tag set the rest of the header comes back.
    pub enc-unwrapped :
        (tag : Bytes)
        → length d ≡ 4
        → length tag ≡ 32
        → enc 0 ((sealed tag ++ below) ++ zeros phs) ≡ marked d (enc 4 tag) r ++ (front ++ hidden)
    enc-unwrapped tag ld lt =
        ap (enc 0) (append_assoc (sealed tag) below (zeros phs))
        ∙ cipher.in_order key 0 (sealed tag) (below ++ zeros phs)
        ∙ ap₂ ◌++◌ (enc-sealed tag ld lt)
            (ap (λ (p : ℕ). enc p (below ++ zeros phs)) (length-sealed tag lt))
        ∙ sym (regroup (enc 4 tag))
