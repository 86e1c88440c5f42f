-- ===== src/Sample/Format.antt =====
-- A serialisation of a hop's header for the sample parameters: the fields in order, in little endian.
use aimless_onions.Prelude.{
  ℕ, zero, suc, ◌+◌, ◌*◌, ◌/◌, ◌≡◌, refl, ap, sym, ◌∙◌, arith, List, [], ◌∷◌, ◌++◌, length, All,
  take, drop, length-append,
}
use aimless_onions.Prelude.Splice.{take-append_exact, drop-append_exact}
use mathlib.Core.List.{append_assoc}
use mathlib.Core.Path.{ap₂}
use native.Mathlib.Nat.{mul-div_cancel}
use aimless_onions.Wire.{Bytes, Share, HopHeader, share_size, to_le_bytes}
use aimless_onions.Crypto.{IsHopHeader}
use aimless_onions.Onion.{share_bytes}
use aimless_onions.Sample.Numbers.{from_bytes, length-to_le_bytes, from_bytes-to_le_bytes}

abbrev pub write_prefix : ℕ → Bytes
write_prefix delay = to_le_bytes 4 delay

abbrev pub write_suffix : ℕ → List Share → Bytes
write_suffix identity shares =
    to_le_bytes 8 identity ++ (to_le_bytes 8 (length shares) ++ share_bytes shares)

abbrev pub write : HopHeader → Bytes
write h = write_prefix h.hop.delay ++ (h.hop.tag ++ write_suffix h.identity h.shares)

-- As many shares as are asked for.
read_shares : ℕ → Bytes → List Share
read_shares zero bs = []
read_shares (suc n) bs = record { bytes = take share_size bs } ∷ read_shares n (drop share_size bs)

pub read : Bytes → HopHeader
read bs = record {
  hop = record { delay = from_bytes (take 4 bs); tag = take 32 (drop 4 bs) };
  identity = from_bytes (take 8 (drop 36 bs));
  shares = read_shares (length (drop 52 bs) / share_size) (drop 52 bs);
}

length-share_bytes :
    (ss : List Share)
    → All (λ s. length s.bytes ≡ share_size) ss
    → length (share_bytes ss) ≡ length ss * share_size
length-share_bytes [] h = refl
length-share_bytes (s ∷ ss) h =
    omega (arith, h.0, length-append s.bytes (share_bytes ss), length-share_bytes ss h.1)

pub length-write_suffix :
    (identity : ℕ) (ss : List Share)
    → All (λ s. length s.bytes ≡ share_size) ss
    → length (write_suffix identity ss) ≡ 8 + 8 + length ss * share_size
length-write_suffix identity ss h = omega (
  arith,
  length-append (to_le_bytes 8 identity) (to_le_bytes 8 (length ss) ++ share_bytes ss),
  length-append (to_le_bytes 8 (length ss)) (share_bytes ss),
  length-to_le_bytes 8 identity,
  length-to_le_bytes 8 (length ss),
  length-share_bytes ss h,
)

read_shares-share_bytes :
    (ss : List Share)
    → All (λ s. length s.bytes ≡ share_size) ss
    → read_shares (length ss) (share_bytes ss) ≡ ss
unfolding read_shares
read_shares-share_bytes [] h = refl
read_shares-share_bytes (s ∷ ss) h = rw (
  take-append_exact share_size s.bytes (share_bytes ss) h.0,
  drop-append_exact share_size s.bytes (share_bytes ss) h.0,
  read_shares-share_bytes ss h.1,
)

regroup : (a b d e f : Bytes) → a ++ (b ++ (d ++ (e ++ f))) ≡ (a ++ (b ++ (d ++ e))) ++ f
regroup a b d e f = simp append_assoc

-- A hop's header is read back as it was written.
pub read-write : (h : HopHeader) → IsHopHeader h → read (write h) ≡ h
unfolding read
read-write h fits =
    let delay_part = write_prefix h.hop.delay in
    let number_part = to_le_bytes 8 h.identity in
    let count_part = to_le_bytes 8 (length h.shares) in
    let suffix = write_suffix h.identity h.shares in
    let at4 : drop 4 (write h) ≡ h.hop.tag ++ suffix =
      drop-append_exact 4 delay_part (h.hop.tag ++ suffix) (length-to_le_bytes 4 h.hop.delay) in
    let at36 : drop 36 (write h) ≡ suffix =
      ap (drop 36) (sym (append_assoc delay_part h.hop.tag suffix))
      ∙ drop-append_exact 36 (delay_part ++ h.hop.tag) suffix (
          omega (
            arith,
            length-append delay_part h.hop.tag,
            length-to_le_bytes 4 h.hop.delay,
            fits.tag_fits,
          )) in
    let at52 : drop 52 (write h) ≡ share_bytes h.shares =
      ap (drop 52) (regroup delay_part h.hop.tag number_part count_part (share_bytes h.shares))
      ∙ drop-append_exact 52 (delay_part ++ (h.hop.tag ++ (number_part ++ count_part)))
          (share_bytes h.shares)
          (omega (
            arith,
            length-append delay_part (h.hop.tag ++ (number_part ++ count_part)),
            length-append h.hop.tag (number_part ++ count_part),
            length-append number_part count_part,
            length-to_le_bytes 4 h.hop.delay,
            length-to_le_bytes 8 h.identity,
            length-to_le_bytes 8 (length h.shares),
            fits.tag_fits,
          )) in
    let count : length (drop 52 (write h)) / share_size ≡ length h.shares =
      ap (λ (b : Bytes). length b / share_size) at52
      ∙ ap (λ (n : ℕ). n / share_size) (length-share_bytes h.shares fits.shares_fit)
      ∙ mul-div_cancel (length h.shares) (omega arith) in
    let shares_back : read_shares (length (drop 52 (write h)) / share_size) (drop 52 (write h))
        ≡ h.shares =
      ap₂ read_shares count at52 ∙ read_shares-share_bytes h.shares fits.shares_fit in
    let identity_back : from_bytes (take 8 (drop 36 (write h))) ≡ h.identity =
      ap (λ (b : Bytes). from_bytes (take 8 b)) at36
      ∙ ap from_bytes (
          take-append_exact 8 number_part (count_part ++ share_bytes h.shares)
            (length-to_le_bytes 8 h.identity))
      ∙ from_bytes-to_le_bytes 8 h.identity fits.identity_fits in
    let delay_back : from_bytes (take 4 (write h)) ≡ h.hop.delay =
      ap from_bytes
        (take-append_exact 4 delay_part (h.hop.tag ++ suffix) (length-to_le_bytes 4 h.hop.delay))
      ∙ from_bytes-to_le_bytes 4 h.hop.delay fits.delay_fits in
    let tag_back : take 32 (drop 4 (write h)) ≡ h.hop.tag =
      ap (take 32) at4 ∙ take-append_exact 32 h.hop.tag suffix fits.tag_fits in
    λ i. record {
      hop = record { delay = delay_back i; tag = tag_back i };
      identity = identity_back i;
      shares = shares_back i;
    }
