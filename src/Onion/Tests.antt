-- ===== src/Onion/Tests.antt =====
-- Runs of the functions of aimless-onions/src/format.rs with the sample parameters.
use aimless_onions.Prelude.{ℕ, suc, ◌≡◌, refl, arith, List, [], ◌∷◌, ◌++◌, length, some}
use aimless_onions.Outcome.{Outcome, ok, err, panic}
use aimless_onions.Wire.{Bytes, HopInfo, Onion, bytes_eq, to_le_bytes, prime}
use aimless_onions.Crypto.{enumerate_from}
use aimless_onions.Onion.{
  wrap, unwrap, fresh, unwrap_shares, wrap_with_nonce, unwrap_with_nonce, decipher, unwrap_share,
  tag_onion, get_tag, pad_nonce, gen_nonces, compute_fillers, compute_filler, wrap_layers,
  wrap_shares, wrap_share, set_tag,
}
use aimless_onions.Sample.{
  sample, SampleKey, sample-IsSound, sample-IsStreamCipher, keystream, mask, complement, total_of,
  share_out, first_value, decrypted,
}
use aimless_onions.Sample.Numbers.{from_bytes, digits, to_bytes}
use aimless_onions.Onion.Delivery.{wrap-IsDelivered, IsDelivered}
use aimless_onions.Onion.Refusal.{unwrap-IsAuthentic, IsAuthentic}

abbrev pks : List ℕ
pks = 11 ∷ 12 ∷ []

abbrev keys : ℕ → List ℕ
keys i = pks

abbrev pub content : Bytes
content = 72 ∷ 105 ∷ []

wrap-IsDelivered_example :
    (o : Onion) × (rng' : ℕ) × (wrap sample 5 (3 ∷ 4294967295 ∷ []) (10 ∷ 2000 ∷ []) pks content
      ≡ ok (o, rng'))
    × IsDelivered sample SampleKey sample-IsSound pks keys
        (3 ∷ 4294967295 ∷ [])
        (10 ∷ 2000 ∷ [])
        content
        o
wrap-IsDelivered_example =
    wrap-IsDelivered sample SampleKey sample-IsSound 5 (3 ∷ 4294967295 ∷ []) (10 ∷ 2000 ∷ []) pks
      keys content (omega arith) refl (omega arith, (omega arith, tt))
      (omega arith, (omega arith, tt)) ((refl, (refl, tt)), ((refl, (refl, tt)), tt))

-- An onion with one layer for one authority, and what its relay makes of it.
abbrev pub onion_of : Outcome (Onion × ℕ) → Onion
onion_of (ok r) = r.0
onion_of (err e) = fresh 1 0 []
onion_of panic = fresh 1 0 []

abbrev pub result_of : Outcome (HopInfo × Onion) → HopInfo × Onion
result_of (ok r) = r
result_of (err e) = (record { delay = 0; tag = [] }, fresh 1 0 [])
result_of panic = (record { delay = 0; tag = [] }, fresh 1 0 [])

abbrev pub key : List ℕ
key = 11 ∷ []

abbrev pub one_layer : Onion
one_layer = onion_of (wrap sample 5 (3 ∷ []) (10 ∷ []) key content)

abbrev pub opened : HopInfo × Onion
opened = result_of (unwrap sample one_layer key key)

-- The MAC of the sample is a sum, so an onion with two bytes swapped has the same tag.
abbrev pub swapped : Onion
swapped = elim one_layer.payload [
  | [] ↦ one_layer
  | (x ∷ xs) ↦ record one_layer { payload = xs ++ (x ∷ []) }
]

abbrev pub opened_swapped : HopInfo × Onion
opened_swapped = result_of (unwrap sample swapped key key)

-- The header is cut off after a byte.
abbrev pub cut : Onion
cut = record one_layer { header = 1 ∷ [] }

abbrev pub secret : ℕ
secret = 6672203272959577714968129557485651205

pub runs :
    (unwrap sample one_layer key key ≡ ok opened)
    × (unwrap sample swapped key key ≡ ok opened_swapped)
    × (one_layer.shares ≡ swapped.shares)
    × (get_tag one_layer.header ≡ get_tag swapped.header)
    × (unwrap_shares sample cut.shares key key ≡ ok (secret ∷ []))
    × (sample.recover
          (length cut.shares)
          (suc (length cut.shares))
          prime
          (enumerate_from 1 (secret ∷ []))
        ≡ some secret)
    × (one_layer.identity ≡ 3)
unfolding unwrap unwrap_with_nonce decipher unwrap_shares unwrap_share tag_onion get_tag pad_nonce
    wrap gen_nonces compute_fillers compute_filler fresh wrap_layers wrap_with_nonce wrap_shares
    wrap_share set_tag bytes_eq to_le_bytes keystream mask complement total_of share_out first_value
    decrypted from_bytes digits to_bytes
runs = (refl, refl, refl, refl, refl, refl, refl)

unwrap-IsAuthentic_example : IsAuthentic sample sample-IsStreamCipher one_layer key key opened.1
unwrap-IsAuthentic_example =
    unwrap-IsAuthentic sample sample-IsStreamCipher one_layer key key opened.0 opened.1 runs.0
