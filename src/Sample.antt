-- ===== src/Sample.antt =====
-- Simple functions in the place of the other crates, with which the theorems on onions are run. The
-- cipher complements every second byte, a share is the secret itself, and a ciphertext is the message
-- and zeros.
pub mod Numbers
pub mod Format
use aimless_onions.Prelude.{
  ℕ, zero, suc, ◌+◌, ◌-◌, ◌*◌, ◌/◌, ◌%◌, ◌^◌, ◌≤◌, ◌<◌, ◌≡◌, refl, ap, sym, ◌∙◌, arith, List, [],
  ◌∷◌, ◌++◌, Option, some, none, length, replicate, All, take, take-append-drop, ltb, lt→ltb, leb,
  Bool, true, false, ◌==◌, ==_iff, if◌then◌else◌, sum_by, length-append, length-replicate,
}
use aimless_onions.Prelude.Splice.{take-append_exact}
use native.Mathlib.Nat.{mod-eq_of_lt, mod-lt}
use mathlib.Core.List.{append_assoc}
use aimless_onions.NodeName.{NodeName}
use aimless_onions.Wire.{
  Bytes, Share, HopInfo, HopHeader, share_size, int_size, tag_size, prime, to_le_bytes,
  hibe_overhead,
}
use aimless_onions.Crypto.{
  Crypto, AreBytes, IsStreamCipher, AreLittleEndian, IsSecretSharing, IsIdentityBased, IsHopHeader,
  IsSerialisation, IsSound, enumerate_from,
}
use Numbers.{
  from_bytes, to_bytes, from_bytes-digits, from_bytes-padded, digits-short, from_bytes-bounded,
  digits-stripped, length-to_le_bytes,
}
use Format.{write, read, read-write, write_prefix, write_suffix, length-write_suffix}

unfoldable pub total_of : Bytes → ℕ
total_of = sum_by (λ b. b)

unfoldable pub complement : ℕ → ℕ
complement b = if ltb b 256 then 255 - b else b

unfoldable pub mask : ℕ → ℕ → ℕ
mask place b = elim (place % 2 == 0) [ true ↦ complement b | false ↦ b ]

unfoldable pub keystream : Bytes → ℕ → Bytes → Bytes
keystream key place [] = []
keystream key place (b ∷ bs) = mask (total_of key + place) b ∷ keystream key (suc place) bs

unfoldable pub share_out : ℕ → ℕ → ℕ → ℕ → ℕ → List (ℕ × ℕ)
share_out rng threshold amount modulus secret =
    enumerate_from 1 (replicate amount (secret % modulus))

unfoldable pub first_value : ℕ → ℕ → ℕ → List (ℕ × ℕ) → Option ℕ
first_value threshold amount modulus [] = none
first_value threshold amount modulus ((i, v) ∷ vs) = some v

unfoldable pub decrypted : ℕ → ℕ → Bytes → Option Bytes
decrypted pk sk e = if sk == pk then some (take (length e - hibe_overhead) e) else none

abbrev pub sample : Crypto
sample = record {
  Rng = ℕ;
  PublicKey = ℕ;
  PrivateKey = ℕ;
  gen_nonce = λ seed. (replicate 16 (seed % 256), suc seed);
  apply_keystream = keystream;
  hmac = λ k m. to_le_bytes 32 (total_of k + 257 * total_of m);
  encrypt = λ seed pk node m. (some (m ++ replicate hibe_overhead 0), suc seed);
  decrypt = decrypted;
  from_bytes_le = from_bytes;
  to_bytes_le = to_bytes;
  split = share_out;
  recover = first_value;
  serialize = write;
  deserialize = λ bs. some (read bs);
}

-- The private key of a node is the public key again.
abbrev pub SampleKey : ℕ → NodeName → ℕ → Type 0
SampleKey pk node sk = sk ≡ pk

complement_twice : (b : ℕ) → complement (complement b) ≡ b
unfolding complement
complement_twice b = ground arith

mask_twice : (place b : ℕ) → mask place (mask place b) ≡ b
unfolding mask
mask_twice place b = grind (arith, complement_twice b)

All-replicate : (P : ℕ → Type 0) (n a : ℕ) → P a → All P (replicate n a)
All-replicate P zero a h = tt
All-replicate P (suc n) a h = (h, All-replicate P n a h)

pub sample-IsStreamCipher : IsStreamCipher sample
unfolding keystream
sample-IsStreamCipher = record {
  keeps_length = keeps_length;
  in_order = in_order;
  undoes_itself = undoes_itself;
}
  where
    keeps_length : (k : Bytes) (p : ℕ) (xs : Bytes) → length (keystream k p xs) ≡ length xs
    keeps_length k p [] = refl
    keeps_length k p (x ∷ xs) = ap suc (keeps_length k (suc p) xs)

    in_order :
        (k : Bytes) (p : ℕ) (xs ys : Bytes)
        → keystream k p (xs ++ ys) ≡ keystream k p xs ++ keystream k (p + length xs) ys
    in_order k p [] ys = let here : p + 0 ≡ p = omega arith in rw here
    in_order k p (x ∷ xs) ys =
        let here : p + suc (length xs) ≡ suc p + length xs = omega arith in
        rw (here, in_order k (suc p) xs ys)

    undoes_itself : (k : Bytes) (p : ℕ) (xs : Bytes) → keystream k p (keystream k p xs) ≡ xs
    undoes_itself k p [] = refl
    undoes_itself k p (x ∷ xs) = rw (mask_twice (total_of k + p) x, undoes_itself k (suc p) xs)

sample-AreLittleEndian : AreLittleEndian sample
unfolding to_bytes
sample-AreLittleEndian = record {
  from-to = λ n. from_bytes-digits n n;
  padded = from_bytes-padded;
  shortest = shortest;
  bounded = from_bytes-bounded;
  stripped = λ bs h some_bytes. digits-stripped (from_bytes bs) bs h some_bytes (omega arith);
}
  where
    shortest : (n k : ℕ) → 0 < k → n < 256 ^ k → length (to_bytes n) ≤ k
    shortest n zero h h' = absurd (omega (arith, h))
    shortest n (suc k) h h' = digits-short n n k h'

sample-IsSecretSharing : IsSecretSharing sample
unfolding share_out first_value
sample-IsSecretSharing = record {
  numbered = λ r t s h. (
    replicate (suc t) (s % prime),
    refl,
    length-replicate (suc t) (s % prime),
    All-replicate (λ v. v < prime) (suc t) (s % prime) (mod-lt s (omega arith)),
  );
  recovers = recovers;
}
  where
    recovers :
        (r t s : ℕ) (values : List ℕ)
        → 0 < t
        → s < prime
        → share_out r t (suc t) prime s ≡ enumerate_from 1 values
        → first_value t (suc t) prime (enumerate_from 1 (take t values)) ≡ some s
    recovers r zero s values h small e = absurd (omega (arith, h))
    recovers r (suc t) s [] h small e = cc
    recovers r (suc t) s (v ∷ vs) h small e =
        sym (ap (first_value (suc t) (suc (suc t)) prime) e) ∙ ap some (mod-eq_of_lt small)

sample-IsIdentityBased : IsIdentityBased sample SampleKey
unfolding decrypted
sample-IsIdentityBased = record {
  encrypts = λ r pk node m h. (
    m ++ replicate hibe_overhead 0,
    refl,
    omega (arith, length-append m (replicate hibe_overhead 0), h),
  );
  decrypts = λ r pk node sk m e has made. decrypts pk sk m e has made;
}
  where
    decrypts :
        (pk sk : ℕ) (m e : Bytes)
        → sk ≡ pk
        → some (m ++ replicate hibe_overhead 0) ≡ some e
        → decrypted pk sk e ≡ some m
    decrypts pk sk m e has made =
        let same : m ++ replicate hibe_overhead 0 ≡ e = cc in
        rw (← same, (==_iff sk pk).1 has)
          (ap some (
            take-append_exact (length (m ++ replicate hibe_overhead 0) - hibe_overhead) m
              (replicate hibe_overhead 0)
              (omega (arith, length-append m (replicate hibe_overhead 0)))))

sample-IsSerialisation : IsSerialisation sample
sample-IsSerialisation = record {
  prefix = write_prefix;
  suffix = write_suffix;
  layout = λ h. refl;
  prefix_length = length-to_le_bytes 4;
  suffix_length = length-write_suffix;
  reads_back = λ h fits. ap some (read-write h fits);
}

pub sample-IsSound : IsSound sample SampleKey
sample-IsSound = record {
  cipher = sample-IsStreamCipher;
  numbers = sample-AreLittleEndian;
  sharing = sample-IsSecretSharing;
  identity_based = sample-IsIdentityBased;
  serialisation = sample-IsSerialisation;
  tag_length = λ k m. length-to_le_bytes 32 (total_of k + 257 * total_of m);
  nonce_length = λ r. refl;
  nonce_bytes = λ r. All-replicate (λ b. b < 256) 16 (r % 256) (mod-lt r (omega arith));
}
