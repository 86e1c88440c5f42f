-- ===== src/Tools/OnionSizes.antt =====
-- aimless-onions/src/bin/onion_sizes.rs: the sizes of onions for all lengths of paths, numbers of
-- authorities and some payloads. `serialized_size` stands for bincode.
pub mod Exact
use aimless_onions.Prelude.{ℕ, zero, suc, List, [], ◌∷◌, ◌++◌, take}
use aimless_onions.Outcome.{Outcome, ok, ◌>>=◌}
use aimless_onions.Wire.{Bytes, Onion}
use aimless_onions.Crypto.{Crypto}
use aimless_onions.Onion.{wrap}

pub record Row : Type 0 where
  pub path_length : ℕ
  pub authority_count : ℕ
  pub payload_size : ℕ
  pub size : ℕ

abbrev pub max_authorities : ℕ
max_authorities = 9

abbrev pub max_path : ℕ
max_path = 5

-- `1..=n`
unfoldable pub up_to : ℕ → List ℕ
up_to zero = []
up_to (suc n) = up_to n ++ suc n ∷ []

abbrev pub payload_sizes : List ℕ
payload_sizes = 1 ∷ 512 ∷ 1024 ∷ 2048 ∷ 4069 ∷ []

module _ (c : Crypto) (serialized_size : Onion → ℕ) (public_keys : List c.PublicKey)
    (path delays : List ℕ) (payload : Bytes) where
  open c use {Rng}

  -- The body of the loops.
  unfoldable pub row : Rng → ℕ → ℕ → ℕ → Outcome (Row × Rng)
  row rng path_length authority_count payload_size = do
    (onion, rng') ←
        wrap c rng (take path_length path) (take path_length delays)
          (take authority_count public_keys) (take payload_size payload)
    ok (
      record {
        path_length = path_length;
        authority_count = authority_count;
        payload_size = payload_size;
        size = serialized_size onion;
      },
      rng',
    )

  -- The three loops, the innermost one over the sizes of payloads.
  unfoldable pub rows_for : Rng → ℕ → ℕ → List ℕ → Outcome (List Row × Rng)
  rows_for rng path_length authority_count [] = ok ([], rng)
  rows_for rng path_length authority_count (size ∷ sizes) = do
    (first, rng') ← row rng path_length authority_count size
    (rest, rng'') ← rows_for rng' path_length authority_count sizes
    ok (first ∷ rest, rng'')

  unfoldable pub rows_of_path : Rng → ℕ → List ℕ → Outcome (List Row × Rng)
  rows_of_path rng path_length [] = ok ([], rng)
  rows_of_path rng path_length (count ∷ counts) = do
    (first, rng') ← rows_for rng path_length count payload_sizes
    (rest, rng'') ← rows_of_path rng' path_length counts
    ok (first ++ rest, rng'')

  unfoldable pub rows : Rng → List ℕ → Outcome (List Row × Rng)
  rows rng [] = ok ([], rng)
  rows rng (len ∷ lens) = do
    (first, rng') ← rows_of_path rng len (up_to max_authorities)
    (rest, rng'') ← rows rng' lens
    ok (first ++ rest, rng'')

  unfoldable pub main : Rng → Outcome (List Row × Rng)
  main rng = rows rng (up_to max_path)

-- `n` draws one after the other.
unfoldable pub draws : {Rng A : Type 0} → ℕ → (Rng → A × Rng) → Rng → List A × Rng
draws zero f rng = ([], rng)
draws (suc n) f rng =
    let (a, rng') = f rng in let (rest, rng'') = draws n f rng' in (a ∷ rest, rng'')

-- The whole of `main`: keys from `setup` of hohibe, and a path and delays that are drawn.
unfoldable pub run :
    (c : Crypto)
    → (setup : c.Rng → c.PublicKey × c.Rng) → (gen_identity gen_delay : c.Rng → ℕ × c.Rng)
    → (Onion → ℕ)
    → Bytes
    → c.Rng
    → Outcome (List Row × c.Rng)
run c setup gen_identity gen_delay serialized_size payload rng =
    let (public_keys, rng1) = draws max_authorities setup rng in
    let (path, rng2) = draws max_path gen_identity rng1 in
    let (delays, rng3) = draws max_path gen_delay rng2 in
    main c serialized_size public_keys path delays payload rng3
