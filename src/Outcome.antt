-- ===== src/Outcome.antt =====
-- The ways in which a call of the program ends: with a value, with an `Err`, or with a panic.
use aimless_onions.Prelude.{Option, none, some, Bool, true, false, ◌≡◌, refl}

pub data Error : Type 0 where
  mismatched_delays mac_mismatch decryption_failed deserialization_failed identity_too_long
        resolution_failed invalid_input file_error certificate_error network_error decoding_error
        no_relay_address key_refused no_keys :
      Error

pub data Outcome {ℓ} (A : Type ℓ) : Type ℓ where
  ok : A → Outcome A
  err : Error → Outcome A
  panic : Outcome A

-- The `?` operator; a panic goes through.
infixl 5 ◌>>=◌
abbrev pub ◌>>=◌ {ℓ κ} : {A : Type ℓ} {B : Type κ} → Outcome A → (A → Outcome B) → Outcome B
ok a >>= f = f a
err e >>= f = err e
panic >>= f = panic

-- An `unwrap` or `expect`.
abbrev pub or_panic {ℓ} : {A : Type ℓ} → Option A → Outcome A
or_panic none = panic
or_panic (some a) = ok a

abbrev pub or_err {ℓ} : {A : Type ℓ} → Error → Option A → Outcome A
or_err e none = err e
or_err e (some a) = ok a

-- An `assert!`, or a guard that bails.
abbrev pub assert {ℓ} : {A : Type ℓ} → Bool → Outcome A → Outcome A
assert true rest = rest
assert false rest = panic

abbrev pub ensure {ℓ} : {A : Type ℓ} → Bool → Error → Outcome A → Outcome A
ensure true e rest = rest
ensure false e rest = err e

-- What a result says of the steps before it.
module _ {ℓ κ} {A : Type ℓ} {B : Type κ} where
  pub bind-ok :
      (m : Outcome A) (f : A → Outcome B) (b : B)
      → (m >>= f) ≡ ok b
      → (a : A) × (m ≡ ok a) × (f a ≡ ok b)
  bind-ok (ok a) f b e = (a, refl, e)
  bind-ok (err x) f b e = cc
  bind-ok panic f b e = cc

module _ {ℓ} {A : Type ℓ} where
  pub or_panic-ok : (o : Option A) (a : A) → or_panic o ≡ ok a → o ≡ some a
  or_panic-ok none a e = cc
  or_panic-ok (some b) a e = cc

  pub or_err-ok : (x : Error) (o : Option A) (a : A) → or_err x o ≡ ok a → o ≡ some a
  or_err-ok x none a e = cc
  or_err-ok x (some b) a e = cc

  pub assert-ok :
      (b : Bool) (rest : Outcome A) (a : A) → assert b rest ≡ ok a → (b ≡ true) × (rest ≡ ok a)
  assert-ok true rest a e = (refl, e)
  assert-ok false rest a e = cc

  pub ensure-ok :
      (b : Bool) (x : Error) (rest : Outcome A) (a : A)
      → ensure b x rest ≡ ok a
      → (b ≡ true) × (rest ≡ ok a)
  ensure-ok true x rest a e = (refl, e)
  ensure-ok false x rest a e = cc

pub ok_injective {ℓ} : {A : Type ℓ} {a b : A} → ok a ≡ ok b → a ≡ b
ok_injective e = cc
