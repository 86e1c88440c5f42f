-- ===== src/Effects.antt =====
-- Steps of a program that read and change the world around it. What has happened stays, also when a
-- step ends with an `Err` or a panic.
use aimless_onions.Prelude.{◌≡◌, refl, Option, none, some, Bool, true, false}
use aimless_onions.Outcome.{Outcome, ok, err, panic, Error, or_err}

abbrev pub Action : Type 0 → Type 0 → Type 0
Action W A = W → Outcome A × W

module _ {W A : Type 0} where
  abbrev pub pass : A → Action W A
  pass a w = (ok a, w)

  -- A result that does not depend on the world.
  abbrev pub given : Outcome A → Action W A
  given o w = (o, w)

  -- A call that fails with this error if it gives nothing.
  abbrev pub io : Error → (W → Option A × W) → Action W A
  io e m w = (or_err e (m w).0, (m w).1)

  -- `expect`: an `Err` becomes a panic.
  abbrev pub with_panic : Outcome A × W → Outcome A × W
  with_panic (ok a, w) = (ok a, w)
  with_panic (err e, w) = (panic, w)
  with_panic (panic, w) = (panic, w)

  abbrev pub expected : Action W A → Action W A
  expected m w = with_panic (m w)

  -- An `Err` that is looked at; a panic goes through.
  abbrev pub looked_at : Outcome A × W → Outcome (Option A) × W
  looked_at (ok a, w) = (ok (some a), w)
  looked_at (err e, w) = (ok none, w)
  looked_at (panic, w) = (panic, w)

  abbrev pub attempt : Action W A → Action W (Option A)
  attempt m w = looked_at (m w)

-- A guard that bails.
abbrev pub bail_if : {W : Type 0} → Bool → Error → Action W Unit
bail_if true e w = (err e, w)
bail_if false e w = (ok tt, w)

module _ {W A B : Type 0} where
  abbrev pub after : Outcome A × W → (A → Action W B) → Outcome B × W
  after (ok a, w) f = f a w
  after (err e, w) f = (err e, w)
  after (panic, w) f = (panic, w)

  infixl 5 ◌>>=◌
  abbrev pub ◌>>=◌ : Action W A → (A → Action W B) → Action W B
  ◌>>=◌ m f w = after (m w) f

  -- What a good result says of the steps before it.
  pub after-ok :
      (r : Outcome A × W) (f : A → Action W B) (b : B) (w2 : W)
      → after r f ≡ (ok b, w2)
      → (a : A) × (w1 : W) × (r ≡ (ok a, w1)) × (f a w1 ≡ (ok b, w2))
  after-ok (ok a, w1) f b w2 e = (a, w1, refl, e)
  after-ok (err x, w1) f b w2 e = cc
  after-ok (panic, w1) f b w2 e = cc

module _ {W A : Type 0} where
  pub looked_at-some :
      (r : Outcome A × W) (a : A) (w : W) → looked_at r ≡ (ok (some a), w) → r ≡ (ok a, w)
  looked_at-some (ok b, v) a w e = cc
  looked_at-some (err x, v) a w e = cc
  looked_at-some (panic, v) a w e = cc

module _ {W A B : Type 0} where
  pub after_given-ok :
      (o : Outcome A) (w : W) (f : A → Action W B) (b : B) (w2 : W)
      → after (o, w) f ≡ (ok b, w2)
      → (a : A) × (o ≡ ok a) × (f a w ≡ (ok b, w2))
  after_given-ok (ok a) w f b w2 e = (a, refl, e)
  after_given-ok (err x) w f b w2 e = cc
  after_given-ok panic w f b w2 e = cc

  pub after_io-ok :
      (x : Error) (r : Option A × W) (f : A → Action W B) (b : B) (w2 : W)
      → after (or_err x r.0, r.1) f ≡ (ok b, w2)
      → (a : A) × (r ≡ (some a, r.1)) × (f a r.1 ≡ (ok b, w2))
  after_io-ok x (some a, w) f b w2 e = (a, refl, e)
  after_io-ok x (none, w) f b w2 e = cc

module _ {W B : Type 0} where
  pub after-bail_if-ok :
      (b : Bool) (x : Error) (w : W) (f : Unit → Action W B) (v : B) (w2 : W)
      → after (bail_if b x w) f ≡ (ok v, w2)
      → (b ≡ false) × (f tt w ≡ (ok v, w2))
  after-bail_if-ok true x w f v w2 e = cc
  after-bail_if-ok false x w f v w2 e = (refl, e)

pub ok_injective :
    {W A : Type 0} {a b : A} {w w' : W} → ◌≡◌ {A = Outcome A × W} (ok a, w) (ok b, w') → a ≡ b
ok_injective e = cc
