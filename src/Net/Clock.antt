-- ===== src/Net/Clock.antt =====
-- The clock of Net.antt and the waits of aimless-onions/src/shared.rs over it.
use aimless_onions.Prelude.{ℕ, ◌+◌, ◌-◌, ◌≤◌, ◌≡◌, arith, false, ltb, lt→ltb, dec_lt}
use aimless_onions.Shared.{wait_until}
use aimless_onions.Net.{Http, awake}

module _ {PublicKey PrivateKey : Type 0} (h : Http PublicKey PrivateKey) where
  open h use {World, now, sleep}

  -- The documented behaviour of `sleep`: it lasts at least as long as asked for.
  pub record IsClock : Type 0 where
    pub lasts : (d : ℕ) (w : World) → now w + d ≤ now (sleep d w)

  pub awake-late : IsClock → (when : ℕ) (w : World) → when ≤ now (awake h when w)
  unfolding awake wait_until
  awake-late clocked when w = elim (dec_lt (now w) when) [
    | yes early ↦
        let later = clocked.lasts (when - now w) w in
        rw (lt→ltb (now w) when early) (omega (arith, later, early))
    | no late ↦
        let is_late : ltb (now w) when ≡ false = ground (arith, late) in
        rw is_late (omega (arith, late))
  ]
