-- ===== src/Shared/Epochs.antt =====
-- When the epochs of aimless-onions/src/shared.rs begin.
use aimless_onions.Prelude.{ℕ, ◌+◌, ◌-◌, ◌*◌, ◌/◌, ◌≤◌, ◌<◌, ◌≡◌, refl, ap, sym, ◌∙◌, arith}
use aimless_onions.Shared.{
  from_registration, next, succeeding, minutes, with_second_zero, with_nanosecond_zero,
  epoch_duration,
}

-- Whole minutes from a time that is cut down.
cut_to_minute : (t : ℕ) → with_nanosecond_zero (with_second_zero t) ≡ t / 60000000000 * 60000000000
cut_to_minute t = omega arith

-- The registration time that next gives, from half past twelve on 1 January 1970, is at a full
-- minute, 30 minutes past an hour; it is later than now, and by an hour at most.
pub next_lem :
    (now : ℕ)
    → minutes 30 ≤ now
    → (hour : ℕ) × ((next now).registration_time ≡ minutes (hour * 60 + 30))
      × (now < (next now).registration_time)
      × ((next now).registration_time ≤ now + minutes 60)
unfolding next from_registration
next_lem now h = ((now - minutes 30) / 3600000000000 + 1, omega arith, omega arith, omega arith)

-- The start of the registration of the hour that a time is in, from half past to half past.
registration_of :
    (t : ℕ)
    → minutes 30 ≤ t
    → (next t).registration_time
      ≡ ((t - minutes 30) / 3600000000000 + 1) * 3600000000000 + minutes 30
unfolding next from_registration
registration_of t h = omega arith

next-from_registration : (t : ℕ) → next t ≡ from_registration (next t).registration_time
unfolding next from_registration
next-from_registration t = refl

-- Until the registration of an epoch begins, next gives this epoch, and in the hour from then on it
-- gives the succeeding one.
pub next_sequence :
    (now t u : ℕ)
    → minutes 30 ≤ now
    → now ≤ t
    → t < (next now).registration_time
    → (next now).registration_time ≤ u
    → u < (next now).registration_time + minutes 60
    → (next t ≡ next now) × (next u ≡ succeeding (next now))
unfolding succeeding
next_sequence now t u h le before after within =
    let now_is = registration_of now h in
    let t_is = registration_of t (omega arith) in
    let u_is = registration_of u (omega arith) in
    let same : (next t).registration_time ≡ (next now).registration_time =
      omega (arith, now_is, t_is, before, le) in
    let later : (next u).registration_time ≡ (next now).registration_time + minutes epoch_duration =
      omega (arith, now_is, u_is, after, within) in
    (
      next-from_registration t ∙ ap from_registration same ∙ sym (next-from_registration now),
      next-from_registration u ∙ ap from_registration later,
    )
