-- ===== src/Shared.antt =====
-- aimless-onions/src/shared.rs: messages and the times of an epoch. A DateTime is a number of
-- nanoseconds since 1970, in UTC and without leap seconds; the clock is an argument.
pub mod Epochs
pub mod Tests
use aimless_onions.Prelude.{ℕ, ◌+◌, ◌-◌, ◌*◌, ◌/◌, ◌%◌, List, ltb, if◌then◌else◌}

-- A `String`, as the codes of its characters.
abbrev pub Text : Type 0
Text = List ℕ

pub record Message : Type 0 where
  pub timestamp : ℕ
  pub content : Text

abbrev pub second : ℕ
second = 1000000000

abbrev pub one_minute : ℕ
one_minute = 60000000000

-- `Duration::minutes`
abbrev pub minutes : ℕ → ℕ
minutes n = n * one_minute

-- `Timelike::minute`, `with_second(0)` and `with_nanosecond(0)`.
abbrev pub minute : ℕ → ℕ
minute t = t / one_minute % 60

abbrev pub with_second_zero : ℕ → ℕ
with_second_zero t = t - t / second % 60 * second

abbrev pub with_nanosecond_zero : ℕ → ℕ
with_nanosecond_zero t = t - t % second

pub record Epoch : Type 0 where
  pub registration_time : ℕ
  pub allocation_start_time : ℕ
  pub allocation_finish_time : ℕ
  pub switchover_time : ℕ

abbrev pub epoch_duration : ℕ
epoch_duration = 60

unfoldable pub from_registration : ℕ → Epoch
from_registration t = record {
  registration_time = t;
  allocation_start_time = t + minutes 10;
  allocation_finish_time = t + minutes 15;
  switchover_time = t + minutes 30;
}

unfoldable pub next : ℕ → Epoch
next now =
    let remaining_minutes = epoch_duration - minute (now - minutes 30) % epoch_duration in
    from_registration (with_nanosecond_zero (with_second_zero (now + minutes remaining_minutes)))

unfoldable pub succeeding : Epoch → Epoch
succeeding e = from_registration (e.registration_time + minutes epoch_duration)

-- How long `wait_until` sleeps.
unfoldable pub wait_until : ℕ → ℕ → ℕ
wait_until now when = if ltb now when then when - now else 0

unfoldable pub timestamp : ℕ → ℕ
timestamp now = now / 1000000
