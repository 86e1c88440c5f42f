-- ===== src/Shared/Tests.antt =====
-- Runs of the functions of aimless-onions/src/shared.rs.
use aimless_onions.Prelude.{ℕ, ◌+◌, ◌*◌, ◌≤◌, ◌<◌, ◌≡◌, refl, arith}
use aimless_onions.Shared.{next, succeeding, from_registration, minutes, wait_until}
use aimless_onions.Shared.Epochs.{next_lem, next_sequence}

-- Five past one: the next registration is at half past.
five_past_one : (next (minutes 65)).registration_time ≡ minutes 90
unfolding next from_registration
five_past_one = refl

half_past : (next (minutes 90)).registration_time ≡ minutes 150
unfolding next from_registration
half_past = refl

waits : wait_until 3 10 ≡ 7
unfolding wait_until
waits = refl

next_lem_example :
    (hour : ℕ) × ((next (minutes 65)).registration_time ≡ minutes (hour * 60 + 30))
    × (minutes 65 < (next (minutes 65)).registration_time)
    × ((next (minutes 65)).registration_time ≤ minutes 65 + minutes 60)
next_lem_example = next_lem (minutes 65) (omega arith)

next_sequence_example :
    (next (minutes 70) ≡ next (minutes 65)) × (next (minutes 100) ≡ succeeding (next (minutes 65)))
unfolding next from_registration
next_sequence_example =
    next_sequence (minutes 65) (minutes 70) (minutes 100) (omega arith) (omega arith) (omega arith)
      (omega arith) (omega arith)
