-- ===== src/Board/Tidy.antt =====
-- What the board of aimless-onions/src/bin/board.rs holds, logs and answers after one post.
use aimless_onions.Prelude.{
  ℕ, ◌+◌, ◌%◌, zero, suc, ◌≤◌, ◌<◌, ◌^◌, Bool, Option, some, none, ◌≡◌, refl, sym, subst, arith,
  List, [], ◌∷◌, ◌++◌, length, length-append, drop, length-drop, true, false, Bool-cases, lt→ltb,
  dec_lt, if◌then◌else◌, All, All-append, ◌⊎◌, inl, inr, ◌↔◌,
}
use mathlib.Core.Option.{some-injective}
use aimless_onions.Shared.{Message}
use aimless_onions.Outcome.{Outcome, ok, err, panic}
use aimless_onions.Board.{
  Board, Csv, Response, log_row, allowed_messages, redacted_message, contains_text, push_message,
  handle_post_message, travel_time,
}
use aimless_onions.Board.Posts.{
  shown, logs, not_more, handle_post_message-messages, handle_post_message-file,
}

-- A message that the board may show.
abbrev pub IsShown : Message → Type 0
IsShown m = (contains_text allowed_messages m.content ≡ true) ⊎ (m ≡ redacted_message)

shown-IsShown : (m : Message) → IsShown (shown m)
unfolding shown
shown-IsShown m = elim (Bool-cases (contains_text allowed_messages m.content)) [
  | inl e ↦ rw e (inl e)
  | inr e ↦ rw e (inr refl)
]

pub record IsTidy (messages : List Message) : Type 0 where
  pub few : length messages ≤ 100
  pub all_shown : All IsShown messages

All-drop : (n : ℕ) (ms : List Message) → All IsShown ms → All IsShown (drop n ms)
All-drop zero ms h = h
All-drop (suc n) [] h = tt
All-drop (suc n) (m ∷ ms) h = All-drop n ms h.1

push_message-IsTidy :
    (ms : List Message) (m : Message) → IsTidy ms → IsShown m → IsTidy (push_message ms m)
unfolding push_message
push_message-IsTidy ms m tidy here =
    let pushed = ms ++ m ∷ [] in
    let size = length-append ms (m ∷ []) in
    let all_shown = All-append IsShown ms (m ∷ []) tidy.all_shown (here, tt) in
    elim (dec_lt 100 (length pushed)) [
      | yes over ↦ rw (lt→ltb 100 (length pushed) over) record {
        few = omega (arith, tidy.few, size, length-drop 1 pushed);
        all_shown = All-drop 1 pushed all_shown;
      }
      | no fits ↦
          rw (not_more {n = length pushed} (omega (arith, fits)))
            record { few = omega (arith, fits); all_shown = all_shown }
    ]

-- The difference of two times of 128 bits, modulo 2 ^ 128.
travel_time-wraps :
    (now : ℕ) (m : Message)
    → m.timestamp < 2 ^ 128
    → now < 2 ^ 128
    → (travel_time now m < 2 ^ 128) × ((travel_time now m + m.timestamp) % 2 ^ 128 ≡ now)
unfolding travel_time
travel_time-wraps now m fits fits' = (omega (arith, fits, fits'), omega (arith, fits, fits'))

abbrev pub status_of : Outcome Response → Option ℕ
status_of (ok r) = some r.status
status_of (err e) = none
status_of panic = none

module _ (csv : Csv) where
  -- What a post does when the time of the row is `t`.
  abbrev PostIs : ℕ → Message → Board csv → ℕ → Type 0
  PostIs now m b t =
      let logged = (log_row csv (m.content, t) b.file).0 in
      IsTidy (handle_post_message csv now m b).1.messages
      × ((handle_post_message csv now m b).1.file ≡ (log_row csv (m.content, t) b.file).1)
      × ((handle_post_message csv now m b).1.messages
          ≡ (if logged then push_message b.messages (shown m) else b.messages))
      × ((status_of (handle_post_message csv now m b).0 ≡ some 200)
          ↔ ((logged ≡ true) × (contains_text allowed_messages m.content ≡ true)))
      × (((handle_post_message csv now m b).0 ≡ panic) ↔ (logged ≡ false))

  pushed-IsTidy :
      (logged : Bool) (m : Message) (ms : List Message)
      → IsTidy ms
      → IsTidy (if logged then push_message ms (shown m) else ms)
  pushed-IsTidy true m ms tidy = push_message-IsTidy ms (shown m) tidy (shown-IsShown m)
  pushed-IsTidy false m ms tidy = tidy

  handle_post_message-PostIs :
      (now : ℕ) (m : Message) (b : Board csv)
      → IsTidy b.messages
      → PostIs now m b (travel_time now m)
  unfolding handle_post_message
  handle_post_message-PostIs now m b tidy =
      let messages_are = handle_post_message-messages csv now m b in
      (
        subst IsTidy (sym messages_are) (pushed-IsTidy (logs csv now m b.file).0 m b.messages tidy),
        handle_post_message-file csv now m b,
        messages_are,
        elim (Bool-cases (logs csv now m b.file).0) [
          | inl l ↦ rw l (elim (Bool-cases (contains_text allowed_messages m.content)) [
            | inl e ↦ rw e ((λ h. (refl, refl)), (λ h. refl))
            | inr e ↦ rw e ((λ h. absurd (omega (arith, some-injective _ _ h))), (λ h. cc))
          ])
          | inr l ↦ rw l ((λ h. cc), (λ h. cc))
        ],
        elim (Bool-cases (logs csv now m b.file).0) [
          | inl l ↦ rw l (elim (Bool-cases (contains_text allowed_messages m.content)) [
            | inl e ↦ rw e ((λ h. cc), (λ h. cc))
            | inr e ↦ rw e ((λ h. cc), (λ h. cc))
          ])
          | inr l ↦ rw l ((λ h. refl), (λ h. refl))
        ],
      )

  -- At a time of 128 bits and for a time stamp of 128 bits: a post keeps the board to 100 messages at
  -- most, each with an allowed content or redacted. The row that is logged has the content and the
  -- time since the message was sent, modulo 2 ^ 128. When the row can be written the message is pushed,
  -- as it is or redacted, and the answer has the status 200 exactly when the content is allowed; when
  -- not, and only then, the handler panics, and the messages stay.
  pub handle_post_message-IsTidy :
      (now : ℕ) (m : Message) (b : Board csv)
      → m.timestamp < 2 ^ 128
      → now < 2 ^ 128
      → IsTidy b.messages
      → (t : ℕ) × (t < 2 ^ 128)
        × ((t + m.timestamp) % 2 ^ 128 ≡ now)
        × IsTidy (handle_post_message csv now m b).1.messages
        × ((handle_post_message csv now m b).1.file ≡ (log_row csv (m.content, t) b.file).1)
        × ((handle_post_message csv now m b).1.messages ≡ (
            if (log_row csv (m.content, t) b.file).0
            then push_message b.messages (shown m)
            else b.messages))
        × ((status_of (handle_post_message csv now m b).0 ≡ some 200) ↔ (
            ((log_row csv (m.content, t) b.file).0 ≡ true)
            × (contains_text allowed_messages m.content ≡ true)))
        × (((handle_post_message csv now m b).0 ≡ panic)
            ↔ ((log_row csv (m.content, t) b.file).0 ≡ false))
  handle_post_message-IsTidy now m b fits fits' tidy =
      let (small, wraps) = travel_time-wraps now m fits fits' in
      let (tidy', file_is, messages_are, status_is, panics) =
        handle_post_message-PostIs now m b tidy in
      (travel_time now m, small, wraps, tidy', file_is, messages_are, status_is, panics)
