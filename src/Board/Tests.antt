-- ===== src/Board/Tests.antt =====
-- Runs of the handlers of aimless-onions/src/bin/board.rs.
use aimless_onions.Prelude.{
  ℕ, ◌+◌, ◌%◌, ◌^◌, ◌<◌, ◌≡◌, refl, arith, some, none, List, [], ◌∷◌, map, length, ◌↔◌, true, false,
  ltb, ◌++◌, if◌then◌else◌,
}
use aimless_onions.Shared.{Message, Text}
use aimless_onions.Outcome.{panic}
use aimless_onions.Board.{
  Board, Csv, log_row, allowed_messages, redacted_message, empty_board, contains_text, text_eq,
  push_message, handle_post_message, handle_get_messages, travel_time,
}
use aimless_onions.Board.Routes.{
  get_method, post_method, other_method, Request, relay_segment, messages_segment, replace,
  replace_from, starts_with, serve,
}
use aimless_onions.Board.Traffic.{posts, serve-last_of}
use aimless_onions.Board.Tidy.{status_of, IsTidy, handle_post_message-IsTidy}
use aimless_onions.Board.Posts.{shown, logged_of, post_all, last_of, post_all-last_of}

abbrev wow : Message
wow = record { timestamp = 70; content = 87 ∷ 111 ∷ 119 ∷ [] }

abbrev other : Message
other = record { timestamp = 80; content = 87 ∷ 111 ∷ [] }

-- A file with room for two rows.
abbrev small_file : Csv
small_file = record {
  File = List (Text × ℕ);
  open_file = λ rows. (true, rows);
  serialize = λ row rows. if ltb (length rows) 2 then (true, rows ++ row ∷ []) else (false, rows);
  flush = λ rows. (true, rows);
  close = λ rows. rows;
}

abbrev three_posts : List (ℕ × Message)
three_posts = (75, wow) ∷ (75, other) ∷ (76, wow) ∷ []

-- The third message is lost, since its row cannot be written.
two_shown :
    (post_all small_file three_posts (empty_board small_file [])).messages
    ≡ wow ∷ redacted_message ∷ []
unfolding post_all handle_post_message log_row push_message contains_text text_eq
two_shown = refl

-- A time stamp in the future gives a travel time near 2 ^ 128.
from_the_future : travel_time 75 other ≡ 340282366920938463463374607431768211451
unfolding travel_time
from_the_future = refl

answer :
    (handle_get_messages small_file
      (λ ms. length ms ∷ [])
      (handle_post_message small_file 75 wow (empty_board small_file [])).1).0.body
    ≡ 1 ∷ []
unfolding handle_get_messages handle_post_message log_row push_message contains_text text_eq
answer = refl

post_all-last_of_example :
    (post_all small_file three_posts (empty_board small_file [])).messages
    ≡ last_of 100 (map shown (logged_of small_file three_posts []))
post_all-last_of_example = post_all-last_of small_file three_posts []

-- A message with a time stamp that is later than now.
abbrev after_other : Board small_file
after_other = (handle_post_message small_file 75 other (empty_board small_file [])).1

handle_post_message-IsTidy_example :
    (t : ℕ) × (t < 2 ^ 128)
    × ((t + other.timestamp) % 2 ^ 128 ≡ 75)
    × IsTidy after_other.messages
    × (after_other.file ≡ (log_row small_file (other.content, t) []).1)
    × (after_other.messages ≡ (
        if (log_row small_file (other.content, t) []).0 then push_message [] (shown other) else []))
    × ((status_of (handle_post_message small_file 75 other (empty_board small_file [])).0
          ≡ some 200)
        ↔ (((log_row small_file (other.content, t) []).0 ≡ true)
            × (contains_text allowed_messages other.content ≡ true)))
    × (((handle_post_message small_file 75 other (empty_board small_file [])).0 ≡ panic)
        ↔ ((log_row small_file (other.content, t) []).0 ≡ false))
handle_post_message-IsTidy_example =
    handle_post_message-IsTidy small_file 75 other (empty_board small_file []) (omega arith)
      (omega arith) (record { few = omega arith; all_shown = tt })

-- A post, a look at the messages, a post to a path that takes none and another method.
abbrev visits : List (ℕ × Request)
visits =
    (75, record { method = post_method; segment = relay_segment; message = some wow })
    ∷ (76, record { method = get_method; segment = messages_segment; message = none })
    ∷ (77, record { method = post_method; segment = messages_segment; message = some wow })
    ∷ (78, record { method = other_method; segment = relay_segment; message = some wow })
    ∷ []

one_posted : posts visits ≡ (75, wow) ∷ []
unfolding text_eq
one_posted = refl

replaced : replace (120 ∷ 37 ∷ 37 ∷ 121 ∷ []) (37 ∷ 37 ∷ []) (65 ∷ []) ≡ 120 ∷ 65 ∷ 121 ∷ []
unfolding replace_from starts_with
replaced = refl

serve-last_of_example :
    (serve small_file (λ ms. length ms ∷ []) [] visits (empty_board small_file [])).messages
    ≡ last_of 100 (map shown (logged_of small_file (posts visits) []))
serve-last_of_example = serve-last_of small_file (λ ms. length ms ∷ []) [] visits []
