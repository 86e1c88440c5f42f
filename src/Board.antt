-- ===== src/Board.antt =====
-- aimless-onions/src/bin/board.rs: the messages that arrive and who may read what. The state is the
-- list behind the mutex, which a handler holds while it changes it, and the file timestamps.csv.
pub mod Posts
pub mod Tidy
pub mod Routes
pub mod Traffic
pub mod Tests
use aimless_onions.Prelude.{
  ℕ, zero, suc, ◌+◌, ◌-◌, ◌%◌, ◌^◌, List, [], ◌∷◌, ◌++◌, length, drop, Bool, true, false, ◌&&◌,
  ◌||◌, ltb, ◌==◌, if◌then◌else◌,
}
use aimless_onions.Shared.{Message, Text}
use aimless_onions.Outcome.{Outcome, ok, panic}

abbrev pub allowed_messages : List Text
allowed_messages =
    (72 ∷ 101 ∷ 108 ∷ 108 ∷ 111 ∷ [])
    ∷ (71 ∷ 111 ∷ 111 ∷ 100 ∷ 98 ∷ 121 ∷ 101 ∷ [])
    ∷ (73 ∷ 32 ∷ 108 ∷ 105 ∷ 107 ∷ 101 ∷ 32 ∷ 79 ∷ 110 ∷ 105 ∷ 111 ∷ 110 ∷ 115 ∷ 33 ∷ [])
    ∷ (87 ∷ 111 ∷ 119 ∷ [])
    ∷ (84 ∷ 104 ∷ 105 ∷ 115 ∷ 32 ∷ 119 ∷ 111 ∷ 114 ∷ 107 ∷ 115 ∷ 33 ∷ [])
    ∷ []

abbrev pub redaction : Text
redaction =
    84 ∷ 104 ∷ 101 ∷ 32 ∷ 66 ∷ 111 ∷ 97 ∷ 114 ∷ 100 ∷ 32 ∷ 114 ∷ 101 ∷ 100 ∷ 97 ∷ 99 ∷ 116 ∷ 101
    ∷ 100 ∷ 32 ∷ 116 ∷ 104 ∷ 105 ∷ 115 ∷ 32 ∷ 109 ∷ 101 ∷ 115 ∷ 115 ∷ 97 ∷ 103 ∷ 101 ∷ 32 ∷ 98 ∷ 101
    ∷ 99 ∷ 97 ∷ 117 ∷ 115 ∷ 101 ∷ 32 ∷ 105 ∷ 116 ∷ 115 ∷ 32 ∷ 99 ∷ 111 ∷ 110 ∷ 116 ∷ 101 ∷ 110 ∷ 116
    ∷ 32 ∷ 105 ∷ 115 ∷ 32 ∷ 110 ∷ 111 ∷ 116 ∷ 32 ∷ 111 ∷ 110 ∷ 101 ∷ 32 ∷ 111 ∷ 102 ∷ 32 ∷ 116 ∷ 104
    ∷ 101 ∷ 32 ∷ 107 ∷ 110 ∷ 111 ∷ 119 ∷ 110 ∷ 32 ∷ 115 ∷ 116 ∷ 114 ∷ 105 ∷ 110 ∷ 103 ∷ 115 ∷ 46
    ∷ []

pub record Response : Type 0 where
  pub status : ℕ
  pub body : Text

-- The crate csv over timestamps.csv, a buffered writer: opening the file to append to it, writing a row,
-- flushing, and what happens when the writer is dropped. `false` is an `Err`.
pub record Csv : Type 1 where
  pub File : Type 0
  pub open_file : File → Bool × File
  pub serialize : Text × ℕ → File → Bool × File
  pub flush : File → Bool × File
  pub close : File → File

pub record Board (csv : Csv) : Type 0 where
  pub messages : List Message
  pub file : csv.File

abbrev pub empty_board : (csv : Csv) → csv.File → Board csv
empty_board csv file = record { messages = []; file = file }

unfoldable pub text_eq : Text → Text → Bool
text_eq [] [] = true
text_eq [] (y ∷ ys) = false
text_eq (x ∷ xs) [] = false
text_eq (x ∷ xs) (y ∷ ys) = x == y && text_eq xs ys

unfoldable pub contains_text : List Text → Text → Bool
contains_text [] t = false
contains_text (x ∷ xs) t = text_eq x t || contains_text xs t

abbrev pub redacted_message : Message
redacted_message = record { timestamp = 0; content = redaction }

-- `push` and, above 100 messages, `remove(0)`.
unfoldable pub push_message : List Message → Message → List Message
push_message messages m =
    let pushed = messages ++ m ∷ [] in if ltb 100 (length pushed) then drop 1 pushed else pushed

-- The difference of the times is one of u128.
unfoldable pub travel_time : ℕ → Message → ℕ
travel_time now m = (now + 2 ^ 128 - m.timestamp) % 2 ^ 128

abbrev pub not_allowed : Text
not_allowed =
    80 ∷ 97 ∷ 121 ∷ 108 ∷ 111 ∷ 97 ∷ 100 ∷ 32 ∷ 110 ∷ 111 ∷ 116 ∷ 32 ∷ 97 ∷ 108 ∷ 108 ∷ 111 ∷ 119
    ∷ 101 ∷ 100 ∷ []

abbrev pub received : Text
received =
    77 ∷ 101 ∷ 115 ∷ 115 ∷ 97 ∷ 103 ∷ 101 ∷ 32 ∷ 114 ∷ 101 ∷ 99 ∷ 101 ∷ 105 ∷ 118 ∷ 101 ∷ 100 ∷ []

module _ (csv : Csv) where
  open csv use {File, open_file, serialize, flush, close}

  abbrev if_good : Bool × File → (File → Bool × File) → Bool × File
  if_good (true, file) next = next file
  if_good (false, file) next = (false, file)

  -- The writer is dropped in any case, also when a panic unwinds.
  abbrev closed : Bool × File → Bool × File
  closed (good, file) = (good, close file)

  -- Whether none of the three `expect`s panics, and what becomes of the file.
  unfoldable pub log_row : Text × ℕ → File → Bool × File
  log_row row file =
      if_good (open_file file)
        (λ opened. closed (if_good (serialize row opened) (λ written. flush written)))

  -- A handler that panics sends no reply; the list is not touched then.
  unfoldable pub handle_post_message : ℕ → Message → Board csv → Outcome Response × Board csv
  handle_post_message now m b =
      let (logged, file) = log_row (m.content, travel_time now m) b.file in
      if logged
      then (if contains_text allowed_messages m.content
          then (
            ok (record { status = 200; body = received }),
            record { messages = push_message b.messages m; file = file },
          )
          else (
            ok (record { status = 400; body = not_allowed }),
            record { messages = push_message b.messages redacted_message; file = file },
          ))
      else (panic, record { messages = b.messages; file = file })

  -- The JSON of a list of messages comes from serde.
  unfoldable pub handle_get_messages : (List Message → Text) → Board csv → Response × Board csv
  handle_get_messages to_string b = (record { status = 200; body = to_string b.messages }, b)

  unfoldable pub handle_frontend : Text → Board csv → Response × Board csv
  handle_frontend board_html b = (record { status = 200; body = board_html }, b)
