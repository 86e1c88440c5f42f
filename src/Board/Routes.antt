-- ===== src/Board/Routes.antt =====
-- The page and the routes of aimless-onions/src/bin/board.rs. warp answers a request that no route takes
-- with an error, here `none`, and the text of board.html is an argument.
use aimless_onions.Prelude.{
  ℕ, zero, suc, Bool, true, false, ◌&&◌, Option, none, some, List, [], ◌∷◌, ◌++◌, length, map, drop,
  if◌then◌else◌, ◌==◌,
}
use aimless_onions.Shared.{Message, Text}
use aimless_onions.Outcome.{Outcome, ok}
use aimless_onions.Net.{any_address, expect_outcome, parse_socket_addr}
use aimless_onions.Board.{
  Board, Csv, Response, allowed_messages, text_eq, handle_post_message, handle_get_messages,
  handle_frontend,
}

-- `format!("<code>'{}'</code>", m)`
abbrev pub human_string : Text → Text
human_string m =
    (60 ∷ 99 ∷ 111 ∷ 100 ∷ 101 ∷ 62 ∷ 39 ∷ [])
    ++ m
    ++ (39 ∷ 60 ∷ 47 ∷ 99 ∷ 111 ∷ 100 ∷ 101 ∷ 62 ∷ [])

-- `join`
unfoldable pub join : Text → List Text → Text
join separator [] = []
join separator (t ∷ []) = t
join separator (t ∷ u ∷ us) = t ++ separator ++ join separator (u ∷ us)

-- Whether a text begins with another one.
unfoldable pub starts_with : Text → Text → Bool
starts_with [] t = true
starts_with (x ∷ xs) [] = false
starts_with (x ∷ xs) (y ∷ ys) = x == y && starts_with xs ys

-- `replace`, from the left, without overlaps. Each round takes a character at least, so the length of
-- the text is enough fuel.
unfoldable pub replace_from : ℕ → Text → Text → Text → Text
replace_from zero pattern by text = text
replace_from (suc fuel) pattern by [] = []
replace_from (suc fuel) pattern by (x ∷ xs) = elim (starts_with pattern (x ∷ xs)) [
  | true ↦ by ++ replace_from fuel pattern by (drop (length pattern) (x ∷ xs))
  | false ↦ x ∷ replace_from fuel pattern by xs
]

abbrev pub replace : Text → Text → Text → Text
replace text pattern by = replace_from (length text) pattern by text

abbrev pub placeholder : Text
placeholder = 37 ∷ 37 ∷ 77 ∷ 69 ∷ 83 ∷ 83 ∷ 65 ∷ 71 ∷ 69 ∷ 83 ∷ 37 ∷ 37 ∷ []

unfoldable pub board_html : Text → Text
board_html html = replace html placeholder (join (44 ∷ 32 ∷ []) (map human_string allowed_messages))

-- The methods that the filters of `main` name, and all other ones.
pub data Method : Type 0 where
  get_method post_method other_method : Method

-- A method, the first segment of the path, and the body if it is a message in JSON.
pub record Request : Type 0 where
  pub method : Method
  pub segment : Text
  pub message : Option Message

abbrev pub relay_segment : Text
relay_segment = 114 ∷ 101 ∷ 108 ∷ 97 ∷ 121 ∷ []

abbrev pub messages_segment : Text
messages_segment = 109 ∷ 101 ∷ 115 ∷ 115 ∷ 97 ∷ 103 ∷ 101 ∷ 115 ∷ []

abbrev pub board_segment : Text
board_segment = 98 ∷ 111 ∷ 97 ∷ 114 ∷ 100 ∷ []

module _ (csv : Csv) (to_string : List Message → Text) (html : Text) where
  -- What the sender gets: warp's error if no route takes the request, else what the handler gives.
  abbrev pub Handled : Type 0
  Handled = Option (Outcome Response)

  unfoldable pub relay_route : ℕ → Request → Board csv → Handled × Board csv
  relay_route now q b = elim q.message [
    | none ↦ (none, b)
    | some m ↦ let (response, b') = handle_post_message csv now m b in (some response, b')
  ]

  unfoldable pub messages_route : Board csv → Handled × Board csv
  messages_route b =
      let (response, b') = handle_get_messages csv to_string b in (some (ok response), b')

  unfoldable pub frontend_route : Board csv → Handled × Board csv
  frontend_route b =
      let (response, b') = handle_frontend csv (board_html html) b in (some (ok response), b')

  -- The routes, tried in order.
  unfoldable pub routes_for : Method → ℕ → Request → Board csv → Handled × Board csv
  routes_for post_method now q b =
      if text_eq q.segment relay_segment then relay_route now q b else (none, b)
  routes_for get_method now q b =
      if text_eq q.segment messages_segment
      then messages_route b
      else if text_eq q.segment board_segment
      then frontend_route b
      else (none, b)
  routes_for other_method now q b = (none, b)

  unfoldable pub routes : ℕ → Request → Board csv → Handled × Board csv
  routes now q b = routes_for q.method now q b

  -- The board after requests at their times. A panic ends the task of one request, not the server, and
  -- leaves the list unlocked.
  unfoldable pub serve : List (ℕ × Request) → Board csv → Board csv
  serve [] b = b
  serve ((now, q) ∷ qs) b = serve qs (routes now q b).1

pub record Config : Type 0 where
  pub port : ℕ

-- Where the server listens.
unfoldable pub listen : {A : Type 0} → (Text → Option (List A)) → Config → Outcome A
listen to_socket_addrs config =
    expect_outcome (parse_socket_addr to_socket_addrs any_address config.port)
