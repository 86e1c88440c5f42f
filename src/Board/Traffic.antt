-- ===== src/Board/Traffic.antt =====
-- What the board of aimless-onions/src/bin/board.rs shows after any requests to its routes.
use aimless_onions.Prelude.{
  ℕ, ◌≡◌, refl, ap, sym, ◌∙◌, Bool-cases, inl, inr, Option, none, some, List, [], ◌∷◌, map,
  if◌then◌else◌,
}
use aimless_onions.Shared.{Message, Text}
use aimless_onions.Board.{
  Board, Csv, empty_board, text_eq, handle_post_message, handle_get_messages, handle_frontend,
}
use aimless_onions.Board.Posts.{shown, post_all, logged_of, last_of, post_all-last_of}
use aimless_onions.Board.Routes.{
  Method, get_method, post_method, other_method, Request, relay_segment, messages_segment,
  board_segment, relay_route, messages_route, frontend_route, routes_for, routes, serve,
}

-- The message that a request posts, if it posts one: a POST under `relay` with a message.
abbrev pub posted_by : Method → Text → Option Message → Option Message
posted_by get_method segment message = none
posted_by other_method segment message = none
posted_by post_method segment message = if text_eq segment relay_segment then message else none

abbrev pub posted : Request → Option Message
posted q = posted_by q.method q.segment q.message

abbrev pub with_time : ℕ → Option Message → List (ℕ × Message) → List (ℕ × Message)
with_time now none posts = posts
with_time now (some m) posts = (now, m) ∷ posts

-- The posted messages with the times at which they arrive.
abbrev pub posts : List (ℕ × Request) → List (ℕ × Message)
posts [] = []
posts ((now, q) ∷ qs) = with_time now (posted q) (posts qs)

abbrev after_post : (csv : Csv) → ℕ → Option Message → Board csv → Board csv
after_post csv now none b = b
after_post csv now (some m) b = (handle_post_message csv now m b).1

module _ (csv : Csv) (to_string : List Message → Text) (html : Text) where
  relay_route-after_post :
      (now : ℕ) (method : Method) (segment : Text) (message : Option Message) (b : Board csv)
      → (relay_route csv to_string html now
          (record { method = method; segment = segment; message = message })
          b).1
        ≡ after_post csv now message b
  unfolding relay_route
  relay_route-after_post now method segment none b = refl
  relay_route-after_post now method segment (some m) b = refl

  routes_for-after_post :
      (method : Method) (now : ℕ) (q : Request) (b : Board csv)
      → (routes_for csv to_string html method now q b).1
        ≡ after_post csv now (posted_by method q.segment q.message) b
  unfolding routes_for messages_route frontend_route handle_get_messages handle_frontend
  routes_for-after_post post_method now q b = elim (Bool-cases (text_eq q.segment relay_segment)) [
    | inl e ↦ rw e (relay_route-after_post now q.method q.segment q.message b)
    | inr e ↦ rw e refl
  ]
  routes_for-after_post other_method now q b = refl
  routes_for-after_post get_method now q b =
      elim (Bool-cases (text_eq q.segment messages_segment)) [
        | inl e ↦ rw e refl
        | inr e ↦ rw e (elim (Bool-cases (text_eq q.segment board_segment)) [
          | inl e' ↦ rw e' refl
          | inr e' ↦ rw e' refl
        ])
      ]

  post_all-with_time :
      (now : ℕ) (m : Option Message) (rest : List (ℕ × Message)) (b : Board csv)
      → post_all csv (with_time now m rest) b ≡ post_all csv rest (after_post csv now m b)
  unfolding post_all
  post_all-with_time now none rest b = refl
  post_all-with_time now (some m) rest b = refl

  serve-post_all :
      (qs : List (ℕ × Request)) (b : Board csv)
      → serve csv to_string html qs b ≡ post_all csv (posts qs) b
  unfolding serve post_all routes
  serve-post_all [] b = refl
  serve-post_all ((now, q) ∷ qs) b =
      ap (serve csv to_string html qs) (routes_for-after_post q.method now q b)
      ∙ serve-post_all qs (after_post csv now (posted q) b)
      ∙ sym (post_all-with_time now (posted q) (posts qs) b)

  -- After any requests to an empty board, with any methods, paths and bodies, it holds the last 100
  -- of the messages that came in a POST under `relay` and whose rows could be written to the log, in
  -- order, each as it was or redacted. No other request changes it.
  pub serve-last_of :
      (qs : List (ℕ × Request)) (file : csv.File)
      → (serve csv to_string html qs (empty_board csv file)).messages
        ≡ last_of 100 (map shown (logged_of csv (posts qs) file))
  serve-last_of qs file =
      ap (λ (b : Board csv). b.messages) (serve-post_all qs (empty_board csv file))
      ∙ post_all-last_of csv (posts qs) file
