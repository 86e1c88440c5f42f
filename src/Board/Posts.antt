-- ===== src/Board/Posts.antt =====
-- What the board of aimless-onions/src/bin/board.rs shows after a sequence of posts.
use aimless_onions.Prelude.{
  ℕ, zero, suc, ◌-◌, ◌≤◌, Bool, ◌≡◌, refl, ap, sym, ◌∙◌, arith, List, [], ◌∷◌, ◌++◌, map, length,
  length-append, drop, length-drop, true, false, Bool-cases, ltb, lt→ltb, dec_lt, if◌then◌else◌,
  inl, inr,
}
use mathlib.Core.List.{append_assoc, append-nil}
use aimless_onions.Shared.{Message}
use aimless_onions.Board.{
  Board, Csv, log_row, allowed_messages, redacted_message, empty_board, contains_text, push_message,
  handle_post_message, travel_time,
}

-- The last `n` of a list.
abbrev pub last_of {ℓ} : {A : Type ℓ} → ℕ → List A → List A
last_of n xs = drop (length xs - n) xs

-- A message as the board shows it.
unfoldable pub shown : Message → Message
shown m = if contains_text allowed_messages m.content then m else redacted_message

drop-append_left {ℓ} :
    {A : Type ℓ} (n : ℕ) (xs ys : List A) → n ≤ length xs → drop n (xs ++ ys) ≡ drop n xs ++ ys
drop-append_left zero xs ys h = refl
drop-append_left (suc n) [] ys h = absurd (omega (arith, h))
drop-append_left (suc n) (x ∷ xs) ys h = drop-append_left n xs ys (omega (arith, h))

drop-drop {ℓ} : {A : Type ℓ} (n : ℕ) (xs : List A) → drop 1 (drop n xs) ≡ drop (suc n) xs
drop-drop zero xs = refl
drop-drop (suc n) [] = refl
drop-drop (suc n) (x ∷ xs) = drop-drop n xs

pub not_more : {n : ℕ} → n ≤ 100 → ltb 100 n ≡ false
not_more h = ground (arith, h)

push_message-last_of :
    (all : List Message) (m : Message)
    → push_message (last_of 100 all) m ≡ last_of 100 (all ++ m ∷ [])
unfolding push_message
push_message-last_of all m = elim (dec_lt (length all) 100) [
  | yes few ↦
      let before : length all - 100 ≡ 0 = omega (arith, few) in
      let after : length (all ++ m ∷ []) - 100 ≡ 0 =
        omega (arith, few, length-append all (m ∷ [])) in
      let fits : ltb 100 (length (all ++ m ∷ [])) ≡ false =
        not_more (omega (arith, few, length-append all (m ∷ []))) in
      rw (before, after, fits)
  | no many ↦
      let older = length all - 100 in
      let after : length (all ++ m ∷ []) - 100 ≡ suc older =
        omega (arith, many, length-append all (m ∷ [])) in
      let full : ltb 100 (length (drop older all ++ m ∷ [])) ≡ true =
        lt→ltb 100 (length (drop older all ++ m ∷ []))
          (omega (arith, many, length-append (drop older all) (m ∷ []), length-drop older all)) in
      rw (after, full)
        (ap (drop 1) (sym (drop-append_left older all (m ∷ []) (omega (arith, many))))
          ∙ drop-drop older (all ++ m ∷ []))
]

module _ (csv : Csv) where
  unfoldable pub post_all : List (ℕ × Message) → Board csv → Board csv
  post_all [] b = b
  post_all ((now, m) ∷ ps) b = post_all ps (handle_post_message csv now m b).1

  -- Whether the row of a message can be logged, and the file after it.
  abbrev pub logs : ℕ → Message → csv.File → Bool × csv.File
  logs now m file = log_row csv (m.content, travel_time now m) file

  -- The messages whose rows are logged, one after the other.
  unfoldable pub logged_of : List (ℕ × Message) → csv.File → List Message
  logged_of [] file = []
  logged_of ((now, m) ∷ ps) file =
      let rest = logged_of ps (logs now m file).1 in if (logs now m file).0 then m ∷ rest else rest

  pub handle_post_message-messages :
      (now : ℕ) (m : Message) (b : Board csv)
      → (handle_post_message csv now m b).1.messages
        ≡ (if (logs now m b.file).0 then push_message b.messages (shown m) else b.messages)
  unfolding handle_post_message shown
  handle_post_message-messages now m b = elim (Bool-cases (logs now m b.file).0) [
    | inl l ↦ rw l (elim (Bool-cases (contains_text allowed_messages m.content)) [
      | inl e ↦ rw e refl
      | inr e ↦ rw e refl
    ])
    | inr l ↦ rw l refl
  ]

  pub handle_post_message-file :
      (now : ℕ) (m : Message) (b : Board csv)
      → (handle_post_message csv now m b).1.file ≡ (logs now m b.file).1
  unfolding handle_post_message
  handle_post_message-file now m b = elim (Bool-cases (logs now m b.file).0) [
    | inl l ↦ rw l (elim (Bool-cases (contains_text allowed_messages m.content)) [
      | inl e ↦ rw e refl
      | inr e ↦ rw e refl
    ])
    | inr l ↦ rw l refl
  ]

  post_all-last_of_from :
      (ps : List (ℕ × Message)) (all : List Message) (b : Board csv)
      → b.messages ≡ last_of 100 all
      → (post_all ps b).messages ≡ last_of 100 (all ++ map shown (logged_of ps b.file))
  unfolding post_all logged_of
  post_all-last_of_from [] all b h = rw (append-nil all) h
  post_all-last_of_from ((now, m) ∷ ps) all b h =
      let b' = (handle_post_message csv now m b).1 in
      let file_is = handle_post_message-file now m b in
      let messages_are = handle_post_message-messages now m b in
      elim (Bool-cases (logs now m b.file).0) [
        | inl l ↦
            let next = post_all-last_of_from ps (all ++ shown m ∷ []) b' (
              (rw l at messages_are)
              ∙ ap (λ (ms : List Message). push_message ms (shown m)) h
              ∙ push_message-last_of all (shown m)) in
            rw l (
              next
              ∙ ap (last_of 100)
                  (append_assoc all (shown m ∷ []) (map shown (logged_of ps b'.file)))
              ∙ ap (λ (f : csv.File). last_of 100 (all ++ shown m ∷ map shown (logged_of ps f)))
                  file_is)
        | inr l ↦ rw l (
            post_all-last_of_from ps all b' ((rw l at messages_are) ∙ h)
            ∙ ap (λ (f : csv.File). last_of 100 (all ++ map shown (logged_of ps f))) file_is)
      ]

  -- After any posts to an empty board it holds the last 100 of the messages whose rows could be
  -- written to the log, in the order of the posts, each with an allowed content as it was posted and
  -- each other one as the redacted message. A message whose row could not be written is not shown.
  pub post_all-last_of :
      (ps : List (ℕ × Message)) (file : csv.File)
      → (post_all ps (empty_board csv file)).messages ≡ last_of 100 (map shown (logged_of ps file))
  post_all-last_of ps file = post_all-last_of_from ps [] (empty_board csv file) refl
