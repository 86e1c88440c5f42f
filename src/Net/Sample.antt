-- ===== src/Net/Sample.antt =====
-- A simple network for runs of the relay and the client of aimless-onions/src/bin/. The world is its
-- clock, a request takes a nanosecond, and a response is the URL that was asked. An address that
-- begins with 0 belongs to an authority that never answers well.
use aimless_onions.Prelude.{ℕ, zero, suc, ◌+◌, Bool, true, false, Option, none, some, [], ◌∷◌, ◌++◌}
use aimless_onions.Shared.{Text}
use aimless_onions.Net.{Http}

abbrev pub answers_well : Text → Bool
answers_well [] = true
answers_well (zero ∷ url) = false
answers_well (suc n ∷ url) = true

abbrev pub given_by {ℓ} : {A : Type ℓ} → Text → A → Option A
given_by url a = elim (answers_well url) [ true ↦ some a | false ↦ none ]

abbrev pub network : Http ℕ ℕ
network = record {
  World = ℕ;
  Url = Text;
  Certificate = ℕ;
  HttpClient = ℕ;
  Response = Text;
  parse = λ address. some address;
  join = λ url path. some (url ++ path);
  read_file = λ path w. (some path, w);
  from_pem = λ bytes. some 1;
  build = λ certificate. some 1;
  plain_client = 0;
  get = λ http url w. (some url, suc w);
  post = λ http url body w. (some url, suc w);
  status = λ url. 200;
  json_address = λ url. given_by url (url, 80);
  json_public_key = λ url. given_by url 11;
  json_key_pairs = λ url. given_by url [];
  now = λ w. w;
  sleep = λ d w. d + w;
}
