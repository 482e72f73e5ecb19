-- ===== src/Tests/Http.antt =====
-- The theorems on the HTTP server (server/src/ya_server_http.c) at concrete inputs, and runs of it.
use mouse_hero.Base.{
  ℕ, ◌≡◌, refl, Bool, true, false, Option, none, some, [], ◌∷◌, ◌-◌, ◌==◌, if◌then◌else◌, arith,
}
use mouse_hero.Base.Ascii.{ascii}
use mouse_hero.Clients.{init}
use mouse_hero.Config.Lookup.{Sets}
use mouse_hero.Config.{ya_config_init}
use mouse_hero.Http.{
  Context, RequestReader, error_reply, handle_post_config, post_entry, post_entries, Request,
  status_path, get_method, handle_request,
}
use mouse_hero.Http.PostConfig.{malformed_post}
use mouse_hero.Http.Replies.{IsAnswer, handle_request-IsAnswer}
use mouse_hero.Server.{running}
use mouse_hero.Wire.{Bytes}

-- A toy encoding: 144 + n is an array, 128 starts a map, and 160 is a text of one byte.
data ToyReader : Type 0 where
  failed : ToyReader
  at : Bytes → ToyReader

abbrev toy_tag : ToyReader → Option ℕ × ToyReader
toy_tag failed = (none, failed)
toy_tag (at []) = (none, failed)
toy_tag (at (c ∷ cs)) = (some (c - 144), at cs)

abbrev toy_map : ToyReader → ToyReader
toy_map failed = failed
toy_map (at []) = failed
toy_map (at (c ∷ cs)) = if c == 128 then at cs else failed

abbrev toy_text : ToyReader → ℕ → Bytes × ToyReader
toy_text (at (c ∷ (d ∷ cs))) size = if c == 160 then (d ∷ [], at cs) else ([], failed)
toy_text (at (c ∷ [])) size = ([], failed)
toy_text (at []) size = ([], failed)
toy_text failed size = ([], failed)

abbrev toy_error : ToyReader → Bool
toy_error failed = true
toy_error (at cs) = false

toy_map_sticks : (r : ToyReader) → toy_error r ≡ true → toy_error (toy_map r) ≡ true
toy_map_sticks failed h = refl
toy_map_sticks (at cs) h = absurd (ground (arith, h))

toy_text_sticks :
    (r : ToyReader) (size : ℕ) → toy_error r ≡ true → toy_error (toy_text r size).1 ≡ true
toy_text_sticks failed size h = refl
toy_text_sticks (at cs) size h = absurd (ground (arith, h))

toy_text_empty : (r : ToyReader) (size : ℕ) → toy_error r ≡ true → (toy_text r size).0 ≡ []
toy_text_empty failed size h = refl
toy_text_empty (at cs) size h = absurd (ground (arith, h))

abbrev toy : RequestReader
toy = record {
  Reader = ToyReader;
  init_data = at;
  read_tag = toy_tag;
  expect_map = toy_map;
  expect_utf8_cstr = toy_text;
  has_error = toy_error;
  expect_map_sticks = toy_map_sticks;
  expect_utf8_cstr_sticks = toy_text_sticks;
  expect_utf8_cstr_empty = toy_text_empty;
}

abbrev enough : ℕ → Bool
enough n = true

-- Two elements are announced, the second is missing.
abbrev truncated : Bytes
truncated = 146 ∷ 128 ∷ 160 ∷ 115 ∷ 160 ∷ 97 ∷ 160 ∷ 107 ∷ 160 ∷ 98 ∷ 160 ∷ 118 ∷ 160 ∷ 99 ∷ []

abbrev element : ToyReader
element = at (128 ∷ 160 ∷ 115 ∷ 160 ∷ 97 ∷ 160 ∷ 107 ∷ 160 ∷ 98 ∷ 160 ∷ 118 ∷ 160 ∷ 99 ∷ [])

bad : toy_error (toy_map (post_entries toy enough true 1 element ya_config_init).1) ≡ true
unfolding post_entry
bad = refl

malformed_post_example :
    ((handle_post_config toy enough true truncated ya_config_init).reply
      ≡ error_reply (ascii "Failed to parse request data."))
    × ((handle_post_config toy enough true truncated ya_config_init).saved ≡ none)
    × Sets [] [] []
        (post_entries toy enough true 1 element ya_config_init).0
        (handle_post_config toy enough true truncated ya_config_init).config
malformed_post_example =
    malformed_post toy enough true truncated ya_config_init 1 0 element refl bad (λ n. refl)

abbrev context : Context
context = record {
  state = running;
  session_addr = some (ascii "0.0.0.0:34567");
  command_addr = none;
  http_addr = some (ascii "127.0.0.1:8080");
  clients = init;
  peer_addr = λ fd. ascii "10.0.0.2";
}

abbrev asks_status : Request
asks_status = record {
  route = status_path;
  method = get_method;
  body = [];
  allocates = true;
  encodes = true;
}

handle_request-IsAnswer_example :
    IsAnswer (handle_request toy enough true context asks_status ya_config_init).response
unfolding init
handle_request-IsAnswer_example =
    handle_request-IsAnswer toy enough true context asks_status ya_config_init (omega arith)
      (omega arith)
