-- ===== src/Http.antt =====
-- The HTTP server's requests (server/src/ya_server_http.c). A handler writes its answer by calls of the
-- MessagePack library, which are recorded as tokens in order. The reader of a request and the peer
-- addresses of sockets are interfaces. run_http_server and stop_http_server are with the server's start.
pub mod Replies
pub mod PostConfig
use mouse_hero.Base.Ascii.{ascii}
use mouse_hero.Base.Int.{ℤ, pos, negsuc, is_zero}
use mouse_hero.Base.{
  ◌%◌, ℕ, zero, suc, ◌+◌, ◌*◌, Bool, true, false, not, ◌&&◌, Option, none, some, List, [], ◌∷◌,
  ◌++◌, length, ◌≡◌, if◌then◌else◌,
}
use mouse_hero.Clients.{Client, Manager, nodes, get_count, is_active, u32_mod}
use mouse_hero.Config.{Config, Entry, ya_config_get, ya_config_set, ya_config_save}
use mouse_hero.Server.{State, initial, running, stopping, stopped}
use mouse_hero.Wire.{Bytes}

-- mpack_start_map, mpack_start_array, mpack_write_cstr, mpack_write_u32 and mpack_write_u64, and
-- mpack_finish_map and mpack_finish_array
pub data Token : Type 0 where
  start_map start_array : ℕ → Token
  cstr : Bytes → Token
  number : ℕ → Token
  finish : Token

abbrev pub state_to_string : State → Bytes
state_to_string initial = ascii "INIT"
state_to_string running = ascii "RUNNING"
state_to_string stopping = ascii "STOPPING"
state_to_string stopped = ascii "STOPPED"

-- `a ? a : ""`
abbrev pub or_empty : Option Bytes → Bytes
or_empty none = []
or_empty (some a) = a

-- What the handlers read of the server's context.
pub record Context : Type 0 where
  pub state : State
  pub session_addr : Option Bytes
  pub command_addr : Option Bytes
  pub http_addr : Option Bytes
  pub clients : Manager
  pub peer_addr : ℤ → Bytes

unfoldable pub handle_command : List Token
handle_command = start_map 1 ∷ cstr (ascii "result") ∷ cstr (ascii "success") ∷ finish ∷ []

abbrev pub client_tokens : Context → Client → List Token
client_tokens x c =
    start_map 3
    ∷ cstr (ascii "uid")
    ∷ number c.uid
    ∷ cstr (ascii "address")
    ∷ cstr (x.peer_addr c.fd)
    ∷ cstr (ascii "connected_at")
    ∷ number c.connected_at
    ∷ finish
    ∷ []

-- The loops over the chains
abbrev pub clients_tokens : Context → List Client → List Token
clients_tokens x [] = []
clients_tokens x (c ∷ cs) =
    (if is_active c.state then client_tokens x c else []) ++ clients_tokens x cs

abbrev pub listeners_tokens : Context → List Token → List Token
listeners_tokens x later =
    cstr (ascii "listeners")
    ∷ start_map 3
    ∷ cstr (ascii "session")
    ∷ cstr (or_empty x.session_addr)
    ∷ cstr (ascii "command")
    ∷ cstr (or_empty x.command_addr)
    ∷ cstr (ascii "http")
    ∷ cstr (or_empty x.http_addr)
    ∷ finish
    ∷ later

abbrev pub log_tokens : Config → List Token
log_tokens config =
    finish
    ∷ cstr (ascii "log_path")
    ∷ cstr (or_empty (ya_config_get config (some (ascii "logger")) (some (ascii "file"))))
    ∷ finish
    ∷ []

unfoldable pub handle_status : Context → Config → List Token
handle_status x config =
    start_map 4
    ∷ cstr (ascii "server_status")
    ∷ cstr (state_to_string x.state)
    ∷ listeners_tokens x (
        cstr (ascii "connected_clients")
        ∷ start_array (get_count x.clients)
        ∷ (clients_tokens x (nodes x.clients) ++ log_tokens config))

abbrev pub entry_tokens : Entry → List Token → List Token
entry_tokens e later =
    start_map 3
    ∷ cstr (ascii "section")
    ∷ cstr e.section
    ∷ cstr (ascii "key")
    ∷ cstr e.key
    ∷ cstr (ascii "value")
    ∷ cstr e.value
    ∷ finish
    ∷ later

abbrev pub entries_tokens : List Entry → List Token
entries_tokens [] = finish ∷ []
entries_tokens (e ∷ es) = entry_tokens e (entries_tokens es)

unfoldable pub handle_get_config : Config → List Token
handle_get_config config =
    start_array (length config.entries % u32_mod) ∷ entries_tokens config.entries

-- The reader of the MessagePack library. `read_tag` is the count of an array, or `none` for any other
-- tag; expect_utf8_cstr reads into a buffer of a size, and leaves an empty text where there is an error;
-- an error that has been flagged stays. `has_error` is that mpack_reader_destroy is not mpack_ok.
pub record RequestReader : Type 1 where
  pub Reader : Type 0
  pub init_data : Bytes → Reader
  pub read_tag : Reader → Option ℕ × Reader
  pub expect_map : Reader → Reader
  pub expect_utf8_cstr : Reader → ℕ → Bytes × Reader
  pub has_error : Reader → Bool
  pub expect_map_sticks : (r : Reader) → has_error r ≡ true → has_error (expect_map r) ≡ true
  pub expect_utf8_cstr_sticks :
      (r : Reader) (size : ℕ) → has_error r ≡ true → has_error (expect_utf8_cstr r size).1 ≡ true
  pub expect_utf8_cstr_empty :
      (r : Reader) (size : ℕ) → has_error r ≡ true → (expect_utf8_cstr r size).0 ≡ []

abbrev pub success_reply : List Token
success_reply = start_map 1 ∷ cstr (ascii "result") ∷ cstr (ascii "success") ∷ finish ∷ []

abbrev pub error_reply : Bytes → List Token
error_reply message =
    start_map 2
    ∷ cstr (ascii "result")
    ∷ cstr (ascii "error")
    ∷ cstr (ascii "message")
    ∷ cstr message
    ∷ finish
    ∷ []

-- The answer, the configuration, and the file that was written, if one was.
pub record Posted : Type 0 where
  pub reply : List Token
  pub config : Config
  pub saved : Option Bytes

-- `opens` says whether the configuration's file can be written.
module _ (mp : RequestReader) (realloc : ℕ → Bool) (opens : Bool) where
  open mp use {Reader, init_data, read_tag, expect_map, expect_utf8_cstr, has_error}

  -- One round of the loop: the names of the three fields are read and not looked at.
  unfoldable pub post_entry : Reader → Config → Config × Reader
  post_entry r config =
      let r1 = (expect_utf8_cstr (expect_map r) 64).1 in
      let (section, r2) = expect_utf8_cstr r1 64 in
      let r3 = (expect_utf8_cstr r2 64).1 in
      let (key, r4) = expect_utf8_cstr r3 64 in
      let r5 = (expect_utf8_cstr r4 64).1 in
      let (value, r6) = expect_utf8_cstr r5 256 in
      ((ya_config_set realloc config (some section) (some key) (some value)).1, r6)

  abbrev pub post_entries : ℕ → Reader → Config → Config × Reader
  post_entries zero r config = (config, r)
  post_entries (suc n) r config =
      let (config', r') = post_entry r config in post_entries n r' config'

  abbrev pub save_posted : Config → ℤ × Option Bytes → Posted
  save_posted config (status, file) =
      if is_zero status
      then record { reply = success_reply; config = config; saved = file }
      else record {
        reply = error_reply (ascii "Failed to save configuration file.");
        config = config;
        saved = none;
      }

  abbrev pub finish_post : Config × Reader → Posted
  finish_post (config, r) =
      if has_error r
      then record {
        reply = error_reply (ascii "Failed to parse request data.");
        config = config;
        saved = none;
      }
      else save_posted config (ya_config_save opens config)

  abbrev pub post_array : Option ℕ × Reader → Config → Posted
  post_array (none, r) config = record {
    reply = error_reply (ascii "Invalid request format: expected an array.");
    config = config;
    saved = none;
  }
  post_array (some count, r) config = finish_post (post_entries count r config)

  unfoldable pub handle_post_config : Bytes → Config → Posted
  handle_post_config request config = post_array (read_tag (init_data request)) config

-- The paths that have a handler, and the methods.
pub data Route : Type 0 where
  command_path status_path config_path : Route

pub data Method : Type 0 where
  get_method post_method other_method : Method

pub data Response : Type 0 where
  bad_method internal_error : Response
  sent : List Token → Response

-- A request, and whether there is memory for its body and for the answer.
pub record Request : Type 0 where
  pub route : Route
  pub method : Method
  pub body : Bytes
  pub allocates : Bool
  pub encodes : Bool

-- The response, the configuration, and the file that was written, if one was.
pub record Handled : Type 0 where
  pub response : Response
  pub config : Config
  pub saved : Option Bytes

abbrev pub is_post : Method → Bool
is_post post_method = true
is_post _ = false

abbrev pub is_empty : Bytes → Bool
is_empty [] = true
is_empty (c ∷ cs) = false

-- process_request, where the handler has given `p`. The body is copied before the handler runs.
abbrev pub process_request : Request → Config → Posted → Handled
process_request q config p =
    if is_post q.method && (not (is_empty q.body) && not q.allocates)
    then record { response = internal_error; config = config; saved = none }
    else record {
      response = if q.encodes then sent p.reply else internal_error;
      config = p.config;
      saved = p.saved;
    }

abbrev pub refuse : Config → Handled
refuse config = record { response = bad_method; config = config; saved = none }

abbrev pub unchanged : Config → List Token → Posted
unchanged config tokens = record { reply = tokens; config = config; saved = none }

module _ (mp : RequestReader) (realloc : ℕ → Bool) (opens : Bool) (x : Context) where
  abbrev pub handle_command_request : Method → Request → Config → Handled
  handle_command_request post_method q config =
      process_request q config (unchanged config handle_command)
  handle_command_request get_method q config = refuse config
  handle_command_request other_method q config = refuse config

  abbrev pub handle_status_request : Method → Request → Config → Handled
  handle_status_request get_method q config =
      process_request q config (unchanged config (handle_status x config))
  handle_status_request post_method q config = refuse config
  handle_status_request other_method q config = refuse config

  abbrev pub handle_config_request : Method → Request → Config → Handled
  handle_config_request get_method q config =
      process_request q config (unchanged config (handle_get_config config))
  handle_config_request post_method q config =
      process_request q config (handle_post_config mp realloc opens q.body config)
  handle_config_request other_method q config = refuse config

  abbrev pub routed : Route → Request → Config → Handled
  routed command_path q config = handle_command_request q.method q config
  routed status_path q config = handle_status_request q.method q config
  routed config_path q config = handle_config_request q.method q config

  unfoldable pub handle_request : Request → Config → Handled
  handle_request q config = routed q.route q config
