-- ===== src/Http/Replies.antt =====
-- The answers of the HTTP server are one value each (server/src/ya_server_http.c).
use mouse_hero.Base.{
  ◌%◌, ℕ, zero, suc, ◌*◌, ◌<◌, ◌≡◌, refl, ap, ◌∙◌, Bool, true, false, not, ◌&&◌, Option, none, some,
  List, [], ◌∷◌, ◌++◌, length, if◌then◌else◌, Bool-cases, inl, inr, arith,
}
use mouse_hero.Base.Int.{ℤ, is_zero}
use mouse_hero.Clients.{Client, Manager, nodes, get_count, count_active, is_active, u32_mod}
use mouse_hero.Config.{Config, Entry, ya_config_save}
use mouse_hero.Http.{
  Token, start_map, start_array, cstr, number, finish, Context, handle_command, clients_tokens,
  log_tokens, handle_status, entries_tokens, handle_get_config, RequestReader, Posted, save_posted,
  finish_post, post_array, post_entries, handle_post_config, Route, command_path, status_path,
  config_path, Method, get_method, post_method, other_method, Response, internal_error, sent,
  Request, Handled, process_request, unchanged, routed, handle_request, is_post, is_empty,
  handle_command_request, handle_status_request, handle_config_request,
}
use mouse_hero.Wire.{Bytes}

-- How many values each open compound, and the whole document, still wants, the innermost first. A map of
-- n pairs wants 2n values.
abbrev pub wants : List ℕ → Option (List ℕ)
wants [] = none
wants (zero ∷ s) = none
wants (suc n ∷ s) = some (n ∷ s)

abbrev opens_with : ℕ → Option (List ℕ) → Option (List ℕ)
opens_with n none = none
opens_with n (some s) = some (n ∷ s)

abbrev pub take_token : Token → List ℕ → Option (List ℕ)
take_token (start_map n) s = opens_with (2 * n) (wants s)
take_token (start_array n) s = opens_with n (wants s)
take_token (cstr t) s = wants s
take_token (number n) s = wants s
take_token finish [] = none
take_token finish (zero ∷ s) = some s
take_token finish (suc n ∷ s) = none

abbrev pub take_tokens : List Token → Option (List ℕ) → Option (List ℕ)
take_tokens ts none = none
take_tokens [] (some s) = some s
take_tokens (t ∷ ts) (some s) = take_tokens ts (take_token t s)

-- The tokens write exactly one value: each compound has as many as it announces.
abbrev pub IsOneValue : List Token → Type 0
IsOneValue ts = take_tokens ts (some (1 ∷ [])) ≡ some (0 ∷ [])

clients_taken :
    (x : Context) (cs : List Client) (later : List Token) (s : List ℕ)
    → take_tokens (clients_tokens x cs ++ later) (some (count_active cs ∷ s))
      ≡ take_tokens later (some (zero ∷ s))
clients_taken x [] later s = refl
clients_taken x (c ∷ cs) later s = elim (Bool-cases (is_active c.state)) [
  | inl active ↦ rw active (clients_taken x cs later s)
  | inr other ↦ rw other (clients_taken x cs later s)
]

entries_taken :
    (es : List Entry) (s : List ℕ) → take_tokens (entries_tokens es) (some (length es ∷ s)) ≡ some s
entries_taken [] s = refl
entries_taken (e ∷ es) s = entries_taken es s

get_config-IsOneValue :
    (config : Config) → length config.entries < u32_mod → IsOneValue (handle_get_config config)
unfolding handle_get_config
get_config-IsOneValue config h =
    let same_count : length config.entries % u32_mod ≡ length config.entries = omega (arith, h) in
    ap (λ n. take_tokens (entries_tokens config.entries) (some (n ∷ 0 ∷ []))) same_count
    ∙ entries_taken config.entries (0 ∷ [])

get_count-eq :
    (m : Manager) → count_active (nodes m) < u32_mod → get_count m ≡ count_active (nodes m)
unfolding get_count
get_count-eq m h = omega arith

status-IsOneValue :
    (x : Context) (config : Config)
    → count_active (nodes x.clients) < u32_mod
    → IsOneValue (handle_status x config)
unfolding handle_status
status-IsOneValue x config h =
    ap
      (λ n.
        take_tokens (clients_tokens x (nodes x.clients) ++ log_tokens config)
          (some (n ∷ 2 ∷ 0 ∷ [])))
      (get_count-eq x.clients h)
    ∙ clients_taken x (nodes x.clients) (log_tokens config) (2 ∷ 0 ∷ [])

-- What a response must be.
abbrev pub IsAnswer : Response → Type 0
IsAnswer (sent ts) = IsOneValue ts
IsAnswer _ = Unit

reply_if-IsOneValue :
    (b : Bool) (p q : Posted)
    → IsOneValue p.reply
    → IsOneValue q.reply
    → IsOneValue (if b then p else q).reply
reply_if-IsOneValue true p q hp hq = hp
reply_if-IsOneValue false p q hp hq = hq

response_if-IsAnswer :
    (b : Bool) (p q : Response) → IsAnswer p → IsAnswer q → IsAnswer (if b then p else q)
response_if-IsAnswer true p q hp hq = hp
response_if-IsAnswer false p q hp hq = hq

handled_if-IsAnswer :
    (b : Bool) (p q : Handled)
    → IsAnswer p.response
    → IsAnswer q.response
    → IsAnswer (if b then p else q).response
handled_if-IsAnswer true p q hp hq = hp
handled_if-IsAnswer false p q hp hq = hq

process_request-IsAnswer :
    (q : Request) (config : Config) (p : Posted)
    → IsOneValue p.reply
    → IsAnswer (process_request q config p).response
process_request-IsAnswer q config p h =
    handled_if-IsAnswer (is_post q.method && (not (is_empty q.body) && not q.allocates))
      (record { response = internal_error; config = config; saved = none })
      (record {
        response = if q.encodes then sent p.reply else internal_error;
        config = p.config;
        saved = p.saved;
      })
      tt (response_if-IsAnswer q.encodes (sent p.reply) internal_error h tt)

module _ (mp : RequestReader) (realloc : ℕ → Bool) (opens : Bool) where
  open mp use {Reader, init_data, read_tag, has_error}

  save_posted-IsOneValue :
      (config : Config) (r : ℤ × Option Bytes)
      → IsOneValue (save_posted mp realloc opens config r).reply
  save_posted-IsOneValue config (status, file) = reply_if-IsOneValue (is_zero status) _ _ refl refl

  finish_post-IsOneValue : (p : Config × Reader) → IsOneValue (finish_post mp realloc opens p).reply
  finish_post-IsOneValue (config, r) =
      reply_if-IsOneValue (has_error r) _
        (save_posted mp realloc opens config (ya_config_save opens config)) refl
        (save_posted-IsOneValue config (ya_config_save opens config))

  post_array-IsOneValue :
      (tag : Option ℕ × Reader) (config : Config)
      → IsOneValue (post_array mp realloc opens tag config).reply
  post_array-IsOneValue (none, r) config = refl
  post_array-IsOneValue (some count, r) config =
      finish_post-IsOneValue (post_entries mp realloc opens count r config)

  post_config-IsOneValue :
      (request : Bytes) (config : Config)
      → IsOneValue (handle_post_config mp realloc opens request config).reply
  unfolding handle_post_config
  post_config-IsOneValue request config =
      post_array-IsOneValue (read_tag (init_data request)) config

  command-IsAnswer :
      (x : Context) (m : Method) (q : Request) (config : Config)
      → IsAnswer (handle_command_request mp realloc opens x m q config).response
  unfolding handle_command
  command-IsAnswer x post_method q config =
      process_request-IsAnswer q config (unchanged config handle_command) refl
  command-IsAnswer x get_method q config = tt
  command-IsAnswer x other_method q config = tt

  status-IsAnswer :
      (x : Context) (m : Method) (q : Request) (config : Config)
      → count_active (nodes x.clients) < u32_mod
      → IsAnswer (handle_status_request mp realloc opens x m q config).response
  status-IsAnswer x get_method q config h =
      process_request-IsAnswer q config (unchanged config (handle_status x config))
        (status-IsOneValue x config h)
  status-IsAnswer x post_method q config h = tt
  status-IsAnswer x other_method q config h = tt

  config-IsAnswer :
      (x : Context) (m : Method) (q : Request) (config : Config)
      → length config.entries < u32_mod
      → IsAnswer (handle_config_request mp realloc opens x m q config).response
  config-IsAnswer x get_method q config h =
      process_request-IsAnswer q config (unchanged config (handle_get_config config))
        (get_config-IsOneValue config h)
  config-IsAnswer x post_method q config h =
      process_request-IsAnswer q config (handle_post_config mp realloc opens q.body config)
        (post_config-IsOneValue q.body config)
  config-IsAnswer x other_method q config h = tt

  routed-IsAnswer :
      (x : Context) (route : Route) (q : Request) (config : Config)
      → count_active (nodes x.clients) < u32_mod
      → length config.entries < u32_mod
      → IsAnswer (routed mp realloc opens x route q config).response
  routed-IsAnswer x command_path q config h k = command-IsAnswer x q.method q config
  routed-IsAnswer x status_path q config h k = status-IsAnswer x q.method q config h
  routed-IsAnswer x config_path q config h k = config-IsAnswer x q.method q config k

-- Whatever is asked, with whichever method, what is sent is one MessagePack value: each map and array has
-- as many elements as it announces, and nothing follows. So the array of clients of /status is announced
-- with the number of clients that the walk of the table writes. Any other answer is an HTTP error. There are
-- fewer than 2 ^ 32 active clients, and entries in the configuration.
pub handle_request-IsAnswer :
    (mp : RequestReader) (realloc : ℕ → Bool) (opens : Bool) (x : Context) (q : Request)
    (config : Config)
    → count_active (nodes x.clients) < u32_mod
    → length config.entries < u32_mod
    → IsAnswer (handle_request mp realloc opens x q config).response
unfolding handle_request
handle_request-IsAnswer mp realloc opens x q config h k =
    routed-IsAnswer mp realloc opens x q.route q config h k
