-- ===== src/Handlers/Authorize.antt =====
-- AUTHORIZE and SESSION_OPTION (server/src/ya_authorize.c, and handle_authorize and
-- handle_session_option of server/src/ya_server_handler.c). The text of an authorization error is only
-- logged and is left out. The operating system is Linux.
use mouse_hero.Base.{
  ℕ, Bool, true, false, ◌&&◌, not, Option, none, some, [], ◌∷◌, ltb, ◌==◌, if◌then◌else◌,
}
use mouse_hero.Clients.{Client, find_by_uid, find_by_fd, write}
use mouse_hero.Filter.{Floats, set_algorithms_enabled, set_pointer_scale, float_zero, float_one}
use mouse_hero.Handlers.{
  World, Env, Outcome, Handler, ignored, assign_response, on_filter, free_bufferevent,
}
use mouse_hero.Wire.{
  Bytes, Event, absent, authorize_request, authorize_response, AuthorizeResponse,
  session_option_request,
}

abbrev client_ios : ℕ
client_ios = 0x1

abbrev client_android : ℕ
client_android = 0x2

abbrev pub os_linux : ℕ
os_linux = 0x3

-- The request is not null; its fields are the client type and the version.
unfoldable pub authorize : ℕ → ℕ → Bool
authorize type version =
    if ltb version 1
    then false
    else if not (type == client_ios) && not (type == client_android)
    then false
    else true

-- `strdup` of the cached addresses, or of the empty text
abbrev macs_or_empty : Option Bytes → Bytes
macs_or_empty none = []
macs_or_empty (some s) = s

module _ (fl : Floats) (env : Env fl.F) where
  unfoldable pub refusal : ℕ → AuthorizeResponse fl.F
  refusal version = record {
    success = false;
    os_type = os_linux;
    uid = 0;
    session_port = 0;
    command_port = 0;
    macs = some [];
    display_scale = float_one fl;
    client_version = version;
  }

  unfoldable pub welcome : ℕ → ℕ → AuthorizeResponse fl.F
  welcome uid version = record {
    success = true;
    os_type = os_linux;
    uid = uid;
    session_port = env.session_port;
    command_port = env.command_port;
    macs = some (macs_or_empty env.macs_csv);
    display_scale = env.primary_scale;
    client_version = version;
  }

  -- An authorized request on the connection `bev`, with the client that its descriptor finds.
  unfoldable pub bind_client : ℕ → ℕ → Event fl.F → World fl.F → Option Client → Outcome fl.F
  bind_client bev version e w none =
      ignored (record w { effects = free_bufferevent bev ∷ w.effects })
  bind_client bev version e w (some c) =
      let bound =
        write w.clients c.addr (λ k. record k { bev = some bev; protocol_version = version }) in
      some (
        on_filter c.mouse_filter (set_algorithms_enabled fl true) (record w { clients = bound }),
        some (assign_response e (authorize_response (welcome c.uid version))),
      )

  unfoldable pub handle_authorize : Handler fl.F
  handle_authorize bev e w = elim e.param [
    | absent ↦ ignored w
    | authorize_request type version ↦
        if authorize type version
        then (elim bev [
          | none ↦ none
          | some b ↦ bind_client b version e w (find_by_fd w.clients (env.getfd b))
        ])
        else some (w, some (assign_response e (authorize_response (refusal version))))
    | _ ↦ none
  ]

  -- `scale <= 0.0f` is replaced by 1.
  unfoldable pub session_scale : fl.F → fl.F
  session_scale scale = if fl.le scale (float_zero fl) then float_one fl else scale

  unfoldable pub handle_session_option : Handler fl.F
  handle_session_option bev e w = elim e.param [
    | absent ↦ ignored w
    | session_option_request scale ↦ elim (find_by_uid w.clients e.header.uid) [
      | none ↦ ignored w
      | some c ↦ ignored (on_filter c.mouse_filter (set_pointer_scale fl (session_scale scale)) w)
    ]
    | _ ↦ none
  ]
