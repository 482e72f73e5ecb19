-- ===== src/Sessions.antt =====
-- The callbacks of the session server (server/src/ya_server_session.c), of the command server
-- (udp_readcb of server/src/ya_server_command.c) and the statistics of server/src/ya_server.c that they
-- count. A read of a connection takes the buffer that has arrived and gives the buffer that is left, the
-- bytes that it sends, the world and the frees; one of the command socket takes what recvfrom receives, and
-- gives the world and the answer. `none` is undefined behaviour.
pub mod Frames
pub mod Closing
pub mod Table
pub mod Served
pub mod Unguarded
use mouse_hero.Base.{
  ℕ, ◌+◌, ◌-◌, ◌%◌, Bool, true, false, not, Option, none, some, List, [], ◌∷◌, ◌++◌, length, take,
  ltb, if◌then◌else◌,
}
use mouse_hero.Base.Int.{ℤ}
use mouse_hero.Clients.{
  Client, Manager, Free, free_bev, is_active, disconnecting, create, deref, write, ref, unref,
  find_by_uid, u32_mod, free_opt,
}
use mouse_hero.Filter.{Floats, float_zero}
use mouse_hero.Handlers.{World, Env}
use mouse_hero.Handlers.Dispatch.{process_server_event}
use mouse_hero.Wire.{Bytes, Event, EventHeader}
use mouse_hero.Wire.Codec.{Outcome, parsed, refused, undefined, parse_event, serialize_event}
use mouse_hero.Wire.Evbuffer.{Evbuffer}
use mouse_hero.Wire.Framing.{PackageSize, get_package_size, is_incomplete, is_misfit}
use mouse_hero.Wire.Mpack.{Mpack}

-- The connection counts of ya_server_stats_t.
pub record Stats : Type 0 where
  pub total_connections : ℕ
  pub active_connections : ℕ

unfoldable pub inc_connections : Stats → Stats
inc_connections s = record {
  total_connections = (s.total_connections + 1) % u32_mod;
  active_connections = (s.active_connections + 1) % u32_mod;
}

unfoldable pub dec_connections : Stats → Stats
dec_connections s =
    if ltb 0 s.active_connections
    then record s { active_connections = s.active_connections - 1 }
    else s

-- accept_cb, once bufferevent_socket_new has given `bev`; the frees of a client that could not be made.
unfoldable pub accept_cb :
    Manager → Stats → Option ℕ → Option ℕ → ℕ → ℤ → ℕ → Manager × Stats × List Free
accept_cb m s alloc filter now fd bev =
    let (m', made) = create m alloc filter now fd (some bev) in
    elim made [ none ↦ (m', s, free_bev bev ∷ []) | some c ↦ (m', inc_connections s, []) ]

-- What conn_eventcb writes to the client of the connection.
abbrev pub closed : Client → Client
closed c = record c { state = disconnecting; bev = none }

abbrev pub after_unref :
    Stats → List Free → Option (Manager × List Free) → Option (Manager × Stats × List Free)
after_unref s fs none = none
after_unref s fs (some (m, more)) = some (m, s, fs ++ more)

-- conn_eventcb on the end of the connection or an error of it; `addr` is the client that it was given.
unfoldable pub conn_eventcb : Manager → Stats → ℕ → Option (Manager × Stats × List Free)
conn_eventcb m s addr = elim (deref m addr) [
  | none ↦ none
  | some c ↦
      after_unref (dec_connections s) (free_opt free_bev c.bev) (unref (write m addr closed) addr)
]

-- sizeof(buffer) in udp_readcb
abbrev pub datagram_size : ℕ
datagram_size = 2048

module _ (fl : Floats) (env : Env fl.F) (mp : Mpack fl.F) (ev : Evbuffer) where
  open ev use {Buffer, bytes, of_bytes, drain}

  pub record Reading : Type 0 where
    pub left : Buffer
    pub sent : Bytes
    pub world : World fl.F
    pub frees : List Free

  abbrev pub unchanged : Buffer → World fl.F → Option Reading
  unchanged buf w = some (record { left = buf; sent = []; world = w; frees = [] })

  -- The bytes of a response; a missing one sends none.
  abbrev pub reply : Option (Event fl.F) → Option Bytes
  reply none = some []
  reply (some e) = serialize_event mp e

  abbrev pub give_back : Buffer → Bytes → World fl.F → Option (Manager × List Free) → Option Reading
  give_back buf out w none = none
  give_back buf out w (some (m, fs)) =
      some (record { left = buf; sent = out; world = record w { clients = m }; frees = fs })

  -- Behind the handler: the response goes out, and the reference is given back.
  unfoldable pub respond : ℕ → Buffer → Option (World fl.F × Option (Event fl.F)) → Option Reading
  respond addr buf none = none
  respond addr buf (some (w, r)) = elim (reply r) [
    | none ↦ none
    | some out ↦ give_back buf out w (unref w.clients addr)
  ]

  abbrev pub held : ℕ → World fl.F → World fl.F
  held addr w = record w { clients = ref w.clients addr }

  unfoldable pub handle_frame : ℕ → ℕ → World fl.F → Buffer × Outcome fl.F → Option Reading
  handle_frame bev addr w (buf, refused) = unchanged buf w
  handle_frame bev addr w (buf, undefined) = none
  handle_frame bev addr w (buf, parsed e) =
      respond addr buf (process_server_event fl env (some bev) e (some addr) (held addr w))

  unfoldable pub conn_readcb : ℕ → ℕ → Buffer → World fl.F → Option Reading
  conn_readcb bev addr buf w =
      let size = get_package_size ev buf in
      elim (deref w.clients addr) [
        | none ↦ none
        | some c ↦
            if not (is_active c.state)
            then unchanged buf w
            else if is_incomplete (length (bytes buf)) size
            then unchanged buf w
            else handle_frame bev addr w (parse_event mp ev (float_zero fl) (drain buf 8) size)
      ]

  abbrev pub address : Option Client → Option ℕ
  address none = none
  address (some c) = some c.addr

  -- What the datagram is answered with; none within is no answer.
  abbrev pub answer : Option (World fl.F × Option (Event fl.F)) → Option (World fl.F × Option Bytes)
  answer none = none
  answer (some (w, none)) = some (w, none)
  answer (some (w, some e)) = elim (serialize_event mp e) [
    | none ↦ none
    | some out ↦ some (w, some out)
  ]

  unfoldable pub handle_datagram : World fl.F → Outcome fl.F → Option (World fl.F × Option Bytes)
  handle_datagram w refused = some (w, none)
  handle_datagram w undefined = none
  handle_datagram w (parsed e) =
      answer (process_server_event fl env none e (address (find_by_uid w.clients e.header.uid)) w)

  -- With a buffer that holds what was received.
  abbrev pub handle_received : Buffer → World fl.F → Option (World fl.F × Option Bytes)
  handle_received buf w =
      let size = get_package_size ev buf in
      if is_misfit (length (bytes buf)) size
      then some (w, none)
      else handle_datagram w (parse_event mp ev (float_zero fl) (drain buf 8) size).1

  -- The datagram that recvfrom receives, cut to the size of the array; `none` where it fails.
  unfoldable pub udp_readcb : Option Bytes → World fl.F → Option (World fl.F × Option Bytes)
  udp_readcb none w = some (w, none)
  udp_readcb (some datagram) w = handle_received (of_bytes (take datagram_size datagram)) w
