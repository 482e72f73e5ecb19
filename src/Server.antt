-- ===== src/Server.antt =====
-- The server's context and its start (server/src/ya_server.c and ya_server.h), with run_session_server
-- (ya_server_session.c), run_command_server (ya_server_command.c), run_discovery_server
-- (ya_server_discover.c), run_http_server and stop_http_server (ya_server_http.c). The calls of libevent
-- and of the system answer as the environment says. The statistics of connections are with the sessions.
pub mod Start
pub mod Release
use mouse_hero.Backend.{Uinput, input_linux_init, input_linux_shutdown}
use mouse_hero.Base.{
  ℕ, ◌+◌, ◌%◌, Bool, true, false, not, ◌&&◌, Option, none, some, List, [], ◌∷◌, ◌++◌, equal,
  if◌then◌else◌,
}
use mouse_hero.Base.Int.{ℤ, pos, negsuc, is_negative, is_zero}
use mouse_hero.Clients.{Manager, cleanup, init, u32_mod}
use mouse_hero.Wire.{Bytes}
use mouse_hero.Xkb.{Xkb, Desktop, xkbmap_init_auto, xkbmap_free}

-- ya_server_state_t
pub data State : Type 0 where
  initial running stopping stopped : State

-- ya_server_components_state_t
pub record Components : Type 0 where
  pub session : Bool
  pub command : Bool
  pub http : Bool
  pub discovery : Bool

abbrev pub none_ready : Components
none_ready = record { session = false; command = false; http = false; discovery = false }

-- The names that the source compares `component` with.
pub data Component : Type 0 where
  session_server command_server http_server discovery_server unknown : Component

unfoldable pub is_component_ready : Components → Component → Bool
is_component_ready c session_server = c.session
is_component_ready c command_server = c.command
is_component_ready c http_server = c.http
is_component_ready c discovery_server = c.discovery
is_component_ready c unknown = false

unfoldable pub all_components_ready : Components → Bool
all_components_ready c = c.session && (c.command && (c.http && c.discovery))

abbrev pub mark : Components → Component → Bool → Components
mark c session_server ready = record c { session = ready }
mark c command_server ready = record c { command = ready }
mark c http_server ready = record c { http = ready }
mark c discovery_server ready = record c { discovery = ready }
mark c unknown ready = c

-- The counts of commands in ya_server_stats_t.
pub record CommandStats : Type 0 where
  pub total_commands : ℕ
  pub failed_commands : ℕ

unfoldable pub inc_commands : Bool → CommandStats → CommandStats
inc_commands success s = record {
  total_commands = (s.total_commands + 1) % u32_mod;
  failed_commands = if success then s.failed_commands else (s.failed_commands + 1) % u32_mod;
}

-- YA_ServerContext and the globals that start_server and stop change. `states` are the values that
-- ya_server_set_state has given, in order; `listening` is the listener of the session server, whose
-- pointer only run_session_server has.
pub record Server : Type 0 where
  pub uinput : Uinput
  pub xkb : Xkb
  pub base : Bool
  pub listener : Bool
  pub listening : Bool
  pub command_fd : ℤ
  pub http : Bool
  pub macs_csv : Bool
  pub clients : Manager
  pub components : Components
  pub stats : CommandStats
  pub states : List State

unfoldable pub set_state : State → Server → Server
set_state s v = record v { states = v.states ++ s ∷ [] }

-- ya_server_get_state, of a context whose state is zero before the first ya_server_set_state
abbrev pub last_state : State → List State → State
last_state s [] = s
last_state s (x ∷ xs) = last_state x xs

unfoldable pub get_state : Server → State
get_state v = last_state initial v.states

unfoldable pub set_component_ready : Component → Bool → Server → Server
set_component_ready component ready v =
    let marked = record v { components = mark v.components component ready } in
    if ready && all_components_ready (mark v.components component ready)
    then set_state running marked
    else marked

-- What libevent, the system and the configuration answer. A socket is negative where there is none.
pub record Environment : Type 0 where
  pub desktop : Desktop
  pub event_base_new : Bool
  pub macs_found : Bool
  pub listener_binds : Bool
  pub socket : ℤ
  pub nonblocking : Bool
  pub command_binds : Bool
  pub event_new : Bool
  pub http_addr : Option Bytes
  pub evhttp_new : Bool
  pub strdup : Bool
  pub http_binds : Bool

module _ (e : Environment) where
  unfoldable pub run_session_server : Server → ℤ × Server
  run_session_server v =
      if e.listener_binds then (pos 0, record v { listening = true }) else (negsuc 0, v)

  unfoldable pub run_command_server : Server → ℤ × Server
  run_command_server v =
      let v' = record v { command_fd = e.socket } in
      if is_negative e.socket
      then (pos 2, v')
      else if not e.nonblocking
      then (pos 3, v')
      else if not e.command_binds
      then (pos 4, v')
      else if not e.event_new
      then (pos 5, v')
      else (pos 0, v')

  -- The thread of the discovery server is started; the answer of pthread_create is not looked at.
  abbrev pub run_discovery_server : Server → ℤ × Server
  run_discovery_server v = (pos 0, v)

  abbrev pub bind_http : Server → ℤ × Server
  bind_http v =
      if not e.evhttp_new
      then (negsuc 0, record v { http = false })
      else if not e.strdup
      then (negsuc 0, record v { http = true })
      else if e.http_binds
      then (pos 0, record v { http = true })
      else (negsuc 0, record v { http = false })

  abbrev pub is_configured : Option Bytes → Bool
  is_configured none = false
  is_configured (some []) = false
  is_configured (some (c ∷ cs)) = true

  unfoldable pub run_http_server : Server → ℤ × Server
  run_http_server v = if is_configured e.http_addr then bind_http v else (pos 0, v)

unfoldable pub stop_http_server : Server → Server
stop_http_server v = record v { http = false }

-- `if (svr_context.command_fd)`: a socket is closed, and so is -1.
unfoldable pub stop : Server → Server
stop v = stop_http_server (record v {
  xkb = xkbmap_free v.xkb;
  uinput = input_linux_shutdown v.uinput;
  listener = false;
  command_fd = pos 0;
  clients = (cleanup v.clients).0;
  base = false;
  macs_csv = false;
})

-- `if (… < 0) { stop(); return -1; }`, and what follows.
abbrev pub or_stop : ℤ × Server → (Server → ℤ × Server) → ℤ × Server
or_stop (status, v) k = if is_negative status then (negsuc 0, stop v) else k v

abbrev pub ready_if : Component → ℤ × Server → Server
ready_if c (status, v) = if is_zero status then set_component_ready c true v else v

-- From the reset of the context to the event base.
unfoldable pub prepare : Environment → Server → Server
prepare e v =
    let v1 = set_state initial (record v {
      stats = record { total_commands = 0; failed_commands = 0 };
      components = none_ready;
      macs_csv = false;
    }) in
    record v1 {
      uinput = (input_linux_init v1.uinput).1;
      xkb = (xkbmap_init_auto e.desktop v1.xkb).1;
      base = e.event_base_new;
    }

-- event_base_dispatch runs until the loop ends, and changes `v` as `serve` says.
unfoldable pub dispatch : (Server → Server) → Server → ℤ × Server
dispatch serve v = (pos 0, set_state stopped (stop (set_state stopping (serve v))))

unfoldable pub run_servers : Environment → (Server → Server) → Server → ℤ × Server
run_servers e serve v = or_stop (run_session_server e v) λ v1.
    or_stop (run_command_server e (set_component_ready session_server true v1)) λ v2.
      or_stop
        (run_http_server e (
          ready_if discovery_server
            (run_discovery_server e (set_component_ready command_server true v2))))
        λ v3. dispatch serve (set_component_ready http_server true v3)

unfoldable pub start_server : Environment → (Server → Server) → Server → ℤ × Server
start_server e serve v =
    let v1 = prepare e v in
    if e.event_base_new
    then run_servers e serve (record v1 { clients = init; macs_csv = e.macs_found })
    else (negsuc 0, v1)
