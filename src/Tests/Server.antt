-- ===== src/Tests/Server.antt =====
-- The theorems on the start of the server (server/src/ya_server.c) at concrete inputs.
use mouse_hero.Base.{◌≡◌, refl, true, false, none, some, [], ◌∷◌, arith}
use mouse_hero.Base.Ascii.{ascii}
use mouse_hero.Base.Int.{pos}
use mouse_hero.Clients.{init}
use mouse_hero.Server.{
  initial, running, stopping, stopped, none_ready, Server, Environment, start_server,
}
use mouse_hero.Server.Release.{IsReleased, start_server-IsReleased}
use mouse_hero.Server.Start.{start_server-states}
use mouse_hero.Xkb.{Desktop, uninitialized}

abbrev headless : Desktop
headless = record {
  context_new = true;
  display = none;
  connects = false;
  device_id = pos 0;
  x11_keymap = none;
  layout = none;
  env_keymap = none;
  us_keymap = none;
  state_new = true;
  calloc = true;
}

-- The socket of the command server cannot be bound.
abbrev environment : Environment
environment = record {
  desktop = headless;
  event_base_new = true;
  macs_found = true;
  listener_binds = true;
  socket = pos 7;
  nonblocking = true;
  command_binds = false;
  event_new = true;
  http_addr = some (ascii "127.0.0.1:8080");
  evhttp_new = true;
  strdup = true;
  http_binds = true;
}

abbrev fresh : Server
fresh = record {
  uinput = record { is_open = false; answers = true ∷ true ∷ []; log = [] };
  xkb = record {
    initialized = false;
    layout_source = uninitialized;
    ctx = false;
    keymap = none;
    state = false;
    cache = none;
  };
  base = false;
  listener = false;
  listening = false;
  command_fd = pos 0;
  http = false;
  macs_csv = false;
  clients = init;
  components = none_ready;
  stats = record { total_commands = 0; failed_commands = 0 };
  states = [];
}

start_server-states_example :
    ((start_server environment (λ v. v) fresh).0 ≡ pos 0)
    × ((start_server environment (λ v. v) fresh).1.states
        ≡ initial ∷ running ∷ stopping ∷ stopped ∷ [])
start_server-states_example = start_server-states environment (λ v. v) (λ v. refl) fresh

start_server-IsReleased_example : IsReleased (start_server environment (λ v. v) fresh).1
start_server-IsReleased_example =
    start_server-IsReleased environment (λ v. v) (λ v s. s) fresh refl refl (omega arith)
      (record { initialized = refl; ctx = refl; keymap = refl; state = refl; cache = refl })
