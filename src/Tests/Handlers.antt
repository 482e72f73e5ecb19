-- ===== src/Tests/Handlers.antt =====
-- Events at their handlers (server/src/ya_server_handler.c).
use mouse_hero.Base.{ℕ, ◌≤◌, ◌<◌, ◌≡◌, refl, true, none, some, List, [], ◌∷◌}
use mouse_hero.Base.Int.{pos}
use mouse_hero.Clients.{Client, init, create, deref, write, find_by_fd, find_in, new_client}
use mouse_hero.Filter
use mouse_hero.Handlers.{World, Env, ignored, assign_response}
use mouse_hero.Handlers.Admission.{admitted, Rises, admitted-Rises}
use mouse_hero.Handlers.Authorize.{handle_authorize, welcome, refusal}
use mouse_hero.Handlers.Dispatch.{
  set_index, find_event_handler, find_entry, process_server_event, need_command_index_check,
}
use mouse_hero.Handlers.Grants.{Admits, Refuses, handle_authorize_grants}
use mouse_hero.Handlers.Mouse.{handle_mouse_click}
use mouse_hero.Handlers.Replay.{process_server_event_replay}
use mouse_hero.Input.{Device}
use mouse_hero.Input.Clipboard.{default_config}
use mouse_hero.Tests.Instances.{test_floats}
use mouse_hero.Throttle.{initial}
use mouse_hero.Wire.{
  Event, EventHeader, common_request, authorize_request, authorize_response, mouse_click, authorize,
  request,
}

abbrev pub device : Device
device = record { answers = []; log = [] }

abbrev pub env : Env ℕ
env = record {
  session_port = 35281;
  command_port = 35282;
  macs_csv = none;
  primary_scale = 100;
  getfd = λ bev. pos 3;
  now = record { tv_sec = 1; tv_nsec = 0 };
  xkbmap_map_utf8_to_evdev = λ bs. none;
  clipboard_config = default_config;
  clipboard = none;
  script_ran = λ op. true;
}

abbrev pub world : World ℕ
world = record {
  clients = (create init (some 64) (some 7) 5 (pos 3) (some 8)).0;
  filters = λ a. Filter.create test_floats;
  throttle = initial;
  device = device;
  effects = [];
}

-- The client of the world, before its requests.
abbrev pub client : Client
client = new_client 1 64 (some 7) 5 (pos 3) 8

pub client_found : deref world.clients 64 ≡ some client
unfolding deref find_in create init
client_found = refl

client_of_fd : find_by_fd world.clients (env.getfd 8) ≡ some client
unfolding find_by_fd find_in create init
client_of_fd = refl

abbrev click_event : Event ℕ
click_event = record {
  header = record { type = mouse_click; direction = request; index = 1; uid = 1 };
  param = common_request (pos 0) (pos 2);
}

click_handler : find_event_handler test_floats env click_event.header.type ≡ some handle_mouse_click
unfolding find_event_handler find_entry
click_handler = refl

replay_example :
    (click_event.header.index ≤ client.command_index
      → process_server_event test_floats env (some 8) click_event (some 64) world ≡ ignored world)
    × (client.command_index < click_event.header.index
        → process_server_event test_floats env (some 8) click_event (some 64) world
          ≡ handle_mouse_click (some 8) click_event (record world {
            clients = write world.clients client.addr (set_index click_event.header.index);
          }))
replay_example =
    process_server_event_replay test_floats env (some 8) click_event 64 client handle_mouse_click
      world (unfold need_command_index_check in refl) client_found click_handler

abbrev headers : List EventHeader
headers =
    click_event.header
    ∷ click_event.header
    ∷ record { type = mouse_click; direction = request; index = 5; uid = 1 }
    ∷ []

admitted-Rises_example : Rises client.command_index (admitted 64 headers world.clients)
admitted-Rises_example = admitted-Rises 64 headers world.clients client client_found

abbrev hello : Event ℕ
hello = record {
  header = record { type = authorize; direction = request; index = 0; uid = 0 };
  param = authorize_request 2 3;
}

grants_example :
    (Admits 2 3
      → (w' : World ℕ) × (handle_authorize test_floats env (some 8) hello world
          ≡ some (
            w',
            some
                (assign_response hello (authorize_response (welcome test_floats env client.uid 3))),
          ))
        × (deref w'.clients client.addr
            ≡ some (record client { bev = some 8; protocol_version = 3 })))
    × (Refuses 2 3
        → handle_authorize test_floats env (some 8) hello world
          ≡ some (
            world,
            some (assign_response hello (authorize_response (refusal test_floats env 3))),
          ))
grants_example =
    handle_authorize_grants test_floats env 8 2 3 hello client world refl client_of_fd client_found
