-- ===== src/Handlers.antt =====
-- The event handlers (server/src/ya_server_handler.c): the state that they change, and what the
-- program around them has set up. Of the server this is the client table, the mouse throttle and
-- filters, the input device, and the calls that leave the process, the newest first. `none` as the
-- result of a handler is undefined behaviour: a null pointer used, a structure of another event, or
-- a pointer to no client. Allocations succeed.
pub mod Authorize
pub mod Mouse
pub mod Keys
pub mod Power
pub mod Dispatch
pub mod Replay
pub mod Admission
pub mod Pointer
pub mod Grants
pub mod Safety
pub mod Table
use mouse_hero.Base.{ℕ, Bool, true, false, Option, none, some, List, [], ◌∷◌, ◌==◌, if◌then◌else◌}
use mouse_hero.Base.Int.{ℤ}
use mouse_hero.Clients.{Manager}
use mouse_hero.Filter.{Floats, Filter}
use mouse_hero.Input.{Device}
use mouse_hero.Input.Clipboard.{ClipboardConfig}
use mouse_hero.Throttle.{Throttle, Timespec}
use mouse_hero.Wire.{Bytes, Event, EventHeader, Param, response}

pub data PowerOp : Type 0 where
  poweroff restart sleep : PowerOp

-- Calls of other processes and of libevent.
pub data Effect : Type 0 where
  run_power_script : PowerOp → Effect
  system : PowerOp → Effect
  free_bufferevent : ℕ → Effect

pub record World (F : Type 0) : Type 0 where
  pub clients : Manager
  pub filters : ℕ → Filter F  -- the filters at their addresses
  pub throttle : Throttle
  pub device : Device
  pub effects : List Effect

-- What does not change while a handler runs.
pub record Env (F : Type 0) : Type 0 where
  pub session_port : ℕ
  pub command_port : ℕ
  pub macs_csv : Option Bytes
  pub primary_scale : F  -- what ya_primary_scale returns
  pub getfd : ℕ → ℤ  -- what bufferevent_getfd returns
  pub now : Timespec  -- what clock_gettime reads
  pub xkbmap_map_utf8_to_evdev : Bytes → Option (ℕ × ℕ)
  pub clipboard_config : ClipboardConfig
  pub clipboard : Option Bytes  -- what clipboard_get returns
  pub script_ran : PowerOp → Bool  -- ya_run_power_script returns 0

-- The world after a handler and its response.
abbrev pub Outcome : Type 0 → Type 0
Outcome F = Option (World F × Option (Event F))

-- ya_event_handler_t; the bufferevent is none for the null pointer that UDP commands come with.
abbrev pub Handler : Type 0 → Type 0
Handler F = Option ℕ → Event F → World F → Outcome F

module _ {F : Type 0} where
  abbrev pub ignored : World F → Outcome F
  ignored w = some (w, none)

  -- `param` is what the response's parameters are set to; absent for a length of 0.
  unfoldable pub assign_response : Event F → Param F → Event F
  assign_response e param = record {
    header = record {
      type = e.header.type;
      direction = response;
      index = e.header.index;
      uid = e.header.uid;
    };
    param = param;
  }

  abbrev pub set_filter : ℕ → (Filter F → Filter F) → World F → World F
  set_filter addr f w = record w {
    filters = λ a. if a == addr then f (w.filters a) else w.filters a;
  }

  abbrev pub on_filter : Option ℕ → (Filter F → Filter F) → World F → World F
  on_filter none f w = w
  on_filter (some addr) f w = set_filter addr f w

  -- A call of the input facade whose result is only logged.
  abbrev pub on_device : {A : Type 0} → (Device → A × Device) → World F → World F
  on_device f w = record w { device = (f w.device).1 }
