-- ===== src/Handlers/Dispatch.antt =====
-- The dispatch of an event to its handler, behind the check of its command index
-- (server/src/ya_server_handler.c).
use mouse_hero.Base.{
  ℕ, Bool, not, ◌&&◌, Option, none, some, List, [], ◌∷◌, leb, ◌==◌, if◌then◌else◌,
}
use mouse_hero.Clients.{Client, Manager, deref, write}
use mouse_hero.Filter.{Floats}
use mouse_hero.Handlers.{World, Env, Outcome, Handler, ignored}
use mouse_hero.Handlers.Authorize.{handle_authorize, handle_session_option}
use mouse_hero.Handlers.Keys.{handle_keyboard, handle_input_text, handle_input_get}
use mouse_hero.Handlers.Mouse.{
  handle_mouse_move, handle_mouse_stop, handle_mouse_click, handle_mouse_scroll,
}
use mouse_hero.Handlers.Power.{handle_control, handle_discover, handle_heartbeat}
use mouse_hero.Wire.{
  Event, EventHeader, request, mouse_move, mouse_stop, mouse_click, mouse_wheel, keyboard,
  text_input, text_get, discover, authorize, heartbeat, session_option, control,
}

-- The first entry of a table with the type.
unfoldable pub find_entry {ℓ} : {A : Type ℓ} → List (ℕ × A) → ℕ → Option A
find_entry [] type = none
find_entry ((t, h) ∷ table) type =
    let later = find_entry table type in if t == type then some h else later

unfoldable pub need_command_index_check : ℕ → Bool
need_command_index_check type =
    not (type == discover) && not (type == authorize) && not (type == heartbeat)

-- What the check of the command index says, with the client that it writes.
pub data Check : Type 0 where
  accepted : Manager → Check
  stale : Check
  dangling : Check

abbrev pub is_checked : EventHeader → Bool
is_checked h = h.direction == request && need_command_index_check h.type

abbrev pub set_index : ℕ → Client → Client
set_index index c = record c { command_index = index }

unfoldable pub check_client : EventHeader → Manager → Client → Check
check_client h m c =
    if leb h.index c.command_index then stale else accepted (write m c.addr (set_index h.index))

-- `client` is the pointer that comes with the event.
unfoldable pub check_command_index : EventHeader → Option ℕ → Manager → Check
unfolding check_client
check_command_index h none m = accepted m
check_command_index h (some addr) m =
    if is_checked h
    then (elim (deref m addr) [ none ↦ dangling | some c ↦ check_client h m c ])
    else accepted m

module _ (fl : Floats) (env : Env fl.F) where
  abbrev pub event_handlers : List (ℕ × Handler fl.F)
  event_handlers =
      (mouse_move, handle_mouse_move fl env)
      ∷ (mouse_stop, handle_mouse_stop fl env)
      ∷ (mouse_click, handle_mouse_click)
      ∷ (mouse_wheel, handle_mouse_scroll)
      ∷ (keyboard, handle_keyboard env)
      ∷ (text_input, handle_input_text env)
      ∷ (text_get, handle_input_get env)
      ∷ (discover, handle_discover env)
      ∷ (authorize, handle_authorize fl env)
      ∷ (heartbeat, handle_heartbeat)
      ∷ (session_option, handle_session_option fl env)
      ∷ (control, handle_control env)
      ∷ []

  unfoldable pub find_event_handler : ℕ → Option (Handler fl.F)
  find_event_handler type = find_entry event_handlers type

  -- The handler runs on the world in which the index is written.
  abbrev pub run_checked : Handler fl.F → Option ℕ → Event fl.F → World fl.F → Check → Outcome fl.F
  run_checked h bev e w (accepted m) = h bev e (record w { clients = m })
  run_checked h bev e w stale = ignored w
  run_checked h bev e w dangling = none

  unfoldable pub process_server_event : Option ℕ → Event fl.F → Option ℕ → World fl.F → Outcome fl.F
  process_server_event bev e client w = elim (find_event_handler e.header.type) [
    | none ↦ ignored w
    | some h ↦ run_checked h bev e w (check_command_index e.header client w.clients)
  ]
