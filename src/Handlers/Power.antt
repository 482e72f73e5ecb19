-- ===== src/Handlers/Power.antt =====
-- CONTROL, DISCOVER and HEARTBEAT (server/src/ya_server_handler.c). A power operation runs the
-- configured script, and the system's own command where the script did not run.
use mouse_hero.Base.{Option, none, some, ◌∷◌, ◌==◌, if◌then◌else◌}
use mouse_hero.Base.Int.{ℤ, pos, negsuc}
use mouse_hero.Handlers.{
  PowerOp, poweroff, restart, sleep, run_power_script, system, World, Env, Handler, ignored,
  assign_response,
}
use mouse_hero.Wire.{absent, common_request, discover_request, discover_response, discovery_magic}

-- CONTROL_OP_SHUTDOWN, CONTROL_OP_RESTART and CONTROL_OP_SLEEP
abbrev pub control_op : ℤ → Option PowerOp
control_op (pos n) =
    if n == 1
    then some poweroff
    else if n == 2
    then some restart
    else if n == 3
    then some sleep
    else none
control_op (negsuc n) = none

module _ {F : Type 0} (env : Env F) where
  unfoldable pub run_power : PowerOp → World F → World F
  run_power op w = record w {
    effects =
        if env.script_ran op
        then run_power_script op ∷ w.effects
        else system op ∷ run_power_script op ∷ w.effects;
  }

  unfoldable pub handle_poweroff : Handler F
  handle_poweroff bev e w = some (run_power poweroff w, some (assign_response e absent))

  unfoldable pub handle_restart : Handler F
  handle_restart bev e w = some (run_power restart w, some (assign_response e absent))

  unfoldable pub handle_sleep : Handler F
  handle_sleep bev e w = some (run_power sleep w, some (assign_response e absent))

  abbrev control : Option PowerOp → Handler F
  control none bev e w = some (w, some (assign_response e absent))
  control (some poweroff) bev e w = handle_poweroff bev e w
  control (some restart) bev e w = handle_restart bev e w
  control (some sleep) bev e w = handle_sleep bev e w

  unfoldable pub handle_control : Handler F
  handle_control bev e w = elim e.param [
    | absent ↦ ignored w
    | common_request lparam rparam ↦ control (control_op lparam) bev e w
    | _ ↦ none
  ]

  unfoldable pub handle_discover : Handler F
  handle_discover bev e w = elim e.param [
    | discover_request magic ↦
        if magic == discovery_magic
        then some (w, some (assign_response e (discover_response magic env.session_port)))
        else ignored w
    | _ ↦ none
  ]

unfoldable pub handle_heartbeat : {F : Type 0} → Handler F
handle_heartbeat bev e w = some (w, some (assign_response e absent))
