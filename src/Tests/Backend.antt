-- ===== src/Tests/Backend.antt =====
-- The theorems on the uinput backend (server/src/input/backend/linux_uinput.c) at concrete inputs.
use mouse_hero.Backend.Descriptor.{
  IsBalanced, IsSettled, Reach, here, next, inits, acts, Reach-IsBalanced,
}
use mouse_hero.Backend.Emits.{
  mouse_move, key_action, key_action_raw, perform, events, Outcome, perform_writes,
}
use mouse_hero.Backend.Held.{is_down, click_holds}
use mouse_hero.Backend.Keys.{ckey_to_linux_keycode}
use mouse_hero.Backend.Protocol.{Supported, protocol_keys}
use mouse_hero.Backend.{
  error_device, Uinput, input_linux_init, input_linux_shutdown, input_linux_mouse_move, emit_event,
  emit_syn, syscall, writes, event,
}
use mouse_hero.Base.{◌≡◌, refl, true, false, some, [], ◌∷◌, arith}
use mouse_hero.Base.Int.{pos, negsuc}
use mouse_hero.Input.KeyMap.{map_ya_to_ckey, ckey_from_protocol, switch}
use mouse_hero.Input.{click}

-- A device whose third write fails.
abbrev faulty : Uinput
faulty = record { is_open = true; answers = true ∷ true ∷ false ∷ []; log = [] }

move_left :
    (input_linux_mouse_move (negsuc 4) (pos 0) faulty).1.log
    ≡ (writes (event 2 0 (negsuc 4)), true) ∷ (writes (event 0 0 (pos 0)), true) ∷ []
unfolding input_linux_mouse_move emit_event emit_syn syscall
move_left = refl

perform_writes_example :
    Outcome true (events (key_action 58 click)) faulty (perform (key_action 58 click) faulty)
perform_writes_example = perform_writes (key_action 58 click) faulty

-- KEY_A
click_holds_example :
    ((perform (key_action_raw 30 click) faulty).0 ≡ error_device)
    × (is_down 30 false (perform (key_action_raw 30 click) faulty).1.log ≡ true)
click_holds_example = click_holds 30 faulty true false [] refl (omega arith) refl

browser_search : ckey_from_protocol (pos 0xE265) ≡ some 49
unfolding ckey_from_protocol map_ya_to_ckey switch
browser_search = refl

protocol_keys_example : Supported 49 (ckey_to_linux_keycode 49)
protocol_keys_example = protocol_keys (pos 0xE265) 49 browser_search

abbrev fresh : Uinput
fresh = record { is_open = false; answers = true ∷ true ∷ []; log = [] }

abbrev started : Uinput
started = (input_linux_init fresh).1

abbrev moved : Uinput
moved = (perform (mouse_move (pos 1) (pos 2)) started).1

moved-Reach : Reach fresh moved
moved-Reach = next (next here (inits fresh refl)) (acts started (mouse_move (pos 1) (pos 2)))

Reach-IsBalanced_example :
    IsBalanced moved
    × ((input_linux_shutdown moved).is_open ≡ false)
    × IsSettled (input_linux_init (input_linux_shutdown moved))
Reach-IsBalanced_example = Reach-IsBalanced fresh moved (omega arith) moved-Reach
