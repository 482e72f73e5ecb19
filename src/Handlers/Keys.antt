-- ===== src/Handlers/Keys.antt =====
-- The keyboard and text handlers of the Linux build (server/src/ya_server_handler.c, with USE_UINPUT).
use mouse_hero.Base.{
  ℕ, Bool, true, not, ◌&&◌, ◌||◌, Option, none, some, leb, ltb, ◌==◌, if◌then◌else◌,
}
use mouse_hero.Base.Int.{ℤ, pos, negsuc}
use mouse_hero.Handlers.{World, Env, Handler, ignored, assign_response, on_device}
use mouse_hero.Input.{
  left, CDirection, press, release, click, key_control, YaError, is_success, Device, perform,
  key_code, desktop_button, input_key_action,
}
use mouse_hero.Input.Clipboard.{clipboard_paste_text}
use mouse_hero.Input.Keyboard.{keyboard_char, keyboard_function_key}
use mouse_hero.Input.KeyMap.{ckey_from_protocol}
use mouse_hero.Wire.{Bytes, Event, absent, keyboard_request, text_request, text_response}

abbrev pub key_direction : ℤ → Option CDirection
key_direction (pos n) =
    if n == 0
    then some press
    else if n == 1
    then some release
    else if n == 2
    then some click
    else none
key_direction (negsuc n) = none

abbrev pub is_char : ℕ → Bool
is_char code = (leb 0x20 code && leb code 0x7E) || (leb 0x80 code && ltb code 0xE000)

-- Ctrl+A, Ctrl+C and a click: whether all of it went well.
unfoldable pub copy_all : Device → YaError × Device
copy_all d =
    let (e1, d1) = input_key_action key_control press d in
    let (e2, d2) = perform (key_code b'a' click) d1 in
    let (e3, d3) = perform (key_code b'c' click) d2 in
    let (e4, d4) = input_key_action key_control release d3 in
    if not (is_success e1)
    then (e1, d1)
    else if not (is_success e2)
    then (e2, (input_key_action key_control release d2).1)
    else if not (is_success e3)
    then (e3, (input_key_action key_control release d3).1)
    else if not (is_success e4)
    then (e4, d4)
    else perform (desktop_button left click) d4

module _ {F : Type 0} (env : Env F) where
  unfoldable pub type_key : ℤ → ℕ → CDirection → World F → World F
  type_key (negsuc n) mods dir w = w
  type_key (pos code) mods dir w =
      let typed =
        on_device
          (keyboard_char env.xkbmap_map_utf8_to_evdev env.clipboard_config env.clipboard code mods
            dir)
          w in
      if is_char code then typed else elim (ckey_from_protocol (pos code)) [
        | none ↦ w
        | some key ↦ on_device (keyboard_function_key key mods dir) w
      ]

  unfoldable pub handle_keyboard : Handler F
  handle_keyboard bev e w = elim e.param [
    | absent ↦ ignored w
    | keyboard_request code op mods ↦ elim (key_direction op) [
      | none ↦ ignored w
      | some dir ↦ ignored (type_key code mods dir w)
    ]
    | _ ↦ none
  ]

  unfoldable pub handle_input_text : Handler F
  handle_input_text bev e w = elim e.param [
    | text_request text ↦
        ignored (on_device (clipboard_paste_text env.clipboard_config text env.clipboard) w)
    | _ ↦ none
  ]

  abbrev answer_text : Bool → Option Bytes → Event F → Option (Event F)
  answer_text true (some text) e = some (assign_response e (text_response text))
  answer_text _ _ e = none

  unfoldable pub handle_input_get : Handler F
  handle_input_get bev e w =
      some (on_device copy_all w, answer_text (is_success (copy_all w.device).0) env.clipboard e)
