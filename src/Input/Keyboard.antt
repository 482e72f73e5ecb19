-- ===== src/Input/Keyboard.antt =====
-- Keys and characters of the Linux build (server/src/input/keyboard/handler.c with USE_UINPUT, and
-- map_char_to_evdev_linux of server/src/input/keyboard/mapper.c). The lookup of a text in the XKB map
-- is an argument: the evdev key and the modifier mask that it finds.
use mouse_hero.Base.{
  ℕ, Bool, true, false, not, ◌&&◌, Option, none, some, [], ◌∷◌, ◌==◌, if◌then◌else◌,
}
use mouse_hero.Input.{
  CDirection, press, release, click, CKey, YaError, success, is_success, Status, is_ok, Device,
  input_key_action, input_linux_key_action_raw,
}
use mouse_hero.Input.Clipboard.{ClipboardConfig, clipboard_paste_text}
use mouse_hero.Input.Modifiers.{
  chord_alt, merge_modifiers, function_key_mask, press_modifiers, release_modifiers,
}
use mouse_hero.Input.Utf8.{encode_codepoint_to_utf8}
use mouse_hero.Wire.{Bytes}

abbrev pub is_click : CDirection → Bool
is_click click = true
is_click _ = false

-- The main key: a click under modifiers is split into press and release.
unfoldable pub main_key : ℕ → ℕ → CDirection → Device → Status × Device
main_key evdev_key final_mods dir d =
    let (s, d') = input_linux_key_action_raw evdev_key press d in
    if is_click dir && not (final_mods == 0)
    then (if is_ok s then input_linux_key_action_raw evdev_key release d' else (s, d'))
    else input_linux_key_action_raw evdev_key dir d

module _ (xkbmap_map_utf8_to_evdev : Bytes → Option (ℕ × ℕ)) (config : ClipboardConfig)
    (backup : Option Bytes) where
  -- The empty text, which stands for an invalid codepoint, is not looked up.
  unfoldable pub map_char_to_evdev_linux : ℕ → Option (ℕ × ℕ)
  map_char_to_evdev_linux codepoint = elim (encode_codepoint_to_utf8 codepoint) [
    | [] ↦ none
    | b ∷ bs ↦ xkbmap_map_utf8_to_evdev (b ∷ bs)
  ]

  unfoldable pub paste_char : ℕ → Device → YaError × Device
  paste_char codepoint = clipboard_paste_text config (encode_codepoint_to_utf8 codepoint) backup

  unfoldable pub inject_char : ℕ → ℕ → ℕ → ℕ → CDirection → Device → YaError × Device
  inject_char codepoint evdev_key xkb_mods user_mods dir d =
      let final_mods = merge_modifiers user_mods xkb_mods in
      let (e, held, d1) = press_modifiers final_mods (chord_alt user_mods) d in
      let (s, d2) = main_key evdev_key final_mods dir d1 in
      let d3 = release_modifiers held d2 in
      if not (is_success e)
      then paste_char codepoint d1
      else if is_ok s
      then (success, d3)
      else paste_char codepoint d3

  unfoldable pub keyboard_char : ℕ → ℕ → CDirection → Device → YaError × Device
  keyboard_char codepoint user_mods dir d = elim (map_char_to_evdev_linux codepoint) [
    | none ↦ paste_char codepoint d
    | some (evdev_key, xkb_mods) ↦ inject_char codepoint evdev_key xkb_mods user_mods dir d
  ]

unfoldable pub keyboard_function_key : CKey → ℕ → CDirection → Device → YaError × Device
keyboard_function_key key user_mods dir d =
    let (e, held, d1) = press_modifiers (function_key_mask user_mods) (chord_alt user_mods) d in
    let (e', d2) = input_key_action key dir d1 in
    if is_success e then (e', release_modifiers held d2) else (e, d1)
