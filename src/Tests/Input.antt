-- ===== src/Tests/Input.antt =====
-- Keys and characters on a device (server/src/input and server/src/keycode_map.c).
use mouse_hero.Base.{
  List, true, false, ℕ, ◌≤◌, ◌<◌, ◌≡◌, ◌≢◌, refl, Option, none, some, [], ◌∷◌, All, arith,
}
use mouse_hero.Base.Int.{pos, ◌≤ℤ◌}
use mouse_hero.Input.Restored.{clipboard_paste_text_restores}
use mouse_hero.Input.{
  Action, clipboard_set, unsupported_operation, Status, call, Device, backend_ok, backend_failure,
  is_ok, click,
}
use mouse_hero.Input.Clipboard.{clipboard_paste_text, default_config, paste_shortcut, set_error}
use mouse_hero.Input.Held.{NothingHeld, keyboard_function_key_releases}
use mouse_hero.Input.KeyMap.{
  map_ya_to_ckey, switch, ckey_from_protocol, ckey_from_protocol_injective,
}
use mouse_hero.Input.Keyboard.{keyboard_function_key}
use mouse_hero.Input.Utf8.{encode_codepoint_to_utf8, decode, decode-encode}
use mouse_hero.Wire.{Bytes}

-- Its second call fails.
abbrev faulty : Device
faulty = record { answers = backend_ok ∷ backend_failure ∷ []; log = [] }

nothing_held : NothingHeld faulty
nothing_held m = λ e. ground (arith, e)

-- The euro sign
euro : encode_codepoint_to_utf8 0x20AC ≡ 0xE2 ∷ 0x82 ∷ 0xAC ∷ []
unfolding encode_codepoint_to_utf8
euro = refl

decode-encode_example :
    (0x20AC < 0x110000
      → (decode (encode_codepoint_to_utf8 0x20AC) ≡ some 0x20AC)
        × (encode_codepoint_to_utf8 0x20AC ≢ [])
        × All (λ b. (0 < b) × (b < 256)) (encode_codepoint_to_utf8 0x20AC))
    × (0x110000 ≤ 0x20AC → encode_codepoint_to_utf8 0x20AC ≡ [])
decode-encode_example = decode-encode 0x20AC (omega arith)

-- F1 with Shift and Ctrl
keyboard_function_key_releases_example : NothingHeld (keyboard_function_key 88 3 click faulty).1
keyboard_function_key_releases_example =
    keyboard_function_key_releases 88 3 click faulty refl nothing_held

abbrev no_map : Bytes → Option (ℕ × ℕ)
no_map bs = none

escape_key : ckey_from_protocol (pos 0xE223) ≡ some 85
unfolding ckey_from_protocol map_ya_to_ckey switch
escape_key = refl

ckey_from_protocol_injective_example : (pos 0xE223 ≡ pos 0xE223) × (pos 0xE000 ≤ℤ pos 0xE223)
ckey_from_protocol_injective_example =
    ckey_from_protocol_injective (pos 0xE223) (pos 0xE223) 85 escape_key escape_key

-- The text `x` over a clipboard that held `y`
clipboard_paste_text_restores_example :
    let (s, d1) = call (clipboard_set (b'x' ∷ [])) faulty in
    let (e, d2) = clipboard_paste_text default_config (b'x' ∷ []) (some (b'y' ∷ [])) faulty in
    (default_config.enabled ≡ true
      → is_ok s ≡ true
      → (status : Status) × (log : List (Action × Status)) × (d2.log
          ≡ (clipboard_set (b'y' ∷ []), status) ∷ log)
        × (e ≡ (paste_shortcut default_config d1).0))
    × (default_config.enabled ≡ true → is_ok s ≡ false → (e ≡ set_error s) × (d2 ≡ d1))
    × (default_config.enabled ≡ false → (e ≡ unsupported_operation) × (d2 ≡ faulty))
clipboard_paste_text_restores_example =
    clipboard_paste_text_restores default_config b'x' [] (b'y' ∷ []) faulty
