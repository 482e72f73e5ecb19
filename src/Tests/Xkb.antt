-- ===== src/Tests/Xkb.antt =====
-- The theorems on the map from characters to keys (server/src/input/backend/xkb_mapper.c) on a keymap
-- of two keys.
use mouse_hero.Base.{
  ℕ, ◌≤◌, ◌≡◌, ◌⊎◌, refl, true, false, Option, none, some, [], ◌∷◌, length, arith, if◌then◌else◌,
  ◌==◌,
}
use mouse_hero.Base.Int.{pos}
use mouse_hero.Input.Clipboard.{default_config}
use mouse_hero.Input.Keyboard.{map_char_to_evdev_linux}
use mouse_hero.Input.Utf8.{encode_codepoint_to_utf8}
use mouse_hero.Xkb.Cache.{Types}
use mouse_hero.Xkb.Characters.{IsLoaded, map_char-Types, map_char_found, shifted}
use mouse_hero.Xkb.Lifetime.{IsEmpty, Returns, starts, frees, run, run-Returns}
use mouse_hero.Xkb.{
  ModifierName, shift, iso_level3_shift, mode_switch, Keymap, Desktop, uninitialized, Xkb,
  build_cache, typed, mod_mask, add_round, xkbmap_init_auto, xkbmap_free, xkbmap_map_utf8_to_evdev,
  decode_utf8, detect, try_init_from_x11, try_init_from_env,
}

-- Keycode 8 types "1" and "!", keycode 9 "e" and "E"; no modifier is named as Level3.
abbrev symbol : ℕ → ℕ → ℕ
symbol mask kc =
    if kc == 8 then (if mask == 1 then b'!' else b'1') else (if mask == 1 then b'E' else b'e')

abbrev index_of : ModifierName → Option ℕ
index_of shift = some 0
index_of iso_level3_shift = none
index_of mode_switch = none

abbrev tiny : Keymap
tiny = record {
  min_keycode = 8;
  max_keycode = 9;
  mod_get_index = index_of;
  key_get_one_sym = symbol;
  keysym_to_utf32 = λ s. s;
  min_legal = omega arith;
}

abbrev desktop : Desktop
desktop = record {
  context_new = true;
  display = none;
  connects = false;
  device_id = pos 0;
  x11_keymap = none;
  layout = some (b'd' ∷ b'e' ∷ []);
  env_keymap = some tiny;
  us_keymap = none;
  state_new = true;
  calloc = true;
}

abbrev empty : Xkb
empty = record {
  initialized = false;
  layout_source = uninitialized;
  ctx = false;
  keymap = none;
  state = false;
  cache = none;
}

abbrev loaded : Xkb
loaded = (xkbmap_init_auto desktop empty).1

loaded-IsLoaded : IsLoaded tiny loaded
unfolding xkbmap_init_auto detect try_init_from_x11 try_init_from_env
loaded-IsLoaded = record { initialized = refl; cache = refl }

-- "E" is keycode 9 with Shift.
map_char_E :
    map_char_to_evdev_linux (xkbmap_map_utf8_to_evdev loaded) default_config none b'E' ≡ some (1, 1)
unfolding map_char_to_evdev_linux xkbmap_map_utf8_to_evdev xkbmap_init_auto detect try_init_from_x11
    try_init_from_env build_cache add_round typed mod_mask decode_utf8 encode_codepoint_to_utf8
map_char_E = refl

map_char-Types_example : Types tiny (record { codepoint = b'E'; evdev_key = 1; mods_mask = 1 })
map_char-Types_example =
    map_char-Types default_config none tiny loaded b'E' 1 1 loaded-IsLoaded (omega arith)
      (omega arith) map_char_E

map_char_found_example :
    ((r : ℕ × ℕ) × (map_char_to_evdev_linux
          (xkbmap_map_utf8_to_evdev loaded)
          default_config
          none
          b'E'
        ≡ some r))
    ⊎ (512 ≤ length (build_cache tiny))
map_char_found_example =
    map_char_found default_config none tiny loaded b'E' 9 1 true false loaded-IsLoaded (omega arith)
      (omega arith) (omega arith, omega arith) (shifted 0 refl) (omega arith) refl

run-Returns_example :
    ((d : Desktop) → Returns (xkbmap_init_auto d (run (starts desktop ∷ frees ∷ []) empty)))
    × IsEmpty (xkbmap_free (run (starts desktop ∷ frees ∷ []) empty))
run-Returns_example =
    run-Returns (starts desktop ∷ frees ∷ []) empty
      (record { initialized = refl; ctx = refl; keymap = refl; state = refl; cache = refl })
