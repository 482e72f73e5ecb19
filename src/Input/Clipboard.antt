-- ===== src/Input/Clipboard.antt =====
-- The clipboard fallback (server/src/input/keyboard/clipboard.h and clipboard.c): the text goes to the
-- clipboard and a paste shortcut is sent. What clipboard_get returned, the backup, is an argument;
-- clipboard_set is a call of the device.
use mouse_hero.Base.{
  Bool, true, false, not, ◌||◌, Option, none, some, [], ◌∷◌, equal, if◌then◌else◌,
}
use mouse_hero.Input.{
  press, release, click, CKey, key_control, key_insert, key_shift, key_v, YaError, success,
  clipboard_error, Status, backend_ok, backend_invalid_param, backend_failure, invalid_input,
  unsupported_operation, is_success, is_ok, Device, call, clipboard_set, input_key_action,
}
use mouse_hero.Wire.{Bytes}

-- clipboard_fallback_config_t
pub record ClipboardConfig : Type 0 where
  pub enabled : Bool
  pub use_ctrl_v : Bool

abbrev pub default_config : ClipboardConfig
default_config = record { enabled = true; use_ctrl_v = false }

-- The texts that the configuration is compared with.
abbrev pub word_1 : Bytes
word_1 = b'1' ∷ []

abbrev pub word_true : Bytes
word_true = b't' ∷ b'r' ∷ b'u' ∷ b'e' ∷ []

abbrev pub word_on : Bytes
word_on = b'o' ∷ b'n' ∷ []

abbrev pub word_yes : Bytes
word_yes = b'y' ∷ b'e' ∷ b's' ∷ []

abbrev pub word_ctrl_v : Bytes
word_ctrl_v = b'c' ∷ b't' ∷ b'r' ∷ b'l' ∷ b'_' ∷ b'v' ∷ []

-- `fallback` and `paste_key` are the values of [input].clipboard_fallback and .clipboard_paste_key.
unfoldable pub clipboard_helper_init :
    ClipboardConfig → Option Bytes → Option Bytes → ClipboardConfig
clipboard_helper_init c fallback paste_key = record {
  enabled = elim fallback [
    | none ↦ c.enabled
    | some s ↦ equal s word_1 || equal s word_true || equal s word_on || equal s word_yes
  ];
  use_ctrl_v = elim paste_key [ none ↦ c.use_ctrl_v | some s ↦ equal s word_ctrl_v ];
}

-- Press a modifier, click a key, release the modifier, up to the first failure.
unfoldable pub shortcut : CKey → CKey → Device → YaError × Device
shortcut modifier key d =
    let (e1, d1) = input_key_action modifier press d in
    let (e2, d2) = input_key_action key click d1 in
    if not (is_success e1)
    then (e1, d1)
    else if not (is_success e2)
    then (e2, d2)
    else input_key_action modifier release d2

-- The clipboard gets its old text back, where there was one; the result is not looked at.
unfoldable pub restore : Option Bytes → Device → Device
restore none d = d
restore (some b) d = (call (clipboard_set b) d).1

unfoldable pub paste_shortcut : ClipboardConfig → Device → YaError × Device
paste_shortcut c d =
    if c.use_ctrl_v then shortcut key_control key_v d else shortcut key_shift key_insert d

unfoldable pub paste_keys : ClipboardConfig → Option Bytes → Device → YaError × Device
paste_keys c backup d = let (e, d') = paste_shortcut c d in (e, restore backup d')

-- The errors of clipboard_set: a text that is not UTF-8 is invalid input, and else it is the clipboard's.
abbrev pub set_error : Status → YaError
set_error backend_ok = success
set_error backend_invalid_param = invalid_input
set_error backend_failure = clipboard_error

-- `backup` is the text that clipboard_get returned.
unfoldable pub clipboard_paste_text :
    ClipboardConfig → Bytes → Option Bytes → Device → YaError × Device
clipboard_paste_text c [] backup d = (invalid_input, d)
clipboard_paste_text c (b ∷ bs) backup d =
    let (s, d') = call (clipboard_set (b ∷ bs)) d in
    if not c.enabled
    then (unsupported_operation, d)
    else if not (is_ok s)
    then (set_error s, d')
    else paste_keys c backup d'
