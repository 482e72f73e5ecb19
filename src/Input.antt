-- ===== src/Input.antt =====
-- The input facade of the Linux build (server/src/input/facade.h and facade.c, with USE_UINPUT). The
-- backend below it is a device that answers each call with a status: the answers are given beforehand,
-- so a statement for every device is one for every behaviour of the backend. The log holds the calls
-- with their answers, the newest first. Sleeps and the lock are left out; one thread injects at a time.
pub mod KeyMap
pub mod Utf8
pub mod Modifiers
pub mod Clipboard
pub mod Keyboard
pub mod Held
pub mod Restored
use mouse_hero.Base.{
  ℕ, suc, ◌+◌, Bool, true, false, Option, none, some, List, [], ◌∷◌, ltb, ◌==◌, if◌then◌else◌,
}
use mouse_hero.Base.Int.{ℤ, pos, negsuc}
use mouse_hero.Wire.{Bytes}

-- enum CButton and enum CDirection (server/rs/src/c.rs)
pub data CButton : Type 0 where
  left middle right back forward scroll_up scroll_down scroll_left scroll_right : CButton

pub data CDirection : Type 0 where
  press release click : CDirection

-- enum CKey: the position of an enumerator
abbrev pub CKey : Type 0
CKey = ℕ

abbrev pub key_alt : CKey
key_alt = 40

abbrev pub key_control : CKey
key_control = 61

abbrev pub key_insert : CKey
key_insert = 163

abbrev pub key_meta : CKey
key_meta = 187

abbrev pub key_shift : CKey
key_shift = 272

abbrev pub key_v : CKey
key_v = 31

-- YAError (server/rs/src/lib.rs)
pub data YaError : Type 0 where
  success platform_error clipboard_error invalid_input unsupported_operation not_found : YaError

abbrev pub is_success : YaError → Bool
is_success success = true
is_success _ = false

-- input_linux_status_t; `failure` stands for every code but the two that the callers tell apart.
pub data Status : Type 0 where
  backend_ok backend_invalid_param backend_failure : Status

abbrev pub is_ok : Status → Bool
is_ok backend_ok = true
is_ok _ = false

pub data BackendButton : Type 0 where
  button_left button_right button_middle : BackendButton

pub data ScrollDirection : Type 0 where
  up down left_ward right_ward : ScrollDirection

-- The calls of the backend and of the clipboard, and those of the desktop library (server/rs) that
-- one handler makes itself: key_action_with_code and mouse_button.
pub data Action : Type 0 where
  mouse_move : ℤ → ℤ → Action
  mouse_press mouse_release mouse_click : BackendButton → Action
  mouse_scroll : ScrollDirection → ℕ → Action
  key_action : CKey → CDirection → Action
  key_raw : ℕ → CDirection → Action
  clipboard_set : Bytes → Action
  key_code : ℕ → CDirection → Action
  desktop_button : CButton → CDirection → Action

pub record Device : Type 0 where
  pub answers : List Status
  pub log : List (Action × Status)

abbrev next : List Status → Status
next [] = backend_ok
next (s ∷ ss) = s

abbrev rest : List Status → List Status
rest [] = []
rest (s ∷ ss) = ss

-- One call. A device with no answer left says OK.
unfoldable pub call : Action → Device → Status × Device
call a d = (next d.answers, record { answers = rest d.answers; log = (a, next d.answers) ∷ d.log })

abbrev pub translate_backend_status : Status → YaError
translate_backend_status backend_ok = success
translate_backend_status backend_invalid_param = invalid_input
translate_backend_status backend_failure = platform_error

unfoldable pub perform : Action → Device → YaError × Device
perform a d = let (s, d') = call a d in (translate_backend_status s, d')

abbrev pub map_button_to_backend : CButton → Option BackendButton
map_button_to_backend left = some button_left
map_button_to_backend right = some button_right
map_button_to_backend middle = some button_middle
map_button_to_backend _ = none

abbrev pub map_scroll_dir_to_backend : ℤ → Option ScrollDirection
map_scroll_dir_to_backend (pos n) =
    if n == 0
    then some up
    else if n == 1
    then some down
    else if n == 2
    then some left_ward
    else if n == 3
    then some right_ward
    else none
map_scroll_dir_to_backend (negsuc n) = none

unfoldable pub input_mouse_move : ℤ → ℤ → Device → YaError × Device
input_mouse_move dx dy = perform (mouse_move dx dy)

abbrev pub button_action : BackendButton → CDirection → Action
button_action b press = mouse_press b
button_action b release = mouse_release b
button_action b click = mouse_click b

unfoldable pub input_mouse_button : CButton → CDirection → Device → YaError × Device
input_mouse_button btn dir d = elim (map_button_to_backend btn) [
  | none ↦ (invalid_input, d)
  | some b ↦ perform (button_action b dir) d
]

unfoldable pub input_mouse_scroll : ℤ → ℤ → Device → YaError × Device
input_mouse_scroll (negsuc n) dir d = (invalid_input, d)
input_mouse_scroll (pos amount) dir d =
    if amount == 0 then (invalid_input, d) else elim (map_scroll_dir_to_backend dir) [
      | none ↦ (invalid_input, d)
      | some s ↦ perform (mouse_scroll s amount) d
    ]

unfoldable pub input_key_action : CKey → CDirection → Device → YaError × Device
input_key_action key dir = perform (key_action key dir)

-- input_linux_key_action_raw, whose status the callers read themselves
unfoldable pub input_linux_key_action_raw : ℕ → CDirection → Device → Status × Device
input_linux_key_action_raw evdev dir = call (key_raw evdev dir)
