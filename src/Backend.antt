-- ===== src/Backend.antt =====
-- The uinput backend of the Linux build (server/src/input/backend/linux_uinput.c and linux_uinput.h).
-- The system calls answer with success or failure; the answers are given beforehand, so that a
-- statement for every state is one for every behaviour of the kernel. The log holds the calls with their
-- answers, in order. Logging, errno and the device's name and ids are left out. The numbers are those of
-- linux/input-event-codes.h.
pub mod Keys
pub mod Emits
pub mod Held
pub mod Descriptor
pub mod Protocol
use mouse_hero.Backend.Keys.{ckey_to_linux_keycode, enabled_keys}
use mouse_hero.Base.{
  ℕ, ◌+◌, ◌%◌, ◌^◌, Bool, true, false, not, ◌&&◌, Option, none, some, List, [], ◌∷◌, ◌++◌, map,
  ◌==◌, if◌then◌else◌,
}
use mouse_hero.Base.Int.{ℤ, pos, negsuc, is_zero, pos_part, neg_part, sub_ℕ}
use mouse_hero.Input.{
  CKey, CDirection, press, release, click, BackendButton, button_left, button_right, button_middle,
  ScrollDirection, up, down, left_ward, right_ward,
}

-- input_linux_status_t
pub data BackendStatus : Type 0 where
  ok error_init error_permission error_not_available error_invalid_param error_device :
      BackendStatus

abbrev pub ev_syn : ℕ
ev_syn = 0

abbrev pub ev_key : ℕ
ev_key = 1

abbrev pub ev_rel : ℕ
ev_rel = 2

abbrev pub rel_x : ℕ
rel_x = 0

abbrev pub rel_y : ℕ
rel_y = 1

abbrev pub rel_hwheel : ℕ
rel_hwheel = 6

abbrev pub rel_wheel : ℕ
rel_wheel = 8

abbrev pub rel_wheel_hi_res : ℕ
rel_wheel_hi_res = 11

abbrev pub rel_hwheel_hi_res : ℕ
rel_hwheel_hi_res = 12

-- struct input_event without its time; `code` has 16 bits.
pub record InputEvent : Type 0 where
  pub type : ℕ
  pub code : ℕ
  pub value : ℤ

pub data Syscall : Type 0 where
  opens closes dev_setup dev_create : Syscall
  set_evbit set_keybit set_relbit : ℕ → Syscall
  writes : InputEvent → Syscall

-- `is_open` is `uinput_fd >= 0`.
pub record Uinput : Type 0 where
  pub is_open : Bool
  pub answers : List Bool
  pub log : List (Syscall × Bool)

abbrev pub answer : List Bool → Bool
answer [] = true
answer (a ∷ as') = a

abbrev pub later : List Bool → List Bool
later [] = []
later (a ∷ as') = as'

-- One call. Where no answer is left, calls succeed.
unfoldable pub syscall : Syscall → Uinput → Bool × Uinput
syscall c u = (
  answer u.answers,
  record u { answers = later u.answers; log = u.log ++ (c, answer u.answers) ∷ [] },
)

abbrev pub button_to_linux_code : BackendButton → ℕ
button_to_linux_code button_left = 0x110
button_to_linux_code button_right = 0x111
button_to_linux_code button_middle = 0x112

-- The events that the helper writes: `code` is an __u16.
abbrev pub event : ℕ → ℕ → ℤ → InputEvent
event type code value = record { type = type; code = code % 2 ^ 16; value = value }

unfoldable pub emit_event : ℕ → ℕ → ℤ → Uinput → Bool × Uinput
emit_event type code value = syscall (writes (event type code value))

unfoldable pub emit_syn : Uinput → Bool × Uinput
emit_syn = emit_event ev_syn 0 (pos 0)

-- `if (m < 0) return INPUT_BACKEND_ERROR_DEVICE;`, and what follows.
infixr 5 ◌>>◌
abbrev pub ◌>>◌ :
    (Uinput → Bool × Uinput) → (Uinput → BackendStatus × Uinput) → Uinput → BackendStatus × Uinput
◌>>◌ m k u = let (done, u') = m u in if done then k u' else (error_device, u')

abbrev pub done : Uinput → BackendStatus × Uinput
done u = (ok, u)

abbrev pub when_open : (Uinput → BackendStatus × Uinput) → Uinput → BackendStatus × Uinput
when_open k u = if u.is_open then k u else (error_init, u)

-- A relative event, where there is a motion.
abbrev pub emit_axis : ℕ → ℤ → Uinput → Bool × Uinput
emit_axis axis amount u = if is_zero amount then (true, u) else emit_event ev_rel axis amount u

unfoldable pub input_linux_mouse_move : ℤ → ℤ → Uinput → BackendStatus × Uinput
input_linux_mouse_move dx dy =
    when_open (emit_axis rel_x dx >> emit_axis rel_y dy >> emit_syn >> done)

-- A key or button goes down (1) or up (0), and the report ends.
abbrev pub emit_key : ℕ → ℕ → (Uinput → BackendStatus × Uinput) → Uinput → BackendStatus × Uinput
emit_key code value k = emit_event ev_key code (pos value) >> emit_syn >> k

unfoldable pub input_linux_mouse_press : BackendButton → Uinput → BackendStatus × Uinput
input_linux_mouse_press button = when_open (emit_key (button_to_linux_code button) 1 done)

unfoldable pub input_linux_mouse_release : BackendButton → Uinput → BackendStatus × Uinput
input_linux_mouse_release button = when_open (emit_key (button_to_linux_code button) 0 done)

abbrev and_then :
    BackendStatus × Uinput → (Uinput → BackendStatus × Uinput) → BackendStatus × Uinput
and_then (ok, u) k = k u
and_then (e, u) k = (e, u)

unfoldable pub input_linux_mouse_click : BackendButton → Uinput → BackendStatus × Uinput
input_linux_mouse_click button u =
    and_then (input_linux_mouse_press button u) (input_linux_mouse_release button)

abbrev pub negate : ℤ → ℤ
negate a = sub_ℕ (neg_part a) (pos_part a)

-- The axis and the value of a direction
abbrev pub scroll_axis : ScrollDirection → ℕ
scroll_axis up = rel_wheel
scroll_axis down = rel_wheel
scroll_axis left_ward = rel_hwheel
scroll_axis right_ward = rel_hwheel

abbrev pub scroll_value : ScrollDirection → ℤ → ℤ
scroll_value up amount = amount
scroll_value down amount = negate amount
scroll_value left_ward amount = negate amount
scroll_value right_ward amount = amount

abbrev pub is_positive : ℤ → Bool
is_positive (pos n) = not (n == 0)
is_positive (negsuc n) = false

unfoldable pub input_linux_mouse_scroll : ScrollDirection → ℤ → Uinput → BackendStatus × Uinput
input_linux_mouse_scroll direction amount = when_open λ u.
    if is_positive amount
    then (emit_event ev_rel (scroll_axis direction) (scroll_value direction amount)
          >> emit_syn
          >> done)
        u
    else (error_invalid_param, u)

abbrev pub emit_direction : ℕ → CDirection → Uinput → BackendStatus × Uinput
emit_direction code press = emit_key code 1 done
emit_direction code release = emit_key code 0 done
emit_direction code click = emit_key code 1 (emit_key code 0 done)

unfoldable pub input_linux_key_press : ℕ → Uinput → BackendStatus × Uinput
input_linux_key_press keycode = when_open (emit_key keycode 1 (emit_key keycode 0 done))

unfoldable pub input_linux_key_action : CKey → CDirection → Uinput → BackendStatus × Uinput
input_linux_key_action key direction = when_open λ u. elim (ckey_to_linux_keycode key) [
  | none ↦ (error_invalid_param, u)
  | some code ↦ emit_direction code direction u
]

unfoldable pub input_linux_key_action_raw : ℕ → CDirection → Uinput → BackendStatus × Uinput
input_linux_key_action_raw evdev_key direction = when_open (emit_direction evdev_key direction)

-- `a < 0 || b < 0 || ...` stops at the first failure.
abbrev pub all_of : List Syscall → Uinput → Bool × Uinput
all_of [] u = (true, u)
all_of (c ∷ cs) u = let (fine, u') = syscall c u in if fine then all_of cs u' else (false, u')

-- Calls whose answers are not looked at.
abbrev pub each : List Syscall → Uinput → Uinput
each [] u = u
each (c ∷ cs) u = each cs (syscall c u).1

abbrev pub event_types : List Syscall
event_types = set_evbit ev_key ∷ set_evbit ev_rel ∷ set_evbit ev_syn ∷ []

abbrev pub capabilities : List Syscall
capabilities =
    set_keybit 0x110
    ∷ set_keybit 0x111
    ∷ set_keybit 0x112
    ∷ set_relbit rel_x
    ∷ set_relbit rel_y
    ∷ set_relbit rel_wheel
    ∷ set_relbit rel_hwheel
    ∷ set_relbit rel_wheel_hi_res
    ∷ set_relbit rel_hwheel_hi_res
    ∷ map set_keybit enabled_keys

-- close(uinput_fd); uinput_fd = -1;
unfoldable pub close_fd : Uinput → Uinput
close_fd u = record (syscall closes u).1 { is_open = false }

unfoldable pub create_device : Uinput → BackendStatus × Uinput
create_device u =
    let (set_up, u') = syscall dev_setup u in
    let (created, u'') = syscall dev_create u' in
    if not set_up
    then (error_init, close_fd u')
    else if created
    then (ok, u'')
    else (error_init, close_fd u'')

unfoldable pub set_up_device : Uinput → BackendStatus × Uinput
set_up_device u =
    let (fine, u') = all_of event_types u in
    if fine then create_device (each capabilities u') else (error_init, close_fd u')

unfoldable pub input_linux_init : Uinput → BackendStatus × Uinput
input_linux_init u =
    let (opened, u') = syscall opens u in
    if opened
    then set_up_device (record u' { is_open = true })
    else (error_device, record u' { is_open = false })

unfoldable pub input_linux_shutdown : Uinput → Uinput
input_linux_shutdown u = if u.is_open then close_fd u else u

-- What `access` and `geteuid` answer, and the report. The message is one of four.
pub data Advice : Type 0 where
  load_module run_as_user configure_udev all_passed : Advice

pub record Diagnosis : Type 0 where
  pub device_exists : Bool
  pub has_write_permission : Bool
  pub udev_rule_detected : Bool
  pub non_root_verified : Bool
  pub error_message : Advice

unfoldable pub input_linux_diagnose : Bool → Bool → ℕ → Diagnosis
input_linux_diagnose exists writable euid = record {
  device_exists = exists;
  has_write_permission = writable;
  udev_rule_detected = false;
  non_root_verified = not (euid == 0);
  error_message =
      if not exists
      then load_module
      else if euid == 0
      then run_as_user
      else if not writable
      then configure_udev
      else all_passed;
}
