-- ===== src/Input/Held.antt =====
-- Which modifier keys the code of server/src/input/keyboard/handler.c and clipboard.c leaves held down,
-- whatever the backend answers.
use mouse_hero.Base.{
  ℕ, ◌≡◌, ◌≢◌, inl, inr, Bool, true, false, ◌||◌, Option, none, some, List, [], ◌∷◌, ◌==◌,
  if◌then◌else◌, arith, Bool-cases,
}
use mouse_hero.Input.{
  Action, CDirection, press, release, click, CKey, key_alt, key_control, key_meta, key_shift,
  is_success, Status, is_ok, Device, call, perform, key_action, key_raw, input_key_action,
  input_linux_key_action_raw,
}
use mouse_hero.Input.Modifiers.{
  Modifier, shift, alt_gr, ctrl, meta, alt, key_rightalt, modifier_key, release_modifiers,
  press_from, press_modifiers, has_bit, function_key_mask, chord_alt,
}
use mouse_hero.Input.Keyboard.{keyboard_function_key}

abbrev pub modifier_event : Action → Option (Modifier × CDirection)
modifier_event (key_action k dir) =
    if k == key_shift
    then some (shift, dir)
    else if k == key_control
    then some (ctrl, dir)
    else if k == key_meta
    then some (meta, dir)
    else if k == key_alt
    then some (alt, dir)
    else none
modifier_event (key_raw c dir) = if c == key_rightalt then some (alt_gr, dir) else none
modifier_event _ = none

abbrev pub same : Modifier → Modifier → Bool
same shift shift = true
same alt_gr alt_gr = true
same ctrl ctrl = true
same meta meta = true
same alt alt = true
same _ _ = false

-- What is known of a modifier key: it is up or down, or in doubt, since the last call that was to change
-- it has failed.
pub data KeyState : Type 0 where
  up down doubtful : KeyState

abbrev pub failed_release : KeyState → KeyState
failed_release up = up
failed_release _ = doubtful

abbrev pub failed_press : KeyState → KeyState
failed_press down = down
failed_press _ = doubtful

-- One call of a key, with its result. A click that has failed may have pressed.
abbrev pub after_call : CDirection → Bool → KeyState → KeyState
after_call press true before = down
after_call press false before = failed_press before
after_call release true before = up
after_call release false before = failed_release before
after_call click true before = up
after_call click false before = doubtful

abbrev pub after_event : Modifier → Option (Modifier × CDirection) → Bool → KeyState → KeyState
after_event m none ok before = before
after_event m (some (k, dir)) ok before = if same m k then after_call dir ok before else before

abbrev pub key_state : Modifier → List (Action × Status) → KeyState
key_state m [] = up
key_state m ((a, s) ∷ log) = after_event m (modifier_event a) (is_ok s) (key_state m log)

abbrev pub mem : Modifier → List Modifier → Bool
mem m [] = false
mem m (k ∷ ks) = same m k || mem m ks

-- Nothing is down but what is on the list.
abbrev Within : List Modifier → Device → Type 0
Within held d = (m : Modifier) → key_state m d.log ≡ down → mem m held ≡ true

-- One key of a modifier is one event of it, and its result says whether it succeeded.
key_state-modifier_key :
    (k : Modifier) (dir : CDirection) (d : Device) (m : Modifier)
    → let (e, d') = modifier_key k dir d in
      key_state m d'.log ≡ after_event m (some (k, dir)) (is_success e) (key_state m d.log)
unfolding modifier_key input_key_action input_linux_key_action_raw perform call
key_state-modifier_key shift dir d m = ground arith
key_state-modifier_key alt_gr dir d m = ground arith
key_state-modifier_key ctrl dir d m = ground arith
key_state-modifier_key meta dir d m = ground arith
key_state-modifier_key alt dir d m = ground arith

press-Within :
    (k : Modifier) (held : List Modifier) (d : Device)
    → Within held d
    → let (e, d') = modifier_key k press d in
      (is_success e ≡ true → Within (k ∷ held) d') × (is_success e ≡ false → Within held d')
press-Within k held d w = (
  λ s m held_down. ground (arith, key_state-modifier_key k press d m, w m),
  λ f m held_down. ground (arith, key_state-modifier_key k press d m, w m),
)

release-Within :
    (k : Modifier) (held : List Modifier) (d : Device)
    → Within (k ∷ held) d
    → Within held (modifier_key k release d).1
release-Within k held d w m held_down = ground (arith, key_state-modifier_key k release d m, w m)

release_modifiers-Within :
    (held : List Modifier) (d : Device) → Within held d → Within [] (release_modifiers held d)
unfolding release_modifiers
release_modifiers-Within [] d w = w
release_modifiers-Within (k ∷ held) d w =
    release_modifiers-Within held (modifier_key k release d).1 (release-Within k held d w)

press_from-Within :
    (ms : List (Modifier × Bool)) (held : List Modifier) (d : Device)
    → Within held d
    → let (e, held', d') = press_from ms held d in
      (is_success e ≡ true → Within held' d') × (is_success e ≡ false → Within [] d')
unfolding press_from
press_from-Within [] held d w = (λ s. w, λ f. cc)
press_from-Within ((m, false) ∷ ms) held d w = press_from-Within ms held d w
press_from-Within ((m, true) ∷ ms) held d w =
    let (e, d') = modifier_key m press d in
    elim (Bool-cases (is_success e)) [
      | inl s ↦ rw s (press_from-Within ms (m ∷ held) d' ((press-Within m held d w).0 s))
      | inr f ↦
          rw f (λ s. cc, λ _. release_modifiers-Within held d' ((press-Within m held d w).1 f))
    ]

-- No modifier of the five is down: each is up or in doubt.
abbrev pub NothingHeld : Device → Type 0
NothingHeld d = (m : Modifier) → key_state m d.log ≢ down

abbrev IsPlain : Action → Type 0
IsPlain a = modifier_event a ≡ none

key-Within :
    (key : CKey) (dir : CDirection) (held : List Modifier) (d : Device)
    → IsPlain (key_action key dir)
    → Within held d
    → Within held (input_key_action key dir d).1
unfolding input_key_action perform call
key-Within key dir held d p w m held_down = ground (arith, p, w m)

raw-Within :
    (key : ℕ) (dir : CDirection) (held : List Modifier) (d : Device)
    → IsPlain (key_raw key dir)
    → Within held d
    → Within held (input_linux_key_action_raw key dir d).1
unfolding input_linux_key_action_raw call
raw-Within key dir held d p w m held_down = ground (arith, p, w m)

press_modifiers-Within :
    (mask : ℕ) (user_alt : Bool) (d : Device)
    → Within [] d
    → let (e, held, d') = press_modifiers mask user_alt d in
      (is_success e ≡ true → Within held d') × (is_success e ≡ false → Within [] d')
unfolding press_modifiers
press_modifiers-Within mask user_alt d w =
    press_from-Within
      ((shift, has_bit mask 0)
        ∷ (alt_gr, has_bit mask 1)
        ∷ (ctrl, has_bit mask 2)
        ∷ (meta, has_bit mask 3)
        ∷ (alt, user_alt)
        ∷ [])
      [] d w

Within-NothingHeld : (d : Device) → Within [] d → NothingHeld d
Within-NothingHeld d w m = λ e. cc (w m e)

NothingHeld-Within : (d : Device) → NothingHeld d → Within [] d
NothingHeld-Within d n m held = absurd (n m held)

-- A key that is no modifier is sent under the client's modifiers: whatever the backend answers to each
-- call, and whichever modifiers the client asks for, if each modifier key was up or in doubt before, then
-- each is up or in doubt after: a press that succeeded is always followed by a release. In doubt is a key
-- whose last press or release has failed; the result of a release is not looked at, so that the key may
-- stay down where its release fails.
pub keyboard_function_key_releases :
    (key : CKey) (user_mods : ℕ) (dir : CDirection) (d : Device)
    → modifier_event (key_action key dir) ≡ none
    → NothingHeld d
    → NothingHeld (keyboard_function_key key user_mods dir d).1
unfolding keyboard_function_key
keyboard_function_key_releases key user_mods dir d plain none_held =
    let pressed =
      press_modifiers-Within (function_key_mask user_mods) (chord_alt user_mods) d
        (NothingHeld-Within d none_held) in
    let (e, held, d1) = press_modifiers (function_key_mask user_mods) (chord_alt user_mods) d in
    let d2 = (input_key_action key dir d1).1 in
    elim (Bool-cases (is_success e)) [
      | inl s ↦ rw s (
          Within-NothingHeld (release_modifiers held d2)
            (release_modifiers-Within held d2 (key-Within key dir held d1 plain (pressed.0 s))))
      | inr f ↦ rw f (Within-NothingHeld d1 (pressed.1 f))
    ]
