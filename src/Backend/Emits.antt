-- ===== src/Backend/Emits.antt =====
-- What the actions of the backend write (server/src/input/backend/linux_uinput.c), against the list of
-- events that each stands for.
use mathlib.Core.List.{append-nil, append_assoc}
use mouse_hero.Backend.Keys.{ckey_to_linux_keycode}
use mouse_hero.Backend.{
  BackendStatus, ok, error_init, error_invalid_param, error_device, InputEvent, Syscall, writes,
  Uinput, syscall, event, ev_syn, ev_key, ev_rel, rel_x, rel_y, emit_event, emit_syn,
  button_to_linux_code, scroll_axis, scroll_value, is_positive, input_linux_mouse_move,
  input_linux_mouse_press, input_linux_mouse_release, input_linux_mouse_click,
  input_linux_mouse_scroll, input_linux_key_press, input_linux_key_action,
  input_linux_key_action_raw, answer, later,
}
use mouse_hero.Base.{
  ℕ, Bool, true, false, Option, none, some, List, [], ◌∷◌, ◌++◌, map, ◌≡◌, ◌⊎◌, inl, inr, refl, sym,
  ap, subst, ◌∙◌, if◌then◌else◌, Bool-cases, arith,
}
use mouse_hero.Base.Int.{ℤ, pos, is_zero}
use mouse_hero.Input.{CKey, CDirection, press, release, click, BackendButton, ScrollDirection}

-- The actions of the backend.
pub data Act : Type 0 where
  mouse_move : ℤ → ℤ → Act
  mouse_press mouse_release mouse_click : BackendButton → Act
  mouse_scroll : ScrollDirection → ℤ → Act
  key_press : ℕ → Act
  key_action : CKey → CDirection → Act
  key_action_raw : ℕ → CDirection → Act

abbrev pub perform : Act → Uinput → BackendStatus × Uinput
perform (mouse_move dx dy) = input_linux_mouse_move dx dy
perform (mouse_press b) = input_linux_mouse_press b
perform (mouse_release b) = input_linux_mouse_release b
perform (mouse_click b) = input_linux_mouse_click b
perform (mouse_scroll direction amount) = input_linux_mouse_scroll direction amount
perform (key_press code) = input_linux_key_press code
perform (key_action key direction) = input_linux_key_action key direction
perform (key_action_raw code direction) = input_linux_key_action_raw code direction

abbrev pub syn : InputEvent
syn = event ev_syn 0 (pos 0)

abbrev pub keyed : ℕ → ℕ → List InputEvent
keyed code value = event ev_key code (pos value) ∷ syn ∷ []

abbrev pub directed : ℕ → CDirection → List InputEvent
directed code press = keyed code 1
directed code release = keyed code 0
directed code click = keyed code 1 ++ keyed code 0

abbrev axis : ℕ → ℤ → List InputEvent
axis code amount = if is_zero amount then [] else event ev_rel code amount ∷ []

-- The events of an action, or `none` where its argument is refused.
abbrev pub events : Act → Option (List InputEvent)
events (mouse_move dx dy) = some (axis rel_x dx ++ (axis rel_y dy ++ syn ∷ []))
events (mouse_press b) = some (keyed (button_to_linux_code b) 1)
events (mouse_release b) = some (keyed (button_to_linux_code b) 0)
events (mouse_click b) = some (keyed (button_to_linux_code b) 1 ++ keyed (button_to_linux_code b) 0)
events (mouse_scroll direction amount) =
    if is_positive amount
    then some (event ev_rel (scroll_axis direction) (scroll_value direction amount) ∷ syn ∷ [])
    else none
events (key_press code) = some (keyed code 1 ++ keyed code 0)
events (key_action key direction) = elim (ckey_to_linux_keycode key) [
  | none ↦ none
  | some code ↦ some (directed code direction)
]
events (key_action_raw code direction) = some (directed code direction)

-- These events are written, up to the first failure.
abbrev pub emits : List InputEvent → Uinput → BackendStatus × Uinput
emits [] u = (ok, u)
emits (e ∷ es) u =
    let (fine, u') = syscall (writes e) u in if fine then emits es u' else (error_device, u')

abbrev pub attempt : Option (List InputEvent) → Uinput → BackendStatus × Uinput
attempt none u = (error_invalid_param, u)
attempt (some es) u = emits es u

abbrev pub specified : Act → Uinput → BackendStatus × Uinput
specified a u = if u.is_open then attempt (events a) u else (error_init, u)

click-specified :
    (b : BackendButton) (u : Uinput) → perform (mouse_click b) u ≡ specified (mouse_click b) u
unfolding input_linux_mouse_click input_linux_mouse_press input_linux_mouse_release emit_event
    emit_syn syscall
click-specified b u = ground arith

pub perform-specified : (a : Act) (u : Uinput) → perform a u ≡ specified a u
unfolding input_linux_mouse_move input_linux_mouse_press input_linux_mouse_release
    input_linux_mouse_click input_linux_mouse_scroll input_linux_key_press input_linux_key_action
    input_linux_key_action_raw emit_event emit_syn
perform-specified (mouse_move dx dy) u = ground arith
perform-specified (mouse_press b) u = refl
perform-specified (mouse_release b) u = refl
perform-specified (mouse_click b) u = click-specified b u
perform-specified (mouse_scroll direction amount) u = ground arith
perform-specified (key_press code) u = refl
perform-specified (key_action key press) u = ground arith
perform-specified (key_action key release) u = ground arith
perform-specified (key_action key click) u = ground arith
perform-specified (key_action_raw code press) u = refl
perform-specified (key_action_raw code release) u = refl
perform-specified (key_action_raw code click) u = refl

abbrev pub sent : InputEvent → Syscall × Bool
sent e = (writes e, true)

pub perform-open :
    (a : Act) (u : Uinput) (o : Option (List InputEvent))
    → u.is_open ≡ true
    → events a ≡ o
    → perform a u ≡ attempt o u
perform-open a u o opened e =
    perform-specified a u
    ∙ ap (λ b. if b then attempt (events a) u else (error_init, u)) opened
    ∙ ap (λ x. attempt x u) e

-- All of the events are in the log, or those in front of one that failed.
abbrev pub Written : List InputEvent → Uinput → BackendStatus × Uinput → Type 0
Written es u (status, u') =
    ((status ≡ ok) × (u'.log ≡ u.log ++ map sent es))
    ⊎ ((before : List InputEvent) × (e : InputEvent) × (behind : List InputEvent) × (es
          ≡ before ++ e ∷ behind)
        × (status ≡ error_device)
        × (u'.log ≡ u.log ++ (map sent before ++ (writes e, false) ∷ [])))

pub emits-Written : (es : List InputEvent) (u : Uinput) → Written es u (emits es u)
unfolding syscall
emits-Written [] u = inl (refl, sym (append-nil u.log))
emits-Written (e ∷ es) u = elim (Bool-cases (answer u.answers)) [
  | inr failed ↦ rw failed (inr ([], e, es, refl, refl, refl))
  | inl fine ↦
      let u' = record u { answers = later u.answers; log = u.log ++ (writes e, true) ∷ [] } in
      rw fine (elim (emits-Written es u') [
        | inl (s, l) ↦ inl (s, l ∙ append_assoc u.log (sent e ∷ []) (map sent es))
        | inr (before, x, behind, split, s, l) ↦ inr (
          e ∷ before,
          x,
          behind,
          ap (λ t. e ∷ t) split,
          s,
          l ∙ append_assoc u.log (sent e ∷ []) (map sent before ++ (writes x, false) ∷ []),
        )
      ])
]

-- What an action gives, where the device is open or not, and has these events or is refused.
abbrev pub Outcome : Bool → Option (List InputEvent) → Uinput → BackendStatus × Uinput → Type 0
Outcome false o u r = r ≡ (error_init, u)
Outcome true none u r = r ≡ (error_invalid_param, u)
Outcome true (some es) u r = Written es u r

specified-Outcome :
    (open_now : Bool) (o : Option (List InputEvent)) (u : Uinput)
    → Outcome open_now o u (if open_now then attempt o u else (error_init, u))
specified-Outcome false o u = refl
specified-Outcome true none u = refl
specified-Outcome true (some es) u = emits-Written es u

-- Each action of the backend, on every branch: with no open device it returns ERROR_INIT and does
-- nothing, an argument with no events (a key with no Linux code, a scroll that is not positive) gives
-- ERROR_INVALID_PARAM and does nothing, and else it writes the events of the action in order, a report
-- behind each change, and returns OK; or one of these writes fails, and then the events in front of it
-- are written, those behind it are not, and it returns ERROR_DEVICE.
pub perform_writes : (a : Act) (u : Uinput) → Outcome u.is_open (events a) u (perform a u)
perform_writes a u =
    subst (Outcome u.is_open (events a) u) (sym (perform-specified a u))
      (specified-Outcome u.is_open (events a) u)
