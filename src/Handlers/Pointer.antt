-- ===== src/Handlers/Pointer.antt =====
-- What the mouse and control handlers (server/src/ya_server_handler.c) ask of the device and of the
-- system.
use mathlib.Core.Option.{some_inj}
use mouse_hero.Base.{
  ℕ, suc, ◌≤◌, ◌<◌, ◌≡◌, ◌⊎◌, inl, inr, refl, ap, true, false, none, some, List, [], ◌∷◌, ◌++◌, ltb,
  ◌==◌, if◌then◌else◌, arith, Option-cases, zero,
}
use mouse_hero.Base.Int.{ℤ, pos, negsuc, ◌≤ℤ◌}
use mouse_hero.Handlers.Mouse.{scroll_wheel, press_button}
use mouse_hero.Input.{
  Action, mouse_scroll, ScrollDirection, map_scroll_dir_to_backend, Device, Status, call, perform,
  input_mouse_scroll, input_mouse_button, is_ok, is_success, translate_backend_status, backend_ok,
  backend_invalid_param, backend_failure, CButton, BackendButton, CDirection, mouse_click,
  button_action, map_button_to_backend, left, right, middle, click,
}

-- The calls that led from one device to a later one, the newest first.
abbrev pub Called : List (Action × Status) → Device → Device → Type 0
Called new d d' = d'.log ≡ new ++ d.log

-- The steps of a wheel request.
abbrev capped : ℕ → ℕ
capped amount = if ltb 1000 amount then 1000 else amount

-- A wheel request makes at most one call of the backend. It makes one exactly for a positive amount and
-- a direction of 0 to 3, and that call scrolls by a positive number of steps, at most 1000 and at most
-- the amount.
pub scroll_wheel_bounds :
    (amount dir : ℤ) (d : Device)
    → (Called [] d (scroll_wheel amount dir d)
        × ((n : ℕ) → amount ≡ pos (suc n) → map_scroll_dir_to_backend dir ≡ none))
      ⊎ ((s : ScrollDirection) × (steps : ℕ) × (status : Status) × Called
            ((mouse_scroll s steps, status) ∷ [])
            d
            (scroll_wheel amount dir d)
          × (map_scroll_dir_to_backend dir ≡ some s)
          × (0 < steps)
          × (steps ≤ 1000)
          × (pos steps ≤ℤ amount))
unfolding scroll_wheel input_mouse_scroll perform call
scroll_wheel_bounds (negsuc n) dir d = inl (refl, λ k e. cc)
scroll_wheel_bounds (pos zero) dir d = inl (refl, λ k e. ground arith)
scroll_wheel_bounds (pos (suc n)) dir d =
    let steps = capped (suc n) in
    let amounts : (suc n == 0) ≡ false = ground arith in
    let some_steps : (steps == 0) ≡ false = ground arith in
    elim (Option-cases (map_scroll_dir_to_backend dir)) [
      | inl e ↦ inl (rw (amounts, some_steps, e) refl, λ k _. e)
      | inr (s, e) ↦ inr (
        s,
        steps,
        (call (mouse_scroll s steps) d).0,
        rw (amounts, some_steps, e) refl,
        e,
        ground arith,
        ground arith,
        ground arith,
      )
    ]

is_success-translate : (s : Status) → is_success (translate_backend_status s) ≡ is_ok s
is_success-translate backend_ok = refl
is_success-translate backend_invalid_param = refl
is_success-translate backend_failure = refl

button-perform :
    (b : CButton) (k : BackendButton) (dir : CDirection) (d : Device)
    → map_button_to_backend b ≡ some k
    → input_mouse_button b dir d ≡ perform (button_action k dir) d
unfolding input_mouse_button
button-perform left k dir d e = ap (λ x. perform (button_action x dir) d) (some_inj.0 e)
button-perform right k dir d e = ap (λ x. perform (button_action x dir) d) (some_inj.0 e)
button-perform middle k dir d e = ap (λ x. perform (button_action x dir) d) (some_inj.0 e)
button-perform _ k dir d e = cc

-- A press, a release or a click of a supported button is one call of the backend. A double click is a
-- click, and a second one exactly if the first succeeds.
pub press_button_calls :
    (b : CButton) (k : BackendButton) (dir : CDirection) (d : Device)
    → map_button_to_backend b ≡ some k
    → let first = (call (mouse_click k) d).0 in
      ((status : Status) × Called
          ((button_action k dir, status) ∷ [])
          d
          (press_button b dir false d).1)
      × (is_ok first ≡ true
          → (status : Status) × Called
              ((mouse_click k, status) ∷ (mouse_click k, first) ∷ [])
              d
              (press_button b dir true d).1)
      × (is_ok first ≡ false → Called ((mouse_click k, first) ∷ []) d (press_button b dir true d).1)
unfolding press_button perform call
press_button_calls b k dir d supported =
    let (first, d') = call (mouse_click k) d in
    (
      ((call (button_action k dir) d).0, rw (button-perform b k dir d supported) refl),
      λ good. (
        (call (mouse_click k) d').0,
        rw
            (
              button-perform b k click d supported,
              button-perform b k click d' supported,
              is_success-translate first,
              good,
            )
            refl,
      ),
      λ bad. rw (button-perform b k click d supported, is_success-translate first, bad) refl,
    )
