-- ===== src/Handlers/Mouse.antt =====
-- The mouse handlers (server/src/ya_server_handler.c): motion in the protocol's two generations,
-- buttons and the wheel.
use mouse_hero.Base.{
  ℕ, zero, suc, ◌+◌, ◌/◌, Bool, true, false, ◌||◌, Option, none, some, List, [], ◌∷◌, leb, ltb,
  ◌==◌, if◌then◌else◌,
}
use mouse_hero.Base.Int.{ℤ, pos, negsuc}
use mouse_hero.Clients.{Client, find_by_uid}
use mouse_hero.Filter.{Floats, quantize, reset_state, is_still, process}
use mouse_hero.Handlers.{World, Env, Handler, Outcome, ignored, set_filter, on_filter, on_device}
use mouse_hero.Input.{
  CButton, left, right, middle, CDirection, press, release, click, YaError, is_success, Device,
  input_mouse_move, input_mouse_button, input_mouse_scroll,
}
use mouse_hero.Throttle.{Throttle, Result, collect, flush, reset}
use mouse_hero.Wire.{absent, common_request}

-- Hundredths of a pixel, rounded half away from zero: the doubles of the source are close enough to
-- r / 100 that truncation gives the same.
unfoldable pub round_hundredths : ℤ → ℤ
round_hundredths (pos n) = pos ((n + 50) / 100)
round_hundredths (negsuc n) = elim ((suc n + 50) / 100) [ zero ↦ pos 0 | suc k ↦ negsuc k ]

-- A step without motion is skipped.
unfoldable pub move_unless_still : ℤ × ℤ → Device → Device
move_unless_still (dx, dy) d = if is_still (dx, dy) then d else (input_mouse_move dx dy d).1

unfoldable pub move_steps : List (ℤ × ℤ) → Device → Device
move_steps [] d = d
move_steps (s ∷ ss) d = move_steps ss (move_unless_still s d)

abbrev pub moved : {F : Type 0} → (Device → Device) → World F → World F
moved f w = record w { device = f w.device }

module _ (fl : Floats) (env : Env fl.F) where
  unfoldable pub move_subpixels : ℕ → ℤ → ℤ → World fl.F → World fl.F
  move_subpixels addr rx ry w =
      let c = w.filters addr in
      let (dx, frac_x) = quantize fl (fl.add_hundredths c.frac_x rx) in
      let (dy, frac_y) = quantize fl (fl.add_hundredths c.frac_y ry) in
      moved (move_unless_still (dx, dy))
        (set_filter addr (λ k. record k { frac_x = frac_x; frac_y = frac_y }) w)

  -- Emitted motion goes through the client's filter, where it has one.
  unfoldable pub move_filtered : Option ℕ → ℤ × ℤ → World fl.F → World fl.F
  move_filtered none d w = moved (move_steps (d ∷ [])) w
  move_filtered (some addr) (dx, dy) w =
      let (c, steps) = process fl dx dy (w.filters addr) in
      moved (move_steps steps) (set_filter addr (λ _. c) w)

  unfoldable pub move_emitted : Option ℕ → Throttle × Option (ℤ × ℤ) → World fl.F → World fl.F
  move_emitted filter (t, none) w = record w { throttle = t }
  move_emitted filter (t, some d) w = move_filtered filter d (record w { throttle = t })

  abbrev pub move_collected : Option ℕ → Result → World fl.F → Option (World fl.F)
  move_collected filter none w = none
  move_collected filter (some o) w = some (move_emitted filter o w)

  -- `none` where the throttle's sums are undefined.
  unfoldable pub move_client : Client → ℤ → ℤ → World fl.F → Option (World fl.F)
  move_client c rx ry w =
      if leb 3 c.protocol_version
      then some (elim c.mouse_filter [ none ↦ w | some addr ↦ move_subpixels addr rx ry w ])
      else move_collected c.mouse_filter
          (collect w.throttle (round_hundredths rx) (round_hundredths ry) false true env.now) w

  abbrev pub ignored_if : Option (World fl.F) → Outcome fl.F
  ignored_if none = none
  ignored_if (some w) = ignored w

  unfoldable pub handle_mouse_move : Handler fl.F
  handle_mouse_move bev e w = elim e.param [
    | absent ↦ ignored w
    | common_request rx ry ↦ elim (find_by_uid w.clients e.header.uid) [
      | none ↦ ignored w
      | some c ↦ ignored_if (move_client c rx ry w)
    ]
    | _ ↦ none
  ]

  unfoldable pub stop_client : Client → World fl.F → World fl.F
  stop_client c w =
      let w1 = move_emitted c.mouse_filter (flush w.throttle true env.now) w in
      let w2 = on_filter c.mouse_filter (reset_state fl) w1 in
      if leb 3 c.protocol_version
      then on_filter c.mouse_filter (reset_state fl) w
      else record w2 { throttle = reset w2.throttle }

  unfoldable pub handle_mouse_stop : Handler fl.F
  handle_mouse_stop bev e w = elim (find_by_uid w.clients e.header.uid) [
    | none ↦ ignored w
    | some c ↦ ignored (stop_client c w)
  ]

abbrev pub button_of : ℤ → Option CButton
button_of (pos n) =
    if n == 0
    then some left
    else if n == 1
    then some right
    else if n == 2
    then some middle
    else none
button_of (negsuc n) = none

-- The operations of a click; 3 is a double click.
abbrev pub direction_of : ℤ → Option CDirection
direction_of (pos n) =
    if n == 0
    then some press
    else if n == 1
    then some release
    else if n == 2 || n == 3
    then some click
    else none
direction_of (negsuc n) = none

abbrev is_double : ℤ → Bool
is_double (pos n) = n == 3
is_double (negsuc n) = false

-- A double click stops at a click that fails.
unfoldable pub press_button : CButton → CDirection → Bool → Device → YaError × Device
press_button b dir double d =
    let (e, d') = input_mouse_button b click d in
    if double
    then (if is_success e then input_mouse_button b click d' else (e, d'))
    else input_mouse_button b dir d

unfoldable pub scroll_wheel : ℤ → ℤ → Device → Device
scroll_wheel (negsuc n) dir d = d
scroll_wheel (pos amount) dir d =
    let steps = if ltb 1000 amount then 1000 else amount in
    if amount == 0 then d else (input_mouse_scroll (pos steps) dir d).1

module _ {F : Type 0} where
  unfoldable pub handle_mouse_click : Handler F
  handle_mouse_click bev e w = elim e.param [
    | absent ↦ ignored w
    | common_request lparam rparam ↦ elim (button_of lparam) [
      | none ↦ ignored w
      | some b ↦ elim (direction_of rparam) [
        | none ↦ ignored w
        | some dir ↦ ignored (on_device (press_button b dir (is_double rparam)) w)
      ]
    ]
    | _ ↦ none
  ]

  unfoldable pub handle_mouse_scroll : Handler F
  handle_mouse_scroll bev e w = elim e.param [
    | absent ↦ ignored w
    | common_request amount dir ↦ ignored (moved (scroll_wheel amount dir) w)
    | _ ↦ none
  ]
