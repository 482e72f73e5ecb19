-- ===== src/Handlers/Safety.antt =====
-- What the handlers (server/src/ya_server_handler.c) do to the client table.
use mouse_hero.Base.{
  ℕ, ◌≡◌, refl, sym, ◌∙◌, subst, inl, inr, true, Bool-cases, Option, none, some, Option-cases, leb,
  ◌==◌,
}
use mouse_hero.Base.Int.{ℤ, pos, negsuc}
use mouse_hero.Clients.{Client, find_by_uid, find_by_fd, write}
use mouse_hero.Clients.Invariant.{Inv, write-Inv}
use mouse_hero.Filter.{Floats, Filter, set_pointer_scale, set_algorithms_enabled, reset_state}
use mouse_hero.Handlers.{World, Env, Outcome, Handler, on_filter, poweroff, restart, sleep}
use mouse_hero.Handlers.Authorize.{
  session_scale, authorize, bind_client, handle_authorize, handle_session_option,
}
use mouse_hero.Handlers.Keys.{
  type_key, is_char, key_direction, handle_keyboard, handle_input_text, handle_input_get,
}
use mouse_hero.Handlers.Mouse.{
  move_subpixels, move_filtered, move_emitted, move_collected, ignored_if, move_client, stop_client,
  handle_mouse_move, handle_mouse_stop, handle_mouse_click, handle_mouse_scroll, button_of,
  direction_of,
}
use mouse_hero.Handlers.Power.{
  run_power, control_op, handle_poweroff, handle_restart, handle_sleep, handle_control,
  handle_discover, handle_heartbeat,
}
use mouse_hero.Input.{CDirection}
use mouse_hero.Input.KeyMap.{ckey_from_protocol}
use mouse_hero.Throttle.{Throttle, Result}
use mouse_hero.Wire.{
  Event, EventHeader, Param, absent, common_request, keyboard_request, text_request,
  authorize_request, session_option_request, discover_request, discovery_magic,
}

-- What holds of the table after a handler, where its behaviour is defined.
abbrev pub After : {F : Type 0} → Outcome F → Type 0
After none = Unit
After (some (w, r)) = Inv w.clients

module _ {F : Type 0} where
  abbrev Same : World F → World F → Type 0
  Same w w' = w'.clients ≡ w.clients

  clients-on_filter :
      (a : Option ℕ) (f : Filter F → Filter F) (w : World F) → Same w (on_filter a f w)
  clients-on_filter none f w = refl
  clients-on_filter (some a) f w = refl

module _ (fl : Floats) (env : Env fl.F) where
  clients-move_filtered :
      (a : Option ℕ) (d : ℤ × ℤ) (w : World fl.F) → Same w (move_filtered fl env a d w)
  unfolding move_filtered
  clients-move_filtered none d w = refl
  clients-move_filtered (some a) d w = refl

  clients-move_emitted :
      (a : Option ℕ) (t : Throttle × Option (ℤ × ℤ)) (w : World fl.F)
      → Same w (move_emitted fl env a t w)
  unfolding move_emitted
  clients-move_emitted a (t, none) w = refl
  clients-move_emitted a (t, some d) w = clients-move_filtered a d (record w { throttle = t })

  collected-After :
      (a : Option ℕ) (r : Result) (w : World fl.F)
      → Inv w.clients
      → After (ignored_if fl env (move_collected fl env a r w))
  collected-After a none w v = tt
  collected-After a (some o) w v = subst Inv (sym (clients-move_emitted a o w)) v

  move_client-After :
      (c : Client) (rx ry : ℤ) (w : World fl.F)
      → Inv w.clients
      → After (ignored_if fl env (move_client fl env c rx ry w))
  unfolding move_client move_subpixels
  move_client-After c rx ry w v = elim (Bool-cases (leb 3 c.protocol_version)) [
    | inl t ↦ rw t (elim (Option-cases c.mouse_filter) [ inl n ↦ rw n v | inr (a, e) ↦ rw e v ])
    | inr f ↦ rw f (collected-After c.mouse_filter _ w v)
  ]

  clients-stop_client : (c : Client) (w : World fl.F) → Same w (stop_client fl env c w)
  unfolding stop_client
  clients-stop_client c w = elim (Bool-cases (leb 3 c.protocol_version)) [
    | inl t ↦ rw t (clients-on_filter c.mouse_filter (reset_state fl) w)
    | inr f ↦ rw f (
        clients-on_filter c.mouse_filter (reset_state fl) _
        ∙ clients-move_emitted c.mouse_filter _ w)
  ]

  -- A handler keeps the invariant of the table.
  abbrev pub Safe : Handler fl.F → Type 0
  Safe handler =
      (bev : Option ℕ) (h : EventHeader) (p : Param fl.F) (w : World fl.F)
      → Inv w.clients
      → After (handler bev (record { header = h; param = p }) w)

  pub mouse_move-Safe : Safe (handle_mouse_move fl env)
  unfolding handle_mouse_move
  mouse_move-Safe bev h absent w v = v
  mouse_move-Safe bev h (common_request rx ry) w v =
      elim (Option-cases (find_by_uid w.clients h.uid)) [
        | inl n ↦ rw (After, n) v
        | inr (c, e) ↦ rw (After, e) (move_client-After c rx ry w v)
      ]
  mouse_move-Safe bev h _ w v = tt

  pub mouse_stop-Safe : Safe (handle_mouse_stop fl env)
  unfolding handle_mouse_stop
  mouse_stop-Safe bev h p w v = elim (Option-cases (find_by_uid w.clients h.uid)) [
    | inl n ↦ rw (After, n) v
    | inr (c, e) ↦ rw (After, e) (subst Inv (sym (clients-stop_client c w)) v)
  ]

  pub mouse_click-Safe : Safe handle_mouse_click
  unfolding handle_mouse_click
  mouse_click-Safe bev h absent w v = v
  mouse_click-Safe bev h (common_request l r) w v = elim (Option-cases (button_of l)) [
    | inl n ↦ rw (After, n) v
    | inr (b, e) ↦ elim (Option-cases (direction_of r)) [
      | inl n ↦ rw (After, e, n) v
      | inr (d, e') ↦ rw (After, e, e') v
    ]
  ]
  mouse_click-Safe bev h _ w v = tt

  pub mouse_scroll-Safe : Safe handle_mouse_scroll
  unfolding handle_mouse_scroll
  mouse_scroll-Safe bev h absent w v = v
  mouse_scroll-Safe bev h (common_request l r) w v = v
  mouse_scroll-Safe bev h _ w v = tt

  clients-type_key :
      (code : ℤ) (mods : ℕ) (dir : CDirection) (w : World fl.F)
      → Same w (type_key env code mods dir w)
  unfolding type_key
  clients-type_key (negsuc n) mods dir w = refl
  clients-type_key (pos n) mods dir w = elim (Bool-cases (is_char n)) [
    | inl t ↦ rw t refl
    | inr f ↦ elim (Option-cases (ckey_from_protocol (pos n))) [
      | inl none_key ↦ rw (f, none_key) refl
      | inr (k, e) ↦ rw (f, e) refl
    ]
  ]

  pub keyboard-Safe : Safe (handle_keyboard env)
  unfolding handle_keyboard
  keyboard-Safe bev h absent w v = v
  keyboard-Safe bev h (keyboard_request code op mods) w v = elim (Option-cases (key_direction op)) [
    | inl n ↦ rw (After, n) v
    | inr (d, e) ↦ rw (After, e) (subst Inv (sym (clients-type_key code mods d w)) v)
  ]
  keyboard-Safe bev h _ w v = tt

  pub input_text-Safe : Safe (handle_input_text env)
  unfolding handle_input_text
  input_text-Safe bev h (text_request s) w v = v
  input_text-Safe bev h _ w v = tt

  pub input_get-Safe : Safe (handle_input_get env)
  unfolding handle_input_get
  input_get-Safe bev h p w v = v

  pub discover-Safe : Safe (handle_discover env)
  unfolding handle_discover
  discover-Safe bev h (discover_request magic) w v = elim (Bool-cases (magic == discovery_magic)) [
    | inl t ↦ rw t v
    | inr f ↦ rw f v
  ]
  discover-Safe bev h _ w v = tt

  pub heartbeat-Safe : Safe handle_heartbeat
  unfolding handle_heartbeat
  heartbeat-Safe bev h p w v = v

  pub control-Safe : Safe (handle_control env)
  unfolding handle_control handle_poweroff handle_restart handle_sleep run_power
  control-Safe bev h absent w v = v
  control-Safe bev h (common_request l r) w v = elim (Option-cases (control_op l)) [
    | inl n ↦ rw n v
    | inr (poweroff, e) ↦ rw e v
    | inr (restart, e) ↦ rw e v
    | inr (sleep, e) ↦ rw e v
  ]
  control-Safe bev h _ w v = tt

  pub session_option-Safe : Safe (handle_session_option fl env)
  unfolding handle_session_option
  session_option-Safe bev h absent w v = v
  session_option-Safe bev h (session_option_request s) w v =
      elim (Option-cases (find_by_uid w.clients h.uid)) [
        | inl n ↦ rw (After, n) v
        | inr (c, e) ↦
            rw (After, e)
              (subst Inv
                (sym (
                  clients-on_filter c.mouse_filter (set_pointer_scale fl (session_scale fl env s))
                    w))
                v)
      ]
  session_option-Safe bev h _ w v = tt

  bind_client-After :
      (bev version : ℕ) (e : Event fl.F) (w : World fl.F) (c : Option Client)
      → Inv w.clients
      → After (bind_client fl env bev version e w c)
  unfolding bind_client
  bind_client-After bev version e w none v = v
  bind_client-After bev version e w (some c) v =
      let bound : World fl.F = record w {
        clients =
            write w.clients c.addr (λ k. record k { bev = some bev; protocol_version = version });
      } in
      subst Inv (sym (clients-on_filter c.mouse_filter (set_algorithms_enabled fl true) bound))
        (write-Inv w.clients c.addr _ (λ k. refl) v)

  pub authorize-Safe : Safe (handle_authorize fl env)
  unfolding handle_authorize
  authorize-Safe bev h absent w v = v
  authorize-Safe none h (authorize_request t n) w v = elim (Bool-cases (authorize t n)) [
    | inl g ↦ rw g tt
    | inr f ↦ rw f v
  ]
  authorize-Safe (some b) h (authorize_request t n) w v = elim (Bool-cases (authorize t n)) [
    | inl g ↦ rw g (
        bind_client-After b n (record { header = h; param = authorize_request t n }) w
          (find_by_fd w.clients (env.getfd b)) v)
    | inr f ↦ rw f v
  ]
  authorize-Safe bev h _ w v = tt
