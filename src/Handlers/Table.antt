-- ===== src/Handlers/Table.antt =====
-- What the dispatch of an event (server/src/ya_server_handler.c) does to the client table.
use mathlib.Core.Option.{some_inj}
use mouse_hero.Base.{
  ℕ, ◌≡◌, refl, subst, inl, inr, Bool-cases, Option, none, some, Option-cases, List, [], ◌∷◌, leb,
  ◌==◌, All,
}
use mouse_hero.Clients.{Manager, deref}
use mouse_hero.Clients.Invariant.{Inv, write-Inv}
use mouse_hero.Filter.{Floats}
use mouse_hero.Handlers.{World, Env, Handler}
use mouse_hero.Handlers.Dispatch.{
  find_entry, find_event_handler, event_handlers, Check, accepted, stale, dangling, check_client,
  check_command_index, is_checked, set_index, process_server_event, run_checked,
}
use mouse_hero.Wire.{EventHeader, Param}
use mouse_hero.Handlers.Safety.{
  After, Safe, mouse_move-Safe, mouse_stop-Safe, mouse_click-Safe, mouse_scroll-Safe, keyboard-Safe,
  input_text-Safe, input_get-Safe, discover-Safe, authorize-Safe, heartbeat-Safe,
  session_option-Safe, control-Safe,
}

module _ (fl : Floats) (env : Env fl.F) where
  table-Safe : All (λ entry. Safe fl env entry.1) (event_handlers fl env)
  table-Safe = (
    mouse_move-Safe fl env,
    (
      mouse_stop-Safe fl env,
      (
        mouse_click-Safe fl env,
        (
          mouse_scroll-Safe fl env,
          (
            keyboard-Safe fl env,
            (
              input_text-Safe fl env,
              (
                input_get-Safe fl env,
                (
                  discover-Safe fl env,
                  (
                    authorize-Safe fl env,
                    (
                      heartbeat-Safe fl env,
                      (session_option-Safe fl env, (control-Safe fl env, tt)),
                    ),
                  ),
                ),
              ),
            ),
          ),
        ),
      ),
    ),
  )

  find_entry-Safe :
      (table : List (ℕ × Handler fl.F)) (type : ℕ) (h : Handler fl.F)
      → All (λ entry. Safe fl env entry.1) table
      → find_entry table type ≡ some h
      → Safe fl env h
  unfolding find_entry
  find_entry-Safe [] type h a e = cc
  find_entry-Safe ((t, k) ∷ table) type h a e = elim (Bool-cases (t == type)) [
    | inl found ↦ subst (Safe fl env) (some_inj.0 (rw found at e)) a.0
    | inr other ↦ find_entry-Safe table type h a.1 (rw other at e)
  ]

  abbrev CheckSafe : Check → Type 0
  CheckSafe (accepted m) = Inv m
  CheckSafe _ = Unit

  check_command_index-CheckSafe :
      (h : EventHeader) (client : Option ℕ) (m : Manager)
      → Inv m
      → CheckSafe (check_command_index h client m)
  unfolding check_command_index check_client
  check_command_index-CheckSafe h none m v = v
  check_command_index-CheckSafe h (some addr) m v = elim (Bool-cases (is_checked h)) [
    | inr f ↦ rw (CheckSafe, f) v
    | inl t ↦ elim (Option-cases (deref m addr)) [
      | inl n ↦ rw (CheckSafe, t, n) tt
      | inr (c, e) ↦ elim (Bool-cases (leb h.index c.command_index)) [
        | inl old ↦ rw (CheckSafe, t, e, old) tt
        | inr new ↦ rw (CheckSafe, t, e, new) (write-Inv m c.addr (set_index h.index) (λ k. refl) v)
      ]
    ]
  ]

  run_checked-After :
      (handler : Handler fl.F) (bev : Option ℕ) (h : EventHeader) (p : Param fl.F) (w : World fl.F)
      (check : Check)
      → Safe fl env handler
      → Inv w.clients
      → CheckSafe check
      → After (run_checked fl env handler bev (record { header = h; param = p }) w check)
  run_checked-After handler bev h p w (accepted m) safe v c =
      safe bev h p (record w { clients = m }) c
  run_checked-After handler bev h p w stale safe v c = v
  run_checked-After handler bev h p w dangling safe v c = tt

  -- If the client table has the invariant, then whatever event arrives, from whatever client, it
  -- has the invariant after the dispatch and the handler, wherever their behaviour is defined.
  pub process_server_event-After :
      (bev : Option ℕ) (h : EventHeader) (p : Param fl.F) (client : Option ℕ) (w : World fl.F)
      → Inv w.clients
      → After (process_server_event fl env bev (record { header = h; param = p }) client w)
  unfolding process_server_event find_event_handler
  process_server_event-After bev h p client w v =
      elim (Option-cases (find_entry (event_handlers fl env) h.type)) [
        | inl n ↦ rw (After, n) v
        | inr (k, e) ↦
            rw (After, e)
              (run_checked-After k bev h p w (check_command_index h client w.clients)
                (find_entry-Safe (event_handlers fl env) h.type k table-Safe e) v
                (check_command_index-CheckSafe h client w.clients v))
      ]
