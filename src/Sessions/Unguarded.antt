-- ===== src/Sessions/Unguarded.antt =====
-- CONTROL datagrams of unknown senders (udp_readcb of server/src/ya_server_command.c, the dispatch and the
-- power handlers of ya_server_handler.c, and the serializer of ya_event.c).
use mouse_hero.Base.{
  ℕ, zero, suc, ◌≤◌, ◌≡◌, refl, ap, ◌∙◌, inr, true, Option, none, some, List, [], ◌∷◌, ◌++◌, length,
  leb, if◌then◌else◌, arith,
}
use mouse_hero.Base.Int.{ℤ, pos, negsuc}
use mouse_hero.Clients.{find_by_uid}
use mouse_hero.Filter.{Floats}
use mouse_hero.Handlers.{
  PowerOp, poweroff, restart, sleep, Effect, run_power_script, system, World, Env, assign_response,
}
use mouse_hero.Handlers.Dispatch.{
  process_server_event, check_command_index, find_event_handler, find_entry,
}
use mouse_hero.Handlers.Power.{
  handle_control, handle_poweroff, handle_restart, handle_sleep, run_power,
}
use mouse_hero.Sessions.{udp_readcb, answer, address, datagram_size}
use mouse_hero.Sessions.Frames.{udp_readcb-serialize}
use mouse_hero.Wire.{Bytes, Event, EventHeader, absent, common_request, control}
use mouse_hero.Wire.Codec.{serialize_event}
use mouse_hero.Wire.Evbuffer.{Evbuffer}
use mouse_hero.Wire.Mpack.{Mpack}
use mouse_hero.Wire.Payload.{serialize, get_serializer}
use mouse_hero.Wire.Payloads.{common}
use mouse_hero.Wire.Mpack.{Fits}
use mouse_hero.Wire.RoundTrip.{IsReadable}

-- The calls of a power operation, the latest first: the script, and the system's command if it did not run.
abbrev tries : {F : Type 0} → Env F → PowerOp → List Effect
tries env op =
    if env.script_ran op then run_power_script op ∷ [] else system op ∷ run_power_script op ∷ []

-- What the number of an operation does: 1 shuts down, 2 restarts and 3 sleeps.
abbrev pub power_calls : {F : Type 0} → Env F → ℤ → List Effect
power_calls env (pos (suc zero)) = tries env poweroff
power_calls env (pos (suc (suc zero))) = tries env restart
power_calls env (pos (suc (suc (suc zero)))) = tries env sleep
power_calls env _ = []

module _ (fl : Floats) (env : Env fl.F) (mp : Mpack fl.F) (ev : Evbuffer) where
  abbrev pub powered : ℤ → World fl.F → World fl.F
  powered n w = record w { effects = power_calls env n ++ w.effects }

  control-powered :
      (bev : Option ℕ) (h : EventHeader) (n r : ℤ) (w : World fl.F)
      → h.type ≡ control
      → process_server_event fl env bev (record { header = h; param = common_request n r }) none w
        ≡ some (
          powered n w,
          some (assign_response (record { header = h; param = common_request n r }) absent),
        )
  unfolding process_server_event check_command_index find_event_handler find_entry handle_control
      handle_poweroff handle_restart handle_sleep run_power
  control-powered bev h (pos zero) r w type = rw type refl
  control-powered bev h (pos (suc zero)) r w type = rw type (ground arith)
  control-powered bev h (pos (suc (suc zero))) r w type = rw type (ground arith)
  control-powered bev h (pos (suc (suc (suc zero)))) r w type = rw type (ground arith)
  control-powered bev h (pos (suc (suc (suc (suc n))))) r w type = rw type (ground arith)
  control-powered bev h (negsuc n) r w type = rw type refl

  control-undefined :
      (h : EventHeader) (n r : ℤ)
      → h.type ≡ control
      → serialize_event mp
          (assign_response (record { header = h; param = common_request n r }) absent)
        ≡ none
  unfolding serialize_event serialize get_serializer assign_response
  control-undefined h n r type = rw type refl

  answer-undefined :
      (w : World fl.F) (e : Event fl.F)
      → serialize_event mp e ≡ none
      → answer fl env mp ev (some (w, some e)) ≡ none
  answer-undefined w e h = rw (answer, h) refl

  -- A datagram of at most 2048 bytes that is a serialized CONTROL event, with a readable header and two
  -- parameters that fit in an int32_t, of any index and operation, whose UID is of no active client. The
  -- dispatch asks for no authorization and tries the operation, the script and then the system's command
  -- if it did not run; it changes nothing else, and answers with a response that has no parameters.
  -- Serializing that response is undefined, and so the callback is.
  pub control_unguarded :
      (h : EventHeader) (n r : ℤ) (wire : Bytes) (w : World fl.F)
      → IsReadable h
      → h.type ≡ control
      → Fits n
      → Fits r
      → serialize_event mp (record { header = h; param = common_request n r }) ≡ some wire
      → length wire ≤ 2048
      → find_by_uid w.clients h.uid ≡ none
      → (process_server_event fl env none
            (record { header = h; param = common_request n r })
            (address fl env mp ev (find_by_uid w.clients h.uid))
            w
          ≡ some (
            powered n w,
            some (assign_response (record { header = h; param = common_request n r }) absent),
          ))
        × (udp_readcb fl env mp ev (some wire) w ≡ none)
  control_unguarded h n r wire w readable type fits_n fits_r written short unknown =
      let e : Event fl.F = record { header = h; param = common_request n r } in
      let dispatched : process_server_event fl env none e
            (address fl env mp ev (find_by_uid w.clients h.uid)) w
          ≡ some (powered n w, some (assign_response e absent)) =
        ap (λ c. process_server_event fl env none e (address fl env mp ev c) w) unknown
        ∙ control-powered none h n r w type in
      let fits : leb (length wire) datagram_size ≡ true = ground (arith, short) in
      (
        dispatched,
        udp_readcb-serialize fl env mp ev h (common_request n r) wire w readable
              (common n r (inr (inr (inr type))) fits_n fits_r) written (omega (arith, short))
            ∙ (ap
                  (λ b.
                    if b
                    then answer fl env mp ev (
                        process_server_event fl env none e
                          (address fl env mp ev (find_by_uid w.clients h.uid)) w)
                    else some (w, none))
                  fits
                ∙ (ap (answer fl env mp ev) dispatched
                    ∙ answer-undefined (powered n w) _ (control-undefined h n r type))),
      )
