-- ===== src/Sessions/Table.antt =====
-- What a read on a connection (server/src/ya_server_session.c) does to the client table.
use mouse_hero.Base.{ℕ, inl, inr, Bool-cases, Option, none, some, Option-cases, length}
use mouse_hero.Clients.{is_active, deref, unref}
use mouse_hero.Clients.Invariant.{Inv, refs, Step-Inv, unref-Inv}
use mouse_hero.Filter.{Floats, float_zero}
use mouse_hero.Handlers.{World, Env, Outcome}
use mouse_hero.Handlers.Safety.{After}
use mouse_hero.Handlers.Table.{process_server_event-After}
use mouse_hero.Sessions.{Reading, reply, respond, held, handle_frame, conn_readcb}
use mouse_hero.Wire.Codec
use mouse_hero.Wire.Evbuffer.{Evbuffer}
use mouse_hero.Wire.Framing.{get_package_size, is_incomplete}
use mouse_hero.Wire.Mpack.{Mpack}

module _ (fl : Floats) (env : Env fl.F) (mp : Mpack fl.F) (ev : Evbuffer) where
  -- What holds of the table after a read, where its behaviour is defined.
  abbrev pub AfterReading : Option (Reading fl env mp ev) → Type 0
  AfterReading none = Unit
  AfterReading (some r) = Inv r.world.clients

  respond-AfterReading :
      (addr : ℕ) (buf : ev.Buffer) (o : Outcome fl.F)
      → After o
      → AfterReading (respond fl env mp ev addr buf o)
  unfolding respond
  respond-AfterReading addr buf none a = tt
  respond-AfterReading addr buf (some (w, r)) v = elim (Option-cases (reply fl env mp ev r)) [
    | inl n ↦ rw (AfterReading, n) tt
    | inr (out, e) ↦ elim (Option-cases (unref w.clients addr)) [
      | inl n ↦ rw (AfterReading, e, n) tt
      | inr ((m, fs), e') ↦ rw (AfterReading, e, e') (unref-Inv w.clients addr v e')
    ]
  ]

  handle_frame-AfterReading :
      (bev addr : ℕ) (w : World fl.F) (buf : ev.Buffer) (o : Codec.Outcome fl.F)
      → Inv w.clients
      → AfterReading (handle_frame fl env mp ev bev addr w (buf, o))
  unfolding handle_frame
  handle_frame-AfterReading bev addr w buf Codec.refused v = v
  handle_frame-AfterReading bev addr w buf Codec.undefined v = tt
  handle_frame-AfterReading bev addr w buf (Codec.parsed e) v = respond-AfterReading addr buf _ (
      process_server_event-After fl env (some bev) e.header e.param (some addr)
        (held fl env mp ev addr w) (Step-Inv (refs addr) v))

  -- If the client table has the invariant, then whatever bytes arrive on a connection, complete or
  -- not, well formed or not, it has the invariant after the read, wherever the read's behaviour is
  -- defined.
  pub conn_readcb-AfterReading :
      (bev addr : ℕ) (buf : ev.Buffer) (w : World fl.F)
      → Inv w.clients
      → AfterReading (conn_readcb fl env mp ev bev addr buf w)
  unfolding conn_readcb
  conn_readcb-AfterReading bev addr buf w v =
      let r = Codec.parse_event mp ev (float_zero fl) (ev.drain buf 8) (get_package_size ev buf) in
      elim (Option-cases (deref w.clients addr)) [
        | inl n ↦ rw (AfterReading, n) tt
        | inr (c, e) ↦ elim (Bool-cases (is_active c.state)) [
          | inr closed ↦ rw (AfterReading, e, closed) v
          | inl live ↦
              elim (Bool-cases (is_incomplete (length (ev.bytes buf)) (get_package_size ev buf))) [
                | inl short ↦ rw (AfterReading, e, live, short) v
                | inr full ↦
                    rw (AfterReading, e, live, full)
                      (handle_frame-AfterReading bev addr w r.0 r.1 v)
              ]
        ]
      ]
