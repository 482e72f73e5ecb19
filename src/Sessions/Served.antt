-- ===== src/Sessions/Served.antt =====
-- The callbacks of all connections and of the command socket, one after the other (accept_cb, conn_readcb
-- and conn_eventcb of server/src/ya_server_session.c, udp_readcb of ya_server_command.c).
use mouse_hero.Base.{
  take, ℕ, ◌≡◌, refl, sym, subst, inl, inr, Bool-cases, Option, none, some, Option-cases, List,
  length, arith,
}
use mouse_hero.Base.Int.{ℤ}
use mouse_hero.Clients.{
  Manager, Free, init, deref, write, unref, create, find_by_uid, free_opt, free_bev,
}
use mouse_hero.Clients.Invariant.{Inv, init-Inv, create-Inv, write-Inv, unref-Inv}
use mouse_hero.Filter.{Floats, float_zero}
use mouse_hero.Handlers.{World, Env, Outcome}
use mouse_hero.Handlers.Safety.{After}
use mouse_hero.Handlers.Table.{process_server_event-After}
use mouse_hero.Sessions.Table.{AfterReading, conn_readcb-AfterReading}
use mouse_hero.Sessions.{
  Stats, accept_cb, conn_eventcb, closed, after_unref, dec_connections, Reading, conn_readcb,
  address, answer, handle_datagram, handle_received, datagram_size, udp_readcb,
}
use mouse_hero.Wire.{Bytes}
use mouse_hero.Wire.Codec
use mouse_hero.Wire.Evbuffer.{Evbuffer}
use mouse_hero.Wire.Framing.{get_package_size, is_misfit}
use mouse_hero.Wire.Mpack.{Mpack}

accept_cb-table :
    (m : Manager) (s : Stats) (alloc filter : Option ℕ) (now : ℕ) (fd : ℤ) (bev : ℕ)
    → (accept_cb m s alloc filter now fd bev).0 ≡ (create m alloc filter now fd (some bev)).0
unfolding accept_cb
accept_cb-table m s alloc filter now fd bev =
    elim (Option-cases (create m alloc filter now fd (some bev)).1) [
      | inl refused ↦ ground (arith, refused)
      | inr (c, made) ↦ ground (arith, made)
    ]

after_unref-Inv :
    (m : Manager) (addr : ℕ) (s : Stats) (fs : List Free) (r : Option (Manager × List Free))
    (m' : Manager) (s' : Stats) (frees : List Free)
    → Inv m
    → unref m addr ≡ r
    → after_unref s fs r ≡ some (m', s', frees)
    → Inv m'
after_unref-Inv m addr s fs none m' s' frees v e h = absurd (ground (arith, h))
after_unref-Inv m addr s fs (some (m1, more)) m' s' frees v e h =
    let same_table : m1 ≡ m' = ground (arith, h) in subst Inv same_table (unref-Inv m addr v e)

conn_eventcb-Inv :
    (m : Manager) (s : Stats) (addr : ℕ) (m' : Manager) (s' : Stats) (frees : List Free)
    → Inv m
    → conn_eventcb m s addr ≡ some (m', s', frees)
    → Inv m'
unfolding conn_eventcb
conn_eventcb-Inv m s addr m' s' frees v e = elim (Option-cases (deref m addr)) [
  | inl gone ↦ absurd (ground (arith, e, gone))
  | inr (c, there) ↦
      let h = (rw (conn_eventcb, there) at e) in
      after_unref-Inv (write m addr closed) addr (dec_connections s) (free_opt free_bev c.bev)
        (unref (write m addr closed) addr) m' s' frees (write-Inv m addr closed (λ x. refl) v) refl
        h
]

-- What the callbacks share.
pub record Service (F : Type 0) : Type 0 where
  pub world : World F
  pub stats : Stats

abbrev pub with_table : {F : Type 0} → World F → Manager → World F
with_table w m = record w { clients = m }

module _ (fl : Floats) (mp : Mpack fl.F) (ev : Evbuffer) where
  -- One callback, where its behaviour is defined. Each has its own clock, clipboard and so on.
  pub data Turn (s : Service fl.F) : Service fl.F → Type 0 where
    accepts :
        (alloc filter : Option ℕ) (now : ℕ) (fd : ℤ) (bev : ℕ)
        → Turn s (
            let (m, stats, frees) = accept_cb s.world.clients s.stats alloc filter now fd bev in
            record { world = with_table s.world m; stats = stats })
    reads :
        (env : Env fl.F) (bev addr : ℕ) (buf : ev.Buffer) (r : Reading fl env mp ev)
        → conn_readcb fl env mp ev bev addr buf s.world ≡ some r
        → Turn s (record { world = r.world; stats = s.stats })
    ends :
        (addr : ℕ) (m : Manager) (stats : Stats) (frees : List Free)
        → conn_eventcb s.world.clients s.stats addr ≡ some (m, stats, frees)
        → Turn s (record { world = with_table s.world m; stats = stats })
    answers :
        (env : Env fl.F) (datagram : Option Bytes) (w : World fl.F) (out : Option Bytes)
        → udp_readcb fl env mp ev datagram s.world ≡ some (w, out)
        → Turn s (record { world = w; stats = s.stats })

  pub data Served : Service fl.F → Type 0 where
    begins : (s : Service fl.F) → s.world.clients ≡ init → Served s
    turns : {s t : Service fl.F} → Served s → Turn s t → Served t

  abbrev AfterDatagram : Option (World fl.F × Option Bytes) → Type 0
  AfterDatagram none = Unit
  AfterDatagram (some (w, out)) = Inv w.clients

  answer-AfterDatagram :
      (env : Env fl.F) (o : Outcome fl.F) → After o → AfterDatagram (answer fl env mp ev o)
  answer-AfterDatagram env none a = tt
  answer-AfterDatagram env (some (w, none)) v = v
  answer-AfterDatagram env (some (w, some e)) v = elim (Option-cases (Codec.serialize_event mp e)) [
    | inl n ↦ rw (AfterDatagram, n) tt
    | inr (out, p) ↦ rw (AfterDatagram, p) v
  ]

  datagram-AfterDatagram :
      (env : Env fl.F) (w : World fl.F) (o : Codec.Outcome fl.F)
      → Inv w.clients
      → AfterDatagram (handle_datagram fl env mp ev w o)
  unfolding handle_datagram
  datagram-AfterDatagram env w Codec.refused v = v
  datagram-AfterDatagram env w Codec.undefined v = tt
  datagram-AfterDatagram env w (Codec.parsed e) v = answer-AfterDatagram env _ (
      process_server_event-After fl env none e.header e.param
        (address fl env mp ev (find_by_uid w.clients e.header.uid)) w v)

  received-AfterDatagram :
      (env : Env fl.F) (buf : ev.Buffer) (w : World fl.F)
      → Inv w.clients
      → AfterDatagram (handle_received fl env mp ev buf w)
  received-AfterDatagram env buf w v =
      let size = get_package_size ev buf in
      let o = (Codec.parse_event mp ev (float_zero fl) (ev.drain buf 8) size).1 in
      elim (Bool-cases (is_misfit (length (ev.bytes buf)) size)) [
        | inl misfit ↦ rw (AfterDatagram, misfit) v
        | inr fits ↦ rw (AfterDatagram, fits) (datagram-AfterDatagram env w o v)
      ]

  udp_readcb-AfterDatagram :
      (env : Env fl.F) (datagram : Option Bytes) (w : World fl.F)
      → Inv w.clients
      → AfterDatagram (udp_readcb fl env mp ev datagram w)
  unfolding udp_readcb
  udp_readcb-AfterDatagram env none w v = v
  udp_readcb-AfterDatagram env (some datagram) w v =
      received-AfterDatagram env (ev.of_bytes (take datagram_size datagram)) w v

  Turn-Inv : {s t : Service fl.F} → Turn s t → Inv s.world.clients → Inv t.world.clients
  Turn-Inv {s} (accepts alloc filter now fd bev) v =
      subst Inv (sym (accept_cb-table s.world.clients s.stats alloc filter now fd bev))
        (create-Inv s.world.clients alloc filter now fd (some bev) v)
  Turn-Inv {s} (reads env bev addr buf r e) v =
      subst (AfterReading fl env mp ev) e
        (conn_readcb-AfterReading fl env mp ev bev addr buf s.world v)
  Turn-Inv {s} (ends addr m stats frees e) v =
      conn_eventcb-Inv s.world.clients s.stats addr m stats frees v e
  Turn-Inv {s} (answers env datagram w out e) v =
      subst AfterDatagram e (udp_readcb-AfterDatagram env datagram s.world v)

  -- From an empty client table, whatever connections are accepted, whatever bytes arrive on them and
  -- whatever datagrams on the command socket, and whenever connections end, in any order: as long as the
  -- behaviour is defined, the client table has its invariant.
  pub Served-Inv : {s : Service fl.F} → Served s → Inv s.world.clients
  Served-Inv {s} (begins t e) = subst Inv (sym e) init-Inv
  Served-Inv (turns r t) = Turn-Inv t (Served-Inv r)
