-- ===== src/Server/Release.antt =====
-- What start_server leaves held when it returns (server/src/ya_server.c).
use mouse_hero.Backend.Descriptor.{
  IsBalanced, input_linux_init-IsSettled, input_linux_shutdown-IsBalanced,
}
use mouse_hero.Base.{
  true, false, List, [], ◌∷◌, ◌≡◌, refl, ap, map, concat, inl, inr, if◌then◌else◌, Bool-cases,
  arith,
}
use mouse_hero.Base.Int.{ℤ, pos, negsuc}
use mouse_hero.Clients.{Client, nodes, cleanup, init}
use mouse_hero.Server.{
  Component, Server, stopping, session_server, command_server, http_server, discovery_server,
  Environment, set_state, set_component_ready, run_session_server, run_command_server,
  run_discovery_server, run_http_server, stop_http_server, stop, or_stop, ready_if, prepare,
  dispatch, run_servers, start_server,
}
use mouse_hero.Xkb.Lifetime.{IsEmpty, IsWhole, xkbmap_init_auto-Returns, xkbmap_free-IsEmpty}

-- The device and the keymap are as their own calls leave them.
pub record IsSane (v : Server) : Type 0 where
  pub uinput : IsBalanced v.uinput
  pub xkb : IsWhole v.xkb

pub record IsReleased (v : Server) : Type 0 where
  pub uinput : IsBalanced v.uinput
  pub device : v.uinput.is_open ≡ false
  pub xkb : IsEmpty v.xkb
  pub http : v.http ≡ false
  pub command_fd : v.command_fd ≡ pos 0
  pub base : v.base ≡ false
  pub macs_csv : v.macs_csv ≡ false
  pub clients : nodes v.clients ≡ []

abbrev none_left : List Client
none_left = []

concat_none : (bs : List (List Client)) → concat (map (λ _. none_left) bs) ≡ []
concat_none [] = refl
concat_none (b ∷ bs) = concat_none bs

stop-IsReleased : (v : Server) → IsSane v → IsReleased (stop v)
unfolding stop stop_http_server cleanup
stop-IsReleased v s =
    let (balanced, closed) = input_linux_shutdown-IsBalanced v.uinput s.uinput in
    record {
      uinput = balanced;
      device = closed;
      xkb = xkbmap_free-IsEmpty v.xkb s.xkb;
      http = refl;
      command_fd = refl;
      base = refl;
      macs_csv = refl;
      clients = concat_none v.clients.buckets;
    }

-- A call that leaves the device and the keymap alone.
record Leaves (v v' : Server) : Type 0 where
  uinput : v'.uinput ≡ v.uinput
  xkb : v'.xkb ≡ v.xkb

Leaves-IsSane : (v v' : Server) → Leaves v v' → IsSane v → IsSane v'
Leaves-IsSane v v' l s = record { uinput = rw l.uinput s.uinput; xkb = rw l.xkb s.xkb }

ready-Leaves : (c : Component) (v : Server) → Leaves v (set_component_ready c true v)
unfolding set_component_ready set_state
ready-Leaves c v = ground arith

run_command_server-Leaves : (e : Environment) (v : Server) → Leaves v (run_command_server e v).1
unfolding run_command_server
run_command_server-Leaves e v = ground arith

run_http_server-Leaves : (e : Environment) (v : Server) → Leaves v (run_http_server e v).1
unfolding run_http_server
run_http_server-Leaves e v = ground arith

or_stop-IsReleased :
    (r : ℤ × Server) (k : Server → ℤ × Server)
    → IsSane r.1
    → (IsSane r.1 → IsReleased (k r.1).1)
    → IsReleased (or_stop r k).1
or_stop-IsReleased (pos n, v) k s next = next s
or_stop-IsReleased (negsuc n, v) k s next = stop-IsReleased v s

module _ (e : Environment) (serve : Server → Server)
    (sane : (v : Server) → IsSane v → IsSane (serve v)) where
  dispatch-IsReleased : (v : Server) → IsSane v → IsReleased (dispatch serve v).1
  unfolding dispatch set_state
  dispatch-IsReleased v s =
      let s' = sane v s in
      let r =
        stop-IsReleased (set_state stopping (serve v))
          (record { uinput = s'.uinput; xkb = s'.xkb }) in
      record {
        uinput = r.uinput;
        device = r.device;
        xkb = r.xkb;
        http = r.http;
        command_fd = r.command_fd;
        base = r.base;
        macs_csv = r.macs_csv;
        clients = r.clients;
      }

  after_http : Server → ℤ × Server
  after_http v = dispatch serve (set_component_ready http_server true v)

  after_command : Server → ℤ × Server
  unfolding after_http
  after_command v =
      or_stop
        (run_http_server e (
          ready_if discovery_server
            (run_discovery_server e (set_component_ready command_server true v))))
        after_http

  after_session : Server → ℤ × Server
  unfolding after_command
  after_session v =
      or_stop (run_command_server e (set_component_ready session_server true v)) after_command

  after_http-IsReleased : (v : Server) → IsSane v → IsReleased (after_http v).1
  unfolding after_http
  after_http-IsReleased v s =
      dispatch-IsReleased (set_component_ready http_server true v)
        (Leaves-IsSane v _ (ready-Leaves http_server v) s)

  after_command-IsReleased : (v : Server) → IsSane v → IsReleased (after_command v).1
  unfolding after_command
  after_command-IsReleased v s =
      let a = set_component_ready command_server true v in
      let b = set_component_ready discovery_server true a in
      let s1 = Leaves-IsSane v a (ready-Leaves command_server v) s in
      let s2 = Leaves-IsSane a b (ready-Leaves discovery_server a) s1 in
      or_stop-IsReleased (run_http_server e b) after_http
        (Leaves-IsSane b _ (run_http_server-Leaves e b) s2)
        (after_http-IsReleased (run_http_server e b).1)

  after_session-IsReleased : (v : Server) → IsSane v → IsReleased (after_session v).1
  unfolding after_session
  after_session-IsReleased v s =
      let a = set_component_ready session_server true v in
      let s1 = Leaves-IsSane v a (ready-Leaves session_server v) s in
      or_stop-IsReleased (run_command_server e a) after_command
        (Leaves-IsSane a _ (run_command_server-Leaves e a) s1)
        (after_command-IsReleased (run_command_server e a).1)

  run_session_server-IsSane : (v : Server) → IsSane v → IsSane (run_session_server e v).1
  unfolding run_session_server
  run_session_server-IsSane v s = elim (Bool-cases e.listener_binds) [
    | inl binds ↦ rw binds (record { uinput = s.uinput; xkb = s.xkb })
    | inr fails ↦ rw fails s
  ]

  run_servers-IsReleased : (v : Server) → IsSane v → IsReleased (run_servers e serve v).1
  unfolding run_servers after_session
  run_servers-IsReleased v s =
      or_stop-IsReleased (run_session_server e v) after_session (run_session_server-IsSane v s)
        (after_session-IsReleased (run_session_server e v).1)

  prepare-IsSane :
      (v : Server)
      → v.uinput.is_open ≡ false
      → IsBalanced v.uinput
      → IsEmpty v.xkb
      → IsSane (prepare e v)
  unfolding prepare set_state
  prepare-IsSane v closed balanced empty = record {
    uinput = (input_linux_init-IsSettled v.uinput closed balanced).0;
    xkb = elim (xkbmap_init_auto-Returns e.desktop v.xkb (inl empty)) [
      | inl (s, f) ↦ inr f
      | inr (s, n) ↦ inl n
    ];
  }

  -- If there is an event base, then whatever else start_server meets, whether it returns 0 or -1, and
  -- with handlers that leave the device and the keymap sound, when it returns the uinput descriptor is
  -- closed and all those before it are, the keymap and its cache are freed, and the HTTP server, the
  -- command socket, the event base, the MAC addresses and all clients are gone from the context.
  pub start_server-IsReleased :
      (v : Server)
      → e.event_base_new ≡ true
      → v.uinput.is_open ≡ false
      → IsBalanced v.uinput
      → IsEmpty v.xkb
      → IsReleased (start_server e serve v).1
  unfolding start_server
  start_server-IsReleased v base closed balanced empty =
      let s = prepare-IsSane v closed balanced empty in
      let w : Server = record (prepare e v) { clients = init; macs_csv = e.macs_found } in
      let p : start_server e serve v ≡ run_servers e serve w =
        ap (λ b. if b then run_servers e serve w else (negsuc 0, prepare e v)) base in
      rw p (run_servers-IsReleased w (record { uinput = s.uinput; xkb = s.xkb }))
