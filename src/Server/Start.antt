-- ===== src/Server/Start.antt =====
-- The states that start_server goes through (server/src/ya_server.c).
use mathlib.Core.List.{append_assoc}
use mouse_hero.Base.{
  Bool, true, false, not, ◌&&◌, [], ◌∷◌, ◌++◌, ◌≡◌, refl, ap, ◌∙◌, if◌then◌else◌, arith,
}
use mouse_hero.Base.Int.{ℤ, pos, negsuc, is_negative}
use mouse_hero.Clients.{init}
use mouse_hero.Server.{
  initial, running, stopping, stopped, Components, none_ready, Component, session_server,
  command_server, http_server, discovery_server, mark, all_components_ready, Server, set_state,
  set_component_ready, Environment, run_session_server, run_command_server, run_discovery_server,
  is_configured, run_http_server, stop_http_server, stop, or_stop, ready_if, prepare, dispatch,
  run_servers, start_server,
}

-- The session server listens, and the HTTP server too if it is configured.
abbrev pub http_starts : Environment → Bool
http_starts e =
    if is_configured e e.http_addr then e.evhttp_new && (e.strdup && e.http_binds) else true

abbrev pub goes : Environment → Bool
goes e = e.event_base_new && (e.listener_binds && http_starts e)

stop-states : (v : Server) → (stop v).states ≡ v.states
unfolding stop stop_http_server
stop-states v = refl

run_command_server-states :
    (e : Environment) (v : Server) → (run_command_server e v).1.states ≡ v.states
unfolding run_command_server
run_command_server-states e v = ground arith

run_command_server-components :
    (e : Environment) (v : Server) → (run_command_server e v).1.components ≡ v.components
unfolding run_command_server
run_command_server-components e v = ground arith

run_command_server-is_negative :
    (e : Environment) (v : Server) → is_negative (run_command_server e v).0 ≡ false
unfolding run_command_server
run_command_server-is_negative e v = ground arith

run_http_server-states : (e : Environment) (v : Server) → (run_http_server e v).1.states ≡ v.states
unfolding run_http_server
run_http_server-states e v = ground arith

run_http_server-components :
    (e : Environment) (v : Server) → (run_http_server e v).1.components ≡ v.components
unfolding run_http_server
run_http_server-components e v = ground arith

run_http_server-is_negative :
    (e : Environment) (v : Server) → is_negative (run_http_server e v).0 ≡ not (http_starts e)
unfolding run_http_server
run_http_server-is_negative e v = ground arith

ready-components :
    (c : Component) (v : Server)
    → (set_component_ready c true v).components ≡ mark v.components c true
unfolding set_component_ready set_state
ready-components c v = ground arith

ready-states :
    (c : Component) (v : Server)
    → (set_component_ready c true v).states ≡ (
        if all_components_ready (mark v.components c true)
        then v.states ++ running ∷ []
        else v.states)
unfolding set_component_ready set_state
ready-states c v = ground arith

-- A component that is not the last one
record AddsReady (c : Component) (k : Components) (v v' : Server) : Type 0 where
  components : v'.components ≡ mark k c true
  states :
      v'.states
      ≡ (if all_components_ready (mark k c true) then v.states ++ running ∷ [] else v.states)

adds_ready :
    (c : Component) (k : Components) (v : Server)
    → v.components ≡ k
    → AddsReady c k v (set_component_ready c true v)
adds_ready c k v h = record {
  components = ready-components c v ∙ ap (λ x. mark x c true) h;
  states =
      ready-states c v
      ∙ ap
          (λ x. if all_components_ready (mark x c true) then v.states ++ running ∷ [] else v.states)
          h;
}

abbrev three_ready : Components
three_ready = record { session = true; command = true; http = false; discovery = true }

-- The state in front of run_http_server, and its components.
before_http : Environment → Server → Server
before_http e v = ready_if discovery_server (
    run_discovery_server e (
      set_component_ready command_server true
        (run_command_server e (set_component_ready session_server true v)).1))

before_http_lem :
    (e : Environment) (v : Server)
    → v.components ≡ none_ready
    → ((before_http e v).states ≡ v.states) × ((before_http e v).components ≡ three_ready)
unfolding before_http all_components_ready
before_http_lem e v h =
    let vA = set_component_ready session_server true v in
    let a = adds_ready session_server none_ready v h in
    let vB = (run_command_server e vA).1 in
    let b = adds_ready command_server _ vB (run_command_server-components e vA ∙ a.components) in
    let vC = set_component_ready command_server true vB in
    let c = adds_ready discovery_server _ vC b.components in
    (c.states ∙ b.states ∙ run_command_server-states e vA ∙ a.states, c.components)

-- The states of a run of the servers, and its status.
abbrev Ran : Bool → Server → ℤ × Server → Type 0
Ran went v (status, v') =
    (status ≡ (if went then pos 0 else negsuc 0))
    × (v'.states ≡ (if went then v.states ++ (running ∷ stopping ∷ stopped ∷ []) else v.states))

module _ (e : Environment) (serve : Server → Server)
    (quiet : (v : Server) → (serve v).states ≡ v.states) where
  dispatch-status : (v : Server) → (dispatch serve v).0 ≡ pos 0
  unfolding dispatch
  dispatch-status v = refl

  dispatch-states :
      (v : Server) → (dispatch serve v).1.states ≡ v.states ++ (stopping ∷ stopped ∷ [])
  unfolding dispatch set_state
  dispatch-states v =
      ap (λ s. s ++ stopped ∷ []) (stop-states (set_state stopping (serve v)))
      ∙ append_assoc (serve v).states (stopping ∷ []) (stopped ∷ [])
      ∙ ap (λ s. s ++ (stopping ∷ stopped ∷ [])) (quiet v)

  -- From run_http_server on
  with_http : Server → ℤ × Server
  with_http w =
      or_stop (run_http_server e w) λ v3. dispatch serve (set_component_ready http_server true v3)

  with_http-Ran :
      (w : Server) (b : Bool)
      → http_starts e ≡ b
      → w.components ≡ three_ready
      → Ran b w (with_http w)
  unfolding with_http all_components_ready
  with_http-Ran w true starts three =
      let r = run_http_server e w in
      let k = λ (x : Server). dispatch serve (set_component_ready http_server true x) in
      let p : with_http w ≡ k r.1 =
        ap (λ n. if n then (negsuc 0, stop r.1) else k r.1)
          (run_http_server-is_negative e w ∙ ap not starts) in
      let a = adds_ready http_server three_ready r.1 (run_http_server-components e w ∙ three) in
      (
        ap (λ x. x.0) p ∙ dispatch-status _,
        ap (λ x. x.1.states) p
            ∙ dispatch-states (set_component_ready http_server true r.1)
            ∙ ap (λ s. s ++ (stopping ∷ stopped ∷ []))
                (a.states ∙ ap (λ s. s ++ running ∷ []) (run_http_server-states e w))
            ∙ append_assoc w.states (running ∷ []) (stopping ∷ stopped ∷ []),
      )
  with_http-Ran w false starts three =
      let r = run_http_server e w in
      let k = λ (x : Server). dispatch serve (set_component_ready http_server true x) in
      let p : with_http w ≡ (negsuc 0, stop r.1) =
        ap (λ n. if n then (negsuc 0, stop r.1) else k r.1)
          (run_http_server-is_negative e w ∙ ap not starts) in
      (ap (λ x. x.0) p, ap (λ x. x.1.states) p ∙ stop-states r.1 ∙ run_http_server-states e w)

  run_servers-http :
      (v : Server)
      → e.listener_binds ≡ true
      → run_servers e serve v ≡ with_http (before_http e (record v { listening = true }))
  unfolding run_servers run_session_server with_http before_http
  run_servers-http v binds =
      let v1 : Server = record v { listening = true } in
      let vA = set_component_ready session_server true v1 in
      let vB = (run_command_server e vA).1 in
      let rest : Server → ℤ × Server = λ x.
        or_stop (run_command_server e (set_component_ready session_server true x)) λ y. with_http (
          ready_if discovery_server
            (run_discovery_server e (set_component_ready command_server true y))) in
      ap (λ b. or_stop (if b then (pos 0, v1) else (negsuc 0, v)) rest) binds
      ∙ ap (λ n. if n then (negsuc 0, stop vB) else with_http (before_http e v1))
          (run_command_server-is_negative e vA)

  run_servers-stop :
      (v : Server) → e.listener_binds ≡ false → run_servers e serve v ≡ (negsuc 0, stop v)
  unfolding run_servers run_session_server
  run_servers-stop v binds =
      let v1 : Server = record v { listening = true } in
      let rest : Server → ℤ × Server = λ x.
        or_stop (run_command_server e (set_component_ready session_server true x)) λ y.
          or_stop
            (run_http_server e (
              ready_if discovery_server
                (run_discovery_server e (set_component_ready command_server true y))))
            λ z. dispatch serve (set_component_ready http_server true z) in
      ap (λ b. or_stop (if b then (pos 0, v1) else (negsuc 0, v)) rest) binds

  run_servers-Ran :
      (v : Server) (l b : Bool)
      → e.listener_binds ≡ l
      → http_starts e ≡ b
      → v.components ≡ none_ready
      → Ran (l && b) v (run_servers e serve v)
  run_servers-Ran v false b binds starts h =
      let p = run_servers-stop v binds in (ap (λ x. x.0) p, ap (λ x. x.1.states) p ∙ stop-states v)
  run_servers-Ran v true b binds starts h =
      let v1 : Server = record v { listening = true } in
      let (states, three) = before_http_lem e v1 h in
      let p = run_servers-http v binds in
      let (status, ran) = with_http-Ran (before_http e v1) b starts three in
      (
        ap (λ x. x.0) p ∙ status,
        ap (λ x. x.1.states) p
            ∙ ran
            ∙ ap (λ s. if b then s ++ (running ∷ stopping ∷ stopped ∷ []) else s) states,
      )

  prepared : Server → Server
  prepared v = record (prepare e v) { clients = init; macs_csv = e.macs_found }

  prepared-states : (v : Server) → (prepared v).states ≡ v.states ++ initial ∷ []
  unfolding prepared prepare set_state
  prepared-states v = refl

  prepared-components : (v : Server) → (prepared v).components ≡ none_ready
  unfolding prepared prepare set_state
  prepared-components v = refl

  abbrev Started : Bool → Server → ℤ × Server → Type 0
  Started went v (status, v') =
      (status ≡ (if went then pos 0 else negsuc 0))
      × (v'.states ≡ (
          if went
          then v.states ++ (initial ∷ running ∷ stopping ∷ stopped ∷ [])
          else v.states ++ initial ∷ []))

  Ran-Started :
      (v w : Server) (went : Bool) (r : ℤ × Server)
      → w.states ≡ v.states ++ initial ∷ []
      → Ran went w r
      → Started went v r
  Ran-Started v w true r h (status, ran) = (
    status,
    ran
        ∙ ap (λ s. s ++ (running ∷ stopping ∷ stopped ∷ [])) h
        ∙ append_assoc v.states (initial ∷ []) (running ∷ stopping ∷ stopped ∷ []),
  )
  Ran-Started v w false r h (status, ran) = (status, ran ∙ h)

  started :
      (v : Server) (base : Bool)
      → e.event_base_new ≡ base
      → Started (base && (e.listener_binds && http_starts e)) v (start_server e serve v)
  unfolding start_server prepared
  started v false h =
      let p : start_server e serve v ≡ (negsuc 0, prepare e v) =
        ap (λ b. if b then run_servers e serve (prepared v) else (negsuc 0, prepare e v)) h in
      (ap (λ x. x.0) p, ap (λ x. x.1.states) p ∙ prepared-states v)
  started v true h =
      let p : start_server e serve v ≡ run_servers e serve (prepared v) =
        ap (λ b. if b then run_servers e serve (prepared v) else (negsuc 0, prepare e v)) h in
      rw p (
        Ran-Started v (prepared v) (e.listener_binds && http_starts e)
          (run_servers e serve (prepared v)) (prepared-states v)
          (run_servers-Ran (prepared v) e.listener_binds (http_starts e) refl refl
            (prepared-components v)))

  -- start_server with handlers that leave the state alone: if there is an event base, the listener of
  -- the session server binds, and the HTTP server starts or is not configured, then it returns 0 and
  -- the server was INIT, RUNNING, STOPPING and STOPPED, in this order; and otherwise it returns -1 and
  -- the server was only INIT. It does not matter whether the command server or the discovery server
  -- could be started.
  pub start_server-states :
      (v : Server)
      → let (status, v') = start_server e serve v in
        (status ≡ (if goes e then pos 0 else negsuc 0))
        × (v'.states ≡ (
            if goes e
            then v.states ++ (initial ∷ running ∷ stopping ∷ stopped ∷ [])
            else v.states ++ initial ∷ []))
  unfolding start_server
  start_server-states v = started v e.event_base_new refl
