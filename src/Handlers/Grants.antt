-- ===== src/Handlers/Grants.antt =====
-- Whom an AUTHORIZE request lets in (server/src/ya_authorize.c and handle_authorize of
-- server/src/ya_server_handler.c).
use mouse_hero.Base.{ℕ, ◌≤◌, ◌≡◌, ◌≢◌, ◌⊎◌, inl, inr, refl, true, false, Option, none, some, arith}
use mouse_hero.Clients.{Client, deref, write, find_by_fd}
use mouse_hero.Clients.Lifetime.{deref-write}
use mouse_hero.Filter.{Floats, Filter, set_algorithms_enabled}
use mouse_hero.Handlers.{World, Env, assign_response, on_filter}
use mouse_hero.Handlers.Authorize.{authorize, handle_authorize, bind_client, welcome, refusal}
use mouse_hero.Wire.{Event, authorize_request, authorize_response}

-- The clients that the program means to let in: the two known types, from version 1 on.
abbrev pub Admits : ℕ → ℕ → Type 0
Admits type version = ((type ≡ 1) ⊎ (type ≡ 2)) × (1 ≤ version)

authorize-Admits : (type version : ℕ) → Admits type version → authorize type version ≡ true
unfolding authorize
authorize-Admits type version (inl e, h) = ground arith
authorize-Admits type version (inr e, h) = ground arith

-- The others: version 0, or another type.
abbrev pub Refuses : ℕ → ℕ → Type 0
Refuses type version = (version ≡ 0) ⊎ ((type ≢ 1) × (type ≢ 2))

authorize-Refuses : (type version : ℕ) → Refuses type version → authorize type version ≡ false
unfolding authorize
authorize-Refuses type version (inl e) = ground arith
authorize-Refuses type version (inr (a, b)) = ground (arith, a, b)

clients-on_filter :
    {F : Type 0} (filter : Option ℕ) (f : Filter F → Filter F) (w : World F)
    → (on_filter filter f w).clients ≡ w.clients
clients-on_filter none f w = refl
clients-on_filter (some a) f w = refl

module _ (fl : Floats) (env : Env fl.F) where
  -- On a connection whose descriptor finds a client in the table, an AUTHORIZE request with client
  -- type 1 or 2 and a version other than 0 is let in: the response welcomes that client, under its
  -- UID, and the client has the version and the connection from then on. With another type, or
  -- version 0, nothing changes and the response refuses, with no UID and no ports.
  pub handle_authorize_grants :
      (bev type version : ℕ) (e : Event fl.F) (c : Client) (w : World fl.F)
      → e.param ≡ authorize_request type version
      → find_by_fd w.clients (env.getfd bev) ≡ some c
      → deref w.clients c.addr ≡ some c
      → (Admits type version
          → (w' : World fl.F) × (handle_authorize fl env (some bev) e w
              ≡ some (
                w',
                some (assign_response e (authorize_response (welcome fl env c.uid version))),
              ))
            × (deref w'.clients c.addr
                ≡ some (record c { bev = some bev; protocol_version = version })))
        × (Refuses type version
            → handle_authorize fl env (some bev) e w
              ≡ some (w, some (assign_response e (authorize_response (refusal fl env version)))))
  unfolding handle_authorize bind_client deref write
  handle_authorize_grants bev type version e c w param found at_addr =
      let bind = λ (k : Client). record k { bev = some bev; protocol_version = version } in
      let bound = record w { clients = write w.clients c.addr bind } in
      (
        λ admits. (
          on_filter c.mouse_filter (set_algorithms_enabled fl true) bound,
          rw (param, authorize-Admits type version admits, found) refl,
          rw (clients-on_filter c.mouse_filter (set_algorithms_enabled fl true) bound)
              (deref-write c.addr bind w.clients.buckets c (λ x. refl) at_addr),
        ),
        λ refuses. rw (param, authorize-Refuses type version refuses) refl,
      )
