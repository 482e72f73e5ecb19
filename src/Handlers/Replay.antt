-- ===== src/Handlers/Replay.antt =====
-- The command index as a guard against old and repeated commands (server/src/ya_server_handler.c).
use mouse_hero.Base.{ℕ, ◌≤◌, ◌<◌, ◌≡◌, refl, true, Option, some, le→leb, lt→leb_false}
use mouse_hero.Clients.{Client, Manager, deref, write}
use mouse_hero.Filter.{Floats}
use mouse_hero.Handlers.{World, Env, Handler, ignored}
use mouse_hero.Handlers.Dispatch.{
  is_checked, set_index, accepted, stale, check_client, check_command_index, find_event_handler,
  process_server_event,
}
use mouse_hero.Wire.{Event, EventHeader}

check-stale :
    (h : EventHeader) (addr : ℕ) (m : Manager) (c : Client)
    → is_checked h ≡ true
    → deref m addr ≡ some c
    → h.index ≤ c.command_index
    → check_command_index h (some addr) m ≡ stale
unfolding check_command_index check_client
check-stale h addr m c checked found old =
    rw (checked, found, le→leb h.index c.command_index old) refl

check-accepted :
    (h : EventHeader) (addr : ℕ) (m : Manager) (c : Client)
    → is_checked h ≡ true
    → deref m addr ≡ some c
    → c.command_index < h.index
    → check_command_index h (some addr) m ≡ accepted (write m c.addr (set_index h.index))
unfolding check_command_index check_client
check-accepted h addr m c checked found new =
    rw (checked, found, lt→leb_false c.command_index h.index new) refl

module _ (fl : Floats) (env : Env fl.F) where
  -- A request that is subject to the check and has a handler, from a client in the table, whose
  -- index is not above the last index that was accepted from that client, is dropped: nothing is
  -- answered and nothing changes, whatever its type and parameters. One with a higher index goes
  -- to its handler, on the world in which its index is the client's.
  pub process_server_event_replay :
      (bev : Option ℕ) (e : Event fl.F) (addr : ℕ) (c : Client) (h : Handler fl.F) (w : World fl.F)
      → is_checked e.header ≡ true
      → deref w.clients addr ≡ some c
      → find_event_handler fl env e.header.type ≡ some h
      → (e.header.index ≤ c.command_index
          → process_server_event fl env bev e (some addr) w ≡ ignored w)
        × (c.command_index < e.header.index
            → process_server_event fl env bev e (some addr) w
              ≡ h bev e (record w { clients = write w.clients c.addr (set_index e.header.index) }))
  unfolding process_server_event
  process_server_event_replay bev e addr c h w checked found handler = (
    λ old.
        rw (process_server_event, handler, check-stale e.header addr w.clients c checked found old)
          refl,
    λ new.
        rw
          (
            process_server_event,
            handler,
            check-accepted e.header addr w.clients c checked found new,
          )
          refl,
  )
