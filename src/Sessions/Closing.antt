-- ===== src/Sessions/Closing.antt =====
-- The end of a connection (server/src/ya_server_session.c).
use mouse_hero.Base.{ℕ, ◌<◌, ◌≡◌, refl, ◌∙◌, some, [], length}
use mathlib.Core.List.{append-nil}
use mouse_hero.Clients.{Client, Manager, free_bev, free_opt, deref, write, unref, dec_ref, nodes}
use mouse_hero.Clients.Buckets.{length-concat-write}
use mouse_hero.Clients.Invariant.{Inv, write-Inv}
use mouse_hero.Clients.Lifetime.{unref-frees, deref-write}
use mouse_hero.Sessions.{Stats, dec_connections, closed, conn_eventcb}

module _ (addr : ℕ) where
  deref-write_self :
      (f : Client → Client) (m : Manager) (c : Client)
      → ((x : Client) → (f x).addr ≡ x.addr)
      → deref m addr ≡ some c
      → deref (write m addr f) addr ≡ some (f c)
  unfolding deref write
  deref-write_self f m c keeps e = deref-write addr f m.buckets c keeps e

  length-write :
      (f : Client → Client) (m : Manager) → length (nodes (write m addr f)) ≡ length (nodes m)
  unfolding write
  length-write f m = length-concat-write addr f m.buckets

  unref-closed :
      (m : Manager) (c : Client)
      → Inv m
      → deref m addr ≡ some c
      → 0 < c.ref_count
      → unref (write m addr closed) addr ≡ some (write (write m addr closed) addr dec_ref, [])
  unref-closed m c v found refs =
      let (last, more, live, spent) =
        unref-frees (write m addr closed) addr (closed c) (write-Inv m addr closed (λ x. refl) v)
          (deref-write_self closed m c (λ x. refl) found) in
      live (λ e. cc) refs

-- In a table with the invariant, the end of a connection whose client holds a reference frees the
-- client's bufferevent, and nothing else: the client stays in the table, disconnecting and with
-- one reference less, also where that was its last reference.
pub conn_eventcb_keeps :
    (m : Manager) (s : Stats) (addr : ℕ) (c : Client)
    → Inv m
    → deref m addr ≡ some c
    → 0 < c.ref_count
    → (m' : Manager) × (conn_eventcb m s addr
        ≡ some (m', dec_connections s, free_opt free_bev c.bev))
      × (deref m' addr ≡ some (dec_ref (closed c)))
      × (length (nodes m') ≡ length (nodes m))
unfolding conn_eventcb
conn_eventcb_keeps m s addr c v found refs =
    let m1 = write m addr closed in
    (
      write m1 addr dec_ref,
      rw (conn_eventcb, found, unref-closed addr m c v found refs, append-nil) refl,
      deref-write_self addr dec_ref m1 (closed c) (λ x. refl)
          (deref-write_self addr closed m c (λ x. refl) found),
      length-write addr dec_ref m1 ∙ length-write addr closed m,
    )
