-- ===== src/Tests/Clients.antt =====
-- A table of clients at work (server/src/ya_client_manager.c).
use mouse_hero.Base.{ℕ, ◌+◌, ◌<◌, ◌≡◌, ◌≢◌, refl, none, some, [], length, arith}
use mouse_hero.Base.Int.{pos}
use mouse_hero.Clients.{
  Client, Manager, init, create, remove, unref, write, deref, find_by_uid, find_in, has_uid, nodes,
  new_client, u32_mod, dec_ref, release, disconnected,
}
use mouse_hero.Clients.Invariant.{Inv, start, next, creates, removes, Reach-Inv, init-Inv}
use mouse_hero.Clients.Lookup.{find_by_uid-linear}
use mouse_hero.Clients.Removal.{IsFresh, create-IsFresh, init-IsFresh}
use mouse_hero.Clients.Lifetime.{unref-frees}

-- Two clients at the addresses 64 and 96.
abbrev one : Manager
one = (create init (some 64) (some 7) 5 (pos 3) (some 8)).0

abbrev two : Manager
two = (create one (some 96) none 6 (pos 4) (some 9)).0

abbrev marked : Manager
marked = (remove two 1).0

abbrev two-Inv : Inv two
two-Inv = Reach-Inv (
    next (next start (creates (some 64) (some 7) 5 (pos 3) (some 8)))
      (creates (some 96) none 6 (pos 4) (some 9)))

abbrev one-Inv : Inv one
one-Inv = Reach-Inv (next start (creates (some 64) (some 7) 5 (pos 3) (some 8)))

abbrev marked-Inv : Inv marked
marked-Inv = Reach-Inv (
    next
      (next (next start (creates (some 64) (some 7) 5 (pos 3) (some 8)))
        (creates (some 96) none 6 (pos 4) (some 9)))
      (removes 1))

lookup_after : find_by_uid two 2 ≡ some (new_client 2 96 none 6 (pos 4) 9)
unfolding create init find_by_uid find_in
lookup_after = refl

Reach-Inv_example : Inv marked
Reach-Inv_example = Reach-Inv (
    next
      (next (next start (creates (some 64) (some 7) 5 (pos 3) (some 8)))
        (creates (some 96) none 6 (pos 4) (some 9)))
      (removes 1))

find_by_uid-linear_example :
    (find_by_uid two 0 ≡ none) × (0 < 2 → find_by_uid two 2 ≡ find_in (has_uid 2) (nodes two))
find_by_uid-linear_example = find_by_uid-linear two 2 two-Inv

one-room : one.next_uid + 1 < u32_mod
unfolding create init
one-room = omega arith

one-IsFresh : IsFresh one
one-IsFresh =
    create-IsFresh init 64 (some 7) 5 3 8 init-Inv (unfold init in omega arith) init-IsFresh

abbrev second_uid : ℕ
second_uid = 2

abbrev first : Client
first = record (new_client 1 64 (some 7) 5 (pos 3) 8) { state = disconnected }

first_found : deref marked 64 ≡ some first
unfolding deref find_in create init remove
first_found = refl

unref-frees_example :
    (first.ref_count ≡ 1
      → first.state ≡ disconnected
      → (m' : Manager) × (unref marked 64 ≡ some (m', release first))
        × (length (nodes m') + 1 ≡ length (nodes marked)))
    × (1 < first.ref_count → unref marked 64 ≡ some (write marked 64 dec_ref, []))
    × (first.state ≢ disconnected
        → 0 < first.ref_count
        → unref marked 64 ≡ some (write marked 64 dec_ref, []))
    × (first.ref_count ≡ 0 → unref marked 64 ≡ some (marked, []))
unref-frees_example = unref-frees marked 64 first marked-Inv first_found
