-- ===== src/Clients/Removal.antt =====
-- What `ya_client_remove` of server/src/ya_client_manager.c hides from the lookups.
use mouse_hero.Base.{
  replicate, ℕ, zero, suc, ◌+◌, ◌%◌, ◌≤◌, ◌<◌, ◌≡◌, refl, ◌≢◌, inl, inr, false, Option, none, some,
  List, [], ◌∷◌, arith, ==_false, ==_iff, ◌==◌, get_or, set, get_or-set_self, get_or-set_ne,
  Bool-cases, All, All-get_or, All-set,
}
use mouse_hero.Base.Int.{pos}
use mouse_hero.Clients.{
  init, Client, Manager, hash_uid, hash_size, u32_mod, bucket, create, new_client, find_in, has_uid,
  find_by_uid, remove, remove_in, after_remove,
}
use mouse_hero.Clients.Invariant.{Inv}

-- UIDs fall along a chain and stay below the next one: no UID is used twice.
abbrev pub Below : ℕ → List Client → Type 0
Below n [] = Unit {0}
Below n (c ∷ cs) = (c.uid < n) × Below c.uid cs

abbrev pub IsFresh : Manager → Type 0
IsFresh m = All (Below m.next_uid) m.buckets

pub init-IsFresh : IsFresh init
unfolding init
init-IsFresh = empty hash_size
  where
    empty : (n : ℕ) → All (Below 1) (replicate n [])
    empty zero = tt
    empty (suc n) = (tt, empty n)

Below-mono : (k n : ℕ) (cs : List Client) → k ≤ n → Below k cs → Below n cs
Below-mono k n [] h b = tt
Below-mono k n (c ∷ cs) h b = (omega arith, b.1)

All-mono : (k n : ℕ) (bs : List (List Client)) → k ≤ n → All (Below k) bs → All (Below n) bs
All-mono k n [] h a = tt
All-mono k n (b ∷ bs) h a = (Below-mono k n b h a.0, All-mono k n bs h a.1)

-- In a table with the invariant, and while the UID counter does not wrap, creating a client keeps
-- the UIDs fresh: they fall along every chain and all are below the next UID, so that a new client
-- gets one that no node has.
pub create-IsFresh :
    (m : Manager) (addr : ℕ) (filter : Option ℕ) (now n bev : ℕ)
    → Inv m
    → m.next_uid + 1 < u32_mod
    → IsFresh m
    → IsFresh (create m (some addr) filter now (pos n) (some bev)).0
unfolding create
create-IsFresh m addr filter now n bev v room f =
    rw
      (
        ==_false m.next_uid 0 (λ e. absurd (omega (arith, v.next_pos))),
        next,
        ==_false (m.next_uid + 1) 0 (λ e. absurd (omega arith)),
      )
      (All-set (Below (m.next_uid + 1)) m.buckets h (c ∷ bucket m h)
        (omega arith, All-get_or (Below m.next_uid) m.buckets h [] tt f)
        (All-mono m.next_uid (m.next_uid + 1) m.buckets (omega arith) f))
  where
    h : ℕ
    h = hash_uid m.next_uid

    c : Client
    c = new_client m.next_uid addr filter now (pos n) bev

    next : (m.next_uid + 1) % u32_mod ≡ m.next_uid + 1
    next = omega arith

find_in-Below :
    (uid n : ℕ) (cs : List Client) → Below n cs → n ≤ uid → find_in (has_uid uid) cs ≡ none
unfolding find_in
find_in-Below uid n [] b h = refl
find_in-Below uid n (c ∷ cs) b h = ground (arith, find_in-Below uid c.uid cs b.1)

find_in-remove_self :
    (uid n : ℕ) (cs : List Client) → Below n cs → find_in (has_uid uid) (remove_in uid cs).0 ≡ none
unfolding find_in remove_in
find_in-remove_self uid n [] b = refl
find_in-remove_self uid n (c ∷ cs) b =
    ground (arith, find_in-remove_self uid c.uid cs b.1, find_in-Below uid c.uid cs b.1)

find_in-remove_other :
    (uid other : ℕ) (cs : List Client)
    → other ≢ uid
    → find_in (has_uid other) (remove_in uid cs).0 ≡ find_in (has_uid other) cs
unfolding find_in remove_in
find_in-remove_other uid other [] ne = refl
find_in-remove_other uid other (c ∷ cs) ne = ground (arith, find_in-remove_other uid other cs ne)

bucket-remove :
    (m : Manager) (uid i : ℕ)
    → uid ≢ 0
    → bucket (remove m uid).0 i
      ≡ get_or (set m.buckets (hash_uid uid) (remove_in uid (bucket m (hash_uid uid))).0) i []
unfolding remove
bucket-remove m uid i ne = rw (==_false uid 0 ne) (chain (remove_in uid (bucket m (hash_uid uid))))
  where
    chain :
        (r : List Client × Option Client)
        → bucket (after_remove m (hash_uid uid) r).0 i
          ≡ get_or (set m.buckets (hash_uid uid) r.0) i []
    chain (b, none) = refl
    chain (b, some c) = refl

find_by_uid-nonzero :
    (m : Manager) (uid : ℕ)
    → uid ≢ 0
    → find_by_uid m uid ≡ find_in (has_uid uid) (bucket m (hash_uid uid))
unfolding find_by_uid
find_by_uid-nonzero m uid ne = rw (==_false uid 0 ne)

remove-hides_self :
    (m : Manager) (uid : ℕ) → Inv m → IsFresh m → uid ≢ 0 → find_by_uid (remove m uid).0 uid ≡ none
remove-hides_self m uid v f ne =
    rw
      (
        find_by_uid-nonzero (remove m uid).0 uid ne,
        bucket-remove m uid (hash_uid uid) ne,
        get_or-set_self m.buckets (hash_uid uid) (remove_in uid (bucket m (hash_uid uid))).0 []
            (omega (arith, v.sized)),
      )
      (find_in-remove_self uid m.next_uid (bucket m (hash_uid uid))
        (All-get_or (Below m.next_uid) m.buckets (hash_uid uid) [] tt f))

remove-keeps_other :
    (m : Manager) (uid other : ℕ)
    → Inv m
    → uid ≢ 0
    → other ≢ 0
    → other ≢ uid
    → find_by_uid (remove m uid).0 other ≡ find_by_uid m other
remove-keeps_other m uid other v ne ne' differ =
    rw
      (
        find_by_uid-nonzero (remove m uid).0 other ne',
        find_by_uid-nonzero m other ne',
        bucket-remove m uid (hash_uid other) ne,
      )
      (elim (Bool-cases (hash_uid uid == hash_uid other)) [
        | inl e ↦
            rw
              (
                ← (==_iff (hash_uid uid) (hash_uid other)).0 e,
                get_or-set_self m.buckets (hash_uid uid) (remove_in uid (bucket m (hash_uid uid))).0
                    [] (omega (arith, v.sized)),
              )
              (find_in-remove_other uid other (bucket m (hash_uid uid)) differ)
        | inr e ↦ rw (
            get_or-set_ne m.buckets (hash_uid uid) (hash_uid other)
              (remove_in uid (bucket m (hash_uid uid))).0 [] (apart e))
      ])
  where
    apart : (hash_uid uid == hash_uid other) ≡ false → hash_uid uid ≢ hash_uid other
    apart e q = ground arith

-- In a table with the invariant, a lookup of a UID after its `remove` finds nothing, provided that
-- the UIDs are fresh; a lookup of any other UID finds what it found before.
pub remove-hides :
    (m : Manager) (uid other : ℕ)
    → Inv m
    → (IsFresh m → find_by_uid (remove m uid).0 uid ≡ none)
      × (other ≢ uid → find_by_uid (remove m uid).0 other ≡ find_by_uid m other)
unfolding remove find_by_uid
remove-hides m zero other v = (λ f. refl, λ ne. refl)
remove-hides m (suc u) zero v = (λ f. remove-hides_self m (suc u) v f (λ e. cc), λ ne. refl)
remove-hides m (suc u) (suc o) v = (
  λ f. remove-hides_self m (suc u) v f (λ e. cc),
  λ ne. remove-keeps_other m (suc u) (suc o) v (λ e. cc) (λ e. cc) ne,
)
