-- ===== src/Clients/Lookup.antt =====
-- What the lookups of server/src/ya_client_manager.c find, and that the hash table behaves as one
-- list of clients.
use mouse_hero.Base.{
  ℕ, zero, suc, ◌+◌, ◌≤◌, ◌<◌, ◌≡◌, refl, sym, ap, ◌∙◌, ◌≢◌, inl, inr, Bool, true, false, Option,
  none, some, List, [], ◌∷◌, ◌++◌, arith, ==_refl, ==_false, ==_iff, ◌==◌, length, get_or, concat,
  get_or-set_self, get_or-set_ne, Bool-cases,
}
use mouse_hero.Base.Int.{ℤ, pos, negsuc}
use mouse_hero.Clients.{
  Client, Manager, hash_uid, u32_mod, bucket, nodes, create, insert, new_client, find_in, has_uid,
  find_by_uid, count_active, get_count, is_active,
}
use mouse_hero.Clients.Buckets.{InBucket, Placed}
use mouse_hero.Clients.Invariant.{Inv}

pub find_in-append :
    (test : Client → Bool) (xs ys : List Client)
    → find_in test xs ≡ none
    → find_in test (xs ++ ys) ≡ find_in test ys
unfolding find_in
find_in-append test [] ys e = refl
find_in-append test (x ∷ xs) ys e = ground (arith, find_in-append test xs ys)

find_in-append_some :
    (test : Client → Bool) (xs ys : List Client)
    → find_in test ys ≡ none
    → find_in test (xs ++ ys) ≡ find_in test xs
unfolding find_in
find_in-append_some test [] ys e = e
find_in-append_some test (x ∷ xs) ys e = ground (arith, find_in-append_some test xs ys e)

-- No node of another chain has the UID.
find_in-other :
    (uid i : ℕ) (cs : List Client)
    → InBucket i cs
    → hash_uid uid ≢ i
    → find_in (has_uid uid) cs ≡ none
unfolding find_in
find_in-other uid i [] p ne = refl
find_in-other uid i (c ∷ cs) p ne =
    ground (
      arith,
      find_in-other uid i cs p.2 ne,
      ==_false c.uid uid (λ e. ne (ap hash_uid (sym e) ∙ p.0)),
    )

find_in-beyond :
    (uid k : ℕ) (bs : List (List Client))
    → Placed k bs
    → hash_uid uid < k
    → find_in (has_uid uid) (concat bs) ≡ none
find_in-beyond uid k [] p lt = unfold find_in in refl
find_in-beyond uid k (b ∷ bs) p lt =
    find_in-append (has_uid uid) b (concat bs)
      (find_in-other uid k b p.0 (λ e. absurd (omega arith)))
    ∙ find_in-beyond uid (suc k) bs p.1 (omega arith)

find_in-concat :
    (uid k i : ℕ) (bs : List (List Client))
    → Placed k bs
    → hash_uid uid ≡ k + i
    → find_in (has_uid uid) (get_or bs i []) ≡ find_in (has_uid uid) (concat bs)
find_in-concat uid k i [] p e = refl
find_in-concat uid k zero (b ∷ bs) p e = sym (
    find_in-append_some (has_uid uid) b (concat bs)
      (find_in-beyond uid (suc k) bs p.1 (omega arith)))
find_in-concat uid k (suc i) (b ∷ bs) p e =
    find_in-concat uid (suc k) i bs p.1 (omega arith)
    ∙ sym (
        find_in-append (has_uid uid) b (concat bs)
          (find_in-other uid k b p.0 (λ q. absurd (omega arith))))

-- In a table with the invariant, the lookup in one hash chain is a linear search of the whole
-- table for an active client of that UID: hashing loses no client. The UID 0 is never found.
pub find_by_uid-linear :
    (m : Manager) (uid : ℕ)
    → Inv m
    → (find_by_uid m 0 ≡ none) × (0 < uid → find_by_uid m uid ≡ find_in (has_uid uid) (nodes m))
unfolding find_by_uid
find_by_uid-linear m uid v = (
  refl,
  λ p.
      rw (==_false uid 0 (λ e. absurd (omega arith)))
        (find_in-concat uid 0 (hash_uid uid) m.buckets v.placed (omega arith)),
)

-- What a search finds passes its test.
pub find_in_sound :
    (test : Client → Bool) (cs : List Client) {c : Client}
    → find_in test cs ≡ some c
    → test c ≡ true
unfolding find_in
find_in_sound test [] e = cc
find_in_sound test (x ∷ cs) {c} e = elim (Bool-cases (test x)) [
  | inl t ↦ ground arith
  | inr t ↦ find_in_sound test cs (ground arith)
]

insert-found :
    (m : Manager) (c : Client)
    → Inv m
    → 0 < c.uid
    → is_active c.state ≡ true
    → find_by_uid (insert m c) c.uid ≡ some c
unfolding find_by_uid find_in
insert-found m c v p a = rw (
  ==_false c.uid 0 (λ e. absurd (omega arith)),
  get_or-set_self m.buckets (hash_uid c.uid) (c ∷ bucket m (hash_uid c.uid)) []
      (omega (arith, v.sized)),
  find_in,
  ==_refl c.uid,
  a,
)

insert-others :
    (m : Manager) (c : Client) (uid : ℕ)
    → Inv m
    → uid ≢ c.uid
    → find_by_uid (insert m c) uid ≡ find_by_uid m uid
unfolding find_by_uid find_in
insert-others m c uid v ne = elim (Bool-cases (uid == 0)) [
  | inl z ↦ rw z
  | inr z ↦ rw z (elim (Bool-cases (hash_uid c.uid == hash_uid uid)) [
    | inl e ↦
        let same = (==_iff (hash_uid c.uid) (hash_uid uid)).0 e in
        rw (
          ← same,
          get_or-set_self m.buckets (hash_uid c.uid) (c ∷ bucket m (hash_uid c.uid)) []
              (omega (arith, v.sized)),
          find_in,
          ==_false c.uid uid (λ q. ne (sym q)),
        )
    | inr e ↦ rw (
        get_or-set_ne m.buckets (hash_uid c.uid) (hash_uid uid) (c ∷ bucket m (hash_uid c.uid)) []
          (λ q. differ e q))
  ])
]
  where
    differ : (hash_uid c.uid == hash_uid uid) ≡ false → hash_uid c.uid ≢ hash_uid uid
    differ e q = ground arith

-- In a table with the invariant, creating a client with good arguments and memory at hand
-- succeeds; the UID is valid, a lookup of it finds the new client with one reference, active and
-- not yet authorized (protocol version 0), and a lookup of any other UID finds what it found
-- before.
pub create_lem :
    (m : Manager) (addr : ℕ) (filter : Option ℕ) (now n bev uid : ℕ)
    → Inv m
    → let (m', r) = create m (some addr) filter now (pos n) (some bev) in
      let c = new_client m.next_uid addr filter now (pos n) bev in
      (r ≡ some c)
      × (0 < c.uid)
      × (c.uid < u32_mod)
      × (find_by_uid m' c.uid ≡ some c)
      × (uid ≢ c.uid → find_by_uid m' uid ≡ find_by_uid m uid)
unfolding create
create_lem m addr filter now n bev uid v =
    rw (==_false m.next_uid 0 (λ e. absurd (omega (arith, v.next_pos))))
      (refl, v.next_pos, v.next_fits, insert-found m c v v.next_pos refl, insert-others m c uid v)
  where
    c : Client
    c = new_client m.next_uid addr filter now (pos n) bev

-- Bad arguments (no bufferevent, a negative descriptor) and a failed allocation leave the table as
-- it was, and no client is made.
pub create_refused :
    (m : Manager) (alloc filter : Option ℕ) (now n : ℕ) (fd : ℤ) (bev : ℕ)
    → (create m alloc filter now fd none ≡ (m, none))
      × (create m none filter now fd (some bev) ≡ (m, none))
      × (create m alloc filter now (negsuc n) (some bev) ≡ (m, none))
unfolding create
create_refused m none filter now n fd bev = (refl, refl, refl)
create_refused m (some a) filter now n fd bev = (refl, refl, refl)

length-count_active : (cs : List Client) → count_active cs ≤ length cs
length-count_active [] = omega arith
length-count_active (c ∷ cs) = ground (arith, length-count_active cs)

-- In a table with the invariant, the count that the manager reports is never above the number of
-- nodes that it keeps, and while those are fewer than 2^32 never above `client_count`.
pub get_count-le :
    (m : Manager)
    → Inv m
    → (get_count m ≤ length (nodes m)) × (length (nodes m) < u32_mod → get_count m ≤ m.client_count)
unfolding get_count
get_count-le m v = (
  omega (arith, length-count_active (nodes m)),
  λ h. omega (arith, length-count_active (nodes m), v.counted),
)
