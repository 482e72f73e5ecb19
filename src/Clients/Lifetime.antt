-- ===== src/Clients/Lifetime.antt =====
-- When `ya_client_unref` of server/src/ya_client_manager.c frees a node.
use mouse_hero.Base.{
  ℕ, zero, suc, ◌+◌, ◌<◌, ◌≡◌, refl, sym, ap, ◌∙◌, ◌≢◌, inl, inr, Bool, some, List, [], ◌∷◌, ◌++◌,
  map, arith, ==_iff, ◌==◌, if◌then◌else◌, length, get_or, concat, Bool-cases, Option-cases, subst,
}
use mouse_hero.Clients.{
  Client, Manager, hash_uid, bucket, nodes, find_in, has_addr, deref, write, write_in, unlink,
  unlink_in, unref_node, unref, dec_ref, release, disconnected,
}
use mouse_hero.Clients.Buckets.{
  InBucket, Placed, length-unlink_in, length-concat-set, length-concat-write,
}
use mouse_hero.Clients.Invariant.{Inv, write-Inv}
use mouse_hero.Clients.Lookup.{find_in-append, find_in_sound}

find_in-InBucket :
    (test : Client → Bool) (i : ℕ) (cs : List Client) (c : Client)
    → InBucket i cs
    → find_in test cs ≡ some c
    → hash_uid c.uid ≡ i
unfolding find_in
find_in-InBucket test i [] c p e = cc
find_in-InBucket test i (x ∷ cs) c p e = elim (Bool-cases (test x)) [
  | inl t ↦ ground arith
  | inr t ↦ find_in-InBucket test i cs c p.2 (ground arith)
]

find_in-append_found :
    (test : Client → Bool) (xs ys : List Client) (d : Client)
    → find_in test xs ≡ some d
    → find_in test (xs ++ ys) ≡ some d
unfolding find_in
find_in-append_found test [] ys d e = cc
find_in-append_found test (x ∷ xs) ys d e = elim (Bool-cases (test x)) [
  | inl t ↦ ground arith
  | inr t ↦ rw t (find_in-append_found test xs ys d (ground arith))
]

-- A pointer to a node leads to the chain that the node's UID hashes to.
deref-bucket :
    (test : Client → Bool) (k : ℕ) (bs : List (List Client)) (c : Client)
    → Placed k bs
    → find_in test (concat bs) ≡ some c
    → (i : ℕ) × (hash_uid c.uid ≡ k + i)
      × (i < length bs)
      × (find_in test (get_or bs i []) ≡ some c)
deref-bucket test k [] c p e = unfold find_in in cc
deref-bucket test k (b ∷ bs) c p e = elim (Option-cases (find_in test b)) [
  | inl miss ↦
      let (i, h, lt, f) =
        deref-bucket test (suc k) bs c p.1 (sym (find_in-append test b (concat bs) miss) ∙ e) in
      (suc i, omega arith, omega arith, f)
  | inr (d, hit) ↦
      let same : some d ≡ some c = sym (find_in-append_found test b (concat bs) d hit) ∙ e in
      (0, omega (arith, find_in-InBucket test k b c p.0 (hit ∙ same)), omega arith, hit ∙ same)
]

find_in-write :
    (addr : ℕ) (f : Client → Client) (cs : List Client) (c : Client)
    → ((x : Client) → (f x).addr ≡ x.addr)
    → find_in (has_addr addr) cs ≡ some c
    → find_in (has_addr addr) (write_in addr f cs) ≡ some (f c)
unfolding find_in
find_in-write addr f [] c keeps e = cc
find_in-write addr f (x ∷ cs) c keeps e = elim (Bool-cases (has_addr addr x)) [
  | inl t ↦
      let same : some x ≡ some c = rw t at e in rw t (rw (ap (λ a. a == addr) (keeps x) ∙ t) (cc))
  | inr t ↦ rw t (rw t (find_in-write addr f cs c keeps (rw t at e)))
]

get_or-write :
    (addr : ℕ) (f : Client → Client) (bs : List (List Client)) (i : ℕ)
    → get_or (map (write_in addr f) bs) i [] ≡ write_in addr f (get_or bs i [])
get_or-write addr f [] i = refl
get_or-write addr f (b ∷ bs) zero = refl
get_or-write addr f (b ∷ bs) (suc i) = get_or-write addr f bs i

-- `unlink` finds a node that the pointer points to, wherever it is in the table.
unlink_lem :
    (m : Manager) (c : Client)
    → Inv m
    → deref m c.addr ≡ some c
    → ((unlink m c).1 ≡ release c) × (length (nodes (unlink m c).0) + 1 ≡ length (nodes m))
unfolding deref unlink
unlink_lem m c v e =
    let (i, h, lt, f) = deref-bucket (has_addr c.addr) 0 m.buckets c v.placed e in
    let here : find_in (has_addr c.addr) (bucket m (hash_uid c.uid)) ≡ some c =
      subst (λ j. find_in (has_addr c.addr) (bucket m j) ≡ some c) (omega arith) f in
    rw (here, unlink)
      (
        refl,
        omega (
          arith,
          v.sized,
          length-unlink_in c.addr (bucket m (hash_uid c.uid)) here,
          length-concat-set (hash_uid c.uid) (unlink_in c.addr (bucket m (hash_uid c.uid)))
              m.buckets,
        ),
      )

pub deref-write :
    (addr : ℕ) (f : Client → Client) (bs : List (List Client)) (c : Client)
    → ((x : Client) → (f x).addr ≡ x.addr)
    → find_in (has_addr addr) (concat bs) ≡ some c
    → find_in (has_addr addr) (concat (map (write_in addr f) bs)) ≡ some (f c)
deref-write addr f bs c keeps e = rw (concat-map bs) (find_in-write addr f (concat bs) c keeps e)
  where
    write-append :
        (xs ys : List Client)
        → write_in addr f xs ++ write_in addr f ys ≡ write_in addr f (xs ++ ys)
    write-append [] ys = refl
    write-append (x ∷ xs) ys =
        ap (λ t. (if has_addr addr x then f x else x) ∷ t) (write-append xs ys)

    concat-map :
        (cs : List (List Client)) → concat (map (write_in addr f) cs) ≡ write_in addr f (concat cs)
    concat-map [] = refl
    concat-map (b ∷ cs) = rw (concat-map cs) (write-append b (concat cs))

unref_node_cases :
    (m : Manager) (c : Client)
    → (c.ref_count ≡ 1
        → c.state ≡ disconnected
        → unref_node m c ≡ unlink (write m c.addr dec_ref) (dec_ref c))
      × (1 < c.ref_count → unref_node m c ≡ (write m c.addr dec_ref, []))
      × (c.state ≢ disconnected → 0 < c.ref_count → unref_node m c ≡ (write m c.addr dec_ref, []))
      × (c.ref_count ≡ 0 → unref_node m c ≡ (m, []))
unfolding unref_node
unref_node_cases m c =
    (λ r d. ground arith, λ r. ground arith, λ d r. ground arith, λ r. ground arith)

unref-deref :
    (m : Manager) (addr : ℕ) (c : Client)
    → deref m addr ≡ some c
    → unref m addr ≡ some (unref_node m c)
unfolding unref
unref-deref m addr c e = rw (e, unref)

pub deref-addr : (m : Manager) (addr : ℕ) (c : Client) → deref m addr ≡ some c → c.addr ≡ addr
unfolding deref
deref-addr m addr c e = (==_iff c.addr addr).0 (find_in_sound (has_addr addr) (nodes m) e)

unref_last :
    (m : Manager) (addr : ℕ) (c : Client)
    → Inv m
    → deref m addr ≡ some c
    → c.ref_count ≡ 1
    → c.state ≡ disconnected
    → ((unref_node m c).1 ≡ release c) × (length (nodes (unref_node m c).0) + 1 ≡ length (nodes m))
unfolding deref write
unref_last m addr c v e r d =
    let m1 = write m c.addr dec_ref in
    let step : unref_node m c ≡ unlink m1 (dec_ref c) = (unref_node_cases m c).0 r d in
    let (fx, fewer) = unlink_lem m1 (dec_ref c) (write-Inv m c.addr dec_ref (λ x. refl) v) there in
    rw step (fx ∙ unfold release in refl, fewer ∙ length-concat-write c.addr dec_ref m.buckets)
  where
    there : deref (write m c.addr dec_ref) c.addr ≡ some (dec_ref c)
    there =
        deref-write c.addr dec_ref m.buckets c (λ x. refl)
          (subst (λ a. find_in (has_addr a) (nodes m) ≡ some c) (sym (deref-addr m addr c e)) e)

-- In a table with the invariant, giving back the last reference of a client that is marked
-- DISCONNECTED frees exactly that node, with its bufferevent and its filter. Giving back one of
-- several references, or one of a client that is not marked so, frees nothing, and giving one back
-- where there is none does nothing at all.
pub unref-frees :
    (m : Manager) (addr : ℕ) (c : Client)
    → Inv m
    → deref m addr ≡ some c
    → (c.ref_count ≡ 1
        → c.state ≡ disconnected
        → (m' : Manager) × (unref m addr ≡ some (m', release c))
          × (length (nodes m') + 1 ≡ length (nodes m)))
      × (1 < c.ref_count → unref m addr ≡ some (write m addr dec_ref, []))
      × (c.state ≢ disconnected → 0 < c.ref_count → unref m addr ≡ some (write m addr dec_ref, []))
      × (c.ref_count ≡ 0 → unref m addr ≡ some (m, []))
unref-frees m addr c v e =
    let here = unref-deref m addr c e in
    let (last, more, live, spent) = unref_node_cases m c in
    let at : c.addr ≡ addr = deref-addr m addr c e in
    (
      λ r d.
          let (fx, fewer) = unref_last m addr c v e r d in
          ((unref_node m c).0, here ∙ ap (λ t. some ((unref_node m c).0, t)) fx, fewer),
      λ r. here ∙ ap some (more r) ∙ ap (λ a. some (write m a dec_ref, [])) at,
      λ d r. here ∙ ap some (live d r) ∙ ap (λ a. some (write m a dec_ref, [])) at,
      λ r. here ∙ ap some (spent r),
    )
