-- ===== src/Clients/Invariant.antt =====
-- The invariant of the client table (server/src/ya_client_manager.c), and the steps that the table
-- takes.
use mouse_hero.Base.{
  ℕ, zero, suc, ◌+◌, ◌%◌, ◌<◌, ◌≡◌, refl, ap, subst, ◌∙◌, inl, inr, Option, none, some, List, [],
  ◌∷◌, map, arith, ◌==◌, length, set, concat, replicate, length-set, Bool-cases, Option-cases,
}
use mouse_hero.Base.Int.{ℤ, is_negative}
use mouse_hero.Clients.{
  Client, Manager, Free, hash_uid, hash_size, u32_mod, bucket, nodes, init, cleanup, create, insert,
  new_client, skip_zero, find_in, has_addr, deref, write, write_in, ref, unlink, unlink_in,
  unref_node, unref, remove, remove_in, pred_u32, after_remove, dec_ref,
}
use mouse_hero.Clients.Buckets.{
  InBucket, Placed, Placed-get_or, Placed-set, length-concat-set, Placed-write, length-concat-write,
  InBucket-unlink, length-unlink_in, InBucket-remove, length-remove_in, freed_nodes,
}

pub record Inv (m : Manager) : Type 0 where
  pub sized : length m.buckets ≡ hash_size
  pub placed : Placed 0 m.buckets
  pub counted : m.client_count ≡ length (nodes m) % u32_mod
  pub next_pos : 0 < m.next_uid
  pub next_fits : m.next_uid < u32_mod

Placed-empty : (k n : ℕ) → Placed k (replicate n [])
Placed-empty k zero = tt
Placed-empty k (suc n) = (tt, Placed-empty (suc k) n)

concat-empty : (n : ℕ) → concat {A = Client} (replicate n []) ≡ []
concat-empty zero = refl
concat-empty (suc n) = concat-empty n

pub init-Inv : Inv init
unfolding init
init-Inv = record {
  sized = refl;
  placed = Placed-empty 0 hash_size;
  counted = refl;
  next_pos = omega arith;
  next_fits = omega arith;
}

map-empty :
    (bs : List (List Client)) → map {B = List Client} (λ b. []) bs ≡ replicate (length bs) []
map-empty [] = refl
map-empty (b ∷ bs) = ap (λ t. [] ∷ t) (map-empty bs)

-- Cleaning up takes the table back to what `init` makes.
pub cleanup-init : {m : Manager} → Inv m → (cleanup m).0 ≡ init
unfolding cleanup init
cleanup-init {m} v =
    ground (arith, map-empty m.buckets, ap (λ n. replicate {A = List Client} n []) v.sized)

hash-lt : (uid : ℕ) → hash_uid uid < hash_size
hash-lt uid = omega arith

-- A chain may be replaced by another of its own hash, if the count follows.
pub set-Inv :
    (m : Manager) (i : ℕ) (b : List Client) (count next : ℕ)
    → Inv m
    → i < hash_size
    → InBucket i b
    → (count + length (bucket m i)) % u32_mod ≡ (m.client_count + length b) % u32_mod
    → count < u32_mod
    → 0 < next
    → next < u32_mod
    → Inv (record { buckets = set m.buckets i b; client_count = count; next_uid = next })
set-Inv m i b count next v lt inb e fits np nf = record {
  sized = length-set m.buckets i b ∙ v.sized;
  placed = Placed-set 0 i b m.buckets v.placed (rw zero-add inb);
  counted = omega (arith, length-concat-set i b m.buckets (omega (arith, v.sized)), v.counted);
  next_pos = np;
  next_fits = nf;
}
  where
    zero-add : 0 + i ≡ i
    zero-add = omega arith

bucket-InBucket : (m : Manager) (i : ℕ) → Inv m → InBucket i (bucket m i)
bucket-InBucket m i v = rw zero-add at (Placed-get_or 0 i m.buckets v.placed)
  where
    zero-add : 0 + i ≡ i
    zero-add = omega arith

pub insert-Inv : (m : Manager) (c : Client) → Inv m → 0 < c.uid → c.uid < u32_mod → Inv (insert m c)
insert-Inv m c v p q =
    set-Inv m (hash_uid c.uid) (c ∷ bucket m (hash_uid c.uid)) ((m.client_count + 1) % u32_mod)
      (skip_zero ((c.uid + 1) % u32_mod)) v (hash-lt c.uid)
      (refl, p, bucket-InBucket m (hash_uid c.uid) v) (omega arith) (omega arith) (ground arith)
      (ground arith)

pub write-Inv :
    (m : Manager) (addr : ℕ) (f : Client → Client)
    → ((c : Client) → (f c).uid ≡ c.uid)
    → Inv m
    → Inv (write m addr f)
unfolding write
write-Inv m addr f keeps v = record {
  sized = length-map m.buckets ∙ v.sized;
  placed = Placed-write addr f keeps 0 m.buckets v.placed;
  counted = rw (length-concat-write addr f m.buckets) v.counted;
  next_pos = v.next_pos;
  next_fits = v.next_fits;
}
  where
    length-map : (bs : List (List Client)) → length (map (write_in addr f) bs) ≡ length bs
    length-map [] = refl
    length-map (b ∷ bs) = ap suc (length-map bs)

pub create-Inv :
    (m : Manager) (alloc filter : Option ℕ) (now : ℕ) (fd : ℤ) (bev : Option ℕ)
    → Inv m
    → Inv (create m alloc filter now fd bev).0
unfolding create
create-Inv m alloc filter now fd none v = v
create-Inv m none filter now fd (some bev) v = v
create-Inv m (some addr) filter now fd (some bev) v = elim (Bool-cases (is_negative fd)) [
  | inl e ↦ rw e v
  | inr e ↦ rw e (
      insert-Inv m (new_client (skip_zero m.next_uid) addr filter now fd bev) v (ground arith)
        (ground arith))
]

unlink-Inv : (m : Manager) (c : Client) → Inv m → Inv (unlink m c).0
unfolding unlink
unlink-Inv m c v = elim (Option-cases (find_in (has_addr c.addr) (bucket m (hash_uid c.uid)))) [
  | inl e ↦ rw (e, unlink) v
  | inr (d, e) ↦
      rw (e, unlink)
        (set-Inv m (hash_uid c.uid) (unlink_in c.addr (bucket m (hash_uid c.uid)))
          (pred_u32 m.client_count) m.next_uid v (hash-lt c.uid)
          (InBucket-unlink c.addr _ _ (bucket-InBucket m (hash_uid c.uid) v))
          (omega (arith, length-unlink_in c.addr (bucket m (hash_uid c.uid)) e)) (omega arith)
          v.next_pos v.next_fits)
]

unref_node-Inv : (m : Manager) (c : Client) → Inv m → Inv (unref_node m c).0
unfolding unref_node
unref_node-Inv m c v =
    let w = write-Inv m c.addr dec_ref (λ x. refl) v in
    ground (arith, w, unlink-Inv (write m c.addr dec_ref) (dec_ref c) w)

pub unref-Inv :
    (m : Manager) (addr : ℕ) {m' : Manager} {fx : List Free}
    → Inv m
    → unref m addr ≡ some (m', fx)
    → Inv m'
unfolding unref
unref-Inv m addr v e = elim (Option-cases (deref m addr)) [
  | inl none_there ↦ absurd (ground arith)
  | inr (c, there) ↦ ground (arith, unref_node-Inv m c v)
]

pub remove-Inv : (m : Manager) (uid : ℕ) → Inv m → Inv (remove m uid).0
unfolding remove
remove-Inv m uid v = elim (Bool-cases (uid == 0)) [
  | inl e ↦ rw e v
  | inr e ↦ rw e (removed (remove_in uid (bucket m h)) refl)
]
  where
    h : ℕ
    h = hash_uid uid

    removed :
        (r : List Client × Option Client)
        → remove_in uid (bucket m h) ≡ r
        → Inv (after_remove m h r).0
    removed (b, none) e =
        set-Inv m h b m.client_count m.next_uid v (hash-lt uid)
          (subst (λ (r : List Client × Option Client). InBucket h r.0) e
            (InBucket-remove uid h _ (bucket-InBucket m h v)))
          (omega (
            arith,
            length-remove_in uid (bucket m h),
            ap (λ (r : List Client × Option Client). length r.0 + freed_nodes r.1) e,
          ))
          (omega (arith, v.counted)) v.next_pos v.next_fits
    removed (b, some c) e =
        set-Inv m h b (pred_u32 m.client_count) m.next_uid v (hash-lt uid)
          (subst (λ (r : List Client × Option Client). InBucket h r.0) e
            (InBucket-remove uid h _ (bucket-InBucket m h v)))
          (omega (
            arith,
            length-remove_in uid (bucket m h),
            ap (λ (r : List Client × Option Client). length r.0 + freed_nodes r.1) e,
          ))
          (omega arith) v.next_pos v.next_fits

-- What the server does with its table: the manager's operations, and the writes that its callers
-- make through the pointers that they hold, none of which touches a UID. `unref` steps only where
-- its pointer points to a node.
pub data Step (m : Manager) : Manager → Type 0 where
  creates :
      (alloc filter : Option ℕ) (now : ℕ) (fd : ℤ) (bev : Option ℕ)
      → Step m (create m alloc filter now fd bev).0
  removes : (uid : ℕ) → Step m (remove m uid).0
  refs : (addr : ℕ) → Step m (ref m addr)
  unrefs : (addr : ℕ) {m' : Manager} (fx : List Free) → unref m addr ≡ some (m', fx) → Step m m'
  writes :
      (addr : ℕ) (f : Client → Client)
      → ((c : Client) → (f c).uid ≡ c.uid)
      → Step m (write m addr f)
  cleans : Step m (cleanup m).0

pub data Reach : Manager → Type 0 where
  start : Reach init
  next : {m m' : Manager} → Reach m → Step m m' → Reach m'

pub Step-Inv : {m m' : Manager} → Step m m' → Inv m → Inv m'
Step-Inv {m} (creates alloc filter now fd bev) v = create-Inv m alloc filter now fd bev v
Step-Inv {m} (removes uid) v = remove-Inv m uid v
Step-Inv {m} (refs addr) v = unfold ref in write-Inv m addr _ (λ c. refl) v
Step-Inv {m} (unrefs addr fx e) v = unref-Inv m addr v e
Step-Inv {m} (writes addr f keeps) v = write-Inv m addr f keeps v
Step-Inv {m} cleans v = rw (cleanup-init v) init-Inv

-- Every table that the server reaches by the manager's operations and by writes that leave the
-- UIDs alone has the invariant: 251 chains, every node in the chain that its UID hashes to and
-- with a UID other than 0, `client_count` the number of nodes modulo 2^32, and `next_uid` a valid
-- UID.
pub Reach-Inv : {m : Manager} → Reach m → Inv m
Reach-Inv start = init-Inv
Reach-Inv (next r s) = Step-Inv s (Reach-Inv r)
