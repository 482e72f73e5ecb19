-- ===== src/Clients/Buckets.antt =====
-- Lemmas on the chains of server/src/ya_client_manager.c.
use mouse_hero.Base.{
  ℕ, zero, suc, ◌+◌, ◌<◌, ◌≡◌, refl, ap, inl, inr, Option, none, some, List, [], ◌∷◌, map, arith,
  length, get_or, set, concat, length-append, Bool-cases,
}
use mouse_hero.Clients.{Client, hash_uid, find_in, has_addr, write_in, unlink_in, remove_in}

-- The clients of chain `i` hash to `i`, and none has the UID 0.
abbrev pub InBucket : ℕ → List Client → Type 0
InBucket i [] = Unit {0}
InBucket i (c ∷ cs) = (hash_uid c.uid ≡ i) × (0 < c.uid) × InBucket i cs

-- The chains are those of the indices from `i` on.
abbrev pub Placed : ℕ → List (List Client) → Type 0
Placed i [] = Unit {0}
Placed i (b ∷ bs) = InBucket i b × Placed (suc i) bs

pub Placed-get_or :
    (k i : ℕ) (bs : List (List Client)) → Placed k bs → InBucket (k + i) (get_or bs i [])
Placed-get_or k i [] p = tt
Placed-get_or k zero (b ∷ bs) p = rw add_zero p.0
  where
    add_zero : k + 0 ≡ k
    add_zero = omega arith
Placed-get_or k (suc i) (b ∷ bs) p = rw shift (Placed-get_or (suc k) i bs p.1)
  where
    shift : k + suc i ≡ suc k + i
    shift = omega arith

pub Placed-set :
    (k i : ℕ) (b : List Client) (bs : List (List Client))
    → Placed k bs
    → InBucket (k + i) b
    → Placed k (set bs i b)
Placed-set k i b [] p q = tt
Placed-set k zero b (x ∷ bs) p q = (rw add_zero at q, p.1)
  where
    add_zero : k + 0 ≡ k
    add_zero = omega arith
Placed-set k (suc i) b (x ∷ bs) p q = (p.0, Placed-set (suc k) i b bs p.1 (rw shift at q))
  where
    shift : k + suc i ≡ suc k + i
    shift = omega arith

pub length-concat-set :
    (i : ℕ) (b : List Client) (bs : List (List Client))
    → i < length bs
    → length (concat (set bs i b)) + length (get_or bs i []) ≡ length (concat bs) + length b
length-concat-set i b [] h = elim h [ ]
length-concat-set zero b (x ∷ bs) h =
    omega (arith, length-append b (concat bs), length-append x (concat bs))
length-concat-set (suc i) b (x ∷ bs) h = omega (
  arith,
  length-append x (concat (set bs i b)),
  length-append x (concat bs),
  length-concat-set i b bs,
)

-- A write that keeps the UID moves no node.
module _ (addr : ℕ) (f : Client → Client) (keeps : (c : Client) → (f c).uid ≡ c.uid) where
  pub InBucket-write : (i : ℕ) (cs : List Client) → InBucket i cs → InBucket i (write_in addr f cs)
  InBucket-write i [] p = tt
  InBucket-write i (c ∷ cs) p = elim (Bool-cases (has_addr addr c)) [
    | inl e ↦ rw e (rw (keeps c) (p.0, p.1, InBucket-write i cs p.2))
    | inr e ↦ rw e (p.0, p.1, InBucket-write i cs p.2)
  ]

  pub Placed-write :
      (i : ℕ) (bs : List (List Client)) → Placed i bs → Placed i (map (write_in addr f) bs)
  Placed-write i [] p = tt
  Placed-write i (b ∷ bs) p = (InBucket-write i b p.0, Placed-write (suc i) bs p.1)

pub length-write_in :
    (addr : ℕ) (f : Client → Client) (cs : List Client) → length (write_in addr f cs) ≡ length cs
length-write_in addr f [] = refl
length-write_in addr f (c ∷ cs) = ap suc (length-write_in addr f cs)

pub length-concat-write :
    (addr : ℕ) (f : Client → Client) (bs : List (List Client))
    → length (concat (map (write_in addr f) bs)) ≡ length (concat bs)
length-concat-write addr f [] = refl
length-concat-write addr f (b ∷ bs) = omega (
  arith,
  length-append (write_in addr f b) (concat (map (write_in addr f) bs)),
  length-append b (concat bs),
  length-write_in addr f b,
  length-concat-write addr f bs,
)

pub InBucket-unlink :
    (addr i : ℕ) (cs : List Client) → InBucket i cs → InBucket i (unlink_in addr cs)
unfolding unlink_in
InBucket-unlink addr i [] p = tt
InBucket-unlink addr i (c ∷ cs) p = ground (arith, InBucket-unlink addr i cs p.2)

pub length-unlink_in :
    (addr : ℕ) (cs : List Client) {c : Client}
    → find_in (has_addr addr) cs ≡ some c
    → length cs ≡ suc (length (unlink_in addr cs))
unfolding find_in unlink_in
length-unlink_in addr [] h = cc
length-unlink_in addr (x ∷ cs) {c} h =
    ground (arith, λ (e : find_in (has_addr addr) cs ≡ some c). length-unlink_in addr cs e)

pub InBucket-remove :
    (uid i : ℕ) (cs : List Client) → InBucket i cs → InBucket i (remove_in uid cs).0
unfolding remove_in
InBucket-remove uid i [] p = tt
InBucket-remove uid i (c ∷ cs) p = ground (arith, InBucket-remove uid i cs p.2)

-- How many nodes a walk of ya_client_remove has freed.
abbrev pub freed_nodes : Option Client → ℕ
freed_nodes none = 0
freed_nodes (some c) = 1

pub length-remove_in :
    (uid : ℕ) (cs : List Client)
    → length (remove_in uid cs).0 + freed_nodes (remove_in uid cs).1 ≡ length cs
unfolding remove_in
length-remove_in uid [] = refl
length-remove_in uid (c ∷ cs) = ground (arith, length-remove_in uid cs)
