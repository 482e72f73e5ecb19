-- ===== src/Xkb/Cache.antt =====
-- The cache that build_cache fills (server/src/input/backend/xkb_mapper.c).
use mathlib.Core.Option.{some_inj}
use mouse_hero.Base.{
  ℕ, zero, suc, ◌+◌, ◌-◌, ◌≤◌, ◌<◌, ◌≡◌, ◌⊎◌, inl, inr, refl, ap, ◌∙◌, Bool, true, false, not, ◌&&◌,
  ◌||◌, some, List, [], ◌∷◌, ◌++◌, length, length-append, ltb, ◌==◌, arith, All, Bool-cases,
  Option-cases,
}
use mouse_hero.Xkb.{
  Keymap, CacheEntry, Round, typed, found, cache_mods, entry_of, add_round, add_rounds, rounds_from,
  rounds, build_cache, search, cache_capacity,
}

-- The keycode is one of the keymap's.
abbrev pub InRange : Keymap → ℕ → Type 0
InRange k kc = (k.min_keycode ≤ kc) × (kc ≤ k.max_keycode)

-- Pressing the key of an entry under its modifiers types its codepoint.
pub record Types (k : Keymap) (e : CacheEntry) : Type 0 where
  pub in_range : InRange k (e.evdev_key + 8)
  pub shift : Bool
  pub level3 : Bool
  pub mods : e.mods_mask ≡ cache_mods shift level3
  pub types :
      typed k (record { keycode = e.evdev_key + 8; shift = shift; level3 = level3 })
      ≡ some e.codepoint

-- No two entries have the same codepoint.
abbrev pub IsDistinct : List CacheEntry → Type 0
IsDistinct [] = Unit
IsDistinct (e ∷ es) = (found e.codepoint es ≡ false) × IsDistinct es

pub record IsSound (k : Keymap) (cache : List CacheEntry) : Type 0 where
  pub types : All (Types k) cache
  pub distinct : IsDistinct cache
  pub bounded : length cache ≤ 512

found-append :
    (cp : ℕ) (es : List CacheEntry) (e : CacheEntry)
    → found cp (es ++ e ∷ []) ≡ (found cp es || e.codepoint == cp)
found-append cp [] e = ground arith
found-append cp (x ∷ xs) e = ground (arith, found-append cp xs e)

IsDistinct-append :
    (es : List CacheEntry) (e : CacheEntry)
    → IsDistinct es
    → found e.codepoint es ≡ false
    → IsDistinct (es ++ e ∷ [])
IsDistinct-append [] e d h = (refl, tt)
IsDistinct-append (x ∷ xs) e (fresh, d) h = (
  ground (arith, found-append x.codepoint xs e, fresh, h),
  IsDistinct-append xs e d (ground (arith, h)),
)

All-snoc :
    (k : Keymap) (es : List CacheEntry) (e : CacheEntry)
    → All (Types k) es
    → Types k e
    → All (Types k) (es ++ e ∷ [])
All-snoc k [] e a t = (t, tt)
All-snoc k (x ∷ xs) e a t = (a.0, All-snoc k xs e a.1 t)

entry_of-Types :
    (k : Keymap) (cp : ℕ) (r : Round)
    → InRange k r.keycode
    → typed k r ≡ some cp
    → Types k (entry_of cp r)
entry_of-Types k cp r (low, high) h =
    let same : r.keycode - 8 + 8 ≡ r.keycode = omega (arith, k.min_legal) in
    record {
      in_range = (omega arith, omega arith);
      shift = r.shift;
      level3 = r.level3;
      mods = refl;
      types = ap (λ kc. typed k (record r { keycode = kc })) same ∙ h;
    }

add_round-IsSound :
    (k : Keymap) (r : Round) (cache : List CacheEntry)
    → InRange k r.keycode
    → IsSound k cache
    → IsSound k (add_round k r cache)
unfolding add_round
add_round-IsSound k r cache range s = elim (Option-cases (typed k r)) [
  | inl e ↦ rw (add_round, e) s
  | inr (cp, e) ↦ elim (Bool-cases (not (found cp cache) && ltb (length cache) cache_capacity)) [
    | inr no_room ↦ rw (add_round, e, no_room) s
    | inl adds ↦
        rw (add_round, e, adds)
          (record {
            types = All-snoc k cache (entry_of cp r) s.types (entry_of-Types k cp r range e);
            distinct = IsDistinct-append cache (entry_of cp r) s.distinct (ground (arith, adds));
            bounded =
                let room : length cache < 512 = ground (arith, adds) in
                omega (arith, length-append cache (entry_of cp r ∷ []));
          })
  ]
]

add_rounds-IsSound :
    (k : Keymap) (rs : List Round) (cache : List CacheEntry)
    → All (λ (r : Round). InRange k r.keycode) rs
    → IsSound k cache
    → IsSound k (add_rounds k rs cache)
add_rounds-IsSound k [] cache a s = s
add_rounds-IsSound k (r ∷ rs) cache a s =
    add_rounds-IsSound k rs (add_round k r cache) a.1 (add_round-IsSound k r cache a.0 s)

rounds_from-InRange :
    (k : Keymap) (n kc : ℕ)
    → k.min_keycode ≤ kc
    → (0 < n → kc + n ≤ suc k.max_keycode)
    → All (λ (r : Round). InRange k r.keycode) (rounds_from n kc)
rounds_from-InRange k zero kc low high = tt
rounds_from-InRange k (suc n) kc low high =
    let here : InRange k kc = (low, omega (arith, high (omega arith))) in
    (
      here,
      (
        here,
        (
          here,
          (
            here,
            rounds_from-InRange k n (suc kc) (omega arith) (λ p. omega (arith, high (omega arith))),
          ),
        ),
      ),
    )

-- Each entry of the cache is a key that types its codepoint, no two have the same one, and there are
-- at most 512.
pub build_cache-IsSound : (k : Keymap) → IsSound k (build_cache k)
unfolding build_cache
build_cache-IsSound k =
    add_rounds-IsSound k (rounds k) []
      (rounds_from-InRange k _ k.min_keycode (omega arith) (λ p. omega arith))
      (record { types = tt; distinct = tt; bounded = omega arith })

-- The codepoint is in the cache, or the cache is full.
abbrev pub IsCovered : ℕ → List CacheEntry → Type 0
IsCovered cp cache = (found cp cache ≡ true) ⊎ (512 ≤ length cache)

IsCovered-append :
    (cp : ℕ) (cache : List CacheEntry) (e : CacheEntry)
    → IsCovered cp cache
    → IsCovered cp (cache ++ e ∷ [])
IsCovered-append cp cache e (inl there) = inl (ground (arith, found-append cp cache e, there))
IsCovered-append cp cache e (inr full) = inr (omega (arith, length-append cache (e ∷ [])))

pub add_round-IsCovered :
    (k : Keymap) (r : Round) (cp : ℕ) (cache : List CacheEntry)
    → IsCovered cp cache
    → IsCovered cp (add_round k r cache)
unfolding add_round
add_round-IsCovered k r cp cache h = elim (Option-cases (typed k r)) [
  | inl e ↦ rw (add_round, e) h
  | inr (c, e) ↦ elim (Bool-cases (not (found c cache) && ltb (length cache) cache_capacity)) [
    | inr no_room ↦ rw (add_round, e, no_room) h
    | inl adds ↦ rw (add_round, e, adds) (IsCovered-append cp cache (entry_of c r) h)
  ]
]

pub add_round_covers :
    (k : Keymap) (r : Round) (cp : ℕ) (cache : List CacheEntry)
    → typed k r ≡ some cp
    → IsCovered cp (add_round k r cache)
unfolding add_round
add_round_covers k r cp cache e = elim (Bool-cases (found cp cache)) [
  | inl there ↦ add_round-IsCovered k r cp cache (inl there)
  | inr new ↦ elim (Bool-cases (ltb (length cache) cache_capacity)) [
    | inr full ↦ add_round-IsCovered k r cp cache (inr (ground (arith, full)))
    | inl room ↦
        rw (add_round, e, new, room) (inl (ground (arith, found-append cp cache (entry_of cp r))))
  ]
]

add_rounds-IsCovered :
    (k : Keymap) (rs : List Round) (cp : ℕ) (cache : List CacheEntry)
    → IsCovered cp cache
    → IsCovered cp (add_rounds k rs cache)
add_rounds-IsCovered k [] cp cache h = h
add_rounds-IsCovered k (r ∷ rs) cp cache h =
    add_rounds-IsCovered k rs cp (add_round k r cache) (add_round-IsCovered k r cp cache h)

abbrev Reads : Keymap → List CacheEntry → Round → Type 0
Reads k cache r = (cp : ℕ) → typed k r ≡ some cp → IsCovered cp cache

add_rounds_cover :
    (k : Keymap) (rs : List Round) (cache : List CacheEntry)
    → All (Reads k (add_rounds k rs cache)) rs
add_rounds_cover k [] cache = tt
add_rounds_cover k (r ∷ rs) cache = (
  λ cp e. add_rounds-IsCovered k rs cp (add_round k r cache) (add_round_covers k r cp cache e),
  add_rounds_cover k rs (add_round k r cache),
)

All-rounds_from :
    (P : Round → Type 0) (n kc x : ℕ) (shift level3 : Bool)
    → All P (rounds_from n kc)
    → kc ≤ x
    → x < kc + n
    → P (record { keycode = x; shift = shift; level3 = level3 })
All-rounds_from P zero kc x shift level3 a low high = absurd (omega arith)
All-rounds_from P (suc n) kc x shift level3 (a, (b, (c, (d, later)))) low high =
    elim (Bool-cases (kc == x)) [
      | inl here ↦ let same : kc ≡ x = ground (arith, here) in rw (← same) (pick shift level3)
      | inr there ↦
          All-rounds_from P n (suc kc) x shift level3 later (ground (arith, there)) (omega arith)
    ]
  where
    pick : (s l : Bool) → P (record { keycode = kc; shift = s; level3 = l })
    pick false false = a
    pick true false = b
    pick false true = c
    pick true true = d

pub build_cache_covers :
    (k : Keymap) (kc : ℕ) (shift level3 : Bool) (cp : ℕ)
    → InRange k kc
    → typed k (record { keycode = kc; shift = shift; level3 = level3 }) ≡ some cp
    → IsCovered cp (build_cache k)
unfolding build_cache
build_cache_covers k kc shift level3 cp (low, high) e =
    All-rounds_from (Reads k (build_cache k)) _ k.min_keycode kc shift level3
      (add_rounds_cover k (rounds k) []) low (omega arith) cp e

pub search-found :
    (cp : ℕ) (cache : List CacheEntry)
    → found cp cache ≡ true
    → (r : ℕ × ℕ) × (search cp cache ≡ some r)
search-found cp [] h = cc
search-found cp (e ∷ es) h = elim (Bool-cases (e.codepoint == cp)) [
  | inl here ↦ ((e.evdev_key, e.mods_mask), rw here refl)
  | inr there ↦ let (r, q) = search-found cp es (ground (arith, h, there)) in (r, rw there q)
]

pub search_sound :
    (P : CacheEntry → Type 0) (cp key mods : ℕ) (cache : List CacheEntry)
    → All P cache
    → search cp cache ≡ some (key, mods)
    → P (record { codepoint = cp; evdev_key = key; mods_mask = mods })
search_sound P cp key mods [] a h = cc
search_sound P cp key mods (e ∷ es) a h = elim (Bool-cases (e.codepoint == cp)) [
  | inl here ↦
      let same : e.codepoint ≡ cp = ground (arith, here) in
      let result = some_inj.0 (rw here at h) in
      rw (← same, ← ap (λ r. r.0) result, ← ap (λ r. r.1) result) a.0
  | inr there ↦ search_sound P cp key mods es a.1 (rw there at h)
]
