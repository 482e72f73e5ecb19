-- ===== src/Config/Lookup.antt =====
-- The configuration as a map from sections and keys to values.
use mouse_hero.Base.{
  ℕ, ◌+◌, ◌*◌, ◌≤◌, ◌<◌, ◌≡◌, ◌⊎◌, ◌&&◌, refl, ap, ◌∙◌, Bool, true, false, inl, inr, none, some,
  List, [], ◌∷◌, ◌++◌, length, length-append, take_all, if◌then◌else◌, arith, Bool-cases,
  Option-cases, All, equal, equal_eq,
}
use mouse_hero.Base.Int.{ℤ, pos, negsuc}
use mouse_hero.Config.Bounds.{Fits, IsValid, sets, step-IsValid}
use mouse_hero.Config.{
  Entry, Config, reserve, add_entry, bounded_entry, find, matches, update, safe_strncpy,
  ya_config_get, ya_config_set, set_present,
}
use mouse_hero.Wire.{Bytes}

abbrev pub same : Bytes → Bytes → Bytes → Bytes → Bool
same section key s k = equal section s && equal key k

matches_eq :
    (section key : Bytes) (e : Entry)
    → matches section key e ≡ true
    → (e.section ≡ section) × (e.key ≡ key)
matches_eq section key e h =
    (equal_eq e.section section (ground (arith, h)), equal_eq e.key key (ground (arith, h)))

matches-same :
    (section key s k : Bytes) (e : Entry)
    → matches section key e ≡ true
    → matches s k e ≡ same section key s k
matches-same section key s k e h = let (p, q) = matches_eq section key e h in rw (p, q) refl

same-matches :
    (section key s k : Bytes) (e : Entry)
    → same section key s k ≡ true
    → matches s k e ≡ matches section key e
same-matches section key s k e h =
    let p : section ≡ s = equal_eq section s (ground (arith, h)) in
    let q : key ≡ k = equal_eq key k (ground (arith, h)) in rw (p, q) refl

find-update :
    (section key value s k : Bytes) (es : List Entry) (old : Bytes)
    → find section key es ≡ some old
    → find s k (update section key value es)
      ≡ (if same section key s k then some (safe_strncpy value 256) else find s k es)
find-update section key value s k [] old h = cc
find-update section key value s k (e ∷ es) old h = elim (Bool-cases (matches section key e)) [
  | inl here ↦ rw here (ground (arith, matches-same section key s k e here))
  | inr there ↦ rw there (
      ground (
        arith,
        same-matches section key s k e,
        find-update section key value s k es old (rw there at h),
      ))
]

find-append :
    (s k : Bytes) (es : List Entry) (e : Entry)
    → find s k es ≡ none
    → find s k (es ++ e ∷ []) ≡ (if matches s k e then some e.value else none)
find-append s k [] e h = refl
find-append s k (x ∷ xs) e h = ground (arith, find-append s k xs e)

find-append_some :
    (s k v : Bytes) (es : List Entry) (e : Entry)
    → find s k es ≡ some v
    → find s k (es ++ e ∷ []) ≡ some v
find-append_some s k v [] e h = cc
find-append_some s k v (x ∷ xs) e h = ground (arith, find-append_some s k v xs e)

find-added :
    (section key value s k : Bytes) (es : List Entry)
    → length section < 64
    → length key < 64
    → find section key es ≡ none
    → find s k (es ++ bounded_entry section key value ∷ [])
      ≡ (if same section key s k then some (safe_strncpy value 256) else find s k es)
unfolding safe_strncpy
find-added section key value s k es hs hk h = elim (Option-cases (find s k es)) [
  | inl absent ↦
      find-append s k es (bounded_entry section key value) absent
      ∙ rw (take_all 63 section (omega arith), take_all 63 key (omega arith), absent) refl
  | inr (v, e) ↦ elim (Bool-cases (same section key s k)) [
    | inl here ↦
        let p : section ≡ s = equal_eq section s (ground (arith, here)) in
        let q : key ≡ k = equal_eq key k (ground (arith, here)) in
        let absent : find s k es ≡ none = rw (p, q) at h in cc
    | inr there ↦ rw (there, e) (find-append_some s k v es (bounded_entry section key value) e)
  ]
]

-- Memory for one more entry is wanted, and there is none.
pub record IsOutOfMemory (realloc : ℕ → Bool) (c : Config) : Type 0 where
  pub full : c.capacity ≤ length c.entries
  pub refused : realloc (c.capacity * 2 + 8) ≡ false

reserve-none :
    (realloc : ℕ → Bool) (c : Config) → reserve realloc c ≡ none → IsOutOfMemory realloc c
unfolding reserve
reserve-none realloc c h = ground (arith, h)

reserve-some :
    (realloc : ℕ → Bool) (c d : Config) → reserve realloc c ≡ some d → d.entries ≡ c.entries
unfolding reserve
reserve-some realloc c d h = ground (arith, h)

-- The new value where both texts are those that were set, and else the old one.
abbrev pub Sets : Bytes → Bytes → Bytes → Config → Config → Type 0
Sets section key value c c' =
    (s k : Bytes)
    → ya_config_get c' (some s) (some k) ≡ (
        if same section key s k
        then some (safe_strncpy value 256)
        else ya_config_get c (some s) (some k))

-- The pair was absent and the array is full, and nothing has changed.
abbrev pub IsRefused : (ℕ → Bool) → Bytes → Bytes → Config → ℤ × Config → Type 0
IsRefused realloc section key c r =
    (r ≡ (negsuc 1, c))
    × (ya_config_get c (some section) (some key) ≡ none)
    × IsOutOfMemory realloc c

set-get_absent :
    (realloc : ℕ → Bool) (c : Config) (section key value : Bytes)
    → length section < 64
    → length key < 64
    → find section key c.entries ≡ none
    → let r = ya_config_set realloc c (some section) (some key) (some value) in
      ((r.0 ≡ pos 0) × Sets section key value c r.1) ⊎ IsRefused realloc section key c r
unfolding ya_config_set ya_config_get add_entry
set-get_absent realloc c section key value hs hk e = elim (Option-cases (reserve realloc c)) [
  | inl full ↦ rw (set_present, e, add_entry, full) (inr (refl, refl, reserve-none realloc c full))
  | inr (d, there) ↦
      let kept = reserve-some realloc c d there in
      rw (set_present, e, add_entry, there)
        (inl (refl, λ s k. rw kept (find-added section key value s k c.entries hs hk e)))
]

-- ya_config_set with a section and a key that fit in their arrays either returns 0, and then
-- ya_config_get finds the value, cut to 255 bytes, under that section and key and what it found before
-- under all others; or it returns -2, and then the pair was absent, the array full and no memory there,
-- and the configuration is as before.
pub get-set :
    (realloc : ℕ → Bool) (c : Config) (section key value : Bytes)
    → length section < 64
    → length key < 64
    → let r = ya_config_set realloc c (some section) (some key) (some value) in
      ((r.0 ≡ pos 0) × Sets section key value c r.1) ⊎ IsRefused realloc section key c r
unfolding ya_config_set ya_config_get
get-set realloc c section key value hs hk = elim (Option-cases (find section key c.entries)) [
  | inl e ↦ set-get_absent realloc c section key value hs hk e
  | inr (old, e) ↦
      rw (set_present, e) (inl (refl, λ s k. find-update section key value s k c.entries old e))
]

find_long : (s k : Bytes) (es : List Entry) → All Fits es → 64 ≤ length k → find s k es ≡ none
find_long s k [] a h = refl
find_long s k (e ∷ es) a h = elim (Bool-cases (matches s k e)) [
  | inl found ↦ let (p, q) = matches_eq s k e found in absurd (omega (arith, ap length q, a.0.key))
  | inr other ↦ rw other (find_long s k es a.1 h)
]

set_absent_grows :
    (realloc : ℕ → Bool) (c : Config) (section key value : Bytes)
    → find section key c.entries ≡ none
    → let r = set_present realloc c section key value in
      (r ≡ (negsuc 1, c)) ⊎ ((r.0 ≡ pos 0) × (length r.1.entries ≡ length c.entries + 1))
unfolding add_entry
set_absent_grows realloc c section key value e = elim (Option-cases (reserve realloc c)) [
  | inl full ↦ rw (set_present, e, add_entry, full) (inl refl)
  | inr (d, there) ↦
      let new = bounded_entry section key value in
      rw (set_present, e, add_entry, there)
        (inr (
          refl,
          omega (
            arith,
            length-append d.entries (new ∷ []),
            ap length (reserve-some realloc c d there),
          ),
        ))
]

-- In a configuration whose texts fit in their arrays, as they do after every call, a key of 64 bytes
-- or more is never found, and ya_config_set of it either returns -2 and changes nothing, or returns 0,
-- puts one more entry at the end, and leaves the key as absent as it was.
pub set_long_key :
    (realloc : ℕ → Bool) (c : Config) (section key value : Bytes)
    → IsValid c
    → 64 ≤ length key
    → let r = ya_config_set realloc c (some section) (some key) (some value) in
      (ya_config_get c (some section) (some key) ≡ none)
      × (ya_config_get r.1 (some section) (some key) ≡ none)
      × ((r ≡ (negsuc 1, c)) ⊎ ((r.0 ≡ pos 0) × (length r.1.entries ≡ length c.entries + 1)))
unfolding ya_config_get ya_config_set
set_long_key realloc c section key value v h =
    let absent = find_long section key c.entries v.entries h in
    let v' = step-IsValid (sets realloc (some section) (some key) (some value)) c v in
    (
      absent,
      find_long section key _ v'.entries h,
      set_absent_grows realloc c section key value absent,
    )
