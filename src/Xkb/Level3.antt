-- ===== src/Xkb/Level3.antt =====
-- The third level of a keymap whose modifiers have neither of the names that build_cache asks for
-- (server/src/input/backend/xkb_mapper.c).
use mouse_hero.Base.{
  ℕ, zero, suc, ◌-◌, ◌<◌, ◌≡◌, inl, inr, refl, sym, ap, ◌∙◌, Bool, true, false, not, ◌&&◌, none,
  some, List, [], ◌∷◌, ◌++◌, length, ltb, arith, All, Bool-cases, Option-cases,
}
use mouse_hero.Xkb.Cache.{IsCovered, add_round-IsCovered, add_round_covers}
use mouse_hero.Xkb.{
  Keymap, iso_level3_shift, mode_switch, CacheEntry, Round, mod_mask, codepoint_of, typed, found,
  entry_of, add_round, add_rounds, combinations, rounds_from, build_cache, cache_capacity,
}

module _ (k : Keymap) where
  add_round_covered :
      (r : Round) (cache : List CacheEntry)
      → ((cp : ℕ) → typed k r ≡ some cp → IsCovered cp cache)
      → add_round k r cache ≡ cache
  unfolding add_round
  add_round_covered r cache h = elim (Option-cases (typed k r)) [
    | inl e ↦ rw (add_round, e) refl
    | inr (cp, e) ↦ elim (h cp e) [
      | inl there ↦ rw (add_round, e, there) refl
      | inr full ↦
          let no_room : ltb (length cache) cache_capacity ≡ false = ground arith in
          elim (Bool-cases (found cp cache)) [
            | inl there ↦ rw (add_round, e, there) refl
            | inr new ↦ rw (add_round, e, new, no_room) refl
          ]
    ]
  ]

  abbrev IsLow : CacheEntry → Type 0
  IsLow e = e.mods_mask < 2

  All-snoc :
      (es : List CacheEntry) (e : CacheEntry) → All IsLow es → IsLow e → All IsLow (es ++ e ∷ [])
  All-snoc [] e a h = (h, tt)
  All-snoc (x ∷ xs) e a h = (a.0, All-snoc xs e a.1 h)

  add_round-IsLow :
      (r : Round) (cache : List CacheEntry)
      → r.level3 ≡ false
      → All IsLow cache
      → All IsLow (add_round k r cache)
  unfolding add_round
  add_round-IsLow r cache low a = elim (Option-cases (typed k r)) [
    | inl e ↦ rw (add_round, e) a
    | inr (cp, e) ↦ elim (Bool-cases (not (found cp cache) && ltb (length cache) cache_capacity)) [
      | inr no_room ↦ rw (add_round, e, no_room) a
      | inl adds ↦ rw (add_round, e, adds) (All-snoc cache (entry_of cp r) a (ground arith))
    ]
  ]

  module _ (no_iso : k.mod_get_index iso_level3_shift ≡ none)
      (no_mode : k.mod_get_index mode_switch ≡ none) where
    mod_mask_same : (s : Bool) → mod_mask k s true ≡ mod_mask k s false
    unfolding mod_mask
    mod_mask_same s = rw (no_iso, no_mode) refl

    typed_same :
        (kc : ℕ) (s : Bool)
        → typed k (record { keycode = kc; shift = s; level3 = true })
          ≡ typed k (record { keycode = kc; shift = s; level3 = false })
    unfolding typed
    typed_same kc s = ap (λ m. codepoint_of k (k.key_get_one_sym m kc)) (mod_mask_same s)

    keycode-IsLow :
        (kc : ℕ) (rs : List Round) (cache : List CacheEntry)
        → All IsLow cache
        → ((c : List CacheEntry) → All IsLow c → All IsLow (add_rounds k rs c))
        → All IsLow (add_rounds k (combinations kc rs) cache)
    keycode-IsLow kc rs cache a later =
        let plain : Round = record { keycode = kc; shift = false; level3 = false } in
        let shifted : Round = record { keycode = kc; shift = true; level3 = false } in
        let both : Round = record { keycode = kc; shift = true; level3 = true } in
        let c1 = add_round k plain cache in
        let c2 = add_round k shifted c1 in
        let e3 =
          add_round_covered (record { keycode = kc; shift = false; level3 = true }) c2
            (λ cp t.
              add_round-IsCovered k shifted cp c1
                (add_round_covers k plain cp cache (sym (typed_same kc false) ∙ t))) in
        let e4 =
          add_round_covered both c2
            (λ cp t. add_round_covers k shifted cp c1 (sym (typed_same kc true) ∙ t)) in
        let e : add_rounds k (combinations kc rs) cache ≡ add_rounds k rs c2 =
          ap (add_rounds k rs) (ap (add_round k both) e3 ∙ e4) in
        rw e (later c2 (add_round-IsLow shifted c1 refl (add_round-IsLow plain cache refl a)))

    rounds-IsLow :
        (n kc : ℕ) (cache : List CacheEntry)
        → All IsLow cache
        → All IsLow (add_rounds k (rounds_from n kc) cache)
    rounds-IsLow zero kc cache a = a
    rounds-IsLow (suc n) kc cache a =
        keycode-IsLow kc (rounds_from n (suc kc)) cache a (rounds-IsLow n (suc kc))

    -- Where the keymap has no modifier named ISO_Level3_Shift and none named Mode_switch, no entry of the
    -- cache asks for Level3.
    pub build_cache_low : All (λ (e : CacheEntry). e.mods_mask < 2) (build_cache k)
    unfolding build_cache
    build_cache_low = rounds-IsLow (suc k.max_keycode - k.min_keycode) k.min_keycode [] tt
