-- ===== src/Xkb/Characters.antt =====
-- From a codepoint to its key: map_char_to_evdev_linux (server/src/input/keyboard/mapper.c) over the
-- lookup of server/src/input/backend/xkb_mapper.c.
use mouse_hero.Base.{
  ℕ, ◌≤◌, ◌<◌, ◌≡◌, ◌≢◌, ◌⊎◌, inl, inr, refl, sym, ap, ◌∙◌, Bool, true, false, ◌^◌, Option, none,
  some, [], ◌∷◌, length, if◌then◌else◌, arith,
}
use mouse_hero.Input.Clipboard.{ClipboardConfig}
use mouse_hero.Input.Keyboard.{map_char_to_evdev_linux}
use mouse_hero.Input.Utf8.{encode_codepoint_to_utf8, decode-encode}
use mouse_hero.Wire.{Bytes}
use mouse_hero.Xkb.Cache.{
  InRange, Types, build_cache-IsSound, build_cache_covers, search-found, search_sound,
}
use Prim.Native.Nat.{bit_or}
use mouse_hero.Xkb.{
  ModifierName, iso_level3_shift, mod_mask, codepoint_of, Keymap, typed, build_cache, search,
  searched, entries, decode_utf8, Xkb, xkbmap_map_utf8_to_evdev,
}

decode_utf8-encode :
    (c : ℕ) → 0 < c → c < 0x110000 → decode_utf8 (encode_codepoint_to_utf8 c) ≡ some c
unfolding encode_codepoint_to_utf8 decode_utf8
decode_utf8-encode c low high = ground arith

-- g_xkb after a start that returned 0 with memory for the cache
pub record IsLoaded (k : Keymap) (g : Xkb) : Type 0 where
  pub initialized : g.initialized ≡ true
  pub cache : g.cache ≡ some (build_cache k)

looked_up :
    (k : Keymap) (g : Xkb) (c : ℕ)
    → IsLoaded k g
    → 0 < c
    → c < 0x110000
    → xkbmap_map_utf8_to_evdev g (encode_codepoint_to_utf8 c) ≡ search c (build_cache k)
unfolding xkbmap_map_utf8_to_evdev
looked_up k g c l low high =
    ap
      (λ b.
        if b then searched (entries g.cache) (decode_utf8 (encode_codepoint_to_utf8 c)) else none)
      l.initialized
    ∙ ap (λ o. searched (entries o) (decode_utf8 (encode_codepoint_to_utf8 c))) l.cache
    ∙ ap (searched (build_cache k)) (decode_utf8-encode c low high)

-- The modifiers that a key may be pressed with, as a mask of libxkbcommon: those of the keymap that are
-- named Shift and ISO_Level3_Shift, where it has them; `bit_or 0 b` is the mask of the one bit `b`.
pub data IsMask (k : Keymap) : Bool → Bool → ℕ → Type 0 where
  alone : IsMask k false false 0
  shifted :
      (s : ℕ) → k.mod_get_index ModifierName.shift ≡ some s → IsMask k true false (bit_or 0 (2 ^ s))
  third :
      (i : ℕ) → k.mod_get_index iso_level3_shift ≡ some i → IsMask k false true (bit_or 0 (2 ^ i))
  both :
      (s i : ℕ)
      → k.mod_get_index ModifierName.shift ≡ some s
      → k.mod_get_index iso_level3_shift ≡ some i
      → IsMask k true true (bit_or (bit_or 0 (2 ^ s)) (2 ^ i))

IsMask-mod_mask :
    (k : Keymap) (shift level3 : Bool) (mask : ℕ)
    → IsMask k shift level3 mask
    → mod_mask k shift level3 ≡ mask
unfolding mod_mask
IsMask-mod_mask k _ _ _ alone = refl
IsMask-mod_mask k _ _ _ (shifted s e) = rw e refl
IsMask-mod_mask k _ _ _ (third i e) = rw e refl
IsMask-mod_mask k _ _ _ (both s i e f) = rw (e, f) refl

typed-mask :
    (k : Keymap) (kc mask c : ℕ) (shift level3 : Bool)
    → IsMask k shift level3 mask
    → k.key_get_one_sym mask kc ≢ 0
    → k.keysym_to_utf32 (k.key_get_one_sym mask kc) ≡ c
    → 0 < c
    → c < 0x110000
    → typed k (record { keycode = kc; shift = shift; level3 = level3 }) ≡ some c
unfolding typed
typed-mask k kc mask c shift level3 m there gives low high =
    ap (λ n. codepoint_of k (k.key_get_one_sym n kc)) (IsMask-mod_mask k shift level3 mask m)
    ∙ ground (arith, there, gives)

module _ (config : ClipboardConfig) (backup : Option Bytes) where
  nonempty :
      (f : Bytes → Option (ℕ × ℕ)) (s : Bytes)
      → s ≢ []
      → (elim s as (λ _. Option (ℕ × ℕ)) [ [] ↦ none | b ∷ bs ↦ f (b ∷ bs) ]) ≡ f s
  nonempty f [] h = absurd (h refl)
  nonempty f (b ∷ bs) h = refl

  map_char-search :
      (k : Keymap) (g : Xkb) (c : ℕ)
      → IsLoaded k g
      → 0 < c
      → c < 0x110000
      → map_char_to_evdev_linux (xkbmap_map_utf8_to_evdev g) config backup c
        ≡ search c (build_cache k)
  unfolding map_char_to_evdev_linux
  map_char-search k g c l low high =
      nonempty (xkbmap_map_utf8_to_evdev g) (encode_codepoint_to_utf8 c)
        ((decode-encode c low).0 high).1
      ∙ looked_up k g c l low high

  -- Of a codepoint above 0 that Unicode has, on a loaded keymap: the key and the modifiers that
  -- map_char_to_evdev_linux finds are of the keymap, and type exactly that codepoint when the key is
  -- pressed under them.
  pub map_char-Types :
      (k : Keymap) (g : Xkb) (c key mods : ℕ)
      → IsLoaded k g
      → 0 < c
      → c < 0x110000
      → map_char_to_evdev_linux (xkbmap_map_utf8_to_evdev g) config backup c ≡ some (key, mods)
      → Types k (record { codepoint = c; evdev_key = key; mods_mask = mods })
  map_char-Types k g c key mods l low high h =
      search_sound (Types k) c key mods (build_cache k) (build_cache-IsSound k).types
        (sym (map_char-search k g c l low high) ∙ h)

  -- If a key of the loaded keymap gives a keysym of the codepoint, alone or under the modifiers of the keymap
  -- that are named Shift, ISO_Level3_Shift or both, then map_char_to_evdev_linux finds a key for the
  -- codepoint, unless the cache is full. Of the third level of a keymap that has no modifier of the name
  -- ISO_Level3_Shift, such as the usual ones, nothing is claimed.
  pub map_char_found :
      (k : Keymap) (g : Xkb) (c kc mask : ℕ) (shift level3 : Bool)
      → IsLoaded k g
      → 0 < c
      → c < 0x110000
      → InRange k kc
      → IsMask k shift level3 mask
      → k.key_get_one_sym mask kc ≢ 0
      → k.keysym_to_utf32 (k.key_get_one_sym mask kc) ≡ c
      → ((r : ℕ × ℕ) × (map_char_to_evdev_linux (xkbmap_map_utf8_to_evdev g) config backup c
            ≡ some r))
        ⊎ (512 ≤ length (build_cache k))
  map_char_found k g c kc mask shift level3 l low high range m sym_there gives =
      elim (build_cache_covers k kc shift level3 c range
        (typed-mask k kc mask c shift level3 m sym_there gives low high)) [
          | inl there ↦
              let (r, q) = search-found c (build_cache k) there in
              inl (r, map_char-search k g c l low high ∙ q)
          | inr full ↦ inr full
        ]
