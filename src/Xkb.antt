-- ===== src/Xkb.antt =====
-- The map from characters to keys (server/src/input/backend/xkb_mapper.c with HAVE_LIBXKBCOMMON, on
-- Linux). libxkbcommon is an interface: a keymap answers the queries that the source makes. Getting a
-- context, a keymap, a state and the cache's memory may each fail. Reference counts are left out: each
-- object is held or not.
pub mod Cache
pub mod Characters
pub mod Level3
pub mod Lifetime
use Prim.Native.Nat.{bit_or}
use mouse_hero.Base.{
  ℕ, zero, suc, ◌+◌, ◌-◌, ◌*◌, ◌/◌, ◌%◌, ◌^◌, ◌≤◌, Bool, true, false, not, ◌&&◌, ◌||◌, Option, none,
  some, List, [], ◌∷◌, ◌++◌, length, get_or, ltb, leb, ◌==◌, if◌then◌else◌,
}
use mouse_hero.Base.Int.{ℤ, pos, negsuc, eq_ℤ}
use mouse_hero.Wire.{Bytes}

-- The names that are looked up.
pub data ModifierName : Type 0 where
  shift iso_level3_shift mode_switch : ModifierName

-- struct xkb_keymap with a state of it. `mod_get_index` is `none` for XKB_MOD_INVALID, keysym 0 is
-- XKB_KEY_NoSymbol. The keycodes of XKB start at 8.
pub record Keymap : Type 0 where
  pub min_keycode : ℕ
  pub max_keycode : ℕ
  pub mod_get_index : ModifierName → Option ℕ
  pub key_get_one_sym : ℕ → ℕ → ℕ
  pub keysym_to_utf32 : ℕ → ℕ
  pub min_legal : 8 ≤ min_keycode

-- xkb_cache_entry_t
pub record CacheEntry : Type 0 where
  pub codepoint : ℕ
  pub evdev_key : ℕ
  pub mods_mask : ℕ

abbrev pub cache_capacity : ℕ
cache_capacity = 512

-- One round of the two loops: a keycode, and whether Shift and Level3 are down.
pub record Round : Type 0 where
  pub keycode : ℕ
  pub shift : Bool
  pub level3 : Bool

abbrev pub or_else : Option ℕ → Option ℕ → Option ℕ
or_else none b = b
or_else (some a) b = some a

abbrev pub with_bit : Bool → Option ℕ → ℕ → ℕ
with_bit false index mask = mask
with_bit true none mask = mask
with_bit true (some index) mask = bit_or mask (2 ^ index)

abbrev pub found : ℕ → List CacheEntry → Bool
found cp [] = false
found cp (e ∷ es) = e.codepoint == cp || found cp es

abbrev pub cache_mods : Bool → Bool → ℕ
cache_mods with_shift with_level3 = (if with_shift then 1 else 0) + (if with_level3 then 2 else 0)

abbrev pub entry_of : ℕ → Round → CacheEntry
entry_of cp r = record {
  codepoint = cp;
  evdev_key = r.keycode - 8;
  mods_mask = cache_mods r.shift r.level3;
}

-- The modifier combinations of a keycode: none, Shift, Level3 and both.
abbrev pub combinations : ℕ → List Round → List Round
combinations kc later =
    record { keycode = kc; shift = false; level3 = false }
    ∷ record { keycode = kc; shift = true; level3 = false }
    ∷ record { keycode = kc; shift = false; level3 = true }
    ∷ record { keycode = kc; shift = true; level3 = true }
    ∷ later

abbrev pub rounds_from : ℕ → ℕ → List Round
rounds_from zero kc = []
rounds_from (suc n) kc = combinations kc (rounds_from n (suc kc))

module _ (keymap : Keymap) where
  unfoldable pub mod_mask : Bool → Bool → ℕ
  mod_mask with_shift with_level3 =
      with_bit with_level3
        (or_else (keymap.mod_get_index iso_level3_shift) (keymap.mod_get_index mode_switch))
        (with_bit with_shift (keymap.mod_get_index ModifierName.shift) 0)

  -- The codepoint of a keysym, where it has one.
  abbrev pub codepoint_of : ℕ → Option ℕ
  codepoint_of keysym =
      let cp = keymap.keysym_to_utf32 keysym in
      if keysym == 0 then none else if ltb 0 cp && ltb cp 0x110000 then some cp else none

  unfoldable pub typed : Round → Option ℕ
  typed r = codepoint_of (keymap.key_get_one_sym (mod_mask r.shift r.level3) r.keycode)

  -- The body of the loops
  unfoldable pub add_round : Round → List CacheEntry → List CacheEntry
  add_round r cache = elim (typed r) [
    | none ↦ cache
    | some cp ↦
        if not (found cp cache) && ltb (length cache) cache_capacity
        then cache ++ entry_of cp r ∷ []
        else cache
  ]

  abbrev pub add_rounds : List Round → List CacheEntry → List CacheEntry
  add_rounds [] cache = cache
  add_rounds (r ∷ rs) cache = add_rounds rs (add_round r cache)

  abbrev pub rounds : List Round
  rounds = rounds_from (suc keymap.max_keycode - keymap.min_keycode) keymap.min_keycode

  unfoldable pub build_cache : List CacheEntry
  build_cache = add_rounds rounds []

abbrev pub search : ℕ → List CacheEntry → Option (ℕ × ℕ)
search cp [] = none
search cp (e ∷ es) = if e.codepoint == cp then some (e.evdev_key, e.mods_mask) else search cp es

-- The decoding of xkbmap_map_utf8_to_evdev: the masks of the source are divisions and remainders, its `|`
-- joins bits that do not overlap. Behind the bytes stands the zero of the string.
unfoldable pub decode_utf8 : Bytes → Option ℕ
decode_utf8 u =
    let a = get_or u 0 0 in
    let b = get_or u 1 0 % 64 in
    let c = get_or u 2 0 % 64 in
    let d = get_or u 3 0 % 64 in
    if a / 128 == 0
    then some a
    else if a / 32 == 6
    then some (a % 32 * 64 + b)
    else if a / 16 == 14
    then some (a % 16 * 4096 + b * 64 + c)
    else if a / 8 == 30
    then some (a % 8 * 262144 + b * 4096 + c * 64 + d)
    else none

-- layout_source
pub data Source : Type 0 where
  uninitialized x11 env fallback_us : Source

-- g_xkb: `ctx`, `keymap` and `state` are held or not; `cache` is `none` where there is no memory for it.
pub record Xkb : Type 0 where
  pub initialized : Bool
  pub layout_source : Source
  pub ctx : Bool
  pub keymap : Option Keymap
  pub state : Bool
  pub cache : Option (List CacheEntry)

-- What the environment answers: the variables DISPLAY and XKB_DEFAULT_LAYOUT, the connection to the X
-- server and its keyboard (-1 is none), the keymaps that X11 and the names of the layout have, and whether
-- a context, a state and the cache's memory can be had. The variant and the options go to
-- libxkbcommon with the layout.
pub record Desktop : Type 0 where
  pub context_new : Bool
  pub display : Option Bytes
  pub connects : Bool
  pub device_id : ℤ
  pub x11_keymap : Option Keymap
  pub layout : Option Bytes
  pub env_keymap : Option Keymap
  pub us_keymap : Option Keymap
  pub state_new : Bool
  pub calloc : Bool

abbrev pub is_set : Option Bytes → Bool
is_set none = false
is_set (some []) = false
is_set (some (c ∷ cs)) = true

abbrev pub tagged : Source → Option Keymap → Option (Source × Keymap)
tagged source none = none
tagged source (some k) = some (source, k)

unfoldable pub try_init_from_x11 : Desktop → Option (Source × Keymap)
try_init_from_x11 d =
    if not (is_set d.display)
    then none
    else if not d.connects
    then none
    else if eq_ℤ d.device_id (negsuc 0)
    then none
    else tagged x11 d.x11_keymap

unfoldable pub try_init_from_env : Desktop → Option (Source × Keymap)
try_init_from_env d = if is_set d.layout then tagged env d.env_keymap else none

unfoldable pub try_init_fallback_us : Desktop → Option (Source × Keymap)
try_init_fallback_us d = tagged fallback_us d.us_keymap

abbrev pub first_of : Option (Source × Keymap) → Option (Source × Keymap) → Option (Source × Keymap)
first_of none b = b
first_of (some a) b = some a

unfoldable pub detect : Desktop → Option (Source × Keymap)
detect d = first_of (try_init_from_x11 d) (first_of (try_init_from_env d) (try_init_fallback_us d))

abbrev pub with_keymap : Desktop → Source → Keymap → Xkb → ℤ × Xkb
with_keymap d source k g =
    if d.state_new
    then (
      pos 0,
      record g {
        initialized = true;
        layout_source = source;
        ctx = true;
        keymap = some k;
        state = true;
        cache = if d.calloc then some (build_cache k) else none;
      },
    )
    else (negsuc 0, record g { layout_source = source; ctx = false; keymap = none; state = false })

abbrev pub with_detected : Desktop → Option (Source × Keymap) → Xkb → ℤ × Xkb
with_detected d none g = (negsuc 0, record g { ctx = false; keymap = none })
with_detected d (some (source, k)) g = with_keymap d source k g

abbrev pub start : Desktop → Xkb → ℤ × Xkb
start d g =
    if d.context_new then with_detected d (detect d) g else (negsuc 0, record g { ctx = false })

unfoldable pub xkbmap_init_auto : Desktop → Xkb → ℤ × Xkb
xkbmap_init_auto d g = if g.initialized then (pos 0, g) else start d g

unfoldable pub xkbmap_free : Xkb → Xkb
xkbmap_free g =
    if g.initialized
    then record g { initialized = false; ctx = false; keymap = none; state = false; cache = none }
    else g

abbrev pub entries : Option (List CacheEntry) → List CacheEntry
entries none = []
entries (some cache) = cache

abbrev pub searched : List CacheEntry → Option ℕ → Option (ℕ × ℕ)
searched cache none = none
searched cache (some cp) = search cp cache

-- The pointers are good. `none` is false.
unfoldable pub xkbmap_map_utf8_to_evdev : Xkb → Bytes → Option (ℕ × ℕ)
xkbmap_map_utf8_to_evdev g utf8 =
    if g.initialized then searched (entries g.cache) (decode_utf8 utf8) else none

abbrev pub xkbmap_get_layout_source : Xkb → Source
xkbmap_get_layout_source g = g.layout_source
