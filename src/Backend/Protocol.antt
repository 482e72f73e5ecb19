-- ===== src/Backend/Protocol.antt =====
-- The keys that the protocol can name (server/src/keycode_map.c) on the uinput device: ckey_to_linux_keycode
-- and the keys that input_linux_init enables (server/src/input/backend/linux_uinput.c). The kernel drops the
-- events of a key that is not enabled.
use mouse_hero.Backend.Keys.{ckey_to_linux_keycode, enabled_keys}
use mouse_hero.Base.{
  ◌≤◌, ==_iff, Bool-cases, inl, inr, ℕ, zero, suc, ◌+◌, ◌-◌, ◌<◌, ◌≡◌, ◌≢◌, refl, sym, Bool, true,
  false, not, ◌&&◌, ◌||◌, Option, none, some, List, [], ◌∷◌, leb, ◌==◌, if◌then◌else◌, arith,
}
use mouse_hero.Base.Int.{ℤ, pos, negsuc}
use mouse_hero.Input.KeyMap.{ckey_from_protocol, IsGood, map_ya_to_ckey-Good}
use mouse_hero.Input.{CKey}

abbrev pub is_in : ℕ → List ℕ → Bool
is_in k [] = false
is_in k (x ∷ xs) = k == x || is_in k xs

-- Function has no Linux key; the browser's Search and Favorites, LaunchMediaSelect, LaunchApp1 and
-- LaunchApp2 have one that is not enabled.
abbrev pub without_key : CKey
without_key = 123

abbrev pub without_bit : List CKey
without_bit = 53 ∷ 49 ∷ 170 ∷ 167 ∷ 168 ∷ []

abbrev agree : Bool → Bool → Bool
agree a b = if a then b else not b

abbrev checked : CKey → Option ℕ → Bool
checked k none = k == without_key
checked k (some code) =
    not (k == without_key) && agree (is_in code enabled_keys) (not (is_in k without_bit))

works : ℕ → CKey → Bool
works code k = checked k (ckey_to_linux_keycode k)

and_right : (a b : Bool) → (a && b) ≡ true → (a ≡ true) × (b ≡ true)
and_right true b h = (refl, h)
and_right false b h = cc

-- The keys of a range, one after the other.
abbrev range_works : ℕ → CKey → Bool
range_works zero first = true
range_works (suc n) first = works 0 first && range_works n (suc first)

range_works_at :
    (n : ℕ) (first k : CKey)
    → range_works n first ≡ true
    → first ≤ k
    → k < first + n
    → works 0 k ≡ true
range_works_at zero first k h low high = absurd (omega arith)
range_works_at (suc n) first k h low high =
    let (here, later) = and_right (works 0 first) (range_works n (suc first)) h in
    elim (Bool-cases (first == k)) [
      | inl same ↦ let e : first ≡ k = (==_iff first k).0 same in rw (← e) here
      | inr above ↦ range_works_at n (suc first) k later (ground (arith, above)) (omega arith)
    ]

f_keys_work : range_works 24 88 ≡ true
unfolding works ckey_to_linux_keycode
f_keys_work = refl

numpad_works : range_works 10 203 ≡ true
unfolding works ckey_to_linux_keycode
numpad_works = refl

f_key-works :
    (code : ℕ)
    → (leb 0xE300 code && leb code 0xE317) ≡ true
    → works code (88 + (code - 0xE300)) ≡ true
unfolding works
f_key-works code h =
    range_works_at 24 88 (88 + (code - 0xE300)) f_keys_work (omega arith) (ground (arith, h))

numpad-works :
    (code : ℕ)
    → (leb 0xE400 code && leb code 0xE409) ≡ true
    → works code (203 + (code - 0xE400)) ≡ true
unfolding works
numpad-works code h =
    range_works_at 10 203 (203 + (code - 0xE400)) numpad_works (omega arith) (ground (arith, h))

works-IsGood : IsGood works
unfolding works ckey_to_linux_keycode
works-IsGood = record {
  modifiers = refl;
  edits = refl;
  navigation = refl;
  locks = refl;
  operators = refl;
  browser = refl;
  media = refl;
  launch = refl;
  function = refl;
  f_keys = f_key-works;
  numpad = numpad-works;
}

-- What becomes of a key on the device.
abbrev pub Supported : CKey → Option ℕ → Type 0
Supported k none = k ≡ without_key
Supported k (some code) = (k ≢ without_key) × (is_in code enabled_keys ≡ not (is_in k without_bit))

agree_eq : (a b : Bool) → agree a b ≡ true → a ≡ b
agree_eq true b h = sym h
agree_eq false true h = cc
agree_eq false false h = refl

named_ne : (k : CKey) → not (k == without_key) ≡ true → k ≢ without_key
named_ne k h = ground (arith, h)

checked-Supported : (k : CKey) (o : Option ℕ) → checked k o ≡ true → Supported k o
checked-Supported k none h = ground arith
checked-Supported k (some code) h =
    let (named, same) =
      and_right (not (k == without_key))
        (agree (is_in code enabled_keys) (not (is_in k without_bit))) h in
    (named_ne k named, agree_eq _ _ same)

-- Of the keys that a protocol code names, exactly Function has no Linux key code, so that the backend
-- refuses it; the codes of all others are enabled on the device, but for exactly those of the browser's
-- Search and Favorites, of LaunchMediaSelect, LaunchApp1 and LaunchApp2.
pub protocol_keys :
    (code : ℤ) (k : CKey) → ckey_from_protocol code ≡ some k → Supported k (ckey_to_linux_keycode k)
unfolding ckey_from_protocol works
protocol_keys (pos code) k e =
    checked-Supported k (ckey_to_linux_keycode k) (map_ya_to_ckey-Good works works-IsGood code k e)
protocol_keys (negsuc n) k e = cc
