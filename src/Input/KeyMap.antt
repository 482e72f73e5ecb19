-- ===== src/Input/KeyMap.antt =====
-- The protocol's key codes (server/src/keycode_map.h and keycode_map.c). A switch is a table of its
-- cases, and what follows it is its default. A CKey is its position in the enumeration of
-- server/rs/src/c.rs.
use mathlib.Core.Option.{some_inj}
use mouse_hero.Base.{
  ==_iff, ℕ, ◌+◌, ◌-◌, ◌≤◌, ◌≡◌, refl, sym, ◌∙◌, ap, Bool, true, false, ◌&&◌, Option, none, some,
  List, [], ◌∷◌, leb, ◌==◌, if◌then◌else◌, arith,
}
use mouse_hero.Base.Int.{ℤ, pos, negsuc, ◌≤ℤ◌}
use mouse_hero.Input.{CKey}

unfoldable pub switch : List (ℕ × CKey) → ℕ → Option CKey → Option CKey
switch [] code otherwise = otherwise
switch ((c, k) ∷ cases) code otherwise =
    let later = switch cases code otherwise in if code == c then some k else later

abbrev modifier_keys : List (ℕ × CKey)
modifier_keys =
    (0xE200, 272)
    ∷ (0xE201, 61)
    ∷ (0xE202, 40)
    ∷ (0xE203, 187)
    ∷ (0xE204, 41)
    ∷ (0xE210, 178)
    ∷ (0xE211, 265)
    ∷ (0xE212, 174)
    ∷ (0xE213, 259)
    ∷ (0xE214, 177)
    ∷ (0xE215, 263)
    ∷ []

abbrev edit_keys : List (ℕ × CKey)
edit_keys =
    (0xE220, 43) ∷ (0xE221, 277) ∷ (0xE222, 261) ∷ (0xE223, 85) ∷ (0xE224, 163) ∷ (0xE225, 79) ∷ []

abbrev navigation_keys : List (ℕ × CKey)
navigation_keys =
    (0xE230, 154)
    ∷ (0xE231, 83)
    ∷ (0xE232, 251)
    ∷ (0xE233, 250)
    ∷ (0xE234, 175)
    ∷ (0xE235, 279)
    ∷ (0xE236, 262)
    ∷ (0xE237, 81)
    ∷ []

abbrev lock_keys : List (ℕ × CKey)
lock_keys = (0xE240, 56) ∷ (0xE241, 202) ∷ (0xE242, 268) ∷ (0xE243, 255) ∷ (0xE244, 252) ∷ []

abbrev numpad_operators : List (ℕ × CKey)
numpad_operators =
    (0xE40A, 190) ∷ (0xE40B, 39) ∷ (0xE40C, 271) ∷ (0xE40D, 276) ∷ (0xE40E, 78) ∷ (0xE40F, 80) ∷ []

abbrev browser_keys : List (ℕ × CKey)
browser_keys =
    (0xE260, 48)
    ∷ (0xE261, 50)
    ∷ (0xE262, 52)
    ∷ (0xE263, 54)
    ∷ (0xE264, 53)
    ∷ (0xE265, 49)
    ∷ (0xE266, 51)
    ∷ []

abbrev media_keys : List (ℕ × CKey)
media_keys =
    (0xE270, 182)
    ∷ (0xE271, 184)
    ∷ (0xE272, 186)
    ∷ (0xE273, 183)
    ∷ (0xE274, 282)
    ∷ (0xE275, 281)
    ∷ (0xE276, 283)
    ∷ []

abbrev launch_keys : List (ℕ × CKey)
launch_keys = (0xE280, 169) ∷ (0xE281, 170) ∷ (0xE282, 167) ∷ (0xE283, 168) ∷ []

-- The inner switches of the last three ranges have no default: they fall out of their `if`.
abbrev last_keys : ℕ → Option CKey
last_keys code = switch browser_keys code (switch media_keys code (switch launch_keys code none))

abbrev numpad_keys : ℕ → Option CKey
numpad_keys code =
    if leb 0xE400 code && leb code 0xE409
    then some (203 + (code - 0xE400))
    else switch numpad_operators code (last_keys code)

abbrev later_keys : ℕ → Option CKey
later_keys code =
    if leb 0xE300 code && leb code 0xE317 then some (88 + (code - 0xE300)) else numpad_keys code

unfoldable pub map_ya_to_ckey : ℕ → Option CKey
map_ya_to_ckey code =
    let named = switch modifier_keys code (
      switch edit_keys code
        (switch navigation_keys code (switch lock_keys code (later_keys code)))) in
    if code == 0xE000 then some 123 else named

-- The out pointer is good.
unfoldable pub ckey_from_protocol : ℤ → Option CKey
ckey_from_protocol (pos code) = map_ya_to_ckey code
ckey_from_protocol (negsuc n) = none

-- The code of a key, looked for in the same tables and ranges.
abbrev swapped : List (ℕ × CKey) → CKey → ℕ → ℕ
swapped [] k otherwise = otherwise
swapped ((c, k) ∷ cases) key otherwise =
    let later = swapped cases key otherwise in if key == k then c else later

unfoldable named_code : CKey → ℕ
named_code k = swapped modifier_keys k (
    swapped edit_keys k (
      swapped navigation_keys k (
        swapped lock_keys k (
          swapped numpad_operators k
            (swapped browser_keys k (swapped media_keys k (swapped launch_keys k 0xE000)))))))

unfoldable code_of : CKey → ℕ
code_of k =
    if leb 88 k && leb k 111
    then 0xE300 + (k - 88)
    else if leb 203 k && leb k 212
    then 0xE400 + (k - 203)
    else named_code k

-- What holds of every case of the tables, and of the two ranges, holds of every key that is found.
module _ (good : ℕ → CKey → Bool) where
  abbrev pub all_good : List (ℕ × CKey) → Bool
  all_good [] = true
  all_good ((c, k) ∷ cases) = good c k && all_good cases

  pub record IsGood : Type 0 where
    pub modifiers : all_good modifier_keys ≡ true
    pub edits : all_good edit_keys ≡ true
    pub navigation : all_good navigation_keys ≡ true
    pub locks : all_good lock_keys ≡ true
    pub operators : all_good numpad_operators ≡ true
    pub browser : all_good browser_keys ≡ true
    pub media : all_good media_keys ≡ true
    pub launch : all_good launch_keys ≡ true
    pub function : good 0xE000 123 ≡ true
    pub f_keys :
        (code : ℕ)
        → (leb 0xE300 code && leb code 0xE317) ≡ true
        → good code (88 + (code - 0xE300)) ≡ true
    pub numpad :
        (code : ℕ)
        → (leb 0xE400 code && leb code 0xE409) ≡ true
        → good code (203 + (code - 0xE400)) ≡ true

  abbrev pub Good : ℕ → Option CKey → Type 0
  Good code o = (k : CKey) → o ≡ some k → good code k ≡ true

  Good-some : (code : ℕ) (k : CKey) → good code k ≡ true → Good code (some k)
  Good-some code k h key e = let same : k ≡ key = some_inj.0 e in rw (← same) h

  Good-if :
      (code : ℕ) (test : Bool) (a b : Option CKey)
      → (test ≡ true → Good code a)
      → Good code b
      → Good code (if test then a else b)
  Good-if code true a b p q = p refl
  Good-if code false a b p q = q

  Good-at : (c code : ℕ) (k : CKey) → good c k ≡ true → (code == c) ≡ true → Good code (some k)
  Good-at c code k h e = let same : code ≡ c = (==_iff code c).0 e in Good-some code k (rw same h)

  Good-switch :
      (cases : List (ℕ × CKey)) (code : ℕ) (otherwise : Option CKey)
      → all_good cases ≡ true
      → Good code otherwise
      → Good code (switch cases code otherwise)
  unfolding switch
  Good-switch [] code otherwise h g = g
  Good-switch ((c, k) ∷ cases) code otherwise h g =
      Good-if code (code == c) (some k) (switch cases code otherwise)
        (λ e. Good-at c code k (ground (arith, h)) e)
        (Good-switch cases code otherwise (ground (arith, h)) g)

  module _ (g : IsGood) where
    last_keys-Good : (code : ℕ) → Good code (last_keys code)
    last_keys-Good code = Good-switch browser_keys code _ g.browser (
        Good-switch media_keys code _ g.media
          (Good-switch launch_keys code none g.launch (λ k e. cc)))

    later_keys-Good : (code : ℕ) → Good code (later_keys code)
    later_keys-Good code =
        Good-if code _ _ _ (λ h. Good-some code _ (g.f_keys code h))
          (Good-if code _ _ _ (λ h. Good-some code _ (g.numpad code h))
            (Good-switch numpad_operators code _ g.operators (last_keys-Good code)))

    pub map_ya_to_ckey-Good : (code : ℕ) → Good code (map_ya_to_ckey code)
    unfolding map_ya_to_ckey
    map_ya_to_ckey-Good code =
        Good-if code (code == 0xE000) (some 123) _ (Good-at 0xE000 code 123 g.function) (
          Good-switch modifier_keys code _ g.modifiers (
            Good-switch edit_keys code _ g.edits (
              Good-switch navigation_keys code _ g.navigation
                (Good-switch lock_keys code _ g.locks (later_keys-Good code)))))

-- A case has the code of its key, which lies in the protocol's range.
unfoldable has_code : ℕ → CKey → Bool
has_code code k = code_of k == code && leb 0xE000 code

has_code-IsGood : IsGood has_code
unfolding has_code code_of named_code
has_code-IsGood = record {
  modifiers = refl;
  edits = refl;
  navigation = refl;
  locks = refl;
  operators = refl;
  browser = refl;
  media = refl;
  launch = refl;
  function = refl;
  f_keys = λ code h. ground arith;
  numpad = λ code h. ground arith;
}

code_of_lem :
    (code : ℕ) (k : CKey) → map_ya_to_ckey code ≡ some k → (code ≡ code_of k) × (0xE000 ≤ code)
unfolding has_code
code_of_lem code k e =
    let g : (code_of k == code && leb 0xE000 code) ≡ true =
      map_ya_to_ckey-Good has_code has_code-IsGood code k e in
    (ground (arith, g), ground (arith, g))

-- No two protocol codes stand for the same key, and every code of a key is 0xE000 or above, so that
-- none is in a range of characters.
pub ckey_from_protocol_injective :
    (a b : ℤ) (k : CKey)
    → ckey_from_protocol a ≡ some k
    → ckey_from_protocol b ≡ some k
    → (a ≡ b) × (pos 0xE000 ≤ℤ a)
unfolding ckey_from_protocol
ckey_from_protocol_injective (pos a) (pos b) k ea eb =
    let (pa, la) = code_of_lem a k ea in
    let (pb, lb) = code_of_lem b k eb in (ap pos (pa ∙ sym pb), omega arith)
ckey_from_protocol_injective (pos a) (negsuc n) k ea eb = cc
ckey_from_protocol_injective (negsuc n) b k ea eb = cc
