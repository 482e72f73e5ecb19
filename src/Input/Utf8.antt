-- ===== src/Input/Utf8.antt =====
-- UTF-8 (server/src/input/keyboard/mapper.c): `encode_codepoint_to_utf8`, which is also the first half
-- of `map_char_to_evdev_linux`. Codepoints are not negative here: `handle_keyboard` passes only 0x20
-- to 0xDFFF. The `|` of the source joins bits that do not overlap.
use mouse_hero.Base.{
  ℕ, ◌+◌, ◌-◌, ◌*◌, ◌/◌, ◌%◌, ◌<◌, ◌≤◌, ◌≡◌, ◌≢◌, All, ◌&&◌, Option, none, some, [], ◌∷◌, ltb,
  if◌then◌else◌, arith,
}
use mouse_hero.Wire.{Bytes}

unfoldable pub encode_codepoint_to_utf8 : ℕ → Bytes
encode_codepoint_to_utf8 c =
    if ltb 0 c && ltb c 0x80
    then c ∷ []
    else if ltb c 0x800
    then (0xC0 + c / 64) ∷ (0x80 + c % 64) ∷ []
    else if ltb c 0x10000
    then (0xE0 + c / 4096) ∷ (0x80 + c / 64 % 64) ∷ (0x80 + c % 64) ∷ []
    else if ltb c 0x110000
    then (0xF0 + c / 262144) ∷ (0x80 + c / 4096 % 64) ∷ (0x80 + c / 64 % 64) ∷ (0x80 + c % 64) ∷ []
    else []

-- UTF-8 as its standard describes it: the length from the first byte, and six bits from each other.
abbrev pub decode : Bytes → Option ℕ
decode [] = none
decode (a ∷ []) = if ltb a 0x80 then some a else none
decode (a ∷ b ∷ []) = if ltb a 0xE0 then some ((a - 0xC0) * 64 + (b - 0x80)) else none
decode (a ∷ b ∷ c ∷ []) =
    if ltb a 0xF0 then some (((a - 0xE0) * 64 + (b - 0x80)) * 64 + (c - 0x80)) else none
decode (a ∷ b ∷ c ∷ d ∷ []) =
    some ((((a - 0xF0) * 64 + (b - 0x80)) * 64 + (c - 0x80)) * 64 + (d - 0x80))
decode _ = none

-- The encoding of a codepoint above 0 that Unicode has decodes to it, and no byte of it is zero,
-- so that it is a C string; one that is out of range encodes to the empty text.
pub decode-encode :
    (c : ℕ)
    → 0 < c
    → (c < 0x110000
        → (decode (encode_codepoint_to_utf8 c) ≡ some c)
          × (encode_codepoint_to_utf8 c ≢ [])
          × All (λ b. (0 < b) × (b < 256)) (encode_codepoint_to_utf8 c))
      × (0x110000 ≤ c → encode_codepoint_to_utf8 c ≡ [])
unfolding encode_codepoint_to_utf8
decode-encode c h = (λ lt. (ground arith, ground arith, ground arith), λ le. ground arith)
