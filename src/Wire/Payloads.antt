-- ===== src/Wire/Payloads.antt =====
-- The payloads that a serializer of server/src/ya_event.c writes and the parser of the same event type
-- reads back.
use mathlib.Core.List.{append-nil}
use mouse_hero.Base.{
  ℕ, ◌+◌, ◌%◌, ◌<◌, ◌≡◌, ◌≢◌, ◌⊎◌, inl, inr, refl, ap, some, [], ◌∷◌, ◌++◌, length, arith,
  length-append, ==_false, All,
}
use mouse_hero.Base.Int.{ℤ}
use mouse_hero.Wire.{
  Bytes, EventHeader, Param, absent, common_request, keyboard_request, text_request, text_response,
  u32_mod, mouse_move, mouse_click, mouse_wheel, control, keyboard, text_input, text_get, heartbeat,
  mouse_stop,
}
use mouse_hero.Wire.Evbuffer.{Evbuffer}
use mouse_hero.Wire.Mpack.{Mpack, Fits}
use mouse_hero.Wire.Payload.{
  Serializer, Parser, get_serializer, get_parser, serialize, parse, parse_common, parse_keyboard,
  parse_text, c_str,
}
use mouse_hero.Wire.RoundTrip.{IsBody}

abbrev NonZero : ℕ → Type 0
NonZero b = b ≢ 0

-- The payloads that belong to an event type, with numbers in range and texts with no zero byte.
pub data IsCodable {F : Type 0} (type : ℕ) : Param F → Type 0 where
  common :
      (l r : ℤ)
      → (type ≡ mouse_move) ⊎ (type ≡ mouse_click) ⊎ (type ≡ mouse_wheel) ⊎ (type ≡ control)
      → Fits l
      → Fits r
      → IsCodable type (common_request l r)
  keys :
      (code op : ℤ) (mods : ℕ)
      → type ≡ keyboard
      → Fits code
      → Fits op
      → mods < u32_mod
      → IsCodable type (keyboard_request code op mods)
  text_in :
      (s : Bytes)
      → type ≡ text_input
      → All NonZero s
      → length s + 1 < u32_mod
      → IsCodable type (text_request s)
  text_out :
      (s : Bytes)
      → type ≡ text_get
      → All NonZero s
      → length s + 1 < u32_mod
      → IsCodable type (text_response s)
  nothing : (type ≡ heartbeat) ⊎ (type ≡ mouse_stop) → IsCodable type absent

c_str-NonZero : (s : Bytes) → All NonZero s → c_str s ≡ s
unfolding c_str
c_str-NonZero [] a = refl
c_str-NonZero (b ∷ s) a = rw (==_false b 0 a.0, c_str-NonZero s a.1)

module _ {F : Type 0} (mp : Mpack F) where
  open mp use {start_array, write_i32, write_u32, write_str, init_data}

  expect_i32_last :
      (a : ℤ)
      → Fits a
      → mp.expect_i32 (init_data (write_i32 a) (length (write_i32 a))) ≡ (a, init_data [] 0)
  expect_i32_last a h = rw append-nil at (mp.expect_i32-write a [] h)

  expect_u32_last :
      (n : ℕ)
      → n < u32_mod
      → mp.expect_u32 (init_data (write_u32 n) (length (write_u32 n))) ≡ (n, init_data [] 0)
  expect_u32_last n h = rw append-nil at (mp.expect_u32-write n [] h)

  parse_common-write :
      (l r : ℤ)
      → Fits l
      → Fits r
      → let body = start_array 2 ++ (write_i32 l ++ write_i32 r) in
        parse_common mp body (length body) ≡ common_request l r
  unfolding parse_common
  parse_common-write l r p q =
      rw (mp.expect_array-start 2 _ (omega arith), mp.expect_i32-write l _ p, expect_i32_last r q)

  parse_keyboard-write :
      (code op : ℤ) (mods : ℕ)
      → Fits code
      → Fits op
      → mods < u32_mod
      → let body = start_array 3 ++ (write_i32 code ++ (write_i32 op ++ write_u32 mods)) in
        parse_keyboard mp body (length body) ≡ keyboard_request code op mods
  unfolding parse_keyboard
  parse_keyboard-write code op mods p q r = rw (
    mp.expect_array-start 3 _ (omega arith),
    mp.expect_i32-write code _ p,
    mp.expect_i32-write op _ q,
    expect_u32_last mods r,
  )

  parse_text-write :
      (s : Bytes)
      → All NonZero s
      → length s + 1 < u32_mod
      → parse_text mp (write_str s) (length (write_str s)) ≡ some s
  unfolding parse_text
  parse_text-write s a h =
      rw (opened, read, ==_false ((length s + 1) % u32_mod) 0 (λ z. absurd (omega arith)))
        (ap some (c_str-NonZero s a))
    where
      opened :
          mp.expect_str (init_data (write_str s) (length (write_str s)))
          ≡ (length s, init_data s (length s))
      opened = rw (append-nil, append-nil) at (mp.expect_str-write s [] (omega arith))

      read : mp.read_bytes (init_data s (length s)) (length s) ≡ (s, init_data [] 0)
      read = rw append-nil at (mp.read_bytes_lem s [])

abbrev IsCommon : ℕ → Type 0
IsCommon type = (type ≡ mouse_move) ⊎ (type ≡ mouse_click) ⊎ (type ≡ mouse_wheel) ⊎ (type ≡ control)

module _ (type : ℕ) where
  select_common :
      IsCommon type → (get_serializer type ≡ Serializer.common) × (get_parser type ≡ Parser.common)
  unfolding get_serializer get_parser
  select_common h = (ground arith, ground arith)

  select_keys :
      type ≡ keyboard
      → (get_serializer type ≡ Serializer.keyboard_keys) × (get_parser type ≡ Parser.keyboard_keys)
  unfolding get_serializer get_parser
  select_keys h = (ground arith, ground arith)

  select_text_in :
      type ≡ text_input
      → (get_serializer type ≡ Serializer.text_in) × (get_parser type ≡ Parser.text_in)
  unfolding get_serializer get_parser
  select_text_in h = (ground arith, ground arith)

  select_text_out :
      type ≡ text_get
      → (get_serializer type ≡ Serializer.text_out) × (get_parser type ≡ Parser.text_out)
  unfolding get_serializer get_parser
  select_text_out h = (ground arith, ground arith)

  select_nothing :
      (type ≡ heartbeat) ⊎ (type ≡ mouse_stop) → get_serializer type ≡ Serializer.no_serializer
  unfolding get_serializer
  select_nothing h = ground arith

module _ {F : Type 0} (mp : Mpack F) (ev : Evbuffer) (float_zero : F) (h : EventHeader) where
  -- What is serialized is a body that the parser of the type reads back.
  pub serialize-IsBody :
      (p : Param F)
      → IsCodable h.type p
      → (body : Bytes) × (serialize mp (get_serializer h.type) p ≡ some body)
        × IsBody mp ev float_zero h body p
  unfolding serialize parse
  serialize-IsBody _ (common l r t p q) =
      let (s, g) = select_common h.type t in
      (
        mp.start_array 2 ++ (mp.write_i32 l ++ mp.write_i32 r),
        rw s,
        inr (
          omega (
            arith,
            mp.start_array_pos 2,
            length-append (mp.start_array 2) (mp.write_i32 l ++ mp.write_i32 r),
          ),
          rw g (ap some (parse_common-write mp l r p q)),
        ),
      )
  serialize-IsBody _ (keys code op mods t p q r) =
      let (s, g) = select_keys h.type t in
      (
        mp.start_array 3 ++ (mp.write_i32 code ++ (mp.write_i32 op ++ mp.write_u32 mods)),
        rw s,
        inr (
          omega (
            arith,
            mp.start_array_pos 3,
            length-append (mp.start_array 3)
                (mp.write_i32 code ++ (mp.write_i32 op ++ mp.write_u32 mods)),
          ),
          rw g (ap some (parse_keyboard-write mp code op mods p q r)),
        ),
      )
  serialize-IsBody _ (text_in x t a n) =
      let (s, g) = select_text_in h.type t in
      (mp.write_str x, rw s, inr (mp.write_str_pos x, rw (g, parse_text-write mp x a n)))
  serialize-IsBody _ (text_out x t a n) =
      let (s, g) = select_text_out h.type t in
      (mp.write_str x, rw s, inr (mp.write_str_pos x, rw (g, parse_text-write mp x a n)))
  serialize-IsBody _ (nothing t) = ([], rw (select_nothing h.type t), inl (refl, refl))
