-- ===== src/Wire/Malformed.antt =====
-- What server/src/ya_event.c makes of frames that no `ya_serialize_event` of a valid event writes.
use mathlib.Core.List.{append-nil}
use mouse_hero.Base.{
  ℕ, ◌+◌, ◌-◌, ◌%◌, ◌≤◌, ◌<◌, ◌^◌, ◌≡◌, ◌≢◌, ◌⊎◌, inl, inr, true, none, [], ◌++◌, length, take,
  arith, length-take, ==_false,
}
use mouse_hero.Base.Int.{pos, negsuc}
use mouse_hero.Wire.{Bytes, EventHeader, common_request, u32_mod, to_i32, to_size}
use mouse_hero.Wire.Evbuffer.{Evbuffer}
use mouse_hero.Wire.Mpack.{Mpack}
use mouse_hero.Wire.Header.{write_header, read_header}
use mouse_hero.Wire.Payload.{get_parser, parse, parse_common}
use mouse_hero.Wire.Codec.{outcome, parse_body}

module _ {F : Type 0} (mp : Mpack F) where
  error_stays : (r : mp.Reader) → mp.has_error r ≡ true → mp.has_error (mp.expect_i32 r).1 ≡ true
  error_stays r e = (mp.expect_i32_error r e).1

  -- A header whose fields are in range and whose UID or, with a smaller UID, whose index is 2^31
  -- or more is written like any other, and refused by the reader, since it reads signed numbers.
  pub read_header_refuses :
      (h : EventHeader)
      → h.uid < u32_mod
      → h.index < u32_mod
      → h.type < 256
      → h.direction < 256
      → (2 ^ 31 ≤ h.uid) ⊎ ((h.uid < 2 ^ 31) × (2 ^ 31 ≤ h.index))
      → read_header mp (write_header mp h) (length (write_header mp h)) ≡ none
  unfolding read_header write_header
  read_header_refuses h u i t d (inl big) = rw (
    mp.expect_array-start 4 _ (omega arith),
    error_stays _ (error_stays _ (error_stays _ (mp.expect_i32_too_large h.uid behind big u))),
  )
    where
      behind : Bytes
      behind = mp.write_u32 h.type ++ (mp.write_u32 h.direction ++ mp.write_u32 h.index)
  read_header_refuses h u i t d (inr (small, big)) = rw (
    mp.expect_array-start 4 _ (omega arith),
    mp.expect_i32-write_u32 h.uid _ small,
    mp.expect_i32-write_u32 h.type _ (omega arith),
    mp.expect_i32-write_u32 h.direction _ (omega arith),
    rw append-nil at (mp.expect_i32_too_large h.index [] big i),
  )

  -- A mouse or control payload that is no MessagePack array is taken for the parameters 0 and 0.
  pub parse_common_malformed :
      (body : Bytes) (len : ℕ)
      → mp.has_error (mp.expect_array (mp.init_data body len)).1 ≡ true
      → parse_common mp body len ≡ common_request (pos 0) (pos 0)
  unfolding parse_common
  parse_common_malformed body len e = rw (
    (mp.expect_i32_error (mp.expect_array (mp.init_data body len)).1 e).0,
    (mp.expect_i32_error _ (error_stays (mp.expect_array (mp.init_data body len)).1 e)).0,
  )

  module _ (ev : Evbuffer) (float_zero : F) where
    open ev use {Buffer, bytes, drain}

    -- On a buffer that is not empty and is shorter than 2^31, the parser of a body gets as long a
    -- stretch of memory as it is told, if the body size is below 2^31 and the body has arrived. A
    -- total size that is too small for its header, of at most 2^31 - 4, makes the body size wrap:
    -- then the parser is told that more bytes are there than the buffer has.
    pub parse_body_claims :
        (b : Buffer) (h : EventHeader) (n : ℕ)
        → bytes b ≢ []
        → length (bytes b) < 2 ^ 31
        → (0 < n
            → n < 2 ^ 31
            → n ≤ length (bytes b)
            → (parse_body mp ev float_zero h b n
                ≡ outcome mp ev float_zero h b
                    (drain b n)
                    (parse mp float_zero (get_parser h.type) (take n (bytes b)) n))
              × (length (take n (bytes b)) ≡ n))
          × ((total header : ℕ)
              → total < header + 4
              → header + 4 ≤ 2 ^ 31
              → n ≡ (total + u32_mod + u32_mod - header - 4) % u32_mod
              → let claimed = to_size (to_i32 n) in
                (parse_body mp ev float_zero h b n
                  ≡ outcome mp ev float_zero h b
                      (drain b claimed)
                      (parse mp float_zero (get_parser h.type) (bytes b) claimed))
                × (length (bytes b) < claimed))
    unfolding parse_body
    parse_body_claims b h n full short = (within, beyond)
      where
        within :
            0 < n
            → n < 2 ^ 31
            → n ≤ length (bytes b)
            → (parse_body mp ev float_zero h b n
                ≡ outcome mp ev float_zero h b
                    (drain b n)
                    (parse mp float_zero (get_parser h.type) (take n (bytes b)) n))
              × (length (take n (bytes b)) ≡ n)
        within p q r = (
          rw (
            ==_false n 0 (λ z. absurd (omega arith)),
            small,
            ev.pullup_fits b n p r,
            parse_body,
            small,
          ),
          omega (arith, length-take n (bytes b)),
        )
          where
            small : to_i32 n ≡ pos n
            small = ground arith

        beyond :
            (total header : ℕ)
            → total < header + 4
            → header + 4 ≤ 2 ^ 31
            → n ≡ (total + u32_mod + u32_mod - header - 4) % u32_mod
            → let claimed = to_size (to_i32 n) in
              (parse_body mp ev float_zero h b n
                ≡ outcome mp ev float_zero h b
                    (drain b claimed)
                    (parse mp float_zero (get_parser h.type) (bytes b) claimed))
              × (length (bytes b) < claimed)
        beyond total header p q e = (
          rw (
            ==_false n 0 (λ z. absurd (omega arith)),
            negative,
            ev.pullup_all b (u32_mod - n - 1) full,
            parse_body,
            negative,
          ),
          rw negative (omega arith),
        )
          where
            negative : to_i32 n ≡ negsuc (u32_mod - n - 1)
            negative = ground arith
