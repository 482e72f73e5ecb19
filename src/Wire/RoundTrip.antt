-- ===== src/Wire/RoundTrip.antt =====
-- What `ya_serialize_event` writes, `ya_get_package_size` and `ya_parse_event` read back
-- (server/src/ya_event.c), with any bytes of later frames behind it.
use mathlib.Core.List.{append-nil, append_assoc}
use mouse_hero.Base.{
  ℕ, ◌+◌, ◌%◌, ◌<◌, ◌^◌, ◌≡◌, ◌⊎◌, inl, inr, refl, sym, ap, ◌∙◌, false, some, [], ◌∷◌, ◌++◌, length,
  take, drop, ltb, arith, length-append, ==_false, take-length-append, drop-length-append,
}
use mouse_hero.Base.Int.{pos}
use mouse_hero.Wire.{
  Bytes, EventHeader, Param, absent, u32_mod, to_i32, be32, read_be32, read_be32-be32,
}
use mouse_hero.Wire.Evbuffer.{Evbuffer}
use mouse_hero.Wire.Mpack.{Mpack}
use mouse_hero.Wire.Framing.{to_uint32, get_package_size, is_incomplete, frame}
use mouse_hero.Wire.Header.{write_header, read_header, parse_event_header}
use mouse_hero.Wire.Payload.{get_parser, parse}
use mouse_hero.Wire.Codec.{parsed, parse_event, parse_body}

-- The headers that survive the signed reads.
pub record IsReadable (h : EventHeader) : Type 0 where
  pub uid_fits : h.uid < 2 ^ 31
  pub index_fits : h.index < 2 ^ 31
  pub type_fits : h.type < 256
  pub direction_fits : h.direction < 256

module _ {F : Type 0} (mp : Mpack F) where
  open mp use {start_array, write_u32, write_i32, write_str, init_data, expect_i32, expect_u32}

  expect_i32_last :
      (n : ℕ)
      → n < 2 ^ 31
      → expect_i32 (init_data (write_u32 n) (length (write_u32 n))) ≡ (pos n, init_data [] 0)
  expect_i32_last n h = rw append-nil at (mp.expect_i32-write_u32 n [] h)

  pub read_header-write :
      (h : EventHeader)
      → IsReadable h
      → read_header mp (write_header mp h) (length (write_header mp h)) ≡ some h
  unfolding read_header write_header
  read_header-write h v =
      rw
        (
          mp.expect_array-start 4 _ (omega arith),
          mp.expect_i32-write_u32 h.uid _ v.uid_fits,
          mp.expect_i32-write_u32 h.type _ (omega (arith, v.type_fits)),
          mp.expect_i32-write_u32 h.direction _ (omega (arith, v.direction_fits)),
          expect_i32_last h.index v.index_fits,
          mp.init_data_ok [],
        )
        (ground arith)

module _ (ev : Evbuffer) (b : ev.Buffer) where
  open ev use {bytes, drain, pullup, copyout}

  to_uint32-be32 :
      (front : Bytes) (n : ℕ) (rest : Bytes)
      → n < u32_mod
      → bytes b ≡ front ++ (be32 n ++ rest)
      → to_uint32 ev b (length front) ≡ n
  unfolding to_uint32
  to_uint32-be32 front n rest h e =
      rw
        (
          ev.copyout_lem b (length front) 4
              (rw e (omega (arith, length-append front (be32 n ++ rest)))),
          e,
          drop-length-append front (be32 n ++ rest),
        )
        (four ∙ read_be32-be32 n h)
    where
      four : read_be32 (take 4 (be32 n ++ rest)) ≡ read_be32 (be32 n)
      four = unfold be32 in refl

  module _ (header body rest : Bytes) (e : bytes b ≡ frame header body ++ rest) where
    regrouped :
        bytes b
        ≡ be32 ((length header + length body + 4) % u32_mod)
          ++ (be32 (length header % u32_mod) ++ (header ++ (body ++ rest)))
    unfolding frame
    regrouped = e ∙ simp append_assoc

    total_read :
        length header + length body + 4 < u32_mod
        → to_uint32 ev b 0 ≡ length header + length body + 4
    total_read h = to_uint32-be32 [] _ _ (omega arith) regrouped ∙ omega arith

    header_read : length header < u32_mod → to_uint32 ev b 4 ≡ length header
    unfolding to_uint32 be32
    header_read h =
        to_uint32-be32 (be32 ((length header + length body + 4) % u32_mod)) _ _ (omega arith)
          regrouped
        ∙ omega arith

    -- The sizes are read as they were written.
    pub get_package_size-frame :
        length header + length body + 4 < u32_mod
        → get_package_size ev b ≡ record {
          total_size = length header + length body + 4;
          header_size = length header;
          body_size = length body;
        }
    unfolding get_package_size
    get_package_size-frame h = rw (total_read h, header_read (omega arith)) (ground arith)

    -- Eight bytes on, the header stands in front of the body.
    pub drain_sizes : bytes (drain b 8) ≡ header ++ (body ++ rest)
    drain_sizes = ev.bytes-drain b 8 ∙ ap (drop 8) regrouped ∙ unfold be32 in refl

    length-bytes : length (bytes b) ≡ length header + length body + length rest + 8
    unfolding be32
    length-bytes =
        omega
          (arith, ap length regrouped, length-append header (body ++ rest), length-append body rest)

-- The buffer that is left when the front of a buffer is taken out.
module _ (ev : Evbuffer) (b : ev.Buffer) (front rest : Bytes) (e : ev.bytes b ≡ front ++ rest) where
  open ev use {bytes, drain, pullup}

  drain-front : bytes (drain b (length front)) ≡ rest
  drain-front =
      ev.bytes-drain b (length front) ∙ ap (drop (length front)) e ∙ drop-length-append front rest

  pullup-front : 0 < length front → pullup b (pos (length front)) ≡ some front
  pullup-front h =
      ev.pullup_fits b (length front) h (omega (arith, ap length e, length-append front rest))
      ∙ ap (λ t. some (take (length front) t)) e
      ∙ ap some (take-length-append front rest)

module _ {F : Type 0} (mp : Mpack F) (ev : Evbuffer) (float_zero : F) where
  open ev use {Buffer, bytes, drain, pullup}

  write_header_pos : (h : EventHeader) → 0 < length (write_header mp h)
  unfolding write_header
  write_header_pos h = omega (
    arith,
    mp.start_array_pos 4,
    length-append (mp.start_array 4) (
        mp.write_u32 h.uid
        ++ (mp.write_u32 h.type ++ (mp.write_u32 h.direction ++ mp.write_u32 h.index))),
  )

  parse_event_header-front :
      (b : Buffer) (h : EventHeader) (rest : Bytes)
      → IsReadable h
      → bytes b ≡ write_header mp h ++ rest
      → parse_event_header mp ev b (length (write_header mp h)) ≡ some h
  unfolding parse_event_header
  parse_event_header-front b h rest v e =
      rw
        (
          long_enough,
          pullup-front ev b (write_header mp h) rest e (write_header_pos h),
          parse_event_header,
        )
        (read_header-write mp h v)
    where
      long_enough : ltb (length (bytes b)) (length (write_header mp h)) ≡ false
      long_enough = ground (arith, ap length e, length-append (write_header mp h) rest)

  parse_body-front :
      (b : Buffer) (h : EventHeader) (body rest : Bytes) (p : Param F)
      → bytes b ≡ body ++ rest
      → length body < 2 ^ 31
      → 0 < length body
      → parse mp float_zero (get_parser h.type) body (length body) ≡ some p
      → let r = parse_body mp ev float_zero h b (length body) in
        (bytes r.0 ≡ rest) × (r.1 ≡ parsed (record { header = h; param = p }))
  unfolding parse_body
  parse_body-front b h body rest p e fits full q =
      rw
        (
          ==_false (length body) 0 (λ z. absurd (omega arith)),
          small,
          pullup-front ev b body rest e full,
          parse_body,
          small,
          q,
        )
        (drain-front ev b body rest e, refl)
    where
      small : to_i32 (length body) ≡ pos (length body)
      small = ground arith

  -- The body that parses to `p`: none at all for an event with no payload.
  abbrev pub IsBody : EventHeader → Bytes → Param F → Type 0
  IsBody h body p =
      ((length body ≡ 0) × (p ≡ absent))
      ⊎ ((0 < length body) × (parse mp float_zero (get_parser h.type) body (length body) ≡ some p))

  parse_body-IsBody :
      (b : Buffer) (h : EventHeader) (body rest : Bytes) (p : Param F)
      → bytes b ≡ body ++ rest
      → length body < 2 ^ 31
      → IsBody h body p
      → let r = parse_body mp ev float_zero h b (length body) in
        (bytes r.0 ≡ rest) × (r.1 ≡ parsed (record { header = h; param = p }))
  unfolding parse_body
  parse_body-IsBody b h body rest p e fits (inr (full, q)) =
      parse_body-front b h body rest p e fits full q
  parse_body-IsBody b h [] rest p e fits (inl (z, q)) =
      (e, ap (λ (x : Param F). parsed (record { header = h; param = x })) (sym q))
  parse_body-IsBody b h (x ∷ body) rest p e fits (inl (z, q)) = absurd (omega arith)

  parse_event-front :
      (b : Buffer) (h : EventHeader) (body rest : Bytes) (p : Param F) (total : ℕ)
      → IsReadable h
      → bytes b ≡ write_header mp h ++ (body ++ rest)
      → length body < 2 ^ 31
      → IsBody h body p
      → let r = parse_event mp ev float_zero b (record {
        total_size = total;
        header_size = length (write_header mp h);
        body_size = length body;
      }) in
        (bytes r.0 ≡ rest) × (r.1 ≡ parsed (record { header = h; param = p }))
  unfolding parse_event
  parse_event-front b h body rest p total v e fits q =
      rw (parse_event_header-front b h (body ++ rest) v e, parse_event)
        (parse_body-IsBody (drain b (length (write_header mp h))) h body rest p
          (drain-front ev b (write_header mp h) (body ++ rest) e) fits q)

  -- A frame with good sizes, at the front of a buffer: the test lets it through, its header and its
  -- payload are parsed, and the bytes of the frame, neither more nor fewer, are taken out.
  pub parse_event-frame :
      (b : Buffer) (h : EventHeader) (body rest : Bytes) (p : Param F)
      → IsReadable h
      → bytes b ≡ frame (write_header mp h) body ++ rest
      → length (write_header mp h) + length body + 8 < 2 ^ 31
      → IsBody h body p
      → let size = get_package_size ev b in
        let r = parse_event mp ev float_zero (drain b 8) size in
        (is_incomplete (length (bytes b)) size ≡ false)
        × (bytes r.0 ≡ rest)
        × (r.1 ≡ parsed (record { header = h; param = p }))
  parse_event-frame b h body rest p v e fits q =
      rw (get_package_size-frame ev b (write_header mp h) body rest e (omega arith))
        (complete, read.0, read.1)
    where
      complete :
          ltb (length (bytes b)) ((length (write_header mp h) + length body + 4 + 4) % u32_mod)
          ≡ false
      complete = ground (arith, length-bytes ev b (write_header mp h) body rest e)

      read :
          let r = parse_event mp ev float_zero (drain b 8) (record {
            total_size = length (write_header mp h) + length body + 4;
            header_size = length (write_header mp h);
            body_size = length body;
          }) in
          (bytes r.0 ≡ rest) × (r.1 ≡ parsed (record { header = h; param = p }))
      read =
          parse_event-front (drain b 8) h body rest p _ v
            (drain_sizes ev b (write_header mp h) body rest e) (omega arith) q
