-- ===== src/Wire/Survival.antt =====
-- Events on the whole way, from the serializer of server/src/ya_event.c to its parser.
use mouse_hero.Base.{
  ◌+◌, ◌<◌, ◌^◌, ◌≡◌, refl, sym, subst, ap, ◌∙◌, false, some, ◌++◌, length, arith, length-append,
}
use mouse_hero.Wire.{Bytes, be32, EventHeader, Param}
use mouse_hero.Wire.Evbuffer.{Evbuffer}
use mouse_hero.Wire.Mpack.{Mpack}
use mouse_hero.Wire.Framing.{get_package_size, is_incomplete, frame}
use mouse_hero.Wire.Header.{write_header}
use mouse_hero.Wire.Codec.{parsed, serialize_event, parse_event}
use mouse_hero.Wire.RoundTrip.{IsReadable, parse_event-frame, get_package_size-frame}
use mouse_hero.Wire.Payloads.{IsCodable, serialize-IsBody}

length-frame : (header body : Bytes) → length (frame header body) ≡ length header + length body + 8
unfolding frame be32
length-frame header body = omega (arith, length-append header body)

module _ {F : Type 0} (mp : Mpack F) (ev : Evbuffer) (float_zero : F) (h : EventHeader) where
  survives :
      (p : Param F) (b : ev.Buffer) (rest : Bytes)
      → IsReadable h
      → IsCodable h.type p
      → (wire : Bytes) × (serialize_event mp (record { header = h; param = p }) ≡ some wire)
        × (length wire < 2 ^ 31
            → ev.bytes b ≡ wire ++ rest
            → let size = get_package_size ev b in
              let r = parse_event mp ev float_zero (ev.drain b 8) size in
              (is_incomplete (length (ev.bytes b)) size ≡ false)
              × (ev.bytes r.0 ≡ rest)
              × (r.1 ≡ parsed (record { header = h; param = p })))
  unfolding serialize_event
  survives p b rest v c =
      let (body, s, q) = serialize-IsBody mp ev float_zero h p c in
      (
        frame (write_header mp h) body,
        rw (s, serialize_event),
        λ short e.
            parse_event-frame mp ev float_zero b h body rest p v e
              (omega (arith, length-frame (write_header mp h) body)) q,
      )

  -- An event with a readable header and a payload of its type survives the wire, whatever follows it:
  -- if what the serializer wrote is shorter than 2^31, a reader that has received it finds its frame
  -- complete, parses the same event, and is left with what follows.
  pub parse_event-serialize :
      (p : Param F) (b : ev.Buffer) (wire rest : Bytes)
      → IsReadable h
      → IsCodable h.type p
      → serialize_event mp (record { header = h; param = p }) ≡ some wire
      → length wire < 2 ^ 31
      → ev.bytes b ≡ wire ++ rest
      → let size = get_package_size ev b in
        let r = parse_event mp ev float_zero (ev.drain b 8) size in
        (is_incomplete (length (ev.bytes b)) size ≡ false)
        × (ev.bytes r.0 ≡ rest)
        × (r.1 ≡ parsed (record { header = h; param = p }))
  parse_event-serialize p b wire rest v c written short e =
      let (w, writes, reads) = survives p b rest v c in
      let same : w ≡ wire = cc in
      reads (subst (λ t. length t < 2 ^ 31) (sym same) short)
        (subst (λ t. ev.bytes b ≡ t ++ rest) (sym same) e)

  pub total_size-serialize :
      (p : Param F) (b : ev.Buffer) (wire rest : Bytes)
      → IsCodable h.type p
      → serialize_event mp (record { header = h; param = p }) ≡ some wire
      → length wire < 2 ^ 31
      → ev.bytes b ≡ wire ++ rest
      → (get_package_size ev b).total_size + 4 ≡ length wire
  unfolding serialize_event
  total_size-serialize p b wire rest c written short e =
      let (body, s, q) = serialize-IsBody mp ev float_zero h p c in
      let framed : serialize_event mp (record { header = h; param = p })
          ≡ some (frame (write_header mp h) body) =
        rw (s, serialize_event) refl in
      let same : wire ≡ frame (write_header mp h) body = cc in
      let sized : length wire ≡ length (write_header mp h) + length body + 8 =
        ap length same ∙ length-frame (write_header mp h) body in
      rw
        (get_package_size-frame ev b (write_header mp h) body rest
          (subst (λ t. ev.bytes b ≡ t ++ rest) same e) (omega (arith, sized)))
        (omega (arith, sized))
