-- ===== src/Wire/Codec.antt =====
-- `ya_serialize_event` and `ya_parse_event` (server/src/ya_event.c).
use mouse_hero.Base.{ℕ, Option, none, some, ◌==◌, if◌then◌else◌}
use mouse_hero.Wire.{Bytes, EventHeader, Event, Param, absent, to_i32, to_size}
use mouse_hero.Wire.Evbuffer.{Evbuffer}
use mouse_hero.Wire.Mpack.{Mpack}
use mouse_hero.Wire.Framing.{PackageSize, frame}
use mouse_hero.Wire.Header.{write_header, parse_event_header}
use mouse_hero.Wire.Payload.{get_serializer, get_parser, serialize, parse}

-- What ya_parse_event comes to: an event, -1, or undefined behaviour.
pub data Outcome (F : Type 0) : Type 0 where
  parsed : Event F → Outcome F
  refused undefined : Outcome F

module _ {F : Type 0} (mp : Mpack F) where
  -- `none` is undefined behaviour of the serializer.
  unfoldable pub serialize_event : Event F → Option Bytes
  serialize_event e = elim (serialize mp (get_serializer e.header.type) e.param) [
    | none ↦ none
    | some body ↦ some (frame (write_header mp e.header) body)
  ]

  module _ (ev : Evbuffer) (float_zero : F) where
    open ev use {Buffer, bytes, drain, pullup}

    abbrev pub outcome : EventHeader → Buffer → Buffer → Option (Param F) → Buffer × Outcome F
    outcome h buf buf' none = (buf, undefined)
    outcome h buf buf' (some p) = (buf', parsed (record { header = h; param = p }))

    -- The body, behind the header. `content_len` is an `int`, and a `size_t` for the parser.
    unfoldable pub parse_body : EventHeader → Buffer → ℕ → Buffer × Outcome F
    parse_body h buf body_size =
        let content_len = to_i32 body_size in
        if body_size == 0
        then (buf, parsed (record { header = h; param = absent }))
        else elim (pullup buf content_len) [
          | none ↦ (buf, refused)
          | some payload ↦
              outcome h buf (drain buf (to_size content_len))
                (parse mp float_zero (get_parser h.type) payload (to_size content_len))
        ]

    unfoldable pub parse_event : Buffer → PackageSize → Buffer × Outcome F
    unfolding parse_body
    parse_event buf size = elim (parse_event_header mp ev buf size.header_size) [
      | none ↦ (buf, refused)
      | some h ↦ parse_body h (drain buf size.header_size) size.body_size
    ]
