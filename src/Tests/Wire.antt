-- ===== src/Tests/Wire.antt =====
-- Frames of the wire protocol (server/src/ya_event.c), in the encoding of the instances.
use mouse_hero.Base.{
  ℕ, ◌+◌, ◌-◌, ◌%◌, ◌≤◌, ◌<◌, ◌^◌, ◌≡◌, inl, inr, refl, false, some, [], ◌∷◌, ◌++◌, length, take,
  arith,
}
use mouse_hero.Base.Int.{pos}
use mouse_hero.Tests.Instances.{list_buffer, test_mpack}
use mouse_hero.Wire.{
  Bytes, EventHeader, Param, common_request, mouse_click, request, u32_mod, to_size, to_i32, be32,
}
use mouse_hero.Wire.Codec.{parsed, outcome, parse_body, parse_event, serialize_event}
use mouse_hero.Wire.Framing.{get_package_size, is_incomplete, frame}
use mouse_hero.Wire.Header.{write_header}
use mouse_hero.Wire.Malformed.{parse_body_claims}
use mouse_hero.Wire.Payload.{parse, get_parser, serialize, get_serializer}
use mouse_hero.Wire.Payloads.{IsCodable, common}
use mouse_hero.Wire.Survival.{parse_event-serialize}
use mouse_hero.Wire.RoundTrip.{IsReadable}

abbrev pub click_header : EventHeader
click_header = record { type = mouse_click; direction = request; index = 7; uid = 3 }

abbrev big_header : EventHeader
big_header = record { type = mouse_click; direction = request; index = 7; uid = 0x80000000 }

abbrev pub click_param : Param ℕ
click_param = common_request (pos 1) (pos 2)

pub readable : IsReadable click_header
readable = record {
  uid_fits = omega arith;
  index_fits = omega arith;
  type_fits = omega arith;
  direction_fits = omega arith;
}

abbrev pub codable : IsCodable click_header.type click_param
codable = common (pos 1) (pos 2) (inr (inl refl)) (omega arith) (omega arith)

abbrev pub click_body : Bytes
click_body = 3 ∷ 0 ∷ 0 ∷ 0 ∷ 2 ∷ 1 ∷ 0 ∷ 0 ∷ 0 ∷ 1 ∷ 1 ∷ 0 ∷ 0 ∷ 0 ∷ 2 ∷ []

abbrev pub click_head : Bytes
click_head =
    3 ∷ 0 ∷ 0 ∷ 0 ∷ 4 ∷ 1 ∷ 0 ∷ 0 ∷ 0 ∷ 3 ∷ 1 ∷ 0 ∷ 0 ∷ 0 ∷ 2 ∷ 1 ∷ 0 ∷ 0 ∷ 0 ∷ 1 ∷ 1 ∷ 0 ∷ 0 ∷ 0
    ∷ 7 ∷ []

abbrev pub click_wire : Bytes
click_wire = 0 ∷ 0 ∷ 0 ∷ 44 ∷ 0 ∷ 0 ∷ 0 ∷ 25 ∷ click_head ++ click_body

-- One byte of the next frame has come too.
abbrev buffer : Bytes
buffer = click_wire ++ 9 ∷ []

head_written : write_header test_mpack click_header ≡ click_head
unfolding write_header be32
head_written = refl

pub written :
    serialize_event test_mpack (record { header = click_header; param = click_param })
    ≡ some click_wire
unfolding serialize_event serialize get_serializer frame write_header be32
written = refl

parse_event-serialize_example :
    let size = get_package_size list_buffer buffer in
    let r = parse_event test_mpack list_buffer 0 (list_buffer.drain buffer 8) size in
    (is_incomplete (length buffer) size ≡ false)
    × (list_buffer.bytes r.0 ≡ 9 ∷ [])
    × (r.1 ≡ parsed (record { header = click_header; param = click_param }))
parse_event-serialize_example =
    parse_event-serialize test_mpack list_buffer 0 click_header click_param buffer click_wire
      (9 ∷ []) readable codable written (omega arith) refl

-- The body size that a total size of 10 and a header size of 20 wrap to.
abbrev wrapped : ℕ
wrapped = 0xFFFFFFF2

parse_body_claims_example :
    (0 < wrapped
      → wrapped < 2 ^ 31
      → wrapped ≤ length click_body
      → (parse_body test_mpack list_buffer 0 click_header click_body wrapped
          ≡ outcome test_mpack list_buffer 0 click_header click_body
              (list_buffer.drain click_body wrapped)
              (parse test_mpack 0 (get_parser click_header.type) (take wrapped click_body) wrapped))
        × (length (take wrapped click_body) ≡ wrapped))
    × ((total header : ℕ)
        → total < header + 4
        → header + 4 ≤ 2 ^ 31
        → wrapped ≡ (total + u32_mod + u32_mod - header - 4) % u32_mod
        → let claimed = to_size (to_i32 wrapped) in
          (parse_body test_mpack list_buffer 0 click_header click_body wrapped
            ≡ outcome test_mpack list_buffer 0 click_header click_body
                (list_buffer.drain click_body claimed)
                (parse test_mpack 0 (get_parser click_header.type) click_body claimed))
          × (length click_body < claimed))
parse_body_claims_example =
    parse_body_claims test_mpack list_buffer 0 click_body click_header wrapped (λ e. cc)
      (omega arith)
