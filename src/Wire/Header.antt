-- ===== src/Wire/Header.antt =====
-- The header of an event, written by `ya_serialize_event` and read by `ya_parse_event_header`
-- (server/src/ya_event.c).
use mouse_hero.Base.{ℕ, ◌%◌, Option, none, some, ◌++◌, length, ltb, ◌==◌, if◌then◌else◌}
use mouse_hero.Base.Int.{pos}
use mouse_hero.Wire.{Bytes, EventHeader, to_u32}
use mouse_hero.Wire.Evbuffer.{Evbuffer}
use mouse_hero.Wire.Mpack.{Mpack}

module _ {F : Type 0} (mp : Mpack F) where
  open mp use {
    start_array, write_u32, Reader, init_data, flag_error, has_error, expect_array, expect_i32,
  }

  -- The header is an array of four numbers, written unsigned.
  unfoldable pub write_header : EventHeader → Bytes
  write_header h =
      start_array 4
      ++ (write_u32 h.uid ++ (write_u32 h.type ++ (write_u32 h.direction ++ write_u32 h.index)))

  -- The reads behind the test of the array's length; they are signed.
  unfoldable pub read_fields : Reader → EventHeader × Reader
  read_fields r0 =
      let (uid, r1) = expect_i32 r0 in
      let (type, r2) = expect_i32 r1 in
      let (direction, r3) = expect_i32 r2 in
      let (index, r4) = expect_i32 r3 in
      (
        record {
          type = to_u32 type % 256;
          direction = to_u32 direction % 256;
          index = to_u32 index;
          uid = to_u32 uid;
        },
        r4,
      )

  unfoldable pub read_header : Bytes → ℕ → Option EventHeader
  unfolding read_fields
  read_header input len =
      let (count, r) = expect_array (init_data input len) in
      let (h, r') = read_fields (if count == 4 then r else flag_error r) in
      if has_error r' then none else some h

  module _ (ev : Evbuffer) where
    open ev use {Buffer, bytes, pullup}

    unfoldable pub parse_event_header : Buffer → ℕ → Option EventHeader
    parse_event_header buf len =
        if ltb (length (bytes buf)) len
        then none
        else elim (pullup buf (pos len)) [ none ↦ none | some input ↦ read_header input len ]
