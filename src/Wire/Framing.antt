-- ===== src/Wire/Framing.antt =====
-- The sizes in front of a frame: `ya_get_package_size` (server/src/ya_event.c) over `to_uint32`
-- (server/src/ya_utils.c), the way a frame is put together, and the tests that the readers of
-- server/src/ya_server_session.c and ya_server_command.c make on the sizes.
use mouse_hero.Base.{ℕ, ◌+◌, ◌-◌, ◌%◌, Bool, not, ◌++◌, length, ltb, ◌==◌}
use mouse_hero.Wire.{Bytes, u32_mod, be32, read_be32}
use mouse_hero.Wire.Evbuffer.{Evbuffer}

-- YAPackageSize
pub record PackageSize : Type 0 where
  pub total_size : ℕ
  pub header_size : ℕ
  pub body_size : ℕ

module _ (ev : Evbuffer) where
  open ev use {Buffer, copyout}

  unfoldable pub to_uint32 : Buffer → ℕ → ℕ
  to_uint32 buffer start = read_be32 (copyout buffer start 4)

  unfoldable pub get_package_size : Buffer → PackageSize
  unfolding to_uint32
  get_package_size buffer =
      let total = to_uint32 buffer 0 in
      let header = to_uint32 buffer 4 in
      record {
        total_size = total;
        header_size = header;
        body_size = (total + u32_mod + u32_mod - header - 4) % u32_mod;
      }

-- `len < (size.totalSize + 4)`, a comparison of unsigned numbers
abbrev pub is_incomplete : ℕ → PackageSize → Bool
is_incomplete len size = ltb len ((size.total_size + 4) % u32_mod)

-- `len != (size.totalSize + 4)`, of a datagram
abbrev pub is_misfit : ℕ → PackageSize → Bool
is_misfit len size = not (len == (size.total_size + 4) % u32_mod)

-- The part of ya_serialize_event behind the two payloads: the sizes, the header and the body.
unfoldable pub frame : Bytes → Bytes → Bytes
frame header body =
    let total = length header + length body + 4 in
    be32 (total % u32_mod) ++ (be32 (length header % u32_mod) ++ (header ++ body))
