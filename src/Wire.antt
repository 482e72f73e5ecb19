-- ===== src/Wire.antt =====
-- The wire protocol (server/src/ya_event.h and ya_event.c): the codes and structures of its events,
-- and the four-byte sizes in front of a frame. libevent's buffers and the MessagePack library come in
-- through the interfaces of `Wire.Evbuffer` and `Wire.Mpack`.
pub mod Evbuffer
pub mod Mpack
pub mod Framing
pub mod Header
pub mod Payload
pub mod Codec
pub mod RoundTrip
pub mod Payloads
pub mod Survival
pub mod Malformed
use mouse_hero.Base.{
  ℕ, zero, suc, ◌+◌, ◌-◌, ◌*◌, ◌/◌, ◌%◌, ◌^◌, Bool, Option, List, [], ◌∷◌, ltb, if◌then◌else◌, ◌<◌,
  ◌≡◌, ◌≤◌, refl, arith,
}
use mouse_hero.Base.Int.{ℤ, pos, negsuc}

abbrev pub Bytes : Type 0
Bytes = List ℕ

-- YAEventType
abbrev pub mouse_move : ℕ
mouse_move = 0x1

abbrev pub mouse_click : ℕ
mouse_click = 0x2

abbrev pub mouse_wheel : ℕ
mouse_wheel = 0x3

abbrev pub keyboard : ℕ
keyboard = 0x4

abbrev pub text_input : ℕ
text_input = 0x5

abbrev pub text_get : ℕ
text_get = 0x6

abbrev pub discover : ℕ
discover = 0x7

abbrev pub mouse_stop : ℕ
mouse_stop = 0x8

abbrev pub control : ℕ
control = 0x9

abbrev pub authorize : ℕ
authorize = 0xA

abbrev pub heartbeat : ℕ
heartbeat = 0xB

abbrev pub session_option : ℕ
session_option = 0xC

-- YAEventDirection
abbrev pub request : ℕ
request = 0x1

abbrev pub response : ℕ
response = 0x2

abbrev pub discovery_magic : ℕ
discovery_magic = 0x4B424D43

-- YA_PROTOCOL_VERSION
abbrev pub protocol_version : ℕ
protocol_version = 3

-- YAEventHeader. The two codes are the numbers that the casts to the enums keep.
pub record EventHeader : Type 0 where
  pub type : ℕ
  pub direction : ℕ
  pub index : ℕ  -- uint32_t
  pub uid : ℕ  -- uint32_t

-- YAAuthorizeEventResponse; `macs` is none for the null pointer.
pub record AuthorizeResponse (F : Type 0) : Type 0 where
  pub success : Bool
  pub os_type : ℕ
  pub uid : ℕ
  pub session_port : ℕ
  pub command_port : ℕ
  pub macs : Option Bytes
  pub display_scale : F
  pub client_version : ℕ

-- What `param` of a YAEvent points to: one of the structures, or nothing. A text is its bytes in
-- front of the terminating zero. `F` is the type of the floats.
pub data Param (F : Type 0) : Type 0 where
  absent : Param F
  common_request : ℤ → ℤ → Param F
  keyboard_request : ℤ → ℤ → ℕ → Param F
  text_request : Bytes → Param F
  text_response : Bytes → Param F
  authorize_request : ℕ → ℕ → Param F
  authorize_response : AuthorizeResponse F → Param F
  session_option_request : F → Param F
  discover_request : ℕ → Param F
  discover_response : ℕ → ℕ → Param F

pub record Event (F : Type 0) : Type 0 where
  pub header : EventHeader
  pub param : Param F

abbrev pub u32_mod : ℕ
u32_mod = 2 ^ 32

-- (uint32_t) of an int32_t
abbrev pub to_u32 : ℤ → ℕ
to_u32 (pos n) = n % u32_mod
to_u32 (negsuc n) = u32_mod - 1 - n % u32_mod

-- (int) of a uint32_t
abbrev pub to_i32 : ℕ → ℤ
to_i32 w = if ltb w (2 ^ 31) then pos w else negsuc (u32_mod - w - 1)

-- (size_t) of an int, on 64 bits
abbrev pub to_size : ℤ → ℕ
to_size (pos n) = n
to_size (negsuc n) = 2 ^ 64 - 1 - n

-- htonl, in memory
unfoldable pub be32 : ℕ → Bytes
be32 n = (n / 2 ^ 24 % 256) ∷ (n / 2 ^ 16 % 256) ∷ (n / 2 ^ 8 % 256) ∷ (n % 256) ∷ []

-- ntohl of what was copied over a zero word
unfoldable pub read_be32 : Bytes → ℕ
read_be32 [] = 0
read_be32 (a ∷ []) = a * 2 ^ 24
read_be32 (a ∷ b ∷ []) = a * 2 ^ 24 + b * 2 ^ 16
read_be32 (a ∷ b ∷ c ∷ []) = a * 2 ^ 24 + b * 2 ^ 16 + c * 2 ^ 8
read_be32 (a ∷ b ∷ c ∷ d ∷ _) = a * 2 ^ 24 + b * 2 ^ 16 + c * 2 ^ 8 + d

pub read_be32-be32 : (n : ℕ) → n < u32_mod → read_be32 (be32 n) ≡ n
unfolding be32 read_be32
read_be32-be32 n h = omega arith
