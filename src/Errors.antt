-- ===== src/Errors.antt =====
-- The error stack (server/src/ya_error.h and ya_error.c) of one thread. The context is none where it is
-- not allocated. Of the array of 64 the entries in use are kept, the oldest first; the messages of the
-- codes are their positions in `error_messages`.
pub mod Stack
pub mod Codes
use mouse_hero.Base.{
  ℕ, suc, ◌+◌, Bool, true, false, Option, none, some, List, [], ◌∷◌, ◌++◌, length, take, drop, leb,
  ◌==◌, if◌then◌else◌,
}
use mouse_hero.Base.Int.{ℤ, pos, negsuc}
use mouse_hero.Wire.{Bytes}

-- YA_ERROR_STACK_SIZE
abbrev pub stack_size : ℕ
stack_size = 64

-- ya_error_info_t
pub record ErrorInfo : Type 0 where
  pub code : ℤ
  pub message : Bytes
  pub file : Bytes
  pub line : ℤ
  pub function : Bytes

-- ya_error_context_t
pub record ErrorContext : Type 0 where
  pub last_error : ℤ
  pub stack : List ErrorInfo

-- YA_OK and YA_ERR_UNKNOWN
abbrev pub ya_ok : ℤ
ya_ok = pos 0

abbrev ya_err_unknown : ℤ
ya_err_unknown = negsuc 0

-- calloc's zeros
abbrev pub empty_context : ErrorContext
empty_context = record { last_error = ya_ok; stack = [] }

-- `calloc_ok` says that an allocation succeeds.
unfoldable pub init : Bool → Option ErrorContext → Option ErrorContext
init calloc_ok (some c) = some c
init calloc_ok none = if calloc_ok then some empty_context else none

-- What strncpy and the terminating zero keep of a text, empty for the null pointer.
abbrev copied : ℕ → Option Bytes → Bytes
copied n none = []
copied n (some s) = take n s

abbrev pub info_of : ℤ → Option Bytes → Option Bytes → ℤ → Option Bytes → ErrorInfo
info_of code message file line function = record {
  code = code;
  message = copied 255 message;
  file = copied 255 file;
  line = line;
  function = copied 63 function;
}

-- A full stack drops its oldest entry.
unfoldable pub push : ErrorInfo → ErrorContext → ErrorContext
push info c = record {
  last_error = info.code;
  stack =
      (if leb stack_size (length c.stack) then take 63 (drop 1 c.stack) else c.stack) ++ info ∷ [];
}

unfoldable pub set_error : Bool → ErrorInfo → Option ErrorContext → Option ErrorContext
set_error calloc_ok info context = elim (init calloc_ok context) [
  | none ↦ none
  | some c ↦ some (push info c)
]

unfoldable pub clear : Option ErrorContext → Option ErrorContext
clear none = none
clear (some c) = some empty_context

unfoldable pub get_last : Option ErrorContext → ℤ
get_last none = ya_err_unknown
get_last (some c) = c.last_error

abbrev pub lookup : List (ℕ × ℕ) → ℕ → ℕ
lookup [] n = 30
lookup ((c, i) ∷ cases) n = let later = lookup cases n in if n == c then i else later

-- The codes below zero, without their sign.
abbrev pub codes : List (ℕ × ℕ)
codes =
    (1, 1)
    ∷ (100, 2)
    ∷ (101, 3)
    ∷ (102, 4)
    ∷ (103, 5)
    ∷ (200, 6)
    ∷ (201, 7)
    ∷ (202, 8)
    ∷ (300, 9)
    ∷ (301, 10)
    ∷ (302, 11)
    ∷ (303, 12)
    ∷ (400, 13)
    ∷ (401, 14)
    ∷ (402, 15)
    ∷ (500, 16)
    ∷ (501, 17)
    ∷ (502, 18)
    ∷ (503, 19)
    ∷ (600, 20)
    ∷ (601, 21)
    ∷ (700, 22)
    ∷ (701, 23)
    ∷ (702, 24)
    ∷ []

unfoldable pub error_code_to_index : ℤ → ℕ
error_code_to_index (pos n) = if n == 0 then 0 else 30
error_code_to_index (negsuc n) = lookup codes (suc n)

-- The position in `error_messages`; none is "Invalid error code".
unfoldable pub get_message : ℤ → Option ℕ
get_message code = let i = error_code_to_index code in if leb 30 i then none else some i
