-- ===== src/Wire/Payload.antt =====
-- The (de)serializers of the payloads, and which of them an event's type selects
-- (server/src/ya_event.c). The parsers do not look at the reader's error, and read zeros behind one.
-- Allocations succeed here. `none` is undefined behaviour: a structure of another event or a null
-- pointer given to a serializer, or the text whose length plus one wraps to 0.
use mouse_hero.Base.{ℕ, ◌+◌, ◌%◌, Option, none, some, [], ◌∷◌, ◌++◌, ltb, ◌==◌, if◌then◌else◌, ◌||◌}
use mouse_hero.Wire.{
  Bytes, Param, absent, common_request, keyboard_request, text_request, text_response,
  authorize_request, authorize_response, session_option_request, discover_request,
  discover_response, AuthorizeResponse, u32_mod, mouse_move, mouse_click, mouse_wheel, keyboard,
  text_input, text_get, discover, control, authorize, session_option, discovery_magic,
  protocol_version,
}
use mouse_hero.Wire.Mpack.{Mpack}

-- The bytes of a buffer in front of its first zero.
unfoldable pub c_str : Bytes → Bytes
c_str [] = []
c_str (b ∷ bs) = if b == 0 then [] else b ∷ c_str bs

abbrev or_empty : Option Bytes → Bytes
or_empty none = []
or_empty (some s) = s

-- get_serializer and get_parser: the direction is not looked at.
pub data Serializer : Type 0 where
  common keyboard_keys text_in text_out authorize_out discover_out no_serializer : Serializer

pub data Parser : Type 0 where
  common keyboard_keys text_in text_out authorize_in session_option_in discover_in no_parser :
      Parser

unfoldable pub get_serializer : ℕ → Serializer
get_serializer type =
    if type == mouse_move || type == mouse_click || type == mouse_wheel || type == control
    then Serializer.common
    else if type == keyboard
    then Serializer.keyboard_keys
    else if type == text_input
    then Serializer.text_in
    else if type == text_get
    then Serializer.text_out
    else if type == authorize
    then Serializer.authorize_out
    else if type == discover
    then Serializer.discover_out
    else Serializer.no_serializer

unfoldable pub get_parser : ℕ → Parser
get_parser type =
    if type == mouse_move || type == mouse_click || type == mouse_wheel || type == control
    then Parser.common
    else if type == keyboard
    then Parser.keyboard_keys
    else if type == text_input
    then Parser.text_in
    else if type == text_get
    then Parser.text_out
    else if type == authorize
    then Parser.authorize_in
    else if type == session_option
    then Parser.session_option_in
    else if type == discover
    then Parser.discover_in
    else Parser.no_parser

module _ {F : Type 0} (mp : Mpack F) where
  open mp use {
    start_array, write_bool, write_u32, write_i32, write_str, write_float, Reader, init_data,
    has_error, expect_array, expect_i32, expect_u32, expect_float, expect_str, read_bytes,
  }

  unfoldable pub serialize_authorize_response : AuthorizeResponse F → Bytes
  serialize_authorize_response resp =
      let fields =
        write_bool resp.success
        ++ (write_u32 resp.os_type
            ++ (write_u32 resp.uid
                ++ (write_u32 resp.session_port
                    ++ (write_u32 resp.command_port
                        ++ (write_str (or_empty resp.macs) ++ write_float resp.display_scale))))) in
      if ltb resp.client_version 2
      then start_array 7 ++ fields
      else start_array 8 ++ (fields ++ write_u32 protocol_version)

  unfoldable pub serialize : Serializer → Param F → Option Bytes
  unfolding serialize_authorize_response
  serialize Serializer.common (common_request lparam rparam) =
      some (start_array 2 ++ (write_i32 lparam ++ write_i32 rparam))
  serialize Serializer.keyboard_keys (keyboard_request code op mods) =
      some (start_array 3 ++ (write_i32 code ++ (write_i32 op ++ write_u32 mods)))
  serialize Serializer.text_in (text_request text) = some (write_str text)
  serialize Serializer.text_out (text_response text) = some (write_str text)
  serialize Serializer.authorize_out (authorize_response resp) =
      some (serialize_authorize_response resp)
  serialize Serializer.discover_out (discover_response magic port) =
      some (start_array 2 ++ (write_u32 discovery_magic ++ write_u32 port))
  serialize Serializer.no_serializer param = some []
  serialize _ _ = none

  unfoldable pub parse_common : Bytes → ℕ → Param F
  parse_common input len =
      let (n, r1) = expect_array (init_data input len) in
      let (lparam, r2) = expect_i32 r1 in
      let (rparam, r3) = expect_i32 r2 in common_request lparam rparam

  unfoldable pub parse_keyboard : Bytes → ℕ → Param F
  parse_keyboard input len =
      let (n, r1) = expect_array (init_data input len) in
      let (code, r2) = expect_i32 r1 in
      let (op, r3) = expect_i32 r2 in
      let (mods, r4) = expect_u32 r3 in keyboard_request code op mods

  -- parse_text_input_request and parse_text_get_response: a length, and so many bytes behind it in a
  -- buffer of one more.
  unfoldable pub parse_text : Bytes → ℕ → Option Bytes
  unfolding c_str
  parse_text input len =
      let (str_len, r1) = expect_str (init_data input len) in
      let (text, r2) = read_bytes r1 str_len in
      if (str_len + 1) % u32_mod == 0 then none else some (c_str text)

  unfoldable pub parse_authorize : Bytes → ℕ → Param F
  parse_authorize input len =
      let (n, r1) = expect_array (init_data input len) in
      let (type, r2) = expect_u32 r1 in
      let (version, r3) = expect_u32 r2 in authorize_request type version

  -- The structure is zeroed first, and the float read only where the reader has no error.
  unfoldable pub parse_session_option : F → Bytes → ℕ → Param F
  parse_session_option float_zero input len =
      let (n, r1) = expect_array (init_data input len) in
      session_option_request (if has_error r1 then float_zero else (expect_float r1).0)

  unfoldable pub parse_discover : Bytes → ℕ → Param F
  parse_discover input len = discover_request (expect_u32 (init_data input len)).0

  abbrev with_text : (Bytes → Param F) → Option Bytes → Option (Param F)
  with_text k none = none
  with_text k (some s) = some (k s)

  -- `float_zero` is the float 0.
  unfoldable pub parse : F → Parser → Bytes → ℕ → Option (Param F)
  unfolding parse_common parse_keyboard parse_text parse_authorize parse_session_option
      parse_discover
  parse float_zero Parser.common input len = some (parse_common input len)
  parse float_zero Parser.keyboard_keys input len = some (parse_keyboard input len)
  parse float_zero Parser.text_in input len = with_text text_request (parse_text input len)
  parse float_zero Parser.text_out input len = with_text text_response (parse_text input len)
  parse float_zero Parser.authorize_in input len = some (parse_authorize input len)
  parse float_zero Parser.session_option_in input len =
      some (parse_session_option float_zero input len)
  parse float_zero Parser.discover_in input len = some (parse_discover input len)
  parse float_zero Parser.no_parser input len = some absent
