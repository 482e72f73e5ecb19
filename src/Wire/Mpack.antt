-- ===== src/Wire/Mpack.antt =====
-- The MessagePack library (server/src/mpack), as server/src/ya_event.c uses it: a parameter, with the
-- documented behaviour of its calls. A writer's call is the bytes that it appends. A reader that an
-- error has been flagged on stays in error, and reads zeros. The calls that only check how compounds
-- are nested (`mpack_done_array`, `mpack_finish_array`) do nothing in a build without that tracking.
use mouse_hero.Base.{ℕ, ◌≤◌, ◌<◌, ◌^◌, ◌≡◌, Bool, true, false, ◌++◌, length}
use mouse_hero.Base.Int.{ℤ, pos, negsuc}
use mouse_hero.Wire.{Bytes, u32_mod}

-- The range of an int32_t.
abbrev pub Fits : ℤ → Type 0
Fits (pos n) = n < 2 ^ 31
Fits (negsuc n) = n < 2 ^ 31

pub record Mpack (F : Type 0) : Type 1 where
  pub start_array : ℕ → Bytes
  pub write_bool : Bool → Bytes
  pub write_u32 : ℕ → Bytes
  pub write_i32 : ℤ → Bytes
  pub write_str : Bytes → Bytes
  pub write_float : F → Bytes
  pub Reader : Type 0
  -- mpack_reader_init_data, on the data at a pointer and the length that is claimed for it
  pub init_data : Bytes → ℕ → Reader
  pub flag_error : Reader → Reader
  -- mpack_reader_error is not mpack_ok
  pub has_error : Reader → Bool
  pub expect_array : Reader → ℕ × Reader
  pub expect_i32 : Reader → ℤ × Reader
  pub expect_u32 : Reader → ℕ × Reader
  pub expect_float : Reader → F × Reader
  pub expect_str : Reader → ℕ × Reader
  pub read_bytes : Reader → ℕ → Bytes × Reader
  pub init_data_ok : (bs : Bytes) → has_error (init_data bs (length bs)) ≡ false
  pub flag_error_sticks : (r : Reader) → has_error (flag_error r) ≡ true
  -- Every element takes at least one byte.
  pub start_array_pos : (n : ℕ) → 0 < length (start_array n)
  pub write_str_pos : (s : Bytes) → 0 < length (write_str s)
  -- What was written is read back, and the reader stands behind it.
  pub expect_array-start :
      (n : ℕ) (rest : Bytes)
      → n < u32_mod
      → let all = start_array n ++ rest in
        expect_array (init_data all (length all)) ≡ (n, init_data rest (length rest))
  pub expect_u32-write :
      (n : ℕ) (rest : Bytes)
      → n < u32_mod
      → let all = write_u32 n ++ rest in
        expect_u32 (init_data all (length all)) ≡ (n, init_data rest (length rest))
  pub expect_i32-write :
      (a : ℤ) (rest : Bytes)
      → Fits a
      → let all = write_i32 a ++ rest in
        expect_i32 (init_data all (length all)) ≡ (a, init_data rest (length rest))
  -- An unsigned number is accepted as a signed one where it fits, and is an error where it does not.
  pub expect_i32-write_u32 :
      (n : ℕ) (rest : Bytes)
      → n < 2 ^ 31
      → let all = write_u32 n ++ rest in
        expect_i32 (init_data all (length all)) ≡ (pos n, init_data rest (length rest))
  pub expect_i32_too_large :
      (n : ℕ) (rest : Bytes)
      → 2 ^ 31 ≤ n
      → n < u32_mod
      → let all = write_u32 n ++ rest in
        has_error (expect_i32 (init_data all (length all))).1 ≡ true
  pub expect_i32_error :
      (r : Reader)
      → has_error r ≡ true
      → ((expect_i32 r).0 ≡ pos 0) × (has_error (expect_i32 r).1 ≡ true)
  pub expect_str-write :
      (s rest : Bytes)
      → length s < u32_mod
      → let all = write_str s ++ rest in
        expect_str (init_data all (length all))
        ≡ (length s, init_data (s ++ rest) (length (s ++ rest)))
  pub read_bytes_lem :
      (s rest : Bytes)
      → read_bytes (init_data (s ++ rest) (length (s ++ rest))) (length s)
        ≡ (s, init_data rest (length rest))
