-- ===== src/Tests/Instances.antt =====
-- A buffer and an encoding for the tests: a list of bytes, and a tag byte with four bytes behind it.
use mouse_hero.Base.{
  ℕ, ◌+◌, ◌*◌, ◌/◌, ◌-◌, ◌<◌, ◌≤◌, ◌^◌, ◌≡◌, refl, ap, ◌∙◌, Bool, true, false, Option, none, some,
  [], ◌∷◌, ◌++◌, length, take, drop, ltb, leb, ◌==◌, if◌then◌else◌, arith, le→leb, lt→leb_false,
  ==_refl, lt→ltb, take-length-append, drop-length-append,
}
use mouse_hero.Base.Int.{ℤ, pos, negsuc}
use mouse_hero.Filter.{Floats}
use mouse_hero.Wire.{Bytes, be32, read_be32, u32_mod}
use mouse_hero.Wire.Evbuffer.{Evbuffer}
use mouse_hero.Wire.Mpack.{Mpack, Fits}

abbrev pullup_list : Bytes → ℤ → Option Bytes
pullup_list b (pos n) = if leb n (length b) then some (take n b) else none
pullup_list b (negsuc n) = some b

abbrev pub list_buffer : Evbuffer
list_buffer = record {
  Buffer = Bytes;
  bytes = λ b. b;
  of_bytes = λ bs. bs;
  drain = λ b n. drop n b;
  pullup = pullup_list;
  copyout = λ b start n. take n (drop start b);
  bytes-of_bytes = λ bs. refl;
  bytes-drain = λ b n. refl;
  pullup_fits = λ b n p h. rw (le→leb n (length b) h) refl;
  pullup_short = λ b n h. rw (lt→leb_false (length b) n h) refl;
  pullup_all = λ b n h. refl;
  copyout_lem = λ b start n h. refl;
}

abbrev tagged : ℕ → ℕ → Bytes
tagged tag n = tag ∷ be32 n

abbrev Reader : Type 0
Reader = Option Bytes

abbrev failed : Reader → Bool
failed none = true
failed (some bs) = false

-- The number behind a tag.
abbrev word : Bytes → ℕ
word (a ∷ b ∷ c ∷ d ∷ rest) = read_be32 (a ∷ b ∷ c ∷ d ∷ [])
word _ = 0

abbrev expect_tag : ℕ → Reader → ℕ × Reader
expect_tag tag none = (0, none)
expect_tag tag (some []) = (0, none)
expect_tag tag (some (t ∷ bs)) = if t == tag then (word bs, some (drop 4 bs)) else (0, none)

abbrev signed : ℕ → Bytes → ℤ × Reader
signed n rest = if ltb n (2 ^ 31) then (pos n, some rest) else (pos 0, none)

abbrev expect_signed : Reader → ℤ × Reader
expect_signed none = (pos 0, none)
expect_signed (some []) = (pos 0, none)
expect_signed (some (t ∷ bs)) =
    if t == 1
    then signed (word bs) (drop 4 bs)
    else if t == 2
    then (negsuc (word bs), some (drop 4 bs))
    else (pos 0, none)

abbrev write_signed : ℤ → Bytes
write_signed (pos n) = tagged 1 n
write_signed (negsuc n) = tagged 2 n

abbrev read_some : Reader → ℕ → Bytes × Reader
read_some none n = ([], none)
read_some (some bs) n = (take n bs, some (drop n bs))

word-be32 : (n : ℕ) (rest : Bytes) → n < u32_mod → word (be32 n ++ rest) ≡ n
unfolding be32 read_be32
word-be32 n rest h = omega arith

drop-be32 : (n : ℕ) (rest : Bytes) → drop 4 (be32 n ++ rest) ≡ rest
unfolding be32
drop-be32 n rest = refl

pub expect_tag-tagged :
    (tag n : ℕ) (rest : Bytes)
    → n < u32_mod
    → expect_tag tag (some (tagged tag n ++ rest)) ≡ (n, some rest)
expect_tag-tagged tag n rest h = rw (==_refl tag, word-be32 n rest h, drop-be32 n rest) refl

pub expect_signed-write :
    (a : ℤ) (rest : Bytes) → Fits a → expect_signed (some (write_signed a ++ rest)) ≡ (a, some rest)
expect_signed-write (pos n) rest h =
    rw (word-be32 n rest (omega arith), drop-be32 n rest, lt→ltb n (2 ^ 31) h) refl
expect_signed-write (negsuc n) rest h = rw (word-be32 n rest (omega arith), drop-be32 n rest) refl

pub too_large :
    (n : ℕ) (rest : Bytes)
    → 2 ^ 31 ≤ n
    → n < u32_mod
    → failed (expect_signed (some (tagged 1 n ++ rest))).1 ≡ true
too_large n rest h lt = rw (word-be32 n rest lt, drop-be32 n rest, ltb_false) refl
  where
    ltb_false : ltb n (2 ^ 31) ≡ false
    ltb_false = ground arith

pub expect_signed_error :
    (r : Reader)
    → failed r ≡ true
    → ((expect_signed r).0 ≡ pos 0) × (failed (expect_signed r).1 ≡ true)
expect_signed_error none e = (refl, refl)
expect_signed_error (some bs) e = cc

tagged-append :
    (tag n : ℕ) (s rest : Bytes) → (tagged tag n ++ s) ++ rest ≡ tagged tag n ++ (s ++ rest)
unfolding be32
tagged-append tag n s rest = refl

pub expect_str-tagged :
    (s rest : Bytes)
    → length s < u32_mod
    → expect_tag 4 (some ((tagged 4 (length s) ++ s) ++ rest)) ≡ (length s, some (s ++ rest))
expect_str-tagged s rest h =
    ap (λ t. expect_tag 4 (some t)) (tagged-append 4 (length s) s rest)
    ∙ expect_tag-tagged 4 (length s) (s ++ rest) h

abbrev pub test_mpack : Mpack ℕ
test_mpack = record {
  start_array = tagged 3;
  write_bool = λ b. tagged 5 (if b then 1 else 0);
  write_u32 = tagged 1;
  write_i32 = write_signed;
  write_str = λ s. tagged 4 (length s) ++ s;
  write_float = tagged 6;
  Reader = Reader;
  init_data = λ bs len. some bs;
  flag_error = λ r. none;
  has_error = failed;
  expect_array = expect_tag 3;
  expect_i32 = expect_signed;
  expect_u32 = expect_tag 1;
  expect_float = expect_tag 6;
  expect_str = expect_tag 4;
  read_bytes = read_some;
  init_data_ok = λ bs. refl;
  flag_error_sticks = λ r. refl;
  start_array_pos = λ n. omega arith;
  write_str_pos = λ s. omega arith;
  expect_array-start = λ n rest h. expect_tag-tagged 3 n rest h;
  expect_u32-write = λ n rest h. expect_tag-tagged 1 n rest h;
  expect_i32-write = expect_signed-write;
  expect_i32-write_u32 = λ n rest h. expect_signed-write (pos n) rest h;
  expect_i32_too_large = too_large;
  expect_i32_error = expect_signed_error;
  expect_str-write = expect_str-tagged;
  read_bytes_lem = λ s rest. rw (take-length-append s rest, drop-length-append s rest) refl;
}

-- Floats as numbers of hundredths, without signs.
abbrev pub test_floats : Floats
test_floats = record {
  F = ℕ;
  decimal = λ n k. if k == 0 then n * 100 else if k == 1 then n * 10 else n;
  of_int = λ z. elim z [ pos n ↦ n * 100 | negsuc n ↦ 0 ];
  add = λ a b. a + b;
  sub = λ a b. a - b;
  mul = λ a b. a * b / 100;
  sqrt = λ a. a;
  pow = λ a b. a;
  fmax = λ a b. if ltb a b then b else a;
  fabs = λ a. a;
  lt = ltb;
  le = leb;
  floor = λ a. pos (a / 100);
  ceil = λ a. pos (a / 100);
  add_hundredths = λ a r. elim r [ pos n ↦ a + n | negsuc n ↦ a ];
}
