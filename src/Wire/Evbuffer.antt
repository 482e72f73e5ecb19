-- ===== src/Wire/Evbuffer.antt =====
-- libevent's evbuffer, as server/src/ya_event.c and ya_utils.c use it: a parameter, with the documented
-- behaviour of its calls. `bytes` is the view of a buffer as the data in it.
use mouse_hero.Base.{ℕ, ◌≤◌, ◌<◌, ◌≡◌, ◌≢◌, Option, none, some, [], length, take, drop}
use mouse_hero.Base.Int.{ℤ, pos, negsuc}
use mouse_hero.Wire.{Bytes}

pub record Evbuffer : Type 1 where
  pub Buffer : Type 0
  pub bytes : Buffer → Bytes
  -- evbuffer_new and evbuffer_add
  pub of_bytes : Bytes → Buffer
  -- evbuffer_drain
  pub drain : Buffer → ℕ → Buffer
  -- evbuffer_pullup: the contiguous data at the front, `none` for NULL
  pub pullup : Buffer → ℤ → Option Bytes
  -- evbuffer_ptr_set and evbuffer_copyout_from
  pub copyout : Buffer → ℕ → ℕ → Bytes
  pub bytes-of_bytes : (bs : Bytes) → bytes (of_bytes bs) ≡ bs
  pub bytes-drain : (b : Buffer) (n : ℕ) → bytes (drain b n) ≡ drop n (bytes b)
  -- A size that the buffer holds gives its first bytes, a greater one fails.
  pub pullup_fits :
      (b : Buffer) (n : ℕ)
      → 0 < n
      → n ≤ length (bytes b)
      → pullup b (pos n) ≡ some (take n (bytes b))
  pub pullup_short : (b : Buffer) (n : ℕ) → length (bytes b) < n → pullup b (pos n) ≡ none
  -- A negative size stands for all the data.
  pub pullup_all : (b : Buffer) (n : ℕ) → bytes b ≢ [] → pullup b (negsuc n) ≡ some (bytes b)
  -- As many bytes as there are, up to those asked for.
  pub copyout_lem :
      (b : Buffer) (start n : ℕ)
      → start ≤ length (bytes b)
      → copyout b start n ≡ take n (drop start (bytes b))
