-- ===== src/Errors/Stack.antt =====
-- The error stack as a window on the errors so far (server/src/ya_error.c).
use mouse_hero.Base.{
  ℕ, zero, suc, ◌-◌, ◌≤◌, ◌<◌, ◌≡◌, inl, inr, refl, sym, ap, ◌∙◌, true, Bool-cases, Option, none,
  some, List, [], ◌∷◌, ◌++◌, length, take, drop, leb, arith, length-append, length-drop, take_all,
  le→leb, lt→leb_false,
}
use mouse_hero.Base.Int.{ℤ}
use mouse_hero.Errors.{ErrorInfo, ErrorContext, stack_size, ya_ok, push, set_error, clear, init}

-- The calls that change the context.
pub data Call : Type 0 where
  sets : ErrorInfo → Call
  clears : Call

abbrev pub step : Call → Option ErrorContext → Option ErrorContext
step (sets info) c = set_error true info c
step clears c = clear c

unfoldable pub run : List Call → Option ErrorContext → Option ErrorContext
run [] c = c
run (x ∷ xs) c = run xs (step x c)

-- The errors since the last clear, behind those before.
abbrev pub history : List Call → List ErrorInfo → List ErrorInfo
history [] before = before
history (sets info ∷ xs) before = history xs (before ++ info ∷ [])
history (clears ∷ xs) before = history xs []

module _ {ℓ} {A : Type ℓ} where
  abbrev pub latest : ℕ → List A → List A
  latest n xs = drop (length xs - n) xs

  drop-append : (k : ℕ) (xs ys : List A) → k ≤ length xs → drop k (xs ++ ys) ≡ drop k xs ++ ys
  drop-append zero xs ys h = refl
  drop-append (suc k) [] ys h = absurd (omega arith)
  drop-append (suc k) (x ∷ xs) ys h = drop-append k xs ys (omega arith)

  drop-drop : (k : ℕ) (xs : List A) → drop 1 (drop k xs) ≡ drop (suc k) xs
  drop-drop zero xs = refl
  drop-drop (suc k) [] = refl
  drop-drop (suc k) (x ∷ xs) = drop-drop k xs

  latest-snoc_full :
      (xs : List A) (x : A)
      → 64 ≤ length xs
      → latest 64 (xs ++ x ∷ []) ≡ take 63 (drop 1 (latest 64 xs)) ++ x ∷ []
  latest-snoc_full xs x h =
      ap (λ k. drop k (xs ++ x ∷ [])) counted
      ∙ drop-append (suc (length xs - 64)) xs (x ∷ []) (omega arith)
      ∙ ap (λ t. t ++ x ∷ []) (sym (drop-drop (length xs - 64) xs) ∙ sym (take_all 63 _ short))
    where
      counted : length (xs ++ x ∷ []) - 64 ≡ suc (length xs - 64)
      counted = omega (arith, length-append xs (x ∷ []))

      short : length (drop 1 (drop (length xs - 64) xs)) ≤ 63
      short =
          omega (arith, length-drop 1 (drop (length xs - 64) xs), length-drop (length xs - 64) xs)

  latest-snoc_room :
      (xs : List A) (x : A) → length xs < 64 → latest 64 (xs ++ x ∷ []) ≡ latest 64 xs ++ x ∷ []
  latest-snoc_room xs x h =
      ap (λ k. drop k (xs ++ x ∷ [])) all ∙ ap (λ k. drop k xs ++ x ∷ []) none_old
    where
      all : length (xs ++ x ∷ []) - 64 ≡ 0
      all = omega (arith, length-append xs (x ∷ []))

      none_old : 0 ≡ length xs - 64
      none_old = omega arith

  length-latest : (xs : List A) → length xs < 64 → length (latest 64 xs) < 64
  length-latest xs h = omega (arith, length-drop (length xs - 64) xs)

  length-latest_full : (xs : List A) → 64 ≤ length xs → 64 ≤ length (latest 64 xs)
  length-latest_full xs h = omega (arith, length-drop (length xs - 64) xs)

abbrev pub last_code : List ErrorInfo → ℤ
last_code [] = ya_ok
last_code (i ∷ []) = i.code
last_code (i ∷ j ∷ is) = last_code (j ∷ is)

-- What the context shows of the errors so far.
abbrev pub view : List ErrorInfo → ErrorContext
view h = record { last_error = last_code h; stack = latest stack_size h }

last_code-snoc : (h : List ErrorInfo) (i : ErrorInfo) → last_code (h ++ i ∷ []) ≡ i.code
last_code-snoc [] i = refl
last_code-snoc (a ∷ []) i = refl
last_code-snoc (a ∷ b ∷ h) i = last_code-snoc (b ∷ h) i

push-view : (h : List ErrorInfo) (i : ErrorInfo) → push i (view h) ≡ view (h ++ i ∷ [])
unfolding push
push-view h i = elim (Bool-cases (leb 64 (length h))) [
  | inl full ↦
      rw
        (
          last_code-snoc h i,
          latest-snoc_full h i (ground (arith, full)),
          le→leb 64 (length (latest 64 h)) (length-latest_full h (ground (arith, full))),
        )
        refl
  | inr room ↦
      rw
        (
          last_code-snoc h i,
          latest-snoc_room h i (ground (arith, room)),
          lt→leb_false (length (latest 64 h)) 64 (length-latest h (ground (arith, room))),
        )
        refl
]

run-view :
    (xs : List Call) (h : List ErrorInfo) → run xs (some (view h)) ≡ some (view (history xs h))
unfolding run set_error init clear
run-view [] h = refl
run-view (sets i ∷ xs) h = ap (λ c. run xs (some c)) (push-view h i) ∙ run-view xs (h ++ i ∷ [])
run-view (clears ∷ xs) h = run-view xs []

-- The bounded stack is a window on an unbounded history: after any calls, on a context that could be
-- allocated, it holds the latest 64 errors since the last clear, in their order, and the last error is
-- the code of the newest of them.
pub run-history : (xs : List Call) → run xs (init true none) ≡ some (view (history xs []))
unfolding init
run-history xs = run-view xs []
