-- ===== src/Backend/Held.antt =====
-- Which keys are down after the writes of the backend (server/src/input/backend/linux_uinput.c).
use mouse_hero.Backend.Emits.{key_action_raw, perform, perform-open, sent, emits, keyed, syn}
use mouse_hero.Backend.{
  BackendStatus, ok, error_device, Syscall, writes, Uinput, syscall, event, ev_key, answer,
}
use mouse_hero.Base.{
  ℕ, ◌<◌, ◌^◌, ◌%◌, Bool, true, false, not, ◌&&◌, List, [], ◌∷◌, ◌++◌, ◌≡◌, inl, inr, refl, ◌∙◌,
  ◌==◌, if◌then◌else◌, Bool-cases, arith,
}
use mouse_hero.Base.Int.{pos, is_zero}
use mouse_hero.Input.{click}

-- A write that succeeded puts its key up (0) or down.
abbrev pub moved : ℕ → Bool → Syscall × Bool → Bool
moved code was (writes e, true) =
    if e.type == ev_key && e.code == code then not (is_zero e.value) else was
moved code was (_, _) = was

abbrev pub is_down : ℕ → Bool → List (Syscall × Bool) → Bool
is_down code was [] = was
is_down code was (c ∷ cs) = is_down code (moved code was c) cs

is_down-append :
    (code : ℕ) (was : Bool) (xs ys : List (Syscall × Bool))
    → is_down code was (xs ++ ys) ≡ is_down code (is_down code was xs) ys
is_down-append code was [] ys = refl
is_down-append code was (x ∷ xs) ys = is_down-append code (moved code was x) xs ys

module _ (code : ℕ) (small : code < 2 ^ 16) where
  same_code : (code % 2 ^ 16 == code) ≡ true
  same_code = ground arith

  -- A log that ends with a press of the key
  down_pressed :
      (log : List (Syscall × Bool))
      → is_down code false (log ++ sent (event ev_key code (pos 1)) ∷ []) ≡ true
  down_pressed log = is_down-append code false log _ ∙ rw same_code refl

  -- A log that ends with a release of it
  up_released :
      (log : List (Syscall × Bool))
      → is_down code false (log ++ sent (event ev_key code (pos 0)) ∷ []) ≡ false
  up_released log = is_down-append code false log _ ∙ rw same_code refl

  pressed : List (Syscall × Bool) → List (Syscall × Bool)
  pressed log = log ++ sent (event ev_key code (pos 1)) ∷ []

  released : List (Syscall × Bool) → List (Syscall × Bool)
  unfolding pressed
  released log = pressed log ++ sent syn ∷ [] ++ sent (event ev_key code (pos 0)) ∷ []

  -- What a click writes, by the answers to its first three writes.
  abbrev Clicked : Bool → Bool → List Bool → BackendStatus × Uinput → Type 0
  Clicked a b rest (status, u) =
      (status ≡ (if a && (b && answer rest) then ok else error_device))
      × (is_down code false u.log ≡ not (a && b))

  emits-Clicked :
      (u : Uinput) (a b : Bool) (rest : List Bool)
      → u.answers ≡ true ∷ a ∷ b ∷ rest
      → Clicked a b rest (emits (keyed code 1 ++ keyed code 0) u)
  unfolding syscall released
  emits-Clicked u false b rest e =
      rw e (refl, is_down-append code false (pressed u.log) _ ∙ down_pressed u.log)
  emits-Clicked u true false rest e = rw e (
    refl,
    is_down-append code false (pressed u.log ++ sent syn ∷ []) _
        ∙ is_down-append code false (pressed u.log) _
        ∙ down_pressed u.log,
  )
  emits-Clicked u true true rest e = elim (Bool-cases (answer rest)) [
    | inl fine ↦
        rw (e, fine)
          (
            refl,
            is_down-append code false (released u.log) _
                ∙ up_released (pressed u.log ++ sent syn ∷ []),
          )
    | inr failed ↦
        rw (e, failed)
          (
            refl,
            is_down-append code false (released u.log) _
                ∙ up_released (pressed u.log ++ sent syn ∷ []),
          )
  ]

-- A click of a key on an open device whose press is written: it returns OK exactly if the writes of
-- the report, the release and the last report succeed as well; and afterwards the key is down exactly
-- if the write of the first report or that of the release has failed.
pub click_holds :
    (code : ℕ) (u : Uinput) (a b : Bool) (rest : List Bool)
    → u.is_open ≡ true
    → code < 2 ^ 16
    → u.answers ≡ true ∷ a ∷ b ∷ rest
    → let (status, u') = perform (key_action_raw code click) u in
      (status ≡ (if a && (b && answer rest) then ok else error_device))
      × (is_down code false u'.log ≡ not (a && b))
click_holds code u a b rest opened small e =
    rw (perform-open (key_action_raw code click) u _ opened refl)
      (emits-Clicked code small u a b rest e)
