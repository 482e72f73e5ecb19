-- ===== src/Logger/Rotation.antt =====
-- The log as a bounded window on all that was written (server/src/ya_logger.c).
use mouse_hero.Base.{
  ℕ, zero, suc, ◌<◌, ◌≤◌, ◌≡◌, refl, sym, ap, ◌∙◌, subst, Bool, true, false, not, ◌&&◌, ◌||◌,
  Option, none, some, List, [], ◌∷◌, ◌++◌, length, take, leb, ltb, if◌then◌else◌, inr, arith,
}
use mouse_hero.Logger.Files.{HasNoGap, store-other, rotate_moves, rotate-zero}
use mouse_hero.Logger.{
  Logger, LoggerConfig, Files, Answers, rotate, open_append, backups, is_full, check_and_rotate_log,
  append_line, put_line, to_file, or_new,
}
use mouse_hero.Wire.{Bytes}

abbrev pub nth : ℕ → List Bytes → Option Bytes
nth n [] = none
nth zero (g ∷ gs) = some g
nth (suc n) (g ∷ gs) = nth n gs

-- The log file and its first `n` backups hold the texts, the newest first, and there are no more.
abbrev pub Shows : ℕ → List Bytes → Files → Type 0
Shows n gens files = (k : ℕ) → k ≤ n → files k ≡ nth k gens

-- The abstract log: a full text makes way for an empty one, and `n` older ones are kept.
abbrev pub make_room : ℕ → ℕ → List Bytes → List Bytes
make_room size n [] = [] ∷ []
make_room size n (g ∷ gs) = if leb size (length g) && ltb 0 n then [] ∷ take n (g ∷ gs) else g ∷ gs

abbrev pub add_line : Bytes → List Bytes → List Bytes
add_line line [] = line ∷ []
add_line line (g ∷ gs) = (g ++ line) ∷ gs

abbrev pub logged : ℕ → ℕ → Bytes → List Bytes → List Bytes
logged size n line gens = add_line line (make_room size n gens)

nth-gap : (k : ℕ) (gens : List Bytes) → nth k gens ≡ none → nth (suc k) gens ≡ none
nth-gap k [] h = refl
nth-gap zero (g ∷ gs) h = absurd (ground (arith, h))
nth-gap (suc k) (g ∷ gs) h = nth-gap k gs h

Shows-HasNoGap : (n : ℕ) (gens : List Bytes) (files : Files) → Shows n gens files → HasNoGap n files
Shows-HasNoGap n gens files s k h absent =
    s (suc k) (omega (arith, h)) ∙ nth-gap k gens (sym (s k (omega (arith, h))) ∙ absent)

nth-take : (n k : ℕ) (gens : List Bytes) → k < n → nth k (take n gens) ≡ nth k gens
nth-take zero k gens h = absurd (omega (arith, h))
nth-take (suc n) k [] h = refl
nth-take (suc n) zero (g ∷ gs) h = refl
nth-take (suc n) (suc k) (g ∷ gs) h = nth-take n k gs (omega (arith, h))

-- The file that is open has the line at its end, and the others are as before.
append-Shows :
    (n : ℕ) (line g : Bytes) (gs : List Bytes) (files : Files)
    → Shows n (g ∷ gs) files
    → Shows n ((g ++ line) ∷ gs) (append_line line files)
append-Shows n line g gs files s zero h = ap (λ c. some (or_new c ++ line)) (s 0 h)
append-Shows n line g gs files s (suc k) h =
    store-other 0 (suc k) (some (or_new (files 0) ++ line)) files (inr (omega arith)) ∙ s (suc k) h

open-Shows :
    (n : ℕ) (g : Bytes) (gs : List Bytes) (files : Files)
    → Shows n (g ∷ gs) files
    → Shows n (g ∷ gs) (open_append files)
open-Shows n g gs files s zero h = ap (λ c. some (or_new c)) (s 0 h)
open-Shows n g gs files s (suc k) h =
    store-other 0 (suc k) (some (or_new (files 0))) files (inr (omega arith)) ∙ s (suc k) h

rotated-Shows :
    (n : ℕ) (g : Bytes) (gs : List Bytes) (files : Files)
    → 0 < n
    → Shows n (g ∷ gs) files
    → Shows n ([] ∷ take n (g ∷ gs)) (open_append (rotate n files))
rotated-Shows n g gs files some_kept s zero h =
    ap (λ c. some (or_new c)) (rotate-zero n files some_kept)
rotated-Shows n g gs files some_kept s (suc k) h =
    store-other 0 (suc k) (some (or_new (rotate n files 0))) (rotate n files) (inr (omega arith))
    ∙ (rotate_moves n k files (Shows-HasNoGap n (g ∷ gs) files s) (omega (arith, h))
        ∙ (s k (omega (arith, h)) ∙ sym (nth-take n k (g ∷ gs) (omega (arith, h)))))

kept-Shows :
    (kept : Bool) (n : ℕ) (g : Bytes) (gs : List Bytes) (files : Files)
    → ltb 0 n ≡ kept
    → Shows n (g ∷ gs) files
    → Shows n (if kept then [] ∷ take n (g ∷ gs) else g ∷ gs) (open_append (rotate n files))
kept-Shows true n g gs files h s = rotated-Shows n g gs files (ground (arith, h)) s
kept-Shows false n g gs files h s =
    let none_kept : 0 ≡ n = ground (arith, h) in
    subst (λ m. Shows n (g ∷ gs) (open_append (rotate m files))) none_kept
      (open-Shows n g gs files s)

room-Shows :
    (full : Bool) (n : ℕ) (g : Bytes) (gs : List Bytes) (files : Files)
    → Shows n (g ∷ gs) files
    → Shows n
        (if full && ltb 0 n then [] ∷ take n (g ∷ gs) else g ∷ gs)
        (if full then open_append (rotate n files) else files)
room-Shows true n g gs files s = kept-Shows (ltb 0 n) n g gs files refl s
room-Shows false n g gs files s = s

add_line-Shows :
    (n : ℕ) (line : Bytes) (full : Bool) (g : Bytes) (gs : List Bytes) (files : Files)
    → Shows n (if full then [] ∷ take n (g ∷ gs) else g ∷ gs) files
    → Shows n
        (add_line line (if full then [] ∷ take n (g ∷ gs) else g ∷ gs))
        (append_line line files)
add_line-Shows n line true g gs files s = append-Shows n line [] (take n (g ∷ gs)) files s
add_line-Shows n line false g gs files s = append-Shows n line g gs files s

-- A logger whose file is open.
abbrev pub open_logger : LoggerConfig → Bool → Logger
open_logger c error = record { config = c; log_fp = true; last_error = error }

abbrev pub all_succeed : Answers
all_succeed = record { reopens = true; writes = true }

-- What a rotation and a line leave of the files.
abbrev pub files_after : LoggerConfig → Bytes → Files → Files
files_after c line files = append_line line (
    if is_full c.max_file_size (files 0)
    then open_append (rotate (backups c.max_backup_files) files)
    else files)

pair_if :
    (b : Bool) (x y : Files)
    → let at_x : Bool × Files = (true, x) in
      let at_y : Bool × Files = (true, y) in
      let result : Bool × Files = (true, (if b then x else y)) in
      (if b then at_x else at_y) ≡ result
pair_if true x y = refl
pair_if false x y = refl

pub to_file-files_after :
    (c : LoggerConfig) (error : Bool) (line : Bytes) (files : Files)
    → c.log_file ≡ true
    → to_file all_succeed line (open_logger c error) files
      ≡ some (open_logger c error, files_after c line files)
unfolding check_and_rotate_log
to_file-files_after c error line files h =
    let rotated = open_append (rotate (backups c.max_backup_files) files) in
    let full = is_full c.max_file_size (files 0) in
    ap
      (λ (b : Bool).
        put_line true line (open_logger c error) (
          if not b || false
          then (true, files)
          else if full
          then (true, rotated)
          else (true, files)))
      h
    ∙ ap (put_line true line (open_logger c error)) (pair_if full rotated files)

pub files_after-Shows :
    (c : LoggerConfig) (line g : Bytes) (gs : List Bytes) (files : Files)
    → Shows (backups c.max_backup_files) (g ∷ gs) files
    → Shows
        (backups c.max_backup_files)
        (logged c.max_file_size (backups c.max_backup_files) line (g ∷ gs))
        (files_after c line files)
files_after-Shows c line g gs files s =
    let n = backups c.max_backup_files in
    let full = leb c.max_file_size (length g) in
    let e : is_full c.max_file_size (files 0) ≡ full =
      ap (is_full c.max_file_size) (s 0 (omega arith)) in
    add_line-Shows n line (full && ltb 0 n) g gs _ (
      subst
        (λ b.
          Shows n (if full && ltb 0 n then [] ∷ take n (g ∷ gs) else g ∷ gs)
            (if b then open_append (rotate n files) else files))
        (sym e) (room-Shows full n g gs files s))
