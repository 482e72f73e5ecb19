-- ===== src/Logger/Window.antt =====
-- The log as a bounded window on all that is written (server/src/ya_logger.c, ya_logger_log).
use mathlib.Core.List.{append_assoc, append-nil}
use mouse_hero.Base.{
  ℕ, zero, suc, ◌≡◌, refl, sym, ap, ◌∙◌, subst, Bool, true, false, ◌&&◌, Option, none, some, List,
  [], ◌∷◌, ◌++◌, All, length, take, drop, concat, leb, ltb, if◌then◌else◌, Bool-cases, inl, inr,
}
use mouse_hero.Logger.Lines.{line_of, IsShort, format_line_fits}
use mouse_hero.Logger.Rotation.{
  Shows, make_room, add_line, logged, open_logger, all_succeed, files_after, to_file-files_after,
  files_after-Shows,
}
use mouse_hero.Logger.{
  Level, Logger, LoggerConfig, Files, Output, Entry, Answers, backups, format_line, to_others,
  is_logged, log_line, ya_logger_log, cut_message,
}
use mouse_hero.Wire.{Bytes}

-- The output of one entry that is logged.
abbrev output_after : LoggerConfig → Entry → Output → Output
output_after c e out = record {
  files = files_after c (line_of e) out.files;
  console = if c.use_console then out.console ++ line_of e ∷ [] else out.console;
  system =
      if c.use_system_log then out.system ++ (e.level, cut_message e.message) ∷ [] else out.system;
}

ya_logger_log-output :
    (c : LoggerConfig) (error : Bool) (e : Entry) (out : Output)
    → c.log_file ≡ true
    → IsShort e
    → is_logged c.level e.level ≡ true
    → ya_logger_log all_succeed e (open_logger c error) out
      ≡ some (open_logger c error, output_after c e out)
unfolding ya_logger_log
ya_logger_log-output c error e out h short passes =
    let logger = open_logger c error in
    ap
      (λ (b : Bool).
        if b
        then log_line all_succeed e logger out (format_line e.timestamp e.level e.place e.message)
        else some (logger, out))
      passes
    ∙ (ap (log_line all_succeed e logger out) (format_line_fits e short)
        ∙ ap (to_others e (line_of e) out) (to_file-files_after c error (line_of e) out.files h))

ya_logger_log-skips :
    (a : Answers) (e : Entry) (logger : Logger) (out : Output)
    → is_logged logger.config.level e.level ≡ false
    → ya_logger_log a e logger out ≡ some (logger, out)
unfolding ya_logger_log
ya_logger_log-skips a e logger out h =
    ap
      (λ (b : Bool).
        if b
        then log_line a e logger out (format_line e.timestamp e.level e.place e.message)
        else some (logger, out))
      h

abbrev then_log :
    (Logger → Output → Option (Logger × Output))
    → Option (Logger × Output)
    → Option (Logger × Output)
then_log next none = none
then_log next (some (logger, out)) = next logger out

-- The calls one after the other.
abbrev pub log_all : List Entry → Logger → Output → Option (Logger × Output)
log_all [] logger out = some (logger, out)
log_all (e ∷ es) logger out = then_log (log_all es) (ya_logger_log all_succeed e logger out)

-- The lines of the entries whose level passes.
abbrev pub lines_of : Level → List Entry → List Bytes
lines_of threshold [] = []
lines_of threshold (e ∷ es) =
    if is_logged threshold e.level then line_of e ∷ lines_of threshold es else lines_of threshold es

abbrev pub logged_all : ℕ → ℕ → List Bytes → List Bytes → List Bytes
logged_all size n [] gens = gens
logged_all size n (line ∷ lines) gens = logged_all size n lines (logged size n line gens)

-- The texts in the order in which they were written.
abbrev pub flat : List Bytes → Bytes
flat [] = []
flat (g ∷ gs) = flat gs ++ g

flat-split : (n : ℕ) (gens : List Bytes) → flat (drop n gens) ++ flat (take n gens) ≡ flat gens
flat-split zero gens = append-nil (flat gens)
flat-split (suc n) [] = refl
flat-split (suc n) (g ∷ gs) =
    sym (append_assoc (flat (drop n gs)) (flat (take n gs)) g) ∙ ap (λ t. t ++ g) (flat-split n gs)

-- What one line loses is what stood behind the `n` newest texts.
logged-flat :
    (size n : ℕ) (line : Bytes) (gens : List Bytes)
    → (lost : Bytes) × (lost ++ flat (logged size n line gens) ≡ flat gens ++ line)
logged-flat size n line [] = ([], refl)
logged-flat size n line (g ∷ gs) = elim (Bool-cases (leb size (length g) && ltb 0 n)) [
  | inl rotates ↦ (
    flat (drop n (g ∷ gs)),
    ap
          (λ (b : Bool).
            flat (drop n (g ∷ gs))
            ++ flat (add_line line (if b then [] ∷ take n (g ∷ gs) else g ∷ gs)))
          rotates
        ∙ (sym (append_assoc (flat (drop n (g ∷ gs))) (flat (take n (g ∷ gs))) line)
            ∙ ap (λ t. t ++ line) (flat-split n (g ∷ gs))),
  )
  | inr stays ↦ (
    [],
    ap (λ (b : Bool). flat (add_line line (if b then [] ∷ take n (g ∷ gs) else g ∷ gs))) stays
        ∙ sym (append_assoc (flat gs) g line),
  )
]

pub logged_all-flat :
    (size n : ℕ) (lines gens : List Bytes)
    → (lost : Bytes) × (lost ++ flat (logged_all size n lines gens) ≡ flat gens ++ concat lines)
logged_all-flat size n [] gens = ([], sym (append-nil (flat gens)))
logged_all-flat size n (line ∷ lines) gens =
    let (lost, p) = logged-flat size n line gens in
    let (more, q) = logged_all-flat size n lines (logged size n line gens) in
    (
      lost ++ more,
      append_assoc lost more (flat (logged_all size n lines (logged size n line gens)))
          ∙ (ap (λ t. lost ++ t) q
              ∙ (sym (append_assoc lost (flat (logged size n line gens)) (concat lines))
                  ∙ (ap (λ t. t ++ concat lines) p
                      ∙ append_assoc (flat gens) line (concat lines)))),
    )

add_line-cons :
    (line : Bytes) (gens : List Bytes)
    → (g : Bytes) × (gs : List Bytes) × (add_line line gens ≡ g ∷ gs)
add_line-cons line [] = (line, [], refl)
add_line-cons line (g ∷ gs) = (g ++ line, gs, refl)

abbrev Ran : LoggerConfig → Bool → List Entry → List Bytes → Output → Type 0
Ran c error es gens out =
    (out' : Output) × (log_all es (open_logger c error) out ≡ some (open_logger c error, out'))
    × Shows (backups c.max_backup_files)
        (logged_all c.max_file_size (backups c.max_backup_files) (lines_of c.level es) gens)
        out'.files

passed-Shows :
    (c : LoggerConfig) (passes : Bool) (e : Entry) (es : List Entry) (gens : List Bytes)
    (files : Files)
    → is_logged c.level e.level ≡ passes
    → Shows
        (backups c.max_backup_files)
        (logged_all c.max_file_size
          (backups c.max_backup_files)
          (if passes then line_of e ∷ lines_of c.level es else lines_of c.level es)
          gens)
        files
    → Shows
        (backups c.max_backup_files)
        (logged_all c.max_file_size (backups c.max_backup_files) (lines_of c.level (e ∷ es)) gens)
        files
passed-Shows c passes e es gens files h s =
    subst
      (λ (b : Bool).
        Shows (backups c.max_backup_files)
          (logged_all c.max_file_size (backups c.max_backup_files)
            (if b then line_of e ∷ lines_of c.level es else lines_of c.level es) gens)
          files)
      (sym h) s

next-Ran :
    (c : LoggerConfig) (error passes : Bool) (e : Entry) (es : List Entry) (g : Bytes)
    (gs : List Bytes) (out : Output)
    → ((h : Bytes) (hs : List Bytes) (o : Output)
        → Shows (backups c.max_backup_files) (h ∷ hs) o.files
        → Ran c error es (h ∷ hs) o)
    → c.log_file ≡ true
    → IsShort e
    → is_logged c.level e.level ≡ passes
    → Shows (backups c.max_backup_files) (g ∷ gs) out.files
    → Ran c error (e ∷ es) (g ∷ gs) out
next-Ran c error true e es g gs out rest file short passes s =
    let n = backups c.max_backup_files in
    let gens = logged c.max_file_size n (line_of e) (g ∷ gs) in
    let (h, hs, cons) = add_line-cons (line_of e) (make_room c.max_file_size n (g ∷ gs)) in
    let (out', ran, shown) = rest h hs (output_after c e out) (
      subst (λ x. Shows n x (files_after c (line_of e) out.files)) cons
        (files_after-Shows c (line_of e) g gs out.files s)) in
    (
      out',
      ap (then_log (log_all es)) (ya_logger_log-output c error e out file short passes) ∙ ran,
      passed-Shows c true e es (g ∷ gs) out'.files passes (
          subst (λ x. Shows n (logged_all c.max_file_size n (lines_of c.level es) x) out'.files)
            (sym cons) shown),
    )
next-Ran c error false e es g gs out rest file short passes s =
    let (out', ran, shown) = rest g gs out s in
    (
      out',
      ap (then_log (log_all es))
            (ya_logger_log-skips all_succeed e (open_logger c error) out passes)
          ∙ ran,
      passed-Shows c false e es (g ∷ gs) out'.files passes shown,
    )

all-Ran :
    (c : LoggerConfig) (error : Bool) (es : List Entry) (g : Bytes) (gs : List Bytes) (out : Output)
    → c.log_file ≡ true
    → All IsShort es
    → Shows (backups c.max_backup_files) (g ∷ gs) out.files
    → Ran c error es (g ∷ gs) out
all-Ran c error [] g gs out file short s = (out, refl, s)
all-Ran c error (e ∷ es) g gs out file short s =
    next-Ran c error (is_logged c.level e.level) e es g gs out
      (λ h hs o t. all-Ran c error es h hs o file short.1 t) file short.0 refl s

-- The log file and its backups implement a list of texts, the newest first: with an open file, and where
-- each fopen and fputs succeeds, any calls of ya_logger_log with short times and places are defined. They
-- leave in the log file and in its first `max_backup_files` backups exactly what the abstract log has: a
-- line goes to the end of the newest text, and when that has `max_file_size` bytes or more it first makes
-- way for an empty one, the last backup being lost. So what was there and what the calls wrote is the
-- texts from the oldest to the newest, behind what the rotations have lost.
pub log_all-Shows :
    (c : LoggerConfig) (error : Bool) (es : List Entry) (g : Bytes) (gs : List Bytes) (out : Output)
    → c.log_file ≡ true
    → All IsShort es
    → Shows (backups c.max_backup_files) (g ∷ gs) out.files
    → let gens =
        logged_all c.max_file_size (backups c.max_backup_files) (lines_of c.level es) (g ∷ gs) in
      ((out' : Output) × (log_all es (open_logger c error) out ≡ some (open_logger c error, out'))
        × Shows (backups c.max_backup_files) gens out'.files)
      × ((lost : Bytes) × (lost ++ flat gens ≡ flat (g ∷ gs) ++ concat (lines_of c.level es)))
log_all-Shows c error es g gs out file short s = (
  all-Ran c error es g gs out file short s,
  logged_all-flat c.max_file_size (backups c.max_backup_files) (lines_of c.level es) (g ∷ gs),
)
