-- ===== src/Logger.antt =====
-- The logger (server/src/ya_logger.c and ya_logger.h), in the Linux build. A file's name is its number: 0
-- for the log file and n for its backup "<log_file>.n"; the names fit in their arrays of 256 bytes, so
-- that they differ. The arguments of a call are what the C library has made of the time, the place and the
-- message. The call of `mkdir` is left out, and nothing else touches the files.
pub mod Files
pub mod Rotation
pub mod Lines
pub mod Window
use mouse_hero.Base.Ascii.{ascii}
use mouse_hero.Base.{
  ℕ, zero, suc, ◌+◌, ◌-◌, Bool, true, false, not, ◌&&◌, ◌||◌, Option, none, some, List, [], ◌∷◌,
  ◌++◌, length, take, ltb, leb, ◌==◌, if◌then◌else◌,
}
use mouse_hero.Base.Int.{ℤ, pos, negsuc}
use mouse_hero.Wire.{Bytes}

-- ya_log_level_t
pub data Level : Type 0 where
  trace debug info warn error fatal off : Level

abbrev pub level_value : Level → ℕ
level_value trace = 0
level_value debug = 1
level_value info = 2
level_value warn = 3
level_value error = 4
level_value fatal = 5
level_value off = 6

abbrev pub ya_logger_level_name : Level → Bytes
ya_logger_level_name trace = ascii "TRACE"
ya_logger_level_name debug = ascii "DEBUG"
ya_logger_level_name info = ascii "INFO"
ya_logger_level_name warn = ascii "WARN"
ya_logger_level_name error = ascii "ERROR"
ya_logger_level_name fatal = ascii "FATAL"
ya_logger_level_name off = ascii "OFF"

abbrev pub max_message_size : ℕ
max_message_size = 8192

abbrev pub max_final_message_size : ℕ
max_final_message_size = 16384

-- ya_logger_config_t; `log_file` says whether there is one.
pub record LoggerConfig : Type 0 where
  pub level : Level
  pub log_file : Bool
  pub use_console : Bool
  pub use_system_log : Bool
  pub max_file_size : ℕ
  pub max_backup_files : ℤ

-- ya_logger_t; `log_fp` says whether the file is open, and `last_error` whether an error is stored.
pub record Logger : Type 0 where
  pub config : LoggerConfig
  pub log_fp : Bool
  pub last_error : Bool

abbrev pub Files : Type 0
Files = ℕ → Option Bytes

-- The files, the console, and the system's log.
pub record Output : Type 0 where
  pub files : Files
  pub console : List Bytes
  pub system : List (Level × Bytes)

abbrev pub store : ℕ → Option Bytes → Files → Files
store n content files = λ k. if k == n then content else files k

-- rename: a file that is not there is not renamed, and one that is there takes the new name over.
abbrev pub move_file : ℕ → ℕ → Files → Option Bytes → Files
move_file old new files none = files
move_file old new files (some content) = store new (some content) (store old none files)

abbrev pub rename : ℕ → ℕ → Files → Files
rename old new files = move_file old new files (files old)

-- The loop, from `i = n - 1` down to 0.
abbrev pub rotate : ℕ → Files → Files
rotate zero files = files
rotate (suc i) files = rotate i (rename i (suc i) files)

-- fopen with "a": a file that is not there is made.
abbrev pub or_new : Option Bytes → Bytes
or_new none = []
or_new (some content) = content

abbrev pub open_append : Files → Files
open_append files = store 0 (some (or_new (files 0))) files

-- A negative number of backups is none: the loop does nothing.
abbrev pub backups : ℤ → ℕ
backups (pos n) = n
backups (negsuc n) = 0

abbrev pub is_full : ℕ → Option Bytes → Bool
is_full size none = false
is_full size (some content) = leb size (length content)

-- Whether the file is open at the end, and the files. `reopens` is the answer of the second fopen.
unfoldable pub check_and_rotate_log : Bool → Logger → Files → Bool × Files
check_and_rotate_log reopens logger files =
    if not logger.config.log_file || not logger.log_fp
    then (logger.log_fp, files)
    else if is_full logger.config.max_file_size (files 0)
    then (let rotated = rotate (backups logger.config.max_backup_files) files in
        if reopens then (true, open_append rotated) else (false, rotated))
    else (logger.log_fp, files)

-- One call of snprintf at `final_message + written`, of a text that is `text` so far. If `written` is above
-- the size then what is left of it wraps, and the call is undefined.
abbrev pub print : Bytes → Option (ℕ × Bytes) → Option (ℕ × Bytes)
print s none = none
print s (some (written, text)) =
    if leb written max_final_message_size
    then some (written + length s, text ++ take (max_final_message_size - written - 1) s)
    else none

abbrev pub bracketed : Bytes → Bytes
bracketed s = b'[' ∷ (s ++ (b']' ∷ b' ' ∷ []))

-- The place is "file:line", and `none` where the build or the caller gives none.
abbrev pub print_place : Option Bytes → Option (ℕ × Bytes) → Option (ℕ × Bytes)
print_place none p = p
print_place (some place) p = print (bracketed place) p

-- vsnprintf into `message`
abbrev pub cut_message : Bytes → Bytes
cut_message message = take (max_message_size - 1) message

unfoldable pub format_line : Bytes → Level → Option Bytes → Bytes → Option (ℕ × Bytes)
format_line timestamp level place message = print (cut_message message ++ (b'\n' ∷ [])) (
    print_place place
      (print (bracketed (ya_logger_level_name level)) (print (bracketed timestamp) (some (0, [])))))

-- One entry for the log, `message` being what its format and its arguments give.
pub record Entry : Type 0 where
  pub level : Level
  pub timestamp : Bytes
  pub place : Option Bytes
  pub message : Bytes

-- Whether fopen and fputs succeed.
pub record Answers : Type 0 where
  pub reopens : Bool
  pub writes : Bool

abbrev pub append_line : Bytes → Files → Files
append_line line files = store 0 (some (or_new (files 0) ++ line)) files

-- fputs to the file that is open at the end of the rotation; to none it is undefined.
abbrev pub put_line : Bool → Bytes → Logger → Bool × Files → Option (Logger × Files)
put_line writes line logger (false, files) = none
put_line writes line logger (true, files) =
    if writes
    then some (record logger { log_fp = true }, append_line line files)
    else some (record logger { log_fp = true; last_error = true }, files)

abbrev pub to_file : Answers → Bytes → Logger → Files → Option (Logger × Files)
to_file a line logger files =
    if logger.log_fp
    then put_line a.writes line logger (check_and_rotate_log a.reopens logger files)
    else some (logger, files)

abbrev pub to_others : Entry → Bytes → Output → Option (Logger × Files) → Option (Logger × Output)
to_others e line out none = none
to_others e line out (some (logger, files)) = some (
  logger,
  record {
    files = files;
    console = if logger.config.use_console then out.console ++ line ∷ [] else out.console;
    system =
        if logger.config.use_system_log
        then out.system ++ (e.level, cut_message e.message) ∷ []
        else out.system;
  },
)

abbrev pub is_logged : Level → Level → Bool
is_logged threshold level =
    not (level_value level == level_value off)
    && not (ltb (level_value level) (level_value threshold))

abbrev pub log_line :
    Answers → Entry → Logger → Output → Option (ℕ × Bytes) → Option (Logger × Output)
log_line a e logger out none = none
log_line a e logger out (some (written, line)) =
    to_others e line out (to_file a line logger out.files)

unfoldable pub ya_logger_log : Answers → Entry → Logger → Output → Option (Logger × Output)
ya_logger_log a e logger out =
    if is_logged logger.config.level e.level
    then log_line a e logger out (format_line e.timestamp e.level e.place e.message)
    else some (logger, out)

unfoldable pub ya_logger_set_level : Level → Logger → Logger
ya_logger_set_level level logger = record logger { config = record logger.config { level = level } }

-- `allocates` and `opens` are the answers of malloc and fopen.
unfoldable pub ya_logger_init : Bool → Bool → LoggerConfig → Files → Option Logger × Files
ya_logger_init allocates opens config files =
    let logger : Logger = record {
      config = config;
      log_fp = config.log_file;
      last_error = false;
    } in
    if not allocates
    then (none, files)
    else if not config.log_file
    then (some logger, files)
    else if opens
    then (some logger, open_append files)
    else (none, files)
