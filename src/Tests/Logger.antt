-- ===== src/Tests/Logger.antt =====
-- The theorem on the logger (server/src/ya_logger.c) at a concrete input, and a run of it.
use mouse_hero.Base.Ascii.{ascii}
use mouse_hero.Base.Int.{pos}
use mouse_hero.Base.{
  zero, suc, ◌≡◌, refl, true, false, none, some, List, [], ◌∷◌, ◌++◌, concat, arith,
}
use mouse_hero.Logger.Rotation.{Shows, open_logger}
use mouse_hero.Logger.Window.{log_all, log_all-Shows, flat, lines_of, logged_all}
use mouse_hero.Logger.{LoggerConfig, Entry, Output, Files, Level, info, debug, warn, open_append}
use mouse_hero.Wire.{Bytes}

abbrev config : LoggerConfig
config = record {
  level = info;
  log_file = true;
  use_console = true;
  use_system_log = false;
  max_file_size = 20;
  max_backup_files = pos 1;
}

abbrev no_files : Files
no_files k = none

abbrev started : Output
started = record { files = open_append no_files; console = []; system = [] }

abbrev entry : Level → Bytes → Entry
entry level message = record {
  level = level;
  timestamp = ascii "12:00:00";
  place = none;
  message = message;
}

abbrev entries : List Entry
entries =
    entry info (ascii "started")
    ∷ entry debug (ascii "quiet")
    ∷ entry warn (ascii "odd")
    ∷ entry info (ascii "stopped")
    ∷ []

-- Of the three lines that pass, the first is behind the last backup.
kept :
    logged_all 20 1 (lines_of info entries) ([] ∷ [])
    ≡ ascii "[12:00:00] [INFO] stopped\n" ∷ ascii "[12:00:00] [WARN] odd\n" ∷ []
kept = refl

started-Shows : Shows 1 ([] ∷ []) started.files
started-Shows zero h = refl
started-Shows (suc zero) h = refl
started-Shows (suc (suc k)) h = absurd (omega (arith, h))

log_all-Shows_example :
    ((out' : Output) × (log_all entries (open_logger config false) started
        ≡ some (open_logger config false, out'))
      × Shows 1 (logged_all 20 1 (lines_of info entries) ([] ∷ [])) out'.files)
    × ((lost : Bytes) × (lost ++ flat (logged_all 20 1 (lines_of info entries) ([] ∷ []))
          ≡ concat (lines_of info entries)))
log_all-Shows_example =
    log_all-Shows config false entries [] [] started refl
      (
        record { timestamp = omega arith; place = omega arith },
        (
          record { timestamp = omega arith; place = omega arith },
          (
            record { timestamp = omega arith; place = omega arith },
            (record { timestamp = omega arith; place = omega arith }, tt),
          ),
        ),
      )
      started-Shows
