-- ===== src/Logger.antt =====
-- src/server/logger.cpp. A call of `Logger::log` reads the clock, rotates the log file if it is too
-- large, writes a row of the table `logs`, and a line of the file; it never throws. `rename` and
-- `remove` of the rotation are taken to succeed, a rotated file is named without its folder, and a
-- file's size is the sum of its lines.
pub mod Laws
pub mod Rotation
pub mod Tables
use Prim.Native.String.{len, ◌++◌}
use client_server_architectu.Prelude.{
  ◌&&◌, ℕ, suc, ◌+◌, ◌-◌, ◌*◌, ◌^◌, String, Bool, true, false, Option, none, some, List, [], ◌∷◌,
  leb, push_back, if◌then◌else◌,
}
use client_server_architectu.Prelude.Dict
use client_server_architectu.Prelude.Dict.{Dict}
use client_server_architectu.Prelude.Int.{ℤ, pos, negsuc, to_string}
use client_server_architectu.Platform.{Platform}
use client_server_architectu.Storage.{save_log_entry}
use client_server_architectu.World.{World, Journal, LogFile, LogRow, User, Config, Exec, ok, modify}

pub data LogLevel : Type 0 where
  debug info warning error : LogLevel

unfoldable pub level_to_string : LogLevel → String
level_to_string debug = "DEBUG"
level_to_string info = "INFO"
level_to_string warning = "WARNING"
level_to_string error = "ERROR"

-- a conversion of an `int` to an unsigned 64-bit number
abbrev pub to_uint64 : ℤ → ℕ
to_uint64 (pos n) = n
to_uint64 (negsuc n) = 2 ^ 64 - 1 - n

abbrev pub file_size : List String → ℕ
file_size [] = 0
file_size (line ∷ lines) = len line + file_size lines

abbrev pub mb_multiplier : ℕ
mb_multiplier = 1048576

abbrev pub or_new : Option (List String) → List String
or_new none = []
or_new (some lines) = lines

abbrev pub report : String → LogFile → LogFile
report message f = record f { errors = push_back f.errors message }

-- `shouldRotate`: a missing file is reported, and not rotated
unfoldable pub should_rotate : Config → LogFile → Bool × LogFile
should_rotate config f = elim f.content [
  | none ↦ (false, report "Logger: Failed to check log file size: " f)
  | some lines ↦ (leb (to_uint64 config.max_log_size * mb_multiplier) (file_size lines), f)
]

unfoldable pub close_log_file : LogFile → LogFile
close_log_file f = if f.is_open then record f { is_open = false; enabled = false } else f

module _ ⦃p : Platform⦄ where
  -- `openLogFile`: making the folder may throw, then opening may fail
  unfoldable pub open_log_file : Journal → Bool × Journal
  open_log_file j =
      let n = j.file_operations in
      if p.fs_fault n
      then (
        false,
        record j {
          file_operations = suc n;
          file = record (report "Logger: exception opening log file: " j.file) { enabled = false };
        },
      )
      else if p.fs_fault (suc n)
      then (
        false,
        record j {
          file_operations = suc (suc n);
          file = record (report "Logger: failed to open log file: " j.file) { enabled = false };
        },
      )
      else (
        true,
        record j {
          file_operations = suc (suc n);
          file = record j.file {
            enabled = true;
            is_open = true;
            is_good = true;
            content = some (or_new j.file.content);
          };
        },
      )

  -- The renamed file is compressed and removed, or stays if the compression fails. A rename or a
  -- removal that throws ends the process, as `log` is noexcept, so here both succeed; and `gzclose`,
  -- whose result is not read, stores what `gzwrite` has taken.
  unfoldable pub archive : List String → Journal → Journal
  archive lines j =
      let name = "server_" ++ to_string (p.clock j.readings) ++ ".log" in
      let n = j.file_operations in
      if p.fs_fault n
      then record j {
        readings = suc j.readings;
        file_operations = suc n;
        file = record (report "Logger: Failed to compress rotated log file." j.file) {
          content = none;
          rotated = Dict.insert name lines j.file.rotated;
        };
      }
      else record j {
        readings = suc j.readings;
        file_operations = suc n;
        file = record j.file {
          content = none;
          rotated = Dict.insert (name ++ ".gz") lines j.file.rotated;
        };
      }

  abbrev reopened : Bool × Journal → Journal
  reopened (true, j) = j
  reopened (false, j) = record j {
    file = report "Logger: Failed to reopen log file after rotation." j.file;
  }

  abbrev archive_if_exists : Option (List String) → Journal → Journal
  archive_if_exists none j = j
  archive_if_exists (some lines) j = archive lines j

  unfoldable pub log_rotation : Journal → Journal
  log_rotation j =
      let closed = record j { file = close_log_file j.file } in
      reopened (open_log_file (archive_if_exists closed.file.content closed))

  abbrev rotated_if : Bool × LogFile → Journal → Journal
  rotated_if (true, f) j = log_rotation (record j { file = f })
  rotated_if (false, f) j = record j { file = f }

  abbrev client_suffix : Option String → String
  client_suffix none = ""
  client_suffix (some client) = " (client: " ++ client ++ ")"

  abbrev pub line : LogRow → String
  line r =
      "["
      ++ r.timestamp
      ++ "]"
      ++ " ["
      ++ r.component
      ++ "]"
      ++ " ["
      ++ r.level
      ++ "] "
      ++ r.message
      ++ client_suffix r.client_id
      ++ "\n"

  -- Written only if the file is enabled. The stream throws nothing, as no exceptions are asked of it:
  -- a write that fails writes no line and makes the stream bad, and a bad stream writes nothing.
  unfoldable pub write_line : LogRow → Journal → Journal
  write_line r j =
      let f = j.file in
      if f.enabled && f.is_good
      then (if p.fs_fault j.file_operations
          then record j {
            file_operations = suc j.file_operations;
            file = record f { is_good = false };
          }
          else record j {
            file_operations = suc j.file_operations;
            file = record f { content = some (push_back (or_new f.content) (line r)) };
          })
      else j

  abbrev pub persisted : Bool × Journal → Journal
  persisted (true, j) = j
  persisted (false, j) = record j {
    file = report "CRITICAL LOGGER FAILURE: Could not persist log. DB Error: " j.file;
  }

  -- `Logger::log`, on the journal; the foreign key of the row is checked against the table `users`
  unfoldable pub write_log :
      LogLevel → String → String → Option String → Config → Dict User → Journal → Journal
  unfolding level_to_string should_rotate save_log_entry write_line
  write_log level component message client config users j =
      let row : LogRow = record {
        timestamp = p.format_date (p.clock j.readings) ++ " UTC";
        level = level_to_string level;
        component = component;
        message = message;
        client_id = client;
      } in
      let read = record j { readings = suc j.readings } in
      let rotated = rotated_if (should_rotate config read.file) read in
      let saved = persisted (save_log_entry users row rotated) in write_line row saved

  -- a call of the logger on the whole state
  abbrev pub log_for : Option String → LogLevel → String → String → Exec (Unit {0})
  log_for client level component message w = (
    ok tt,
    record w { journal = write_log level component message client w.config w.users w.journal },
  )

  abbrev pub log : LogLevel → String → String → Exec (Unit {0})
  log = log_for none
