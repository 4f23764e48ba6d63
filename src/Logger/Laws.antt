-- ===== src/Logger/Laws.antt =====
-- What a call of the logger does to the table `logs` and to the log file.
use Prim.Native.String.{◌++◌}
use client_server_architectu.Prelude.{
  suc, ◌≡◌, refl, String, Bool, true, false, not, ◌||◌, Option, none, some, List, push_back, arith,
  ◌∙◌, if◌then◌else◌,
}
use client_server_architectu.Prelude.Dict.{Dict}
use client_server_architectu.Platform.{Platform}
use client_server_architectu.Storage.{is_null_or_registered}
use client_server_architectu.World.{Journal, LogRow, LogFile, User, Config}
use client_server_architectu.Logger.{
  LogLevel, level_to_string, close_log_file, archive, open_log_file, reopened, log_rotation,
  archive_if_exists, should_rotate, rotated_if, write_log,
}

module _ ⦃p : Platform⦄ where
  -- the row that a call writes
  abbrev pub row_at : Journal → LogLevel → String → String → Option String → LogRow
  row_at j level component message client = record {
    timestamp = p.format_date (p.clock j.readings) ++ " UTC";
    level = level_to_string level;
    component = component;
    message = message;
    client_id = client;
  }

  -- what rotation leaves alone
  abbrev SameLogs : Journal → Journal → Type 0
  SameLogs j k = (k.logs ≡ j.logs) × (k.statements ≡ j.statements)

  open_log_file-SameLogs : (j : Journal) → SameLogs j (reopened (open_log_file j))
  unfolding open_log_file
  open_log_file-SameLogs j = ground arith

  archive-SameLogs : (lines : List String) (j : Journal) → SameLogs j (archive lines j)
  unfolding archive
  archive-SameLogs lines j = ground arith

  archive_if_exists-SameLogs :
      (content : Option (List String)) (j : Journal) → SameLogs j (archive_if_exists content j)
  archive_if_exists-SameLogs none j = (refl, refl)
  archive_if_exists-SameLogs (some lines) j = archive-SameLogs lines j

  log_rotation-SameLogs : (j : Journal) → SameLogs j (log_rotation j)
  unfolding log_rotation
  log_rotation-SameLogs j =
      let closed = record j { file = close_log_file j.file } in
      let archived = archive_if_exists closed.file.content closed in
      let a = archive_if_exists-SameLogs closed.file.content closed in
      let b = open_log_file-SameLogs archived in (b.0 ∙ a.0, b.1 ∙ a.1)

  rotated_if-SameLogs : (r : Bool × LogFile) (j : Journal) → SameLogs j (rotated_if r j)
  rotated_if-SameLogs (true, f) j = log_rotation-SameLogs (record j { file = f })
  rotated_if-SameLogs (false, f) j = (refl, refl)

  -- One row is added, unless the statement fails or the client of the row is not registered.
  pub logs-write_log :
      (level : LogLevel) (component message : String) (client : Option String) (config : Config)
      (users : Dict User) (j : Journal)
      → (write_log level component message client config users j).logs ≡ (
          if p.db_fault j.statements || not (is_null_or_registered client users)
          then j.logs
          else push_back j.logs (row_at j level component message client))
  unfolding write_log
  logs-write_log level component message client config users j =
      let read = record j { readings = suc j.readings } in
      let s = rotated_if-SameLogs (should_rotate config read.file) read in ground (arith, s.0, s.1)
