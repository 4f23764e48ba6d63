-- ===== src/Logger/Tables.antt =====
-- A call of the logger keeps what the schema promises of the tables.
use client_server_architectu.Logger.{LogLevel, log, log_for, write_log}
use client_server_architectu.Logger.Laws.{logs-write_log, row_at}
use client_server_architectu.Platform.{Platform}
use client_server_architectu.Prelude.Dict.{Dict}
use client_server_architectu.Prelude.{
  All, ◌∷◌, ◌||◌, not, subst, sym, none, List, Option, String, [], push_back, arith, Bool-cases,
  inl, inr,
}
use client_server_architectu.Storage.Schema.{IsLogRow, IsSchema}
use client_server_architectu.Storage.Schema.Statements.{statement_rules}
use client_server_architectu.Storage.{is_null_or_registered}
use client_server_architectu.World.Keeps.{Keeps, keeps_rules}
use client_server_architectu.World.{LogRow, User}

push_back-IsLogRow :
    (users : Dict User) (rows : List LogRow) (r : LogRow)
    → All (IsLogRow users) rows
    → IsLogRow users r
    → All (IsLogRow users) (push_back rows r)
push_back-IsLogRow users [] r h a = (a, tt)
push_back-IsLogRow users (q ∷ rows) r (b, h) a = (b, push_back-IsLogRow users rows r h a)

module _ ⦃p : Platform⦄ where
  pub log_for-Keeps :
      (client : Option String) (level : LogLevel) (component message : String)
      → Keeps IsSchema (log_for client level component message)
  log_for-Keeps client level component message = record {
    at = λ w h.
        let j = w.journal in
        let row = row_at j level component message client in
        let checked : All (IsLogRow w.users)
            (write_log level component message client w.config w.users j).logs =
          subst (All (IsLogRow w.users))
            (sym (logs-write_log level component message client w.config w.users j))
            (elim (Bool-cases
              (p.db_fault j.statements || not (is_null_or_registered client w.users))) [
                | inl e ↦ rw e h.checked_logs
                | inr e ↦ rw e (push_back-IsLogRow w.users j.logs row h.checked_logs (ground arith))
              ]) in
        record {
          distinct_users = h.distinct_users;
          checked_users = h.checked_users;
          distinct_stock = h.distinct_stock;
          checked_stock = h.checked_stock;
          checked_logs = checked;
        };
  }

  pub log-Keeps :
      (level : LogLevel) (component message : String) → Keeps IsSchema (log level component message)
  log-Keeps level component message = log_for-Keeps none level component message

pub ruleset table_rules = (keeps_rules, statement_rules, log_for-Keeps, log-Keeps)
