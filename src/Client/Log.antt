-- ===== src/Client/Log.antt =====
-- src/client/logger.c: the log file of the client. The text of a call is formatted, and `strftime` of
-- the time is an argument.
use client_server_architectu.Prelude.Int.{negsuc, pos, ℤ}
use client_server_architectu.Prelude.{
  ◌≡◌, ◌∷◌, ◌+◌, ◌∙◌, ap, sym, ℕ, true, suc, length, false, arith, push_back, map, [], String, List,
  Bool, if◌then◌else◌, ◌++◌ as ◌+++◌,
}
use mathlib.Core.List.{append_assoc, append-nil}
use Prim.Native.String.{◌++◌}

pub data LogLevel : Type 0 where
  debug info warning error : LogLevel

-- Its default is unreachable, as the level is one of the four.
unfoldable pub log_level_to_string : LogLevel → String
log_level_to_string debug = "DEBUG"
log_level_to_string info = "INFO"
log_level_to_string warning = "WARNING"
log_level_to_string error = "ERROR"

-- whether `pFile` is open, the lines of the file, and how often a call found it closed
pub record ClientLog : Type 0 where
  pub is_open : Bool
  pub lines : List String
  pub uninitialized : ℕ

pub record Call : Type 0 where
  pub time : String
  pub component : String
  pub level : LogLevel
  pub message : String

-- `fopen` succeeds or not; lines that are there stay.
unfoldable pub logger_init : Bool → ClientLog → ℤ × ClientLog
logger_init true s = (pos 0, record s { is_open = true })
logger_init false s = (negsuc 0, record s { is_open = false })

unfoldable pub log_text : Call → String
log_text c =
    "["
    ++ c.time
    ++ "] ["
    ++ c.component
    ++ "] ["
    ++ log_level_to_string c.level
    ++ "]: "
    ++ c.message
    ++ "\n"

unfoldable pub logger_log : Call → ClientLog → ClientLog
logger_log c s =
    if s.is_open
    then record s { lines = push_back s.lines (log_text c) }
    else record s { uninitialized = suc s.uninitialized }

unfoldable pub logger_close : ClientLog → ClientLog
logger_close s = if s.is_open then record s { is_open = false } else s

abbrev log_all : List Call → ClientLog → ClientLog
log_all [] s = s
log_all (c ∷ cs) s = log_all cs (logger_log c s)

abbrev log_state : Bool → List String → ℕ → ClientLog
log_state is_open lines n = record { is_open = is_open; lines = lines; uninitialized = n }

log_all-open :
    (cs : List Call) (lines : List String) (n : ℕ)
    → log_all cs (log_state true lines n) ≡ log_state true (lines +++ map log_text cs) n
unfolding logger_log
log_all-open [] lines n = ap (λ ls. log_state true ls n) (sym (append-nil lines))
log_all-open (c ∷ cs) lines n =
    log_all-open cs (push_back lines (log_text c)) n
    ∙ ap (λ ls. log_state true ls n) (append_assoc lines (log_text c ∷ []) (map log_text cs))

log_all-closed :
    (cs : List Call) (lines : List String) (n : ℕ)
    → log_all cs (log_state false lines n) ≡ log_state false lines (n + length cs)
unfolding logger_log
log_all-closed [] lines n = ap (log_state false lines) (omega arith)
log_all-closed (c ∷ cs) lines n =
    log_all-closed cs lines (suc n) ∙ ap (log_state false lines) (omega arith)

-- Between opening and closing each call adds its line, in order; after that the file stays as it is,
-- and the calls are only counted.
log_all-logger_close :
    (before after : List Call) (s : ClientLog)
    → log_all after (logger_close (log_all before (logger_init true s).1))
      ≡ log_state false (s.lines +++ map log_text before) (s.uninitialized + length after)
unfolding logger_close logger_init
log_all-logger_close before after s =
    rw (log_all-open before s.lines s.uninitialized)
      (log_all-closed after (s.lines +++ map log_text before) s.uninitialized)
