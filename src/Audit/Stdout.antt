-- ===== src/Audit/Stdout.antt =====
-- StdoutAuditSink of llm_agent/llm_agent/infrastructure/audit/stdout.py. Its lock makes one call of
-- `_write` one step.
use Prim.Native.String.{◌++◌ as str_append}
use movie_reservation_agent.Prelude.{ℕ, String, length, codes, ◌==◌, if◌then◌else◌}
use movie_reservation_agent.Exec.{Result, err, Exec, os_error, value_error, raise, ◌>>=◌}
use movie_reservation_agent.Value.{Value, dict, end, field}
use movie_reservation_agent.Audit.{to_ocsf}
use movie_reservation_agent.Audit.Login.{AuditSink}

-- A stream of text: `write` returns how many characters it has written.
pub record TextIo (S : Type 0) : Type 0 where
  pub write : String → Exec S ℕ
  pub flush : Exec S (Unit {0})

-- The `except` of `_write`.
abbrev pub as_os_error : Result (Unit {0}) → Result (Unit {0})
as_os_error (err value_error) = err os_error
as_os_error r = r

module _ {S : Type 0} where
  abbrev pub flush_if : TextIo S → String → ℕ → Exec S (Unit {0})
  flush_if stream line n = if n == length (codes line) then stream.flush else raise os_error

  -- `StdoutAuditSink._write`, to the stream that is given or to standard output
  unfoldable pub write_line : TextIo S → String → Exec S (Unit {0})
  write_line stream line s =
      let r = (stream.write line >>= flush_if stream line) s in (as_os_error r.0, r.1)

  -- `StdoutAuditSink`, with `json.dumps`
  unfoldable pub stdout_audit_sink : (Value → String) → TextIo S → AuditSink S
  unfolding write_line
  stdout_audit_sink dumps stream = record {
    publish = λ event.
        write_line stream (str_append (dumps (dict (field "audit" (to_ocsf event) end))) "\n");
  }
