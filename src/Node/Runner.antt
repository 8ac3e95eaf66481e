-- ===== src/Node/Runner.antt =====
-- pkg/controller/node/sql.go: what is done on the server of a node.
pub mod Keeps
pub mod Succeeds
pub mod Gtid
pub mod Works
use mysql_operator.Base.{
  ℕ, zero, suc, Bool, true, false, Option, none, some, [], ◌∷◌, ◌++◌, Text, codes, text_eq, Result,
  ok, err, if◌then◌else◌,
}
use mysql_operator.Versioning.Replication.{ReplicationDialect}
use mysql_operator.Node.Requests.{
  Statement, select_one, change_source, start_replication, fallback_start, set_gtid_purged,
  write_status, exec, read, statement_text, statement_args, with_log_off, status_table, RowError,
  no_rows, row_failed, Env, Exec, pure, raise, ◌>>=◌, ◌>>◌, attempt, answered,
}

-- `nodeSQLRunner`; its binary log is never on.
pub record NodeSqlRunner : Type 0 where
  pub dsn : Text
  pub host : Text
  pub rep : ReplicationDialect

abbrev pub configured_key : Text
configured_key = codes "configured"

abbrev pub done_value : Text
done_value = codes "1"

abbrev pub init_file_complete_key : Text
init_file_complete_key = codes "init_file_complete"

abbrev pub set_gtid_purged_key : Text
set_gtid_purged_key = codes "set_gtid_purged"

abbrev pub backup_gtid_purged_key : Text
backup_gtid_purged_key = codes "backup_gtid_purged"

abbrev pub with_prefix : {A : Type 0} → Text → Result Text A → Result Text A
with_prefix text (ok a) = ok a
with_prefix text (err e) = err (text ++ e)

unfoldable pub prefixed : {A : Type 0} → Text → Exec A → Exec A
prefixed text m log = (with_prefix text (m log).0, (m log).1)

-- A row that is missing has the empty value.
abbrev pub value_or_empty : Result RowError Text → Result Text Text
value_or_empty (ok v) = ok v
value_or_empty (err no_rows) = ok []
value_or_empty (err (row_failed e)) = err e

unfoldable pub status_query : Text → Text
status_query key =
    codes "SELECT value FROM " ++ (status_table ++ (codes " WHERE name='" ++ (key ++ codes "'")))

-- `dbConn`: the connection is opened anew each time.
abbrev pub if_open : {A : Type 0} → Option Text → Exec A → Exec A
if_open (some e) m = raise e
if_open none m = m

module _ (env : Env) (r : NodeSqlRunner) where
  unfoldable pub exec_context : Statement → Exec (Unit {0})
  unfolding statement_text with_log_off
  exec_context s log = (
    answered (env.exec_context log (with_log_off (statement_text r.rep s)) (statement_args s)),
    log ++ exec s ∷ [],
  )

  unfoldable pub query_row : Text → Exec Text
  unfolding status_query
  query_row key log = (value_or_empty (env.query_row log (status_query key)), log ++ read key ∷ [])

  unfoldable pub run_query : Statement → Exec (Unit {0})
  unfolding exec_context
  run_query s = if_open (env.sql_open r.dsn) (exec_context s)

  unfoldable pub read_status_value : Text → Exec Text
  unfolding query_row
  read_status_value key = if_open (env.sql_open r.dsn) (query_row key)

  unfoldable pub write_status_value : Text → Text → Exec (Unit {0})
  unfolding run_query
  write_status_value key value = run_query (write_status key value)

  -- One round of the loop, with what is left of it.
  abbrev pub retry : Exec (Unit {0}) → Result Text (Unit {0}) → Exec (Unit {0})
  retry rest (ok _) = pure tt
  retry rest (err e) = rest

  unfoldable pub wait : ℕ → Exec (Unit {0})
  unfolding run_query
  wait zero = raise (codes "timeout: mysql is not ready")
  wait (suc ticks) = do result ← attempt (run_query select_one); retry (wait ticks) result

  unfoldable pub is_init_file_complete : Exec Bool
  unfolding read_status_value text_eq
  is_init_file_complete = do
    complete ← read_status_value init_file_complete_key
    if text_eq complete done_value then pure true else (do
      configured ← read_status_value configured_key
      pure (text_eq configured done_value))

  abbrev pub retry_unless_complete : Exec (Unit {0}) → Result Text Bool → Exec (Unit {0})
  retry_unless_complete rest (ok true) = pure tt
  retry_unless_complete rest (ok false) = rest
  retry_unless_complete rest (err e) = rest

  -- The error of the context stands behind the text.
  unfoldable pub wait_for_operator_status_table : ℕ → Exec (Unit {0})
  unfolding is_init_file_complete
  wait_for_operator_status_table zero =
      raise (codes "timeout waiting for init-file completion: context deadline exceeded")
  wait_for_operator_status_table (suc ticks) = do
    result ← attempt is_init_file_complete
    retry_unless_complete (wait_for_operator_status_table ticks) result

  abbrev pub start_again : Result Text (Unit {0}) → Exec (Unit {0})
  start_again (ok _) = pure tt
  start_again (err e) =
      prefixed (codes "failed to start slave node, err: ") (run_query fallback_start)

  unfoldable pub start : Exec (Unit {0})
  unfolding run_query
  start = do started ← attempt (run_query start_replication); start_again started

  unfoldable pub change_master_to : Text → Text → Text → Exec (Unit {0})
  unfolding run_query start
  change_master_to host user password = do
    prefixed (codes "failed to configure slave node, err: ")
        (run_query (change_source host user password))
    start

  unfoldable pub mark_configuration_done : Exec (Unit {0})
  unfolding write_status_value
  mark_configuration_done = write_status_value configured_key done_value

  unfoldable pub is_configured : Exec Bool
  unfolding read_status_value text_eq
  is_configured = do value ← read_status_value configured_key; pure (text_eq value done_value)

  unfoldable pub mark_set_gtid_purged : Exec (Unit {0})
  unfolding write_status_value
  mark_set_gtid_purged = write_status_value set_gtid_purged_key (codes "skipped")

  -- Only if it was not set before and there is one from a backup.
  unfoldable pub set_purged_gtid : Exec (Unit {0})
  unfolding read_status_value run_query text_eq
  set_purged_gtid = do
    set ← read_status_value set_gtid_purged_key
    if text_eq set []
        then (do
          backup ← read_status_value backup_gtid_purged_key
          if text_eq backup [] then pure tt else run_query set_gtid_purged)
        else pure tt
