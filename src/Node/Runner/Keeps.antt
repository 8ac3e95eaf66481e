-- ===== src/Node/Runner/Keeps.antt =====
-- What the operations on a server keep: whatever further statements and reads keep.
use mysql_operator.Base.{
  ℕ, zero, suc, Bool, true, false, Option, none, some, List, [], ◌∷◌, ◌++◌, Text, codes, Result, ok,
  err,
}
use mysql_operator.Node.Requests.{
  Statement, select_one, fallback_start, write_status, exec, read, Request, Env, Exec, attempt,
}
use mysql_operator.Node.Requests.Keeps.{
  Keeps, Keeps-pure, Keeps-raise, Keeps-attempt, Keeps-bind, keeps_rules,
}
use mysql_operator.Node.Runner.{
  prefixed, start, NodeSqlRunner, configured_key, done_value, set_gtid_purged_key, if_open,
  exec_context, query_row, run_query, read_status_value, retry, wait, is_init_file_complete,
  retry_unless_complete, wait_for_operator_status_table, start_again, change_master_to,
  mark_configuration_done, is_configured, mark_set_gtid_purged, set_purged_gtid,
}

-- `P` still holds behind a statement or a read.
pub record Grows (P : List Request → Type 0) : Type 0 where
  pub exec : (log : List Request) (s : Statement) → P log → P (log ++ exec s ∷ [])
  pub read : (log : List Request) (key : Text) → P log → P (log ++ read key ∷ [])

if_open-Keeps :
    {P : List Request → Type 0} {A : Type 0} (o : Option Text) (m : Exec A)
    → Keeps P m
    → Keeps P (if_open o m)
if_open-Keeps (some e) m k = Keeps-raise e
if_open-Keeps none m k = k

prefixed-Keeps :
    {P : List Request → Type 0} {A : Type 0} (text : Text) (m : Exec A)
    → Keeps P m
    → Keeps P (prefixed text m)
unfolding prefixed
prefixed-Keeps text m k = record { at = k.at }

module _ {P : List Request → Type 0} (grows : Grows P) (env : Env) (r : NodeSqlRunner) where
  pub run_query-Keeps : (s : Statement) → Keeps P (run_query env r s)
  unfolding run_query
  run_query-Keeps s =
      if_open-Keeps (env.sql_open r.dsn) (exec_context env r s)
        (record { at = λ log h. grows.exec log s h })

  read_status_value-Keeps : (key : Text) → Keeps P (read_status_value env r key)
  unfolding read_status_value
  read_status_value-Keeps key =
      if_open-Keeps (env.sql_open r.dsn) (query_row env r key)
        (record { at = λ log h. grows.read log key h })

  retry-Keeps :
      (rest : Exec (Unit {0})) (result : Result Text (Unit {0}))
      → Keeps P rest
      → Keeps P (retry env r rest result)
  retry-Keeps rest (ok _) k = Keeps-pure tt
  retry-Keeps rest (err e) k = k

  pub wait-Keeps : (ticks : ℕ) → Keeps P (wait env r ticks)
  unfolding wait
  wait-Keeps zero = Keeps-raise _
  wait-Keeps (suc ticks) =
      Keeps-bind (attempt (run_query env r select_one)) _
        (Keeps-attempt _ (run_query-Keeps select_one))
        (λ result. retry-Keeps (wait env r ticks) result (wait-Keeps ticks))

  is_init_file_complete-Keeps : Keeps P (is_init_file_complete env r)
  unfolding is_init_file_complete
  is_init_file_complete-Keeps = search (keeps_rules, read_status_value-Keeps)

  retry_unless_complete-Keeps :
      (rest : Exec (Unit {0})) (result : Result Text Bool)
      → Keeps P rest
      → Keeps P (retry_unless_complete env r rest result)
  retry_unless_complete-Keeps rest (ok true) k = Keeps-pure tt
  retry_unless_complete-Keeps rest (ok false) k = k
  retry_unless_complete-Keeps rest (err e) k = k

  pub wait_for_operator_status_table-Keeps :
      (ticks : ℕ) → Keeps P (wait_for_operator_status_table env r ticks)
  unfolding wait_for_operator_status_table
  wait_for_operator_status_table-Keeps zero = Keeps-raise _
  wait_for_operator_status_table-Keeps (suc ticks) =
      Keeps-bind (attempt (is_init_file_complete env r)) _
        (Keeps-attempt _ is_init_file_complete-Keeps)
        (λ result.
          retry_unless_complete-Keeps (wait_for_operator_status_table env r ticks) result
            (wait_for_operator_status_table-Keeps ticks))

  start_again-Keeps : (result : Result Text (Unit {0})) → Keeps P (start_again env r result)
  start_again-Keeps (ok _) = Keeps-pure tt
  start_again-Keeps (err e) = prefixed-Keeps _ _ (run_query-Keeps fallback_start)

  pub start-Keeps : Keeps P (start env r)
  unfolding start
  start-Keeps = search (keeps_rules, run_query-Keeps, start_again-Keeps)

  pub change_master_to-Keeps :
      (host user password : Text) → Keeps P (change_master_to env r host user password)
  unfolding change_master_to
  change_master_to-Keeps host user password =
      search (keeps_rules, prefixed-Keeps, run_query-Keeps, start-Keeps)

  pub mark_configuration_done-Keeps : Keeps P (mark_configuration_done env r)
  unfolding mark_configuration_done
  mark_configuration_done-Keeps = run_query-Keeps (write_status configured_key done_value)

  pub is_configured-Keeps : Keeps P (is_configured env r)
  unfolding is_configured
  is_configured-Keeps = search (keeps_rules, read_status_value-Keeps)

  pub mark_set_gtid_purged-Keeps : Keeps P (mark_set_gtid_purged env r)
  unfolding mark_set_gtid_purged
  mark_set_gtid_purged-Keeps = run_query-Keeps (write_status set_gtid_purged_key (codes "skipped"))

  pub set_purged_gtid-Keeps : Keeps P (set_purged_gtid env r)
  unfolding set_purged_gtid
  set_purged_gtid-Keeps = search (keeps_rules, run_query-Keeps, read_status_value-Keeps)
