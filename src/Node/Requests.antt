-- ===== src/Node/Requests.antt =====
-- What the controller of nodes asks MySQL and the API server to change, and actions that stop at their
-- first error. The answers are parameters, each after the requests that were sent before it.
pub mod Keeps
pub mod Placeholders
pub mod Works
use mysql_operator.Base.{
  Option, none, some, List, [], ◌∷◌, ◌++◌, Text, codes, Result, ok, err, ℕ, pos,
}
use mysql_operator.Sql.{Arg, text_arg, int_arg}
use mysql_operator.Cluster.{MysqlCluster}
use mysql_operator.Cluster.Versions.{StatefulSet}
use mysql_operator.Versioning.Replication.{ReplicationDialect, reset_binary_logs_statement}
use mysql_operator.Node.{Pod}

-- The statements of `nodeSQLRunner`: the host, user and password of a source, and the key and value of
-- a row of the status table.
pub data Statement : Type 0 where
  select_one enable_super_read_only disable_super_read_only : Statement
  change_source : Text → Text → Text → Statement
  start_replication fallback_start set_gtid_purged : Statement
  write_status : Text → Text → Statement

pub data Request : Type 0 where
  exec : Statement → Request
  read : Text → Request
  update_cluster : MysqlCluster → Request
  update_pod : Pod → Request

abbrev pub status_table : Text
status_table = codes "sys_operator.status"

-- The text of a statement, without what `runQuery` puts before it.
unfoldable pub statement_text : ReplicationDialect → Statement → Text
unfolding reset_binary_logs_statement
statement_text d select_one = codes "SELECT 1"
statement_text d enable_super_read_only = codes "SET GLOBAL SUPER_READ_ONLY = 1;"
statement_text d disable_super_read_only =
    codes "SET GLOBAL READ_ONLY = 1; SET GLOBAL SUPER_READ_ONLY = 0;"
statement_text d (change_source host user password) =
    d.stop_replication ++ (codes "\n" ++ d.change_source_sql)
statement_text d start_replication = d.start_replication
statement_text d fallback_start = d.fallback_start_sql
statement_text d set_gtid_purged =
    codes
      "\n\t  SET @@SESSION.SQL_LOG_BIN = 0;\n\t  START TRANSACTION;\n\t\tSELECT value INTO @gtid FROM "
    ++ (status_table
        ++ (codes " WHERE name='backup_gtid_purged';\n\t\t"
            ++ (reset_binary_logs_statement d
                ++ (codes "\n\t\tSET @@GLOBAL.GTID_PURGED = @gtid;\n\t\tREPLACE INTO "
                    ++ (status_table
                        ++ codes " VALUES ('set_gtid_purged', @gtid);\n\t  COMMIT;\n    ")))))
statement_text d (write_status key value) =
    codes "REPLACE INTO "
    ++ (status_table ++ (codes " VALUES ('" ++ (key ++ (codes "', '" ++ (value ++ codes "');")))))

-- `connRetry` is the last argument.
abbrev pub statement_args : Statement → List Arg
statement_args (change_source host user password) =
    text_arg host ∷ text_arg user ∷ text_arg password ∷ int_arg (pos 1) ∷ []
statement_args select_one = []
statement_args enable_super_read_only = []
statement_args disable_super_read_only = []
statement_args start_replication = []
statement_args fallback_start = []
statement_args set_gtid_purged = []
statement_args (write_status key value) = []

unfoldable pub with_log_off : Text → Text
with_log_off q = codes "SET @@SESSION.SQL_LOG_BIN = 0;\n" ++ q

pub data RowError : Type 0 where
  no_rows : RowError
  row_failed : Text → RowError

-- `ticks` and `table_ticks` are how often the two loops that wait come round before the context ends.
pub record Env : Type 0 where
  pub get_pod : Result Text (Option Pod)
  pub get_cluster : Text → Text → Result Text MysqlCluster
  pub get_secret : Text → Text → Result Text (List (Text × Text))
  pub get_stateful_set : Text → Text → Result Text (Option StatefulSet)
  pub sql_open : Text → Option Text
  pub exec_context : List Request → Text → List Arg → Option Text
  pub query_row : List Request → Text → Result RowError Text
  pub refresh : List Request → MysqlCluster → Result Text MysqlCluster
  pub update : List Request → Request → Option Text
  pub ticks : ℕ
  pub table_ticks : ℕ
  pub now : ℕ

-- What was sent before an error stays sent.
abbrev pub Exec : Type 0 → Type 0
Exec A = List Request → Result Text A × List Request

unfoldable pub pure : {A : Type 0} → A → Exec A
pure a log = (ok a, log)

unfoldable pub raise : {A : Type 0} → Text → Exec A
raise e log = (err e, log)

unfoldable pub lift : {A : Type 0} → Result Text A → Exec A
lift r log = (r, log)

-- What an action returns, as a value.
unfoldable pub attempt : {A : Type 0} → Exec A → Exec (Result Text A)
attempt m log = (ok (m log).0, (m log).1)

abbrev pub continue : {A B : Type 0} → (A → Exec B) → Result Text A → Exec B
continue k (ok a) log = k a log
continue k (err e) log = (err e, log)

-- To unfold this is to unfold the four above too.
infixl 5 ◌>>=◌ ◌>>◌
unfoldable pub ◌>>=◌ : {A B : Type 0} → Exec A → (A → Exec B) → Exec B
unfolding pure raise lift attempt
◌>>=◌ m k log = continue k (m log).0 (m log).1

abbrev pub ◌>>◌ : {B : Type 0} → Exec (Unit {0}) → Exec B → Exec B
m >> k = m >>= λ _. k

abbrev pub answered : Option Text → Result Text (Unit {0})
answered none = ok tt
answered (some e) = err e

abbrev pub send : (List Request → Request → Option Text) → Request → Exec (Unit {0})
send update request log = (answered (update log request), log ++ request ∷ [])
