-- ===== src/Tests/Nodes.antt =====
-- The theorems on the controller of nodes at concrete inputs.
use mysql_operator.Base.{
  ◌≡◌, refl, none, some, List, [], ◌∷◌, ◌++◌, Text, codes, text_eq, Result, ok, err, if◌then◌else◌,
  ltb, length, Bool-cases, inl, inr, true, false, lookup, arith,
}
use mysql_operator.Base.Decimal.{decimal, atoi}
use mysql_operator.Cluster.{MysqlCluster, name_for_resource, stateful_set}
use mysql_operator.Versioning.Replication.{master_slave_replication}
use mysql_operator.Orchestrator.Removal.{annotation_version}
use mysql_operator.Node.{Pod, Credentials, cluster_of_pod, should_update_to_version}
use mysql_operator.Node.Names.{cluster_of_pod-name_for_resource}
use mysql_operator.Node.Requests.{
  Env, Request, update_pod, exec, enable_super_read_only, RowError, no_rows,
}
use mysql_operator.Node.Runner.{NodeSqlRunner, value_or_empty, status_query, init_file_complete_key}
use mysql_operator.Node.Initialize.{initialize_mysql}
use mysql_operator.Node.Initialize.Sealed.{initialize_mysql_sealed}
use mysql_operator.Node.Reconcile.{get_node_cluster, get_creds_secret, reconcile, initialized}
use mysql_operator.Node.Runner.Works.{Wakes}
use mysql_operator.Node.Reconcile.Completes.{reconcile_completes}
use mysql_operator.Node.Reconcile.Marked.{Each, MarksReady, reconcile-MarksReady}
use mysql_operator.Tests.{numbers, current}

abbrev pod : Pod
pod = record {
  name = codes "db-mysql-1";
  namespace = codes "prod";
  hostname = codes "db-mysql-1";
  containers = [];
  conditions = [];
}

-- The status table has the row of the init file, and no other.
rows : Text → Result RowError Text
rows query =
    if text_eq query (status_query init_file_complete_key) then ok (codes "1") else err no_rows

abbrev managed : MysqlCluster
managed = record current { annotations = (annotation_version, codes "300") ∷ [] }

abbrev passwords : List (Text × Text)
passwords =
    (codes "OPERATOR_USER", codes "op")
    ∷ (codes "OPERATOR_PASSWORD", codes "pw")
    ∷ (codes "REPLICATION_USER", codes "repl")
    ∷ (codes "REPLICATION_PASSWORD", codes "rpw")
    ∷ []

abbrev answers : Env
answers = record {
  get_pod = ok (some pod);
  get_cluster = λ name namespace. ok managed;
  get_secret = λ name namespace. ok passwords;
  get_stateful_set = λ name namespace. ok none;
  sql_open = λ dsn. none;
  exec_context = λ log text args. none;
  query_row = λ log query. rows query;
  refresh = λ log c. ok c;
  update = λ log request. none;
  ticks = 2;
  table_ticks = 2;
  now = 9;
}

cluster_of_pod-name_for_resource_example :
    cluster_of_pod (name_for_resource stateful_set (codes "db") ++ b'-' ∷ decimal 12)
    ≡ some (codes "db")
cluster_of_pod-name_for_resource_example = cluster_of_pod-name_for_resource current 12 refl

reconcile-MarksReady_example : Each (MarksReady answers) [] (reconcile answers []).1
reconcile-MarksReady_example = reconcile-MarksReady answers

abbrev runner : NodeSqlRunner
runner = record { dsn = codes "dsn"; host = codes "host"; rep = master_slave_replication }

abbrev credentials : Credentials
credentials = record {
  user = codes "op";
  password = codes "pw";
  replication_user = codes "repl";
  replication_password = codes "rpw";
}

initialize_mysql_sealed_example :
    (sent : List Request) × ((initialize_mysql answers runner managed credentials []).1
      ≡ sent ++ exec enable_super_read_only ∷ [])
unfolding rows text_eq status_query
initialize_mysql_sealed_example =
    initialize_mysql_sealed answers runner managed credentials [] [] refl refl refl refl

-- MySQL refuses the first statement.
abbrev starting : Env
starting = record answers {
  exec_context = λ log text args. if ltb (length log) 1 then some (codes "refused") else none;
}

abbrev row_of : Result RowError Text → Text
row_of (ok v) = v
row_of (err e) = []

rows-value : (query : Text) → value_or_empty (rows query) ≡ ok (row_of (rows query))
unfolding rows
rows-value query = elim (Bool-cases (text_eq query (status_query init_file_complete_key))) [
  | inl hit ↦ rw hit refl
  | inr miss ↦ rw miss refl
]

starting-Wakes : Wakes starting 1
unfolding rows text_eq status_query
starting-Wakes = record {
  opens = λ dsn. refl;
  refuses = λ log text args early.
      let early_enough : ltb (length log) 1 ≡ true = ground arith in
      (codes "refused", rw early_enough refl);
  takes = λ log text args late.
      let awoken : ltb (length log) 1 ≡ false = ground arith in rw awoken refl;
  reads = λ log query. (row_of (rows query), rows-value query);
  complete = λ log. refl;
}

reconcile_completes_example :
    (sent : List Request) × (reconcile starting []
      ≡ (ok tt, sent ++ update_pod (initialized 9 pod) ∷ []))
unfolding get_node_cluster cluster_of_pod should_update_to_version get_creds_secret text_eq lookup
    atoi mysql_operator.Cluster.Conditions.get_cluster_condition
reconcile_completes_example =
    reconcile_completes starting 1 starting-Wakes (λ log request. refl) pod managed managed
      credentials none refl refl refl refl refl refl (omega arith) (omega arith) (λ log. refl) refl
