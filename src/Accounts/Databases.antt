-- ===== src/Accounts/Databases.antt =====
-- pkg/controller/mysqldatabase/db_controller.go: one pass over a MysqlDatabase. `now` is `time.Now()`.
pub mod Removal
use mysql_operator.Base.{
  Result, err, ok, ℕ, Bool, false, ◌&&◌, not, Option, none, some, List, [], ◌∷◌, ◌++◌, Text, codes,
  text_eq, if◌then◌else◌,
}
use mysql_operator.Cluster.{MysqlCluster, condition_true, condition_false}
use mysql_operator.Cluster.Conditions.{is_cluster_ready}
use mysql_operator.Sql.{create_database_query, drop_database_query}
use mysql_operator.Accounts.{
  ObjectKey, ClusterReference, get_cluster_key, ApiError, plain_error, is_cluster_gone,
  is_mysql_cluster_kind, deletion_policy_retain, Condition, ready_type, provision_failed_reason,
  provision_succeeded_reason, updated_conditions, conditions_same, Finalizers, Client,
  new_config_from_cluster_key, new_sql_runner, update, update_status, done, failed, panicked, Pass,
  Answer, Action, ◌>>◌, stop, send, change, with_object, exec_query, Outcome, no_requeue, ending_of,
}

pub record MysqlDatabaseSpec : Type 0 where
  pub cluster_ref : ClusterReference
  pub database : Text
  pub character_set : Text
  pub collation : Text

pub record MysqlDatabaseStatus : Type 0 where
  pub conditions : List Condition

pub record MysqlDatabase : Type 0 where
  pub name : Text
  pub namespace : Text
  pub annotations : List (Text × Text)
  pub finalizers : List Text
  pub deletion_timestamp : Option ℕ
  pub spec : MysqlDatabaseSpec
  pub status : MysqlDatabaseStatus

abbrev pub database_finalizer : Text
database_finalizer = codes "mysql-operator.presslabs.org/database"

-- What a pass reads and how its requests are answered.
pub record Env : Type 0 where
  pub allow_cross_namespace_databases : Bool
  pub finalizers : Finalizers
  pub get_cluster : ObjectKey → Result ApiError MysqlCluster
  pub client : Client
  pub sql_open : Text → Option ApiError
  pub answer : Answer MysqlDatabase
  pub now : ℕ

abbrev pub cluster_key : MysqlDatabase → ObjectKey
cluster_key db = get_cluster_key db.spec.cluster_ref db.namespace

unfoldable pub connect : Env → MysqlDatabase → Option ApiError
unfolding new_config_from_cluster_key new_sql_runner
connect env db =
    new_sql_runner env.sql_open (new_config_from_cluster_key env.client (cluster_key db))

unfoldable pub drop_database : Env → Action MysqlDatabase
unfolding exec_query
drop_database env db =
    exec_query env.answer (codes "failed to remove database, err: ")
      (drop_database_query db.spec.database) db

unfoldable pub delete_database : Env → Action MysqlDatabase
unfolding deletion_policy_retain connect drop_database is_mysql_cluster_kind
delete_database env db log =
    if deletion_policy_retain db.annotations
    then stop done db log
    else (elim (connect env db) as (λ _. Pass MysqlDatabase) [
      | some e ↦ if is_cluster_gone e then stop done db log else stop (failed e) db log
      | none ↦ drop_database env db log
    ])

unfoldable pub create_database : Env → Action MysqlDatabase
unfolding connect exec_query
create_database env db log = elim (connect env db) as (λ _. Pass MysqlDatabase) [
  | some e ↦ stop (failed e) db log
  | none ↦
      exec_query env.answer (codes "failed to create database, err: ")
        (create_database_query db.spec.database db.spec.character_set db.spec.collation) db log
]

-- `UpdateCondition` of the type Ready.
unfoldable pub update_condition : ℕ → Option ApiError → MysqlDatabase → MysqlDatabase
unfolding updated_conditions
update_condition now none db = record db {
  status = record {
    conditions =
        updated_conditions now ready_type condition_true provision_succeeded_reason
          (codes "Database successfully created.") db.status.conditions;
  };
}
update_condition now (some e) db = record db {
  status = record {
    conditions =
        updated_conditions now ready_type condition_false provision_failed_reason e.message
          db.status.conditions;
  };
}

-- The status is sent if it has changed; the result is returned unless that fails.
unfoldable pub send_status : Env → MysqlDatabaseStatus → Option ApiError → Action MysqlDatabase
unfolding conditions_same
send_status env old result db log =
    if conditions_same old.conditions db.status.conditions
    then stop (ending_of result) db log
    else (elim (env.answer log (update_status db)) as (λ _. Pass MysqlDatabase) [
      | none ↦ stop (ending_of result) db (log ++ update_status db ∷ [])
      | some e ↦ stop (failed e) db (log ++ update_status db ∷ [])
    ])

-- The condition follows the result.
unfoldable pub update_ready_condition :
    Env → MysqlDatabaseStatus → Option ApiError → Action MysqlDatabase
unfolding update_condition send_status
update_ready_condition env old result =
    change (update_condition env.now result) >> send_status env old result

abbrev pub released : Env → MysqlDatabase → MysqlDatabase
released env db = record db { finalizers = env.finalizers.remove database_finalizer db.finalizers }

-- The branch of an object that is being deleted.
unfoldable pub remove_database : Env → Action MysqlDatabase
unfolding delete_database
remove_database env = do
  delete_database env
  change (released env)
  with_object λ db. send env.answer (update db)

unfoldable pub ensure_finalizer : Env → Action MysqlDatabase
ensure_finalizer env db log =
    if env.finalizers.has database_finalizer db.finalizers
    then stop done db log
    else (let d : MysqlDatabase = record db {
      finalizers = env.finalizers.add database_finalizer db.finalizers;
    } in
        send env.answer (update d) d log)

-- An error of the creation goes into the status; one of the finalizer's update does not.
unfoldable pub provision : Env → MysqlDatabaseStatus → Action MysqlDatabase
unfolding create_database ensure_finalizer update_ready_condition
provision env old db log =
    let created = create_database env db log in
    elim created.ending as (λ _. Pass MysqlDatabase) [
      | failed e ↦ update_ready_condition env old (some e) created.object created.log
      | panicked ↦ created
      | done ↦
          (ensure_finalizer env >> update_ready_condition env old none) created.object created.log
    ]

abbrev not_ready : Env → MysqlDatabase → Outcome MysqlDatabase
not_ready env db =
    let sent =
      update_ready_condition env db.status (some (plain_error (codes "cluster is not ready"))) db
        [] in
    record { pass = record sent { ending = done }; requeue = false; requeue_after = 30 }

-- `Reconcile` behind its first guard, by the time at which the deletion was asked for.
unfoldable pub reconcile_allowed : Env → MysqlDatabase → Option ℕ → Outcome MysqlDatabase
unfolding remove_database provision update_ready_condition is_cluster_ready
reconcile_allowed env db (some t) = no_requeue (remove_database env db [])
reconcile_allowed env db none = elim (env.get_cluster (cluster_key db)) [
  | err e ↦ no_requeue (update_ready_condition env db.status (some e) db [])
  | ok cluster ↦
      if is_cluster_ready cluster
      then no_requeue (provision env db.status db [])
      else not_ready env db
]

unfoldable pub crosses_namespaces : Env → MysqlDatabase → Bool
unfolding text_eq
crosses_namespaces env db =
    not env.allow_cross_namespace_databases && not (text_eq db.namespace (cluster_key db).namespace)

-- `Reconcile`, for the object that was read.
unfoldable pub reconcile : Env → MysqlDatabase → Outcome MysqlDatabase
unfolding crosses_namespaces reconcile_allowed update_ready_condition
reconcile env db =
    if crosses_namespaces env db
    then no_requeue (
        update_ready_condition env db.status
          (some (plain_error (codes "cross namespace database creation is disabled"))) db [])
    else reconcile_allowed env db db.deletion_timestamp
