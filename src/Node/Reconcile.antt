-- ===== src/Node/Reconcile.antt =====
-- pkg/controller/node/node_controller.go: one pass over a pod.
pub mod Marked
pub mod Completes
use mysql_operator.Base.{
  ℕ, true, Option, none, some, ◌∷◌, ◌++◌, Text, codes, insert, Result, ok, err, if◌then◌else◌,
}
use mysql_operator.Base.Decimal.{decimal}
use mysql_operator.Semver.{Blang, Version, is_zero}
use mysql_operator.Versioning.Profiles.{profile_for}
use mysql_operator.Versioning.Replication.{replication}
use mysql_operator.Versioning.Resolution.{semver_from_pod}
use mysql_operator.Cluster.{
  MysqlCluster, name_for_resource, headless_svc, stateful_set, secret, condition_true,
  condition_false, failover_in_progress,
}
use mysql_operator.Cluster.Conditions.{condition_is_true}
use mysql_operator.Cluster.Versions.{StatefulSet, effective_version}
use mysql_operator.Node.{
  Pod, Credentials, node_initialized, update_pod_status_condition, cluster_of_pod,
  should_update_to_version, credentials_in,
}
use mysql_operator.Node.Requests.{
  Env, Exec, update_cluster, update_pod, pure, raise, lift, ◌>>=◌, ◌>>◌, attempt, send,
}
use mysql_operator.Node.Runner.{NodeSqlRunner, wait, wait_for_operator_status_table}
use mysql_operator.Node.Initialize.{skip_gtid_purged, initialize_mysql}

-- `getNodeCluster`.
unfoldable pub get_node_cluster : Env → Pod → Result Text MysqlCluster
unfolding cluster_of_pod
get_node_cluster env pod = elim (cluster_of_pod pod.name) [
  | none ↦ err (codes "pod name can't be parsed")
  | some name ↦ env.get_cluster name pod.namespace
]

unfoldable pub get_creds_secret : Env → MysqlCluster → Result Text Credentials
unfolding credentials_in name_for_resource
get_creds_secret env c = elim (env.get_secret (name_for_resource secret c.name) c.namespace) [
  | err e ↦ err e
  | ok found ↦ credentials_in found
]

abbrev pub initialized : ℕ → Pod → Pod
initialized now =
    update_pod_status_condition now node_initialized condition_true
      (codes "mysqlInitializationSucceeded") (codes "success")

abbrev pub not_initialized : ℕ → Text → Pod → Pod
not_initialized now e =
    update_pod_status_condition now node_initialized condition_false
      (codes "mysqlInitializationFailed") e

-- A cluster of an old operator is only annotated.
abbrev pub annotated : MysqlCluster → MysqlCluster
annotated c = record c { annotations = insert skip_gtid_purged (codes "true") c.annotations }

-- What the API server has of the cluster now.
unfoldable pub refresh_cluster : Env → MysqlCluster → Exec MysqlCluster
refresh_cluster env c log = (env.refresh log c, log)

-- The error of the initialisation, unless the update of the pod fails.
unfoldable pub report : Env → Pod → Result Text (Unit {0}) → Exec (Unit {0})
unfolding update_pod_status_condition
report env pod (ok _) = send env.update (update_pod (initialized env.now pod))
report env pod (err e) = do send env.update (update_pod (not_initialized env.now e pod)); raise e

-- On the cluster as it is now, which may be in a failover.
unfoldable pub initialize_node :
    Env → NodeSqlRunner → Pod → Credentials → MysqlCluster → Exec (Unit {0})
unfolding initialize_mysql report
initialize_node env r pod creds fresh =
    if condition_is_true failover_in_progress fresh
    then raise (codes "delay node sync because a failover is in progress")
    else (do result ← attempt (initialize_mysql env r fresh creds); report env pod result)

abbrev pub unless_deleted : Option ℕ → Exec (Unit {0}) → Exec (Unit {0})
unless_deleted (some t) m = pure tt
unless_deleted none m = m

module _ ⦃blang : Blang⦄ where
  unfoldable pub replication_sql_version : MysqlCluster → Pod → Option StatefulSet → Version
  replication_sql_version c pod sts =
      let v = semver_from_pod (some pod.containers) in
      if is_zero v then effective_version c sts else v

  unfoldable pub get_mysql_connection :
      MysqlCluster → Pod → Credentials → Option StatefulSet → NodeSqlRunner
  unfolding replication_sql_version name_for_resource replication
  get_mysql_connection c pod creds sts =
      let host =
        pod.hostname
        ++ (b'.' ∷ (name_for_resource headless_svc c.name ++ (b'.' ∷ pod.namespace))) in
      record {
        dsn =
            creds.user
            ++ (b':'
                ∷ (creds.password
                    ++ (codes "@tcp("
                        ++ (host
                            ++ (b':'
                                ∷ (decimal 3306
                                    ++ codes
                                        ")/?timeout=5s&multiStatements=true&interpolateParams=true"))))));
        host = host;
        rep = replication (profile_for (replication_sql_version c pod sts));
      }

  -- From the read of the credentials on.
  unfoldable pub sync_node : Env → Pod → MysqlCluster → Exec (Unit {0})
  unfolding get_creds_secret refresh_cluster get_mysql_connection wait
      wait_for_operator_status_table initialize_node
  sync_node env pod c = do
    creds ← lift (get_creds_secret env c)
    sts ← lift (env.get_stateful_set (name_for_resource stateful_set c.name) c.namespace)
    let r = get_mysql_connection c pod creds sts
    wait env r env.ticks
    wait_for_operator_status_table env r env.table_ticks
    fresh ← refresh_cluster env c
    initialize_node env r pod creds fresh

  unfoldable pub reconcile_pod : Env → Pod → Exec (Unit {0})
  unfolding get_node_cluster should_update_to_version sync_node
  reconcile_pod env pod = do
    c ← lift (get_node_cluster env pod)
    unless_deleted c.deletion_timestamp (
        if should_update_to_version c 300
        then send env.update (update_cluster (annotated c))
        else sync_node env pod c)

  abbrev pub if_found : Env → Option Pod → Exec (Unit {0})
  if_found env none = pure tt
  if_found env (some pod) = reconcile_pod env pod

  unfoldable pub reconcile : Env → Exec (Unit {0})
  unfolding reconcile_pod
  reconcile env = do found ← lift env.get_pod; if_found env found
