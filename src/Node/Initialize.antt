-- ===== src/Node/Initialize.antt =====
-- pkg/controller/node/node_controller.go: `initializeMySQL` and the host of the master.
pub mod Evidence
pub mod Sealed
use mysql_operator.Base.{
  Bool, false, Option, none, some, List, [], ◌∷◌, Text, codes, text_eq, lookup, if◌then◌else◌,
}
use mysql_operator.Cluster.{
  MysqlCluster, NodeStatus, master, status_eq, condition_true, pod_hostname,
}
use mysql_operator.Cluster.Nodes.{get_node_condition}
use mysql_operator.Node.{Credentials}
use mysql_operator.Node.Requests.{
  enable_super_read_only, disable_super_read_only, Env, Exec, pure, ◌>>=◌, ◌>>◌,
}
use mysql_operator.Node.Runner.{
  NodeSqlRunner, run_query, change_master_to, mark_configuration_done, is_configured,
  mark_set_gtid_purged, set_purged_gtid,
}

abbrev pub is_master : List NodeStatus → NodeStatus → Bool
unfolding get_node_condition
is_master nodes ns = elim (get_node_condition ns.name master nodes).1 [
  | none ↦ false
  | some cond ↦ status_eq cond.status condition_true
]

-- The last node that is a master, or else pod 0.
abbrev pub last_master : List NodeStatus → Text → List NodeStatus → Text
last_master all_nodes host [] = host
last_master all_nodes host (ns ∷ nodes) =
    last_master all_nodes (if is_master all_nodes ns then ns.name else host) nodes

unfoldable pub get_master_host : MysqlCluster → Text
unfolding pod_hostname
get_master_host c = last_master c.status.nodes (pod_hostname c 0) c.status.nodes

-- `domain.AnnotationSkipGTIDPurged`.
abbrev pub skip_gtid_purged : Text
skip_gtid_purged = codes "mysql.presslabs.org/skip-gtid-purged"

-- What is left to do in any case, whose own error is only logged.
abbrev pub deferred : {A : Type 0} → Exec A → Exec (Unit {0}) → Exec A
deferred m last log = ((m log).0, (last (m log).1).1)

module _ (env : Env) (r : NodeSqlRunner) (c : MysqlCluster) (creds : Credentials) where
  abbrev pub skip_if : Option Text → Exec (Unit {0})
  skip_if none = pure tt
  skip_if (some _) = mark_set_gtid_purged env r

  unfoldable pub skip_gtid : Exec (Unit {0})
  unfolding lookup mark_set_gtid_purged
  skip_gtid = skip_if (lookup skip_gtid_purged c.annotations)

  unfoldable pub replicate : Exec (Unit {0})
  unfolding text_eq get_master_host change_master_to
  replicate =
      if text_eq (get_master_host c) r.host
      then pure tt
      else change_master_to env r (get_master_host c) creds.replication_user
          creds.replication_password

  unfoldable pub configure : Exec (Unit {0})
  unfolding skip_gtid replicate set_purged_gtid mark_configuration_done
  configure = do skip_gtid; set_purged_gtid env r; replicate; mark_configuration_done env r

  unfoldable pub initialize_mysql : Exec (Unit {0})
  unfolding is_configured run_query configure
  initialize_mysql = do
    configured ← is_configured env r
    if configured then pure tt else (do
      run_query env r disable_super_read_only
      deferred configure (run_query env r enable_super_read_only))
