-- ===== src/Controller.antt =====
-- pkg/controller/mysqlcluster/mysqlcluster_controller.go: one pass over a cluster, as the steps that it
-- takes one after the other. What the API server, the syncers, the claim resizer and the claim cleaner
-- answer is a parameter, and so is what they write into the cluster in memory.
pub mod Steps
pub mod Same
pub mod Failover
pub mod Gate
pub mod Syncs
use mysql_operator.Base.{
  ℕ, Bool, true, false, ◌&&◌, Option, none, some, List, [], ◌∷◌, ◌++◌, Text, text_eq, ◌==◌,
  if◌then◌else◌, Result,
}
use mysql_operator.Versioning.Images.{Options}
use mysql_operator.Versioning.UpgradePath.{PathError}
use mysql_operator.Cluster.{
  MysqlCluster, ClusterStatus, ClusterCondition, NodeCondition, NodeStatus, status_eq,
  NodeConditionType, lagged, replicating, master, node_read_only,
}
use mysql_operator.Cluster.Conditions.{type_eq}
use mysql_operator.Cluster.Versions.{StatefulSet}
use mysql_operator.Cluster.Versions.Validation.{ValidationError}
use mysql_operator.Upgrade.Pods.{Pod}
use mysql_operator.Upgrade.Observe.{ObserveError, Query}

pub data Syncer : Type 0 where
  config_map operated_secret secret headless_svc master_svc healthy_svc healthy_replicas_svc
        stateful_set pdb :
      Syncer
  pod : Text → Syncer

pub data Step : Type 0 where
  sync : Syncer → Step
  update_cluster : MysqlCluster → Step
  update_status : MysqlCluster → Step
  resize_claims : Step
  clean_claims : Step

pub data SyncError : Type 0 where
  pod_not_found : SyncError
  sync_failed : Text → SyncError

-- The error that a pass returns.
pub data Failure : Type 0 where
  invalid : ValidationError → Failure
  request_failed : Text → Failure
  observe_failed : ObserveError → Failure
  step_failed : SyncError → Failure

-- A pass goes on, or it has returned: the error, and after how many seconds to come back.
pub data Ending : Type 0 where
  going : Ending
  returned : Option Failure → ℕ → Ending

pub record Pass : Type 0 where
  pub cluster : MysqlCluster
  pub log : List Step
  pub ending : Ending

-- What is answered after the steps taken so far. `min_available` is whether the spec has that field.
pub record Env : Type 0 where
  pub options : Options
  pub min_available : Bool
  pub query : Query
  pub operated_secret : Option (List (Text × Text))
  pub list_pods : List Step → Result Text (List Pod)
  pub get_stateful_set : List Step → Result Text (Option StatefulSet)
  pub run_sync : List Step → Syncer → MysqlCluster → MysqlCluster × Option SyncError
  pub answer : List Step → Step → MysqlCluster → MysqlCluster × Option Text
  pub blocked_message : PathError → Text
  pub now : ℕ

abbrev pub Action : Type 0
Action = MysqlCluster → List Step → Pass

abbrev pub continue : Action → Pass → Pass
continue k first = elim first.ending [
  | going ↦ k first.cluster first.log
  | returned e after ↦ first
]

infixl 5 ◌>>◌
abbrev pub ◌>>◌ : Action → Action → Action
◌>>◌ m k c log = continue k (m c log)

abbrev pub stop : Ending → Action
stop ending c log = record { cluster = c; log = log; ending = ending }

abbrev pub fail : Failure → Ending
fail e = returned (some e) 0

abbrev pub change : (MysqlCluster → MysqlCluster) → Action
change f c log = record { cluster = f c; log = log; ending = going }

abbrev pub with_cluster : (MysqlCluster → Action) → Action
with_cluster f c log = f c c log

abbrev pub answered : Option Text → Ending
answered none = going
answered (some e) = fail (request_failed e)

-- The answer to an update is read into the cluster in memory.
abbrev pub send : Env → Step → Action
send env step c log =
    let (c', result) = env.answer log step c in
    record { cluster = c'; log = log ++ step ∷ []; ending = answered result }

abbrev pub synced : Option SyncError → Ending
synced none = going
synced (some e) = fail (step_failed e)

-- `IsPodNotFound` is skipped for the syncers of the pods.
abbrev pod_synced : Option SyncError → Ending
pod_synced none = going
pod_synced (some pod_not_found) = going
pod_synced (some (sync_failed e)) = fail (step_failed (sync_failed e))

-- `syncer.Sync`.
unfoldable pub run_syncer : Env → Syncer → Action
run_syncer env s c log =
    let (c', result) = env.run_sync log s c in
    record { cluster = c'; log = log ++ sync s ∷ []; ending = synced result }

unfoldable pub run_pod_syncer : Env → Text → Action
run_pod_syncer env name c log =
    let (c', result) = env.run_sync log (pod name) c in
    record { cluster = c'; log = log ++ sync (pod name) ∷ []; ending = pod_synced result }

-- `reflect.DeepEqual` on annotations and on the status.
unfoldable pub pairs_same : List (Text × Text) → List (Text × Text) → Bool
unfolding text_eq
pairs_same [] [] = true
pairs_same [] (q ∷ qs) = false
pairs_same (p ∷ ps) [] = false
pairs_same (p ∷ ps) (q ∷ qs) = text_eq p.0 q.0 && text_eq p.1 q.1 && pairs_same ps qs

abbrev pub condition_same : ClusterCondition → ClusterCondition → Bool
condition_same c d =
    type_eq c.type d.type
    && status_eq c.status d.status
    && text_eq c.reason d.reason
    && text_eq c.message d.message
    && c.last_transition_time == d.last_transition_time

abbrev pub node_type_index : NodeConditionType → ℕ
node_type_index lagged = 0
node_type_index replicating = 1
node_type_index master = 2
node_type_index node_read_only = 3

abbrev pub node_condition_same : NodeCondition → NodeCondition → Bool
node_condition_same c d =
    node_type_index c.type == node_type_index d.type
    && status_eq c.status d.status
    && c.last_transition_time == d.last_transition_time

abbrev pub lists_same {ℓ} : {A : Type ℓ} → (A → A → Bool) → List A → List A → Bool
lists_same same [] [] = true
lists_same same [] (y ∷ ys) = false
lists_same same (x ∷ xs) [] = false
lists_same same (x ∷ xs) (y ∷ ys) = same x y && lists_same same xs ys

abbrev pub node_same : NodeStatus → NodeStatus → Bool
node_same n m = text_eq n.name m.name && lists_same node_condition_same n.conditions m.conditions

unfoldable pub status_same : ClusterStatus → ClusterStatus → Bool
unfolding text_eq
status_same s t =
    text_eq s.applied_mysql_version t.applied_mysql_version
    && s.ready_nodes == t.ready_nodes
    && lists_same condition_same s.conditions t.conditions
    && lists_same node_same s.nodes t.nodes

unfoldable pub persist_cluster_annotations : Env → List (Text × Text) → Action
unfolding pairs_same
persist_cluster_annotations env before c log =
    if pairs_same before c.annotations then stop going c log else send env (update_cluster c) c log
