-- ===== src/PodLabels.antt =====
-- pkg/controller/mysqlcluster/internal/syncer/pod.go and `getPodSyncers` of
-- pkg/controller/mysqlcluster/mysqlcluster_controller.go: the labels of the pods, by which the services
-- select them, and the order in which they are set.

pub mod Roles
use mysql_operator.Base.{
  Bool, false, ◌&&◌, ◌||◌, not, Option, none, some, List, ◌++◌, Text, codes, insert, cut, map, keep,
  if◌then◌else◌, Result, ok, err,
}
use mysql_operator.Cluster.{
  MysqlCluster, NodeStatus, NodeCondition, condition_true, status_eq, lagged, replicating, master,
}
use mysql_operator.Cluster.Nodes.{get_node_condition, get_cond_as_bool}

pub data PodError : Type 0 where
  pod_not_found master_not_set : PodError

abbrev pub label_master : Text
label_master = codes "master"

abbrev pub label_replica : Text
label_replica = codes "replica"

abbrev pub label_healthy : Text
label_healthy = codes "yes"

abbrev pub label_not_healthy : Text
label_not_healthy = codes "no"

-- `cond != nil && cond.Status == core.ConditionTrue`.
abbrev pub is_true : Option NodeCondition → Bool
is_true cond = elim cond [ none ↦ false | some nc ↦ status_eq nc.status condition_true ]

abbrev pub Labels : Type 0
Labels = List (Text × Text)

-- `podSyncer.SyncFn` on a pod that was created or not and has `labels`. The nodes of the status come
-- back too, since asking for a condition appends a node that is missing.
unfoldable pub sync_fn :
    Text → Bool → Labels → List NodeStatus → List NodeStatus × Result PodError Labels
sync_fn hostname created labels nodes =
    if not created
    then (nodes, err pod_not_found)
    else let (nodes1, master_cond) = get_node_condition hostname master nodes in
      let (nodes2, replicating_cond) = get_node_condition hostname replicating nodes1 in
      let (nodes3, lagged_cond) = get_node_condition hostname lagged nodes2 in
      elim master_cond as (λ _. List NodeStatus × Result PodError Labels) [
        | none ↦ (nodes3, err master_not_set)
        | some nc ↦
            let is_master = status_eq nc.status condition_true in
            let is_lagged = is_true lagged_cond in
            let is_replicating = is_true replicating_cond in
            let role = if is_master then label_master else label_replica in
            let healthy =
              if is_master || (not is_master && (is_replicating && not is_lagged))
              then label_healthy
              else label_not_healthy in
            (nodes3, ok (insert (codes "healthy") healthy (insert (codes "role") role labels)))
      ]

unfoldable pub get_pod_name_for_host : Text → Text
get_pod_name_for_host host = elim (cut b'.' host) [ none ↦ host | some (name, rest) ↦ name ]

-- The hosts whose pods are synced, in order: first those without the master condition.
unfoldable pub get_pod_syncers : MysqlCluster → List Text
get_pod_syncers c =
    let name : NodeStatus → Text = (λ ns. ns.name) in
    map name (keep (λ ns. not (get_cond_as_bool master ns)) c.status.nodes)
    ++ map name (keep (get_cond_as_bool master) c.status.nodes)
