-- ===== src/Orchestrator/Status/Ready.antt =====
-- When `updateClusterReadyStatus` finds the cluster ready.
use mysql_operator.Base.{
  ℕ, zero, suc, ◌≡◌, refl, ap, ◌∙◌, Bool, true, false, ◌&&◌, ◌||◌, Option, none, some, List, arith,
  Text, any, all, range_from, ◌==◌, Bool-cases, inl, inr,
}
use mysql_operator.Cluster.{
  MysqlCluster, NodeStatus, ConditionStatus, condition_false, ready, NodeConditionType, master,
  replicating, replicas, pod_hostname,
}
use mysql_operator.Cluster.Conditions.{
  get_cluster_condition, update_status_condition, get_cluster_condition-update,
}
use mysql_operator.Cluster.Nodes.{get_node_status_for}
use mysql_operator.Cluster.Nodes.Reading.{
  node_is, get_node_status_for-holds, get_node_status_for-node_is,
}
use mysql_operator.Orchestrator.Status.{
  status_of, scan_pods, ready_verdict, not_replicating, scanned, update_cluster_ready_status,
}

-- Each of the pods is a master or replicates.
abbrev pub all_in_topology : MysqlCluster → List NodeStatus → List ℕ → Bool
all_in_topology c nodes pods =
    all
      (λ i. node_is master (pod_hostname c i) nodes || node_is replicating (pod_hostname c i) nodes)
      pods

abbrev pub any_master : MysqlCluster → List NodeStatus → List ℕ → Bool
any_master c nodes pods = any (λ i. node_is master (pod_hostname c i) nodes) pods

-- The pods from `i` on, with what the earlier ones showed.
abbrev verdict_of : MysqlCluster → List NodeStatus → Bool → List ℕ → ConditionStatus
verdict_of c nodes has_master pods = status_of (
    all_in_topology c nodes pods
    && (has_master || any_master c nodes pods || c.spec.read_only || replicas c == 0))

ready_verdict-scanned :
    (c : MysqlCluster) (has_master : Bool)
    → (ready_verdict c (scanned has_master)).0
      ≡ status_of (has_master || c.spec.read_only || replicas c == 0)
unfolding ready_verdict
ready_verdict-scanned c has_master = ground arith

ready_verdict-not_replicating :
    (c : MysqlCluster) (host : Text) → (ready_verdict c (not_replicating host)).0 ≡ condition_false
unfolding ready_verdict
ready_verdict-not_replicating c host = refl

module _ (c : MysqlCluster) (nodes : List NodeStatus) where
  scan_pods_lem :
      (left i : ℕ) (has_master : Bool) (current : List NodeStatus)
      → ((t : NodeConditionType) (h : Text) → node_is t h current ≡ node_is t h nodes)
      → (ready_verdict c (scan_pods c left i has_master current).1).0
        ≡ verdict_of c nodes has_master (range_from i left)
  unfolding scan_pods
  scan_pods_lem zero i has_master current same = ready_verdict-scanned c has_master ∙ ground arith
  scan_pods_lem (suc left) i has_master current same =
      let host = pod_hostname c i in
      let next = (get_node_status_for host current).0 in
      let same' : (t : NodeConditionType) (h : Text) → node_is t h next ≡ node_is t h nodes =
        (λ t h. get_node_status_for-node_is host current t h ∙ same t h) in
      let is_master = get_node_status_for-holds host current master ∙ same master host in
      let replicates = get_node_status_for-holds host current replicating ∙ same replicating host in
      let ih = (λ (b : Bool). scan_pods_lem left (suc i) b next same') in
      rw (is_master, replicates)
        (elim (Bool-cases (node_is master host nodes)) [
          | inl m ↦ rw m (ih true ∙ ground arith)
          | inr n ↦ elim (Bool-cases (node_is replicating host nodes)) [
            | inl r ↦ rw (n, r) (ih has_master ∙ ground arith)
            | inr o ↦ rw (n, o) (ready_verdict-not_replicating c host)
          ]
        ])

-- The status of the ready condition, if there is one.
abbrev pub ready_status : MysqlCluster → Option ConditionStatus
ready_status c = elim (get_cluster_condition ready c) [ none ↦ none | some cond ↦ some cond.status ]

ready_status-update :
    (now : ℕ) (s : ConditionStatus) (reason message : Text) (c : MysqlCluster)
    → ready_status (update_status_condition now ready s reason message c) ≡ some s
ready_status-update now s reason message c =
    ground (arith, get_cluster_condition-update now ready ready s reason message c)

-- The pods of the cluster.
abbrev pub pods : MysqlCluster → List ℕ
pods c = range_from 0 (replicas c)

-- After a reconciliation's last step on it, the ready condition is true exactly when as many nodes are
-- ready as the cluster has replicas, each pod is a master or replicates, and some pod is a master,
-- the cluster is read-only or it has no replicas; in every other case it is false.
pub update_cluster_ready_status_lem :
    (now : ℕ) (c : MysqlCluster)
    → ready_status (update_cluster_ready_status now c)
      ≡ some (
          status_of (
            c.status.ready_nodes == replicas c
            && (all_in_topology c c.status.nodes (pods c)
                && (any_master c c.status.nodes (pods c) || c.spec.read_only || replicas c == 0))))
unfolding update_cluster_ready_status
update_cluster_ready_status_lem now c = elim (Bool-cases (c.status.ready_nodes == replicas c)) [
  | inl complete ↦ rw complete (
      ready_status-update now _ _ _ _
      ∙ ap some (scan_pods_lem c c.status.nodes (replicas c) 0 false c.status.nodes (λ t h. refl)))
  | inr partial ↦ rw partial (ready_status-update now _ _ _ c)
]
