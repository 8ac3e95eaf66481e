-- ===== src/Orchestrator/Status.antt =====
-- orchestrator_reconcile.go: the conditions of the nodes and of the cluster that a reconciliation
-- writes. `now` is the clock. Setting a node's condition may append an empty status for the node, and
-- so does asking for it in `update_cluster_ready_status`.

pub mod Setting
pub mod Shown
pub mod OneNode
pub mod Nodes
pub mod Ready
use mysql_operator.Base.{
  ℕ, zero, suc, Bool, true, false, ◌&&◌, not, Option, none, some, List, [], ◌∷◌, ◌++◌, Text, codes,
  text_eq, ltb, ◌==◌, if◌then◌else◌, length, keep, map, ℤ, pos, ltb_ℤ, leb_ℤ, pos_part, neg_part,
}
use mysql_operator.Base.Decimal.{decimal}
use mysql_operator.Cluster.{
  MysqlCluster, NodeStatus, ConditionStatus, condition_true, condition_false, condition_unknown,
  ready, failover_ack, read_only, failover_in_progress, NodeConditionType, lagged, replicating,
  master, node_read_only, replicas, pod_hostname,
}
use mysql_operator.Cluster.Conditions.{update_status_condition}
use mysql_operator.Cluster.Nodes.{
  update_node_condition_status, get_node_status_for, holds, with_nodes,
}
use mysql_operator.Orchestrator.{Instance, TopologyRecovery}

-- `defaultMaxSlaveLatency`, in seconds.
abbrev pub default_max_slave_latency : ℤ
default_max_slave_latency = pos 30

-- `strings.Join(texts, " ")`.
join_with_space : List Text → Text
join_with_space [] = []
join_with_space (t ∷ []) = t
join_with_space (t ∷ u ∷ ts) = t ++ (b' ' ∷ join_with_space (u ∷ ts))

abbrev pub max_slave_latency : MysqlCluster → ℤ
max_slave_latency c = elim c.spec.max_slave_latency [
  | some l ↦ l
  | none ↦ default_max_slave_latency
]

-- `master != nil && host == master.Key.Hostname`.
abbrev pub is_master_host : Option Instance → Text → Bool
is_master_host m host = elim m [ none ↦ false | some i ↦ text_eq host i.key.hostname ]

abbrev pub status_of : Bool → ConditionStatus
status_of true = condition_true
status_of false = condition_false

-- The status of the lagged condition of a node that was checked recently.
abbrev pub lagged_status : ℤ → Option Instance → Instance → ConditionStatus
lagged_status limit m node =
    if is_master_host m node.key.hostname then condition_false else elim node.slave_lag_seconds [
      | none ↦ condition_unknown
      | some lag ↦ if leb_ℤ lag limit then condition_false else condition_true
    ]

-- One round of the loop over the instances.
unfoldable pub update_node_status : ℕ → Option Instance → Instance → MysqlCluster → MysqlCluster
update_node_status now m node c =
    let host = node.key.hostname in
    let set : NodeConditionType → ConditionStatus → MysqlCluster → MysqlCluster =
      (λ t s d. update_node_condition_status now host t s d) in
    if not node.is_recently_checked
    then if not node.is_last_check_valid
      then set master condition_unknown
          (set replicating condition_unknown (set lagged condition_unknown c))
      else c
    else let c1 = set lagged (lagged_status (max_slave_latency c) m node) c in
      let c2 = set replicating (status_of (node.slave_sql_running && node.slave_io_running)) c1 in
      let c3 = set master (status_of (is_master_host m host)) c2 in
      set node_read_only (status_of node.read_only) c3

unfoldable pub update_nodes_status :
    ℕ → List Instance → Option Instance → MysqlCluster → MysqlCluster
unfolding update_node_status
update_nodes_status now [] m c = c
update_nodes_status now (node ∷ insts) m c =
    update_nodes_status now insts m (update_node_status now m node c)

unfoldable pub update_cluster_read_only_status : ℕ → List Instance → MysqlCluster → MysqlCluster
unfolding join_with_space
update_cluster_read_only_status now insts c =
    let hosts : List Instance → List Text = (λ is. map (λ (i : Instance). i.key.hostname) is) in
    let read_only_hosts = hosts (keep (λ (i : Instance). i.read_only) insts) in
    let writable_hosts = hosts (keep (λ (i : Instance). not i.read_only) insts) in
    if length writable_hosts == 0
    then update_status_condition now read_only condition_true (codes "ClusterReadOnlyTrue")
        (codes "read-only nodes: " ++ join_with_space read_only_hosts) c
    else update_status_condition now read_only condition_false (codes "ClusterReadOnlyFalse")
        (codes "writable nodes: " ++ join_with_space writable_hosts) c

unfoldable pub update_cluster_failover_in_progress_status :
    ℕ → Option Instance → MysqlCluster → MysqlCluster
update_cluster_failover_in_progress_status now m c = elim m [
  | none ↦ c
  | some i ↦ elim i.seconds_since_last_seen [
    | none ↦ c
    | some seconds ↦
        if ltb_ℤ seconds (pos 5)
        then update_status_condition now failover_in_progress condition_false
            (codes "ClusterMasterHealthy") (codes "Master is healthy in orchestrator") c
        else c
  ]
]

-- The loop over the pods from index `i` on, with the rounds that are left: the nodes, with those that
-- were asked for, and the host of a node that does not replicate, or whether a master was met.
pub data PodScan : Type 0 where
  not_replicating : Text → PodScan
  scanned : Bool → PodScan

unfoldable pub scan_pods : MysqlCluster → ℕ → ℕ → Bool → List NodeStatus → List NodeStatus × PodScan
scan_pods c zero i has_master nodes = (nodes, scanned has_master)
scan_pods c (suc left) i has_master nodes =
    let hostname = pod_hostname c i in
    let (nodes', ns) = get_node_status_for hostname nodes in
    let is_master = holds master ns in
    let is_replicating = holds replicating ns in
    let go_on = scan_pods c left (suc i) (if is_master then true else has_master) nodes' in
    if is_master
    then go_on
    else if not is_replicating
    then (nodes', not_replicating hostname)
    else go_on

-- `metav1.Condition` values of the ready condition: its status, its reason and its message.
unfoldable pub ready_verdict : MysqlCluster → PodScan → ConditionStatus × Text × Text
ready_verdict c (not_replicating hostname) = (
  condition_false,
  codes "NotReplicating",
  codes "Node " ++ (hostname ++ codes " is part of topology and not replicating"),
)
ready_verdict c (scanned has_master) =
    if not has_master && (not c.spec.read_only && ltb 0 (replicas c))
    then (condition_false, codes "NoMaster", codes "Cluster has no designated master")
    else (condition_true, codes "ClusterReady", codes "Cluster is ready")

unfoldable pub update_cluster_ready_status : ℕ → MysqlCluster → MysqlCluster
unfolding ready_verdict scan_pods
update_cluster_ready_status now c =
    if not (c.status.ready_nodes == replicas c)
    then update_status_condition now ready condition_false (codes "StatefulSetNotReady")
        (codes "StatefulSet is not ready") c
    else let (nodes, scan) = scan_pods c (replicas c) 0 false c.status.nodes in
      let (status, reason, message) = ready_verdict c scan in
      update_status_condition now ready status reason message (with_nodes nodes c)

abbrev show_bool : Bool → Text
show_bool true = codes "true"
show_bool false = codes "false"

-- `%d` of an integer.
abbrev show_int : ℤ → Text
show_int i = if ltb_ℤ i (pos 0) then b'-' ∷ decimal (neg_part i) else decimal (pos_part i)

unfoldable pub make_recovery_message : List TopologyRecovery → Text
unfolding join_with_space
make_recovery_message acks = join_with_space (
    map
      (λ (a : TopologyRecovery).
        codes "{id: "
        ++ (show_int a.id
            ++ (codes ", uid: "
                ++ (a.uid
                    ++ (codes ", success: "
                        ++ (show_bool a.is_successful
                            ++ (codes ", time: " ++ (a.recovery_start_timestamp ++ codes "}"))))))))
      acks)

unfoldable pub update_failover_ack_status : ℕ → List TopologyRecovery → MysqlCluster → MysqlCluster
unfolding make_recovery_message
update_failover_ack_status now recoveries c =
    let unack = keep (λ (r : TopologyRecovery). not r.acknowledged) recoveries in
    if ltb 0 (length unack)
    then update_status_condition now failover_ack condition_true (codes "PendingFailoverAckExists")
        (make_recovery_message unack) c
    else update_status_condition now failover_ack condition_false
        (codes "NoPendingFailoverAckExists") (codes "no pending ack") c
