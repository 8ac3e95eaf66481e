-- ===== src/Orchestrator/Sync.antt =====
-- orchestrator_reconcile.go: `getFromOrchestrator` and `Sync`, one reconciliation with orchestrator.
-- The client of orchestrator is an interface of the program; what a reconciliation reads of it are its
-- answers, and what it does to it are the calls, in their order.

pub mod Writers
use mysql_operator.Base.{
  ℕ, Bool, not, Option, none, some, List, [], ◌++◌, text_eq, if◌then◌else◌, Result, ok, err, ℤ,
}
use mysql_operator.Cluster.{MysqlCluster}
use mysql_operator.Orchestrator.{Instance, TopologyRecovery, Call}
use mysql_operator.Orchestrator.Topology.{determine_master}
use mysql_operator.Orchestrator.Discovery.{
  update_nodes_in_orc, discover_nodes_in_orc, forget_nodes_from_orc,
}
use mysql_operator.Orchestrator.Writable.{mark_read_only_nodes_in_orc}
use mysql_operator.Orchestrator.Removal.{remove_node_condition_not_in_orc}
use mysql_operator.Orchestrator.Recoveries.{get_recoveries_to_ack, acknowledge_recoveries}
use mysql_operator.Orchestrator.Status.{
  update_nodes_status, update_cluster_failover_in_progress_status, update_cluster_read_only_status,
  update_cluster_ready_status, update_failover_ack_status,
}

-- `IsNotFound` divides the errors.
pub data OrcError : Type 0 where
  not_found unreachable : OrcError

-- The answers to `Cluster`, `Master` and `AuditRecovery` for the cluster's alias, and whether
-- `AckRecovery` fails for a recovery. A failed `AuditRecovery` has no recoveries.
pub record Answers : Type 0 where
  pub cluster : Result OrcError (List Instance)
  pub master : Result OrcError Instance
  pub audit_recovery : Option (List TopologyRecovery)
  pub ack_fails : ℤ → Bool

-- Two hosts that differ are a clash, for which no master is taken.
unfoldable pub choose_master : Option Instance → Option Instance → Option Instance
choose_master none none = none
choose_master none (some determined) = some determined
choose_master (some reported) none = some reported
choose_master (some reported) (some determined) =
    if not (text_eq reported.key.hostname determined.key.hostname) then none else some reported

unfoldable pub get_from_orchestrator : Answers → Result OrcError (List Instance × Option Instance)
unfolding choose_master
get_from_orchestrator answers = elim answers.cluster [
  | err not_found ↦ ok ([], none)
  | err unreachable ↦ err unreachable
  | ok instances ↦ elim answers.master [
    | err unreachable ↦ err unreachable
    | err not_found ↦ ok (instances, choose_master none (determine_master instances))
    | ok reported ↦ ok (instances, choose_master (some reported) (determine_master instances))
  ]
]

-- The steps of a reconciliation that has its answers: the cluster and the calls that were made.
unfoldable pub reconcile :
    ℕ → Answers → List Instance → Option Instance → MysqlCluster → MysqlCluster × List Call
reconcile now answers all_instances master c =
    let nodes = update_nodes_in_orc c all_instances in
    let instances = nodes.ready_instances in
    let discovered = discover_nodes_in_orc nodes.should_discover in
    let c1 = remove_node_condition_not_in_orc now instances c in
    let marked = mark_read_only_nodes_in_orc c1 instances master in
    let recoveries : List TopologyRecovery = elim answers.audit_recovery [
      | none ↦ []
      | some rs ↦ rs
    ] in
    let c2 = update_nodes_status now instances master c1 in
    let c3 = update_cluster_failover_in_progress_status now master c2 in
    let c4 = update_cluster_read_only_status now instances c3 in
    let c5 = update_cluster_ready_status now c4 in
    let c6 = update_failover_ack_status now recoveries c5 in
    let forgotten = forget_nodes_from_orc now c6 nodes.should_forget in
    let to_ack = get_recoveries_to_ack now c6 recoveries in
    let (acks, failed) = acknowledge_recoveries answers.ack_fails to_ack in
    (c6, discovered ++ (marked ++ (forgotten ++ acks)))

unfoldable pub sync : ℕ → Answers → MysqlCluster → Result OrcError (MysqlCluster × List Call)
unfolding get_from_orchestrator reconcile
sync now answers c = elim (get_from_orchestrator answers) [
  | err e ↦ err e
  | ok (instances, master) ↦ ok (reconcile now answers instances master c)
]
