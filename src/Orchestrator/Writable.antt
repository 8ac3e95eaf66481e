-- ===== src/Orchestrator/Writable.antt =====
-- orchestrator_reconcile.go: which instances are made writable and which read-only. An error of a
-- call to orchestrator is only logged, so a call stands for itself.
pub mod Effect
use mysql_operator.Base.{
  ℕ, Bool, false, ◌||◌, not, Option, none, some, List, [], ◌∷◌, ◌++◌, text_eq, ltb, if◌then◌else◌,
}
use mysql_operator.Cluster.{MysqlCluster, condition_true, status_eq, failover_in_progress}
use mysql_operator.Cluster.Conditions.{get_cluster_condition}
use mysql_operator.Orchestrator.{Instance, Call, set_host_writable, set_host_read_only}

-- `uptimeGraceTime`, in seconds.
abbrev pub uptime_grace_time : ℕ
uptime_grace_time = 15

unfoldable pub set_writable_node : Instance → List Call
set_writable_node inst = if inst.read_only then set_host_writable inst.key ∷ [] else []

unfoldable pub set_read_only_node : Instance → List Call
set_read_only_node inst = if not inst.read_only then set_host_read_only inst.key ∷ [] else []

abbrev pub is_skipped : Instance → Bool
is_skipped inst = not inst.is_up_to_date || ltb inst.uptime uptime_grace_time

-- The loop when no master is known.
unfoldable pub mark_all_read_only : List Instance → List Call
unfolding set_read_only_node
mark_all_read_only [] = []
mark_all_read_only (inst ∷ insts) =
    let rest = mark_all_read_only insts in
    if is_skipped inst then rest else set_read_only_node inst ++ rest

-- The loop when the master is determined.
unfoldable pub mark_by_master : MysqlCluster → Instance → List Instance → List Call
unfolding set_read_only_node set_writable_node
mark_by_master c master [] = []
mark_by_master c master (inst ∷ insts) =
    let rest = mark_by_master c master insts in
    if is_skipped inst
    then rest
    else if c.spec.read_only
    then set_read_only_node inst ++ rest
    else if text_eq inst.key.hostname master.key.hostname
    then set_writable_node inst ++ rest
    else set_read_only_node inst ++ rest

unfoldable pub in_failover : MysqlCluster → Bool
in_failover c = elim (get_cluster_condition failover_in_progress c) [
  | none ↦ false
  | some fip ↦ status_eq fip.status condition_true
]

unfoldable pub mark_read_only_nodes_in_orc :
    MysqlCluster → List Instance → Option Instance → List Call
unfolding in_failover mark_all_read_only mark_by_master
mark_read_only_nodes_in_orc c insts master =
    if in_failover c
    then []
    else elim master [ none ↦ mark_all_read_only insts | some m ↦ mark_by_master c m insts ]
