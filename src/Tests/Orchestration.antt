-- ===== src/Tests/Orchestration.antt =====
-- The theorems on orchestrator and on the status of the cluster at concrete inputs.
use mysql_operator.Base.{
  ℕ, ◌<◌, ◌≤◌, ◌≡◌, ◌≢◌, refl, Bool, true, false, ◌&&◌, ◌||◌, not, Option, none, some, List, [],
  ◌∷◌, ◌++◌, arith, Text, codes, All, ℤ, pos, map, keep, all, count_if, text_eq, if◌then◌else◌,
  lookup, Result, ok, err,
}
use mathlib.Core.List.{Memᴰ}
use mysql_operator.Cluster.{
  MysqlCluster, ready, read_only, failover_ack, condition_true, condition_false, condition_unknown,
  lagged, replicating, master, pod_hostname, NodeCondition, NodeStatus,
}
use mysql_operator.Cluster.Conditions.{get_cluster_condition, UniqueTypes}
use mysql_operator.Orchestrator.{
  Instance, InstanceKey, set_host_writable, TopologyRecovery, ack_recovery, Call,
}
use mysql_operator.Orchestrator.Topology.{get_master_for_node, master_for_node, determine_master}
use mysql_operator.Orchestrator.Topology.Fuel.{get_master_for_node_total}
use mysql_operator.Orchestrator.Topology.Chain.{EndsAt, determine_master-EndsAt}
use mysql_operator.Orchestrator.Discovery.{pod_key, update_nodes_in_orc}
use mysql_operator.Orchestrator.Discovery.Desired.{update_nodes_in_orc_lem}
use mysql_operator.Orchestrator.Writable.{mark_read_only_nodes_in_orc}
use mysql_operator.Orchestrator.Writable.Effect.{
  mark_read_only_nodes_in_orc_lem, read_only_after, HasOwnKey,
}
use mysql_operator.Orchestrator.Status.{update_cluster_ready_status, update_nodes_status}
use mysql_operator.Orchestrator.Status.Ready.{ready_status, update_cluster_ready_status_lem}
use mysql_operator.Orchestrator.Status.Setting.{cond_in}
use mysql_operator.Orchestrator.Status.Nodes.{update_nodes_status_lem}
use mysql_operator.Orchestrator.Recoveries.{acknowledge_recoveries, get_recoveries_to_ack}
use mysql_operator.Orchestrator.Recoveries.Due.{acknowledge_recoveries_lem}
use mysql_operator.Orchestrator.Sync.{Answers, not_found, reconcile}
use mysql_operator.Orchestrator.Sync.Writers.{may_call, reconcile-writers}
use mysql_operator.PodLabels.{sync_fn, Labels, label_master, label_healthy}
use mysql_operator.PodLabels.Roles.{sync_fn-labels}
use mysql_operator.Tests.{current, first_instance, second_instance, topology}

abbrev first_host : Text
first_host = pod_hostname current 0

no_conditions : UniqueTypes []
no_conditions u = omega arith

get_master_for_node_total_example :
    get_master_for_node 9 topology second_instance []
    ≡ some (master_for_node topology second_instance)
get_master_for_node_total_example =
    get_master_for_node_total topology second_instance (Memᴰ.tail (Memᴰ.head refl)) 9 (omega arith)

determine_master-EndsAt_example : (topology ≢ []) × All (EndsAt topology first_instance) topology
unfolding determine_master master_for_node get_master_for_node pod_hostname
    mysql_operator.Orchestrator.Topology.get_instance text_eq mysql_operator.Base.Decimal.decimal
determine_master-EndsAt_example = determine_master-EndsAt topology first_instance refl

update_nodes_in_orc_lem_example :
    ((update_nodes_in_orc current (second_instance ∷ [])).should_discover ≡ pod_key current 0 ∷ [])
    × ((update_nodes_in_orc current (second_instance ∷ [])).should_forget ≡ [])
unfolding pod_hostname mysql_operator.Orchestrator.Topology.get_instance text_eq
    mysql_operator.Base.Decimal.decimal
update_nodes_in_orc_lem_example = update_nodes_in_orc_lem current (second_instance ∷ []) refl

keys_differ : HasOwnKey first_instance (second_instance ∷ [])
unfolding pod_hostname text_eq mysql_operator.Base.Decimal.decimal
    mysql_operator.Cluster.name_for_resource
keys_differ = (λ e. cc, tt)

mark_read_only_nodes_in_orc_lem_example :
    read_only_after first_instance.key true
      (mark_read_only_nodes_in_orc current topology (some first_instance))
    ≡ false
unfolding pod_hostname mysql_operator.Orchestrator.Writable.in_failover get_cluster_condition
    text_eq mysql_operator.Base.Decimal.decimal
mark_read_only_nodes_in_orc_lem_example =
    mark_read_only_nodes_in_orc_lem current (some first_instance) first_instance topology refl refl
      (Memᴰ.head refl) (λ e. refl, keys_differ)

update_cluster_ready_status_lem_example :
    ready_status (update_cluster_ready_status 7 current) ≡ some condition_false
unfolding pod_hostname
update_cluster_ready_status_lem_example = update_cluster_ready_status_lem 7 current

update_nodes_status_lem_example :
    cond_in (update_nodes_status 7 topology (some first_instance) current) first_host master
    ≡ some (record { type = master; status = condition_true; last_transition_time = 7 })
unfolding pod_hostname text_eq mysql_operator.Base.Decimal.decimal
update_nodes_status_lem_example =
    update_nodes_status_lem 7 (some first_instance) [] first_instance (second_instance ∷ []) master
      current refl refl

-- A cluster that has been ready since time 0, and a recovery that started then.
abbrev ready_cluster : MysqlCluster
ready_cluster = record current {
  status = record current.status {
    conditions =
        record {
          type = ready;
          status = condition_true;
          reason = [];
          message = [];
          last_transition_time = 0;
        }
        ∷ [];
  };
}

abbrev recovery : TopologyRecovery
recovery = record {
  id = pos 5;
  uid = [];
  is_successful = true;
  acknowledged = false;
  recovery_start_timestamp = [];
  start = some 0;
}

acknowledge_recoveries_lem_example :
    (acknowledge_recoveries
      (λ id. false)
      (get_recoveries_to_ack 601_000_000_000 ready_cluster (recovery ∷ []))).0
    ≡ ack_recovery (pos 5) ∷ []
unfolding acknowledge_recoveries mysql_operator.Orchestrator.Discovery.ready_for
    get_cluster_condition mysql_operator.Orchestrator.Recoveries.is_too_young
acknowledge_recoveries_lem_example =
    acknowledge_recoveries_lem 601_000_000_000 (λ id. false) ready_cluster (recovery ∷ [])

abbrev answers : Answers
answers = record {
  cluster = ok topology;
  master = err not_found;
  audit_recovery = none;
  ack_fails = (λ id. false);
}

reconcile-writers_example :
    all
      (may_call current (some first_instance))
      (reconcile 7 answers topology (some first_instance) current).1
    ≡ true
reconcile-writers_example = reconcile-writers 7 answers topology (some first_instance) current

abbrev master_condition : NodeCondition
master_condition = record { type = master; status = condition_true; last_transition_time = 0 }

abbrev nodes : List NodeStatus
nodes = record { name = first_host; conditions = master_condition ∷ [] } ∷ []

sync_fn-labels_example :
    (new : Labels) × ((sync_fn first_host true [] nodes).1 ≡ ok new)
    × ((k : Text)
        → lookup k new ≡ (
            if text_eq (codes "healthy") k
            then some label_healthy
            else if text_eq (codes "role") k
            then some label_master
            else none))
unfolding pod_hostname lookup mysql_operator.Base.Decimal.decimal
sync_fn-labels_example = sync_fn-labels first_host [] nodes master_condition refl
