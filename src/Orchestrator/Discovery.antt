-- ===== src/Orchestrator/Discovery.antt =====
-- orchestrator_reconcile.go: which nodes are registered in orchestrator and which are forgotten.
-- An error of a call to orchestrator is only logged, so a call stands for itself.
pub mod Desired
use mysql_operator.Base.{
  ℕ, zero, suc, ◌-◌, ◌*◌, Bool, true, false, ◌&&◌, ◌||◌, none, some, List, [], ◌∷◌, map, keep, Text,
  ltb, if◌then◌else◌,
}
use mysql_operator.Cluster.{MysqlCluster, replicas, pod_hostname, condition_true, status_eq, ready}
use mysql_operator.Cluster.Conditions.{get_cluster_condition}
use mysql_operator.Orchestrator.{Instance, InstanceKey, Call, discover, forget}
use mysql_operator.Orchestrator.Topology.{get_instance}

abbrev pub mysql_port : ℕ
mysql_port = 3306

-- `forgetGraceTime`, in seconds.
abbrev pub forget_grace_time : ℕ
forget_grace_time = 30

abbrev pub pod_key : MysqlCluster → ℕ → InstanceKey
pod_key c i = record { hostname = pod_hostname c i; port = mysql_port }

abbrev pub is_missing : List Instance → Text → Bool
is_missing is host = elim (get_instance is host) [ none ↦ true | some inst ↦ false ]

-- The loop over the pods from index `i` on, with the rounds that are left: the instances that are
-- present and the keys to discover.
unfoldable pub walk_pods : MysqlCluster → List Instance → ℕ → ℕ → List Instance × List InstanceKey
walk_pods c is zero i = ([], [])
walk_pods c is (suc left) i =
    let (present, undiscovered) = walk_pods c is left (suc i) in
    elim (get_instance is (pod_hostname c i)) [
      | none ↦
          if ltb i c.status.ready_nodes
          then (present, pod_key c i ∷ undiscovered)
          else (present, undiscovered)
      | some inst ↦ (inst ∷ present, undiscovered)
    ]

pub record NodesInOrc : Type 0 where
  pub ready_instances : List Instance
  pub should_discover : List InstanceKey
  pub should_forget : List InstanceKey

unfoldable pub update_nodes_in_orc : MysqlCluster → List Instance → NodesInOrc
update_nodes_in_orc c is =
    let (present, undiscovered) = walk_pods c is (replicas c) 0 in
    elim c.deletion_timestamp [
      | none ↦ record {
        ready_instances = present;
        should_discover = undiscovered;
        should_forget =
            map (λ (i : Instance). i.key)
              (keep (λ (i : Instance). is_missing present i.key.hostname) is);
      }
      | some t ↦ record {
        ready_instances = present;
        should_discover = [];
        should_forget = map (λ (i : Instance). i.key) is;
      }
    ]

unfoldable pub discover_nodes_in_orc : List InstanceKey → List Call
discover_nodes_in_orc keys = map discover keys

-- The cluster has been ready for longer than `seconds` at the time `now`.
unfoldable pub ready_for : ℕ → ℕ → MysqlCluster → Bool
ready_for now seconds c = elim (get_cluster_condition ready c) [
  | none ↦ false
  | some cond ↦
      status_eq cond.status condition_true
      && ltb (seconds * 1_000_000_000) (now - cond.last_transition_time)
]

abbrev is_deleted : MysqlCluster → Bool
is_deleted c = elim c.deletion_timestamp [ none ↦ false | some t ↦ true ]

unfoldable pub forget_nodes_from_orc : ℕ → MysqlCluster → List InstanceKey → List Call
unfolding ready_for
forget_nodes_from_orc now c keys =
    if ready_for now forget_grace_time c || is_deleted c then map forget keys else []
