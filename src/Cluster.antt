-- ===== src/Cluster.antt =====
-- The MysqlCluster resource (pkg/apis/mysql/v1alpha1/mysqlcluster_types.go), the fields that the
-- operator's logic reads, and the names of what it owns (pkg/internal/mysqlcluster/mysqlcluster.go
-- and volume.go).
pub mod Conditions
pub mod Nodes
pub mod Versions
pub mod Defaults
use mysql_operator.Base.{ℕ, Bool, Option, none, some, List, [], ◌∷◌, ◌++◌, Text, codes, ℤ}
use mysql_operator.Base.Decimal.{decimal}

-- `core.ConditionStatus`.
pub data ConditionStatus : Type 0 where
  condition_true condition_false condition_unknown : ConditionStatus

abbrev pub status_eq : ConditionStatus → ConditionStatus → Bool
status_eq condition_true condition_true = Bool.true
status_eq condition_false condition_false = Bool.true
status_eq condition_unknown condition_unknown = Bool.true
status_eq _ _ = Bool.false

pub data ClusterConditionType : Type 0 where
  ready failover_ack read_only failover_in_progress upgrade_blocked : ClusterConditionType

pub data NodeConditionType : Type 0 where
  lagged replicating master node_read_only : NodeConditionType

-- Times are nanoseconds.
pub record ClusterCondition : Type 0 where
  pub type : ClusterConditionType
  pub status : ConditionStatus
  pub reason : Text
  pub message : Text
  pub last_transition_time : ℕ

pub record NodeCondition : Type 0 where
  pub type : NodeConditionType
  pub status : ConditionStatus
  pub last_transition_time : ℕ

pub record NodeStatus : Type 0 where
  pub name : Text
  pub conditions : List NodeCondition

pub record ClusterStatus : Type 0 where
  pub applied_mysql_version : Text
  pub ready_nodes : ℕ
  pub conditions : List ClusterCondition
  pub nodes : List NodeStatus

-- The data volume: whether a claim, a host path or an empty directory is given, and the storage that
-- the claim requests, if it has such a request.
pub record VolumeSpec : Type 0 where
  pub persistent_volume_claim : Bool
  pub host_path : Bool
  pub empty_dir : Bool
  pub storage_request : Option ℕ

pub record ClusterSpec : Type 0 where
  pub replicas : Option ℕ
  pub secret_name : Text
  pub backup_url : Text
  pub backup_secret_name : Text
  pub mysql_version : Text
  pub image : Text
  pub sidecar_image : Text
  pub read_only : Bool
  pub max_slave_latency : Option ℤ
  pub volume_spec : VolumeSpec

pub record MysqlCluster : Type 0 where
  pub name : Text
  pub namespace : Text
  pub annotations : List (Text × Text)
  pub deletion_timestamp : Option ℕ
  pub spec : ClusterSpec
  pub status : ClusterStatus

-- `*cluster.Spec.Replicas`: the defaults fill the field before any of the code below reads it.
abbrev pub replicas : MysqlCluster → ℕ
replicas c = elim c.spec.replicas [ some n ↦ n | none ↦ 0 ]

pub data ResourceName : Type 0 where
  old_headless_svc headless_svc stateful_set config_map master_service : ResourceName
  healthy_replicas_service healthy_nodes_service pod_disruption_budget secret : ResourceName

unfoldable pub name_for_resource : ResourceName → Text → Text
name_for_resource old_headless_svc cluster_name = cluster_name ++ codes "-mysql-nodes"
name_for_resource headless_svc cluster_name = codes "mysql"
name_for_resource stateful_set cluster_name = cluster_name ++ codes "-mysql"
name_for_resource config_map cluster_name = cluster_name ++ codes "-mysql"
name_for_resource master_service cluster_name = cluster_name ++ codes "-mysql-master"
name_for_resource healthy_replicas_service cluster_name = cluster_name ++ codes "-mysql-replicas"
name_for_resource healthy_nodes_service cluster_name = cluster_name ++ codes "-mysql"
name_for_resource pod_disruption_budget cluster_name = cluster_name ++ codes "-mysql"
name_for_resource secret cluster_name = cluster_name ++ codes "-mysql-operated"

unfoldable pub pod_hostname : MysqlCluster → ℕ → Text
unfolding name_for_resource
pod_hostname c p =
    name_for_resource stateful_set c.name
    ++ (b'-'
        ∷ (decimal p ++ (b'.' ∷ (name_for_resource headless_svc c.name ++ (b'.' ∷ c.namespace)))))

unfoldable pub cluster_alias : MysqlCluster → Text
cluster_alias c = c.name ++ (b'.' ∷ c.namespace)

unfoldable pub data_pvc_name : MysqlCluster → ℕ → Text
data_pvc_name c ordinal =
    codes "data-" ++ (name_for_resource stateful_set c.name ++ (b'-' ∷ decimal ordinal))

unfoldable pub data_pvc_name_prefix : MysqlCluster → Text
data_pvc_name_prefix c = codes "data-" ++ (name_for_resource stateful_set c.name ++ (b'-' ∷ []))

abbrev pub desired_data_volume_storage : MysqlCluster → Option ℕ
desired_data_volume_storage c = elim c.spec.volume_spec.persistent_volume_claim [
  | Bool.true ↦ c.spec.volume_spec.storage_request
  | Bool.false ↦ none
]
