-- ===== src/Node.antt =====
-- pkg/controller/node: the controller that initialises MySQL in the pods of a cluster. Its pods, their
-- conditions and the names that it reads (node_controller.go).
pub mod Names
pub mod Requests
pub mod Runner
pub mod Initialize
pub mod Reconcile
use mysql_operator.Base.{
  ℕ, Bool, true, ◌&&◌, ◌||◌, Option, none, some, List, [], ◌-◌, ◌^◌, all, length, upsert, Text,
  codes, text_eq, cut_last, has_suffix, lookup, ltb, if◌then◌else◌, pos, negsuc, take, Result, ok,
  err,
}
use mysql_operator.Base.Decimal.{atoi}
use mysql_operator.Cluster.{MysqlCluster, ConditionStatus, status_eq}
use mysql_operator.Versioning.Resolution.{Container}
use mysql_operator.Orchestrator.Removal.{is_digit, is_word, annotation_version}
use mysql_operator.Accounts.{value_of}

pub record PodCondition : Type 0 where
  pub type : Text
  pub status : ConditionStatus
  pub reason : Text
  pub message : Text
  pub last_transition_time : ℕ

pub record Pod : Type 0 where
  pub name : Text
  pub namespace : Text
  pub hostname : Text
  pub containers : List Container
  pub conditions : List PodCondition

-- `domain.NodeInitializedConditionType`.
abbrev pub node_initialized : Text
node_initialized = codes "mysql.presslabs.org/NodeInitialized"

-- A condition of a pod that is written over one of its type, or put behind the others. The transition
-- is the old one if the status is.
module _ (now : ℕ) (type : Text) (status : ConditionStatus) (reason message : Text) where
  abbrev pod_condition : ℕ → PodCondition
  pod_condition time = record {
    type = type;
    status = status;
    reason = reason;
    message = message;
    last_transition_time = time;
  }

  unfoldable pub update_pod_status_condition : Pod → Pod
  unfolding text_eq
  update_pod_status_condition pod = record pod {
    conditions =
        upsert (λ cond. text_eq cond.type type)
          (λ cond.
            pod_condition (if status_eq cond.status status then cond.last_transition_time else now))
          (pod_condition now) pod.conditions;
  }

-- `^([\w-]+)-mysql-\d*$`: digits hold no dash, so they are what follows the last one.
unfoldable pub cluster_of_pod : Text → Option Text
unfolding cut_last has_suffix text_eq
cluster_of_pod pod_name = elim (cut_last b'-' pod_name) [
  | none ↦ none
  | some (before, digits) ↦
      if all is_digit digits
        && (has_suffix before (codes "-mysql") && (ltb 6 (length before) && all is_word before))
      then some (take (length before - 6) before)
      else none
]

-- `strconv.ParseInt(version, 10, 32)`; a version that is missing or does not parse is old.
unfoldable pub should_update_to_version : MysqlCluster → ℕ → Bool
unfolding lookup
should_update_to_version c target = elim (lookup annotation_version c.annotations) [
  | none ↦ true
  | some version ↦ elim (atoi version) [
    | none ↦ true
    | some (pos n) ↦ if ltb n (2 ^ 31) then ltb n target else true
    | some (negsuc n) ↦ true
  ]
]

pub record Credentials : Type 0 where
  pub user : Text
  pub password : Text
  pub replication_user : Text
  pub replication_password : Text

abbrev is_missing : Text → Bool
is_missing s = text_eq s []

abbrev credentials_invalid : Credentials → Bool
credentials_invalid c =
    is_missing c.user
    || is_missing c.password
    || is_missing c.replication_user
    || is_missing c.replication_password

-- `getCredsSecret` on the data of the secret, with `Validate`.
unfoldable pub credentials_in : List (Text × Text) → Result Text Credentials
unfolding value_of text_eq
credentials_in secret =
    let found : Credentials = record {
      user = value_of (codes "OPERATOR_USER") secret;
      password = value_of (codes "OPERATOR_PASSWORD") secret;
      replication_user = value_of (codes "REPLICATION_USER") secret;
      replication_password = value_of (codes "REPLICATION_PASSWORD") secret;
    } in
    if credentials_invalid found
    then err (codes "validation error: some credentials are empty")
    else ok found
