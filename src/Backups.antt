-- ===== src/Backups.antt =====
-- pkg/internal/mysqlbackup and pkg/controller/mysqlbackup/internal/syncer/job.go: where a backup goes, the
-- node that it is taken from, and its status. The job is what the API server has under its name.
pub mod Candidate
pub mod Defaults
pub mod Status
use mysql_operator.Base.{
  ℕ, ◌-◌, Bool, true, false, ◌&&◌, not, Option, none, some, List, [], ◌∷◌, ◌++◌, upsert, find,
  length, take, Text, codes, text_eq, has_suffix, if◌then◌else◌,
}
use mysql_operator.Cluster.{
  MysqlCluster, NodeStatus, NodeCondition, ConditionStatus, status_eq, condition_true, master,
  replicating, lagged,
}
use mysql_operator.Cluster.Nodes.{get_node_condition}
use mysql_operator.Node.Initialize.{get_master_host}

pub data BackupConditionType : Type 0 where
  backup_complete backup_failed : BackupConditionType

abbrev pub type_eq : BackupConditionType → BackupConditionType → Bool
type_eq backup_complete backup_complete = true
type_eq backup_failed backup_failed = true
type_eq backup_complete backup_failed = false
type_eq backup_failed backup_complete = false

pub record BackupCondition : Type 0 where
  pub type : BackupConditionType
  pub status : ConditionStatus
  pub reason : Text
  pub message : Text
  pub last_transition_time : ℕ

pub record MysqlBackup : Type 0 where
  pub name : Text
  pub cluster_name : Text
  pub backup_url : Text
  pub backup_secret_name : Text
  pub completed : Bool
  pub conditions : List BackupCondition

pub record JobCondition : Type 0 where
  pub type : Text
  pub status : ConditionStatus
  pub reason : Text
  pub message : Text

-- `cluster_label` is the label `cluster`, and `args` those of the first container.
pub record Job : Type 0 where
  pub creation_timestamp : Option ℕ
  pub conditions : List JobCondition
  pub cluster_label : Option Text
  pub args : List Text

abbrev pub backup_suffix : Text
backup_suffix = codes "xbackup.gz"

abbrev pub without_slash : Text → Text
unfolding has_suffix
without_slash base = if has_suffix base (codes "/") then take (length base - 1) base else base

unfoldable pub compose_backup_url : MysqlBackup → Text → Text
unfolding has_suffix
compose_backup_url b base = without_slash base ++ (b'/' ∷ (b.name ++ b'.' ∷ backup_suffix))

unfoldable pub get_backup_url : MysqlBackup → MysqlCluster → Text
unfolding has_suffix text_eq compose_backup_url
get_backup_url b c =
    if has_suffix b.backup_url backup_suffix
    then b.backup_url
    else if not (text_eq b.backup_url [])
    then compose_backup_url b b.backup_url
    else if text_eq c.spec.backup_url []
    then []
    else compose_backup_url b c.spec.backup_url

unfoldable pub set_defaults : MysqlBackup → MysqlCluster → MysqlBackup
unfolding get_backup_url text_eq
set_defaults b c = record b {
  backup_url = get_backup_url b c;
  backup_secret_name =
      if text_eq b.backup_secret_name [] then c.spec.backup_secret_name else b.backup_secret_name;
}

-- Not the master, replicating and not lagged; a node without one of the conditions is passed over.
abbrev pub is_candidate : Option NodeCondition → Option NodeCondition → Option NodeCondition → Bool
is_candidate (some m) (some r) (some l) =
    not (status_eq m.status condition_true)
    && (status_eq r.status condition_true && not (status_eq l.status condition_true))
is_candidate (some m) (some r) none = false
is_candidate (some m) none l = false
is_candidate none r l = false

unfoldable pub is_good_node : List NodeStatus → Text → Bool
unfolding get_node_condition
is_good_node nodes host =
    is_candidate (get_node_condition host master nodes).1
      (get_node_condition host replicating nodes).1 (get_node_condition host lagged nodes).1

abbrev pub candidate_or : Text → Option NodeStatus → Text
candidate_or host none = host
candidate_or host (some ns) = ns.name

unfoldable pub get_backup_candidate : MysqlCluster → Text
unfolding is_good_node get_master_host
get_backup_candidate c =
    candidate_or (get_master_host c)
      (find (λ (ns : NodeStatus). is_good_node c.status.nodes ns.name) c.status.nodes)

unfoldable pub get_backup_condition : BackupConditionType → MysqlBackup → Option BackupCondition
get_backup_condition t b = find (λ (cond : BackupCondition). type_eq cond.type t) b.conditions

abbrev pub new_condition : BackupConditionType → ConditionStatus → Text → Text → ℕ → BackupCondition
new_condition t status reason message time = record {
  type = t;
  status = status;
  reason = reason;
  message = message;
  last_transition_time = time;
}

-- Over the condition of the type, or behind the others; the transition is the old one if the status is.
unfoldable pub update_status_condition :
    ℕ → BackupConditionType → ConditionStatus → Text → Text → MysqlBackup → MysqlBackup
update_status_condition now t status reason message b = record b {
  conditions =
      upsert (λ (cond : BackupCondition). type_eq cond.type t)
        (λ (cond : BackupCondition).
          new_condition t status reason message
            (if status_eq cond.status status then cond.last_transition_time else now))
        (new_condition t status reason message now) b.conditions;
}

unfoldable pub job_condition : Text → Job → Option JobCondition
unfolding text_eq
job_condition t job = find (λ (cond : JobCondition). text_eq cond.type t) job.conditions

abbrev pub completed_if : ConditionStatus → MysqlBackup → MysqlBackup
completed_if status b = if status_eq status condition_true then record b { completed = true } else b

abbrev pub take_over : ℕ → BackupConditionType → Option JobCondition → MysqlBackup → MysqlBackup
unfolding update_status_condition
take_over now t none b = b
take_over now t (some cond) b =
    completed_if cond.status (update_status_condition now t cond.status cond.reason cond.message b)

unfoldable pub update_status : ℕ → Job → MysqlBackup → MysqlBackup
unfolding job_condition update_status_condition
update_status now job b =
    take_over now backup_failed (job_condition (codes "Failed") job)
      (take_over now backup_complete (job_condition (codes "Complete") job) b)

-- `ignored` is `syncer.ErrIgnore`, which leaves the job alone.
pub data Synced : Type 0 where
  ignored : Synced
  failed : Text → Synced
  synced : Job → MysqlBackup → Synced

unfoldable pub sync_fn : ℕ → MysqlCluster → Job → MysqlBackup → Synced
unfolding get_backup_url text_eq update_status get_backup_candidate
sync_fn now c job b =
    if b.completed
    then ignored
    else if text_eq (get_backup_url b c) []
    then failed (codes "can't get backupURL")
    else elim job.creation_timestamp as (λ _. Synced) [
      | some created ↦ synced job (update_status now job b)
      | none ↦
          synced
            (record job {
              cluster_label = some b.cluster_name;
              args = codes "take-backup-to" ∷ get_backup_candidate c ∷ get_backup_url b c ∷ [];
            })
            b
    ]
