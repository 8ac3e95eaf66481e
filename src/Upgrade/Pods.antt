-- ===== src/Upgrade/Pods.antt =====
-- rollout_complete.go, record.go and the pods of server_version.go: when every replica runs the pod
-- template to the end of its init containers.
pub mod Complete
use mysql_operator.Base.{
  ℕ, Bool, true, false, ◌&&◌, not, Option, none, some, List, [], ◌∷◌, Text, codes, text_eq, any,
  all, keep, count_if, length, leb, ◌==◌, if◌then◌else◌, pos, leb_ℤ, to_int32,
}
use mysql_operator.Semver.{Version, Blang, eq}
use mysql_operator.Versioning.Resolution.{Container, semver_from_stateful_set}
use mysql_operator.Cluster.{MysqlCluster, ConditionStatus, condition_true, status_eq}
use mysql_operator.Cluster.Versions.{StatefulSet, template_of, desired_version}

pub data PodConditionType : Type 0 where
  pod_ready other_condition : PodConditionType

pub record PodCondition : Type 0 where
  pub type : PodConditionType
  pub status : ConditionStatus

-- `terminated` is the exit code of a container that ended.
pub record InitContainerStatus : Type 0 where
  pub name : Text
  pub terminated : Option ℕ

pub record Pod : Type 0 where
  pub name : Text
  pub hostname : Text
  pub containers : List Container
  pub init_containers : List Container
  pub conditions : List PodCondition
  pub init_container_statuses : List InitContainerStatus

unfoldable pub rollout_complete_on_version :
    ⦃blang : Blang⦄ → MysqlCluster → Option StatefulSet → Version → Bool
rollout_complete_on_version ⦃blang⦄ c none v = false
rollout_complete_on_version ⦃blang⦄ c (some sts) v = elim c.spec.replicas [
  | none ↦ false
  | some n ↦
      if n == 0
      then false
      else if not (eq (semver_from_stateful_set (template_of (some sts))) v)
      then false
      else leb n sts.ready_replicas
]

unfoldable pub pod_has_template_init_containers : Pod → List Container → Bool
pod_has_template_init_containers pod template_inits =
    all
      (λ (want : Container).
        any (λ (have : Container). text_eq have.name want.name) pod.init_containers)
      template_inits

-- The first status with the name decides.
unfoldable pub init_status_succeeded : List InitContainerStatus → Text → Bool
init_status_succeeded [] name = false
init_status_succeeded (s ∷ ss) name =
    let rest = init_status_succeeded ss name in
    if not (text_eq s.name name)
    then rest
    else elim s.terminated [ some exit_code ↦ exit_code == 0 | none ↦ false ]

unfoldable pub init_container_succeeded : Pod → Text → Bool
unfolding init_status_succeeded
init_container_succeeded pod name = init_status_succeeded pod.init_container_statuses name

unfoldable pub all_init_containers_succeeded : Pod → List Container → Bool
unfolding init_container_succeeded
all_init_containers_succeeded pod template_inits =
    all (λ (ic : Container). init_container_succeeded pod ic.name) template_inits

abbrev pub ran_template : List Container → Pod → Bool
ran_template template_inits pod =
    if not (pod_has_template_init_containers pod template_inits)
    then false
    else if not (all_init_containers_succeeded pod template_inits)
    then false
    else true

-- The pods are counted in an `int32`.
unfoldable pub pod_template_init_containers_succeeded : StatefulSet → List Pod → ℕ → Bool
unfolding to_int32
pod_template_init_containers_succeeded sts pods n =
    let template_inits = sts.init_containers in
    if length template_inits == 0
    then leb_ℤ (pos n) (to_int32 (pos (length pods)))
    else leb_ℤ (pos n) (to_int32 (pos (count_if (ran_template template_inits) pods)))

unfoldable pub rollout_complete :
    ⦃blang : Blang⦄ → MysqlCluster → Option StatefulSet → List Pod → Bool
unfolding rollout_complete_on_version pod_template_init_containers_succeeded
rollout_complete ⦃blang⦄ c none pods = false
rollout_complete ⦃blang⦄ c (some sts) pods = elim c.spec.replicas [
  | none ↦ false
  | some n ↦
      if n == 0
      then false
      else if not (rollout_complete_on_version c (some sts) (desired_version c))
      then false
      else pod_template_init_containers_succeeded sts pods n
]

abbrev is_pod_ready : PodConditionType → Bool
is_pod_ready pod_ready = true
is_pod_ready other_condition = false

unfoldable pub pod_mysql_ready : Pod → Bool
pod_mysql_ready pod =
    if not (any (λ (c : Container). text_eq c.name (codes "mysql")) pod.containers)
    then false
    else any
        (λ (cond : PodCondition). is_pod_ready cond.type && status_eq cond.status condition_true)
        pod.conditions

unfoldable pub ready_mysql_pods : List Pod → List Pod
ready_mysql_pods pods = keep pod_mysql_ready pods
