-- ===== src/Orchestrator/Status/Shown.antt =====
-- What an instance shows of its node, and what is written of it.
use mysql_operator.Base.{
  ℕ, ℤ, pos, ltb_ℤ, leb_ℤ, ◌||◌, ◌≡◌, refl, Bool, true, false, ◌&&◌, Option, none, some, arith,
  text_eq, if◌then◌else◌,
}
use mysql_operator.Cluster.{
  MysqlCluster, ConditionStatus, condition_unknown, condition_true, condition_false, status_eq,
  NodeConditionType, lagged, replicating, master, node_read_only, NodeCondition,
}
use mysql_operator.Cluster.Nodes.{node_type_eq}
use mysql_operator.Cluster.Nodes.Update.{after_node_update}
use mysql_operator.Orchestrator.{Instance}
use mysql_operator.Orchestrator.Status.{
  default_max_slave_latency, is_master_host, lagged_status, max_slave_latency, status_of,
}

-- On the master's host a node does not lag; elsewhere its lag must be known and within the limit of the
-- spec, or 30 seconds if there is none.
abbrev pub lag_limit : Option ℤ → ℤ
lag_limit none = pos 30
lag_limit (some limit) = limit

abbrev pub lag_of : ℤ → Option ℤ → ConditionStatus
lag_of limit none = condition_unknown
lag_of limit (some lag) = if ltb_ℤ limit lag then condition_true else condition_false

abbrev pub true_if : Bool → ConditionStatus
true_if b = if b then condition_true else condition_false

abbrev pub is_on_master : Option Instance → Instance → Bool
is_on_master none node = false
is_on_master (some m) node = text_eq node.key.hostname m.key.hostname

-- What an instance that was checked recently shows of its node.
abbrev pub shown : MysqlCluster → Option Instance → Instance → NodeConditionType → ConditionStatus
shown c m node lagged =
    if is_on_master m node
    then condition_false
    else lag_of (lag_limit c.spec.max_slave_latency) node.slave_lag_seconds
shown c m node replicating = true_if (node.slave_sql_running && node.slave_io_running)
shown c m node master = true_if (is_on_master m node)
shown c m node node_read_only = true_if node.read_only

-- The status that a node's condition gets, or `none` if it is left alone: that of a node that was not
-- checked recently is unknown, if its last check failed, except for the read-only condition.
abbrev pub wanted_status :
    MysqlCluster → Option Instance → Instance → NodeConditionType → Option ConditionStatus
wanted_status c m node t =
    if node.is_recently_checked
    then some (shown c m node t)
    else if node.is_last_check_valid || node_type_eq t node_read_only
    then none
    else some condition_unknown

-- The time of the old condition exactly if it had the status already.
abbrev pub kept_time : ℕ → ConditionStatus → Option NodeCondition → ℕ
kept_time now s none = now
kept_time now s (some cond) = if status_eq cond.status s then cond.last_transition_time else now

abbrev pub written :
    ℕ → NodeConditionType → Option ConditionStatus → Option NodeCondition → Option NodeCondition
written now t none old = old
written now t (some s) old =
    some (record { type = t; status = s; last_transition_time = kept_time now s old })

pub after_node_update-eq :
    (now : ℕ) (t : NodeConditionType) (s : ConditionStatus) (old : Option NodeCondition)
    → after_node_update now t s old ≡ written now t (some s) old
after_node_update-eq now t s none = refl
after_node_update-eq now t s (some cond) = refl

pub if_true {ℓ} : {A : Type ℓ} {b : Bool} (x y : A) → b ≡ true → (if b then x else y) ≡ x
if_true x y h = rw h refl

pub if_false {ℓ} : {A : Type ℓ} {b : Bool} (x y : A) → b ≡ false → (if b then x else y) ≡ y
if_false x y h = rw h refl

pub status_of-eq : (b : Bool) → status_of b ≡ true_if b
status_of-eq true = refl
status_of-eq false = refl

pub is_master_host-eq :
    (m : Option Instance) (node : Instance)
    → is_master_host m node.key.hostname ≡ is_on_master m node
is_master_host-eq none node = refl
is_master_host-eq (some i) node = refl

latency-eq :
    (limit : Option ℤ)
    → (elim limit as (λ _. ℤ) [ some l ↦ l | none ↦ default_max_slave_latency ]) ≡ lag_limit limit
latency-eq none = refl
latency-eq (some l) = refl

lag-eq :
    (limit : ℤ) (lag : Option ℤ)
    → (elim lag as (λ _. ConditionStatus) [
      | none ↦ condition_unknown
      | some l ↦ if leb_ℤ l limit then condition_false else condition_true
    ])
      ≡ lag_of limit lag
lag-eq limit none = refl
lag-eq limit (some l) = ground arith

pub lagged_status-eq :
    (c : MysqlCluster) (m : Option Instance) (node : Instance)
    → lagged_status (max_slave_latency c) m node ≡ shown c m node lagged
lagged_status-eq c m node =
    rw
      (
        is_master_host-eq m node,
        latency-eq c.spec.max_slave_latency,
        lag-eq (lag_limit c.spec.max_slave_latency) node.slave_lag_seconds,
      )
      refl
