-- ===== src/Controller/Same.antt =====
-- Every status and every list of annotations is the same as itself.
use mysql_operator.Base.{◌≡◌, refl, Bool, true, List, [], ◌∷◌, Text, text_eq_refl, ==_iff, ◌==◌}
use mysql_operator.Cluster.{
  ClusterStatus, ClusterCondition, NodeCondition, NodeStatus, status_eq, ConditionStatus,
  condition_true, condition_false, condition_unknown, ClusterConditionType, NodeConditionType,
  ready, failover_ack, read_only, failover_in_progress, upgrade_blocked,
}
use mysql_operator.Cluster.Conditions.{type_eq}
use mysql_operator.Controller.{
  status_same, lists_same, condition_same, node_condition_same, node_type_index, node_same,
  pairs_same,
}

status_eq_refl : (s : ConditionStatus) → status_eq s s ≡ true
status_eq_refl condition_true = refl
status_eq_refl condition_false = refl
status_eq_refl condition_unknown = refl

type_eq_refl : (t : ClusterConditionType) → type_eq t t ≡ true
type_eq_refl ready = refl
type_eq_refl failover_ack = refl
type_eq_refl read_only = refl
type_eq_refl failover_in_progress = refl
type_eq_refl upgrade_blocked = refl

lists_same_refl {ℓ} :
    {A : Type ℓ} (same : A → A → Bool)
    → ((x : A) → same x x ≡ true)
    → (xs : List A) → lists_same same xs xs ≡ true
lists_same_refl same h [] = refl
lists_same_refl same h (x ∷ xs) = rw (h x) (lists_same_refl same h xs)

condition_same_refl : (c : ClusterCondition) → condition_same c c ≡ true
condition_same_refl c =
    rw (type_eq_refl c.type, status_eq_refl c.status, text_eq_refl c.reason, text_eq_refl c.message)
      ((==_iff c.last_transition_time c.last_transition_time).1 refl)

node_type_same_refl : (t : NodeConditionType) → node_type_index t == node_type_index t ≡ true
node_type_same_refl t = (==_iff (node_type_index t) (node_type_index t)).1 refl

node_condition_same_refl : (c : NodeCondition) → node_condition_same c c ≡ true
node_condition_same_refl c =
    rw (node_type_same_refl c.type, status_eq_refl c.status)
      ((==_iff c.last_transition_time c.last_transition_time).1 refl)

node_same_refl : (n : NodeStatus) → node_same n n ≡ true
node_same_refl n =
    rw (text_eq_refl n.name)
      (lists_same_refl node_condition_same node_condition_same_refl n.conditions)

pub status_same_refl : (s : ClusterStatus) → status_same s s ≡ true
unfolding status_same
status_same_refl s =
    rw
      (
        text_eq_refl s.applied_mysql_version,
        (==_iff s.ready_nodes s.ready_nodes).1 refl,
        lists_same_refl condition_same condition_same_refl s.conditions,
      )
      (lists_same_refl node_same node_same_refl s.nodes)

pub pairs_same_refl : (pairs : List (Text × Text)) → pairs_same pairs pairs ≡ true
unfolding pairs_same
pairs_same_refl [] = refl
pairs_same_refl (p ∷ pairs) = rw (text_eq_refl p.0, text_eq_refl p.1) (pairs_same_refl pairs)
