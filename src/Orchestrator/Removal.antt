-- ===== src/Orchestrator/Removal.antt =====
-- orchestrator_reconcile.go: `removeNodeConditionNotInOrc`, which drops the status of nodes that are
-- gone, and `indexInSts`, the index of a pod from its host's name.
pub mod Index
use mysql_operator.Base.{
  ℕ, Bool, true, false, ◌&&◌, ◌||◌, not, Option, none, some, List, [], ◌∷◌, keep, all, length, Text,
  codes, text_eq, contains, cut, cut_last, has_suffix, lookup, ltb, leb, ◌==◌, if◌then◌else◌, ℤ,
  pos, ltb_ℤ, to_int32,
}
use mysql_operator.Base.Decimal.{atoi}
use mysql_operator.Cluster.{
  MysqlCluster, NodeStatus, condition_unknown, lagged, replicating, master, node_read_only,
  replicas,
}
use mysql_operator.Cluster.Nodes.{update_node_condition_status, with_nodes}
use mysql_operator.Orchestrator.{Instance}
use mysql_operator.Orchestrator.Topology.{get_instance}

-- `\d` and `[\w-]` of the regular expression.
abbrev pub is_digit : ℕ → Bool
is_digit c = leb b'0' c && leb c b'9'

abbrev pub is_word : ℕ → Bool
is_word c =
    is_digit c
    || (leb b'A' c && leb c b'Z' || (leb b'a' c && leb c b'z' || (c == b'_' || c == b'-')))

abbrev pub is_nonempty_word : Text → Bool
is_nonempty_word s = ltb 0 (length s) && all is_word s

-- `[\w-]+-mysql-(\d*)`: digits hold no dash, so they are what follows the last one.
abbrev pub match_pod : Text → Option Text
match_pod s = elim (cut_last b'-' s) [
  | none ↦ none
  | some (before, digits) ↦
      if all is_digit digits
        && (has_suffix before (codes "-mysql") && (ltb 6 (length before) && all is_word before))
      then some digits
      else none
]

-- `[\w-]*mysql(?:-nodes)?`.
abbrev pub match_service : Text → Bool
match_service s =
    (has_suffix s (codes "mysql") || has_suffix s (codes "mysql-nodes")) && all is_word s

-- The submatch of `^[\w-]+-mysql-(\d*)\.[\w-]*mysql(?:-nodes)?\.[\w-]+$`. No part holds a dot, so the
-- two dots that the expression asks for divide the name.
unfoldable pub match_host : Text → Option Text
match_host name = elim (cut b'.' name) [
  | none ↦ none
  | some (pod, rest) ↦ elim (cut b'.' rest) [
    | none ↦ none
    | some (service, namespace) ↦
        if match_service service && is_nonempty_word namespace then match_pod pod else none
  ]
]

-- `none` for an error.
unfoldable pub index_in_sts : Text → Option ℤ
unfolding match_host
index_in_sts name = elim (match_host name) [
  | none ↦ none
  | some digits ↦ elim (atoi digits) [ none ↦ none | some i ↦ some (to_int32 i) ]
]

-- `domain.AnnotationVersion`.
abbrev pub annotation_version : Text
annotation_version = codes "mysql.presslabs.org/version"

unfoldable pub should_remove_old_node : NodeStatus → MysqlCluster → Bool
should_remove_old_node ns c = elim (lookup annotation_version c.annotations) [
  | none ↦ false
  | some version ↦
      if text_eq version (codes "300") then contains ns.name (codes "-mysql-nodes") else false
]

unfoldable pub mark_unknown : ℕ → Text → MysqlCluster → MysqlCluster
mark_unknown now host c =
    let c1 = update_node_condition_status now host lagged condition_unknown c in
    let c2 = update_node_condition_status now host replicating condition_unknown c1 in
    let c3 = update_node_condition_status now host master condition_unknown c2 in
    update_node_condition_status now host node_read_only condition_unknown c3

-- The first loop, over the nodes that there were when it began.
unfoldable pub mark_missing : ℕ → List Instance → List NodeStatus → MysqlCluster → MysqlCluster
unfolding mark_unknown
mark_missing now insts [] c = c
mark_missing now insts (ns ∷ nodes) c = elim (get_instance insts ns.name) [
  | none ↦ mark_missing now insts nodes (mark_unknown now ns.name c)
  | some i ↦ mark_missing now insts nodes c
]

unfoldable pub is_kept : MysqlCluster → NodeStatus → Bool
unfolding should_remove_old_node
is_kept c ns = elim (index_in_sts ns.name) [
  | none ↦ true
  | some index ↦ not (should_remove_old_node ns c) && ltb_ℤ index (pos (replicas c))
]

unfoldable pub remove_node_condition_not_in_orc : ℕ → List Instance → MysqlCluster → MysqlCluster
unfolding mark_missing is_kept
remove_node_condition_not_in_orc now insts c =
    let marked = mark_missing now insts c.status.nodes c in
    with_nodes (keep (is_kept marked) marked.status.nodes) marked
