-- ===== src/Orchestrator/Status/Setting.antt =====
-- Setting several conditions of one node in a row, and what is read of it and of the others.
use mysql_operator.Base.{
  ℕ, ◌≡◌, refl, ◌∙◌, false, ◌&&◌, Option, Text, text_eq, text_eq_refl, if◌then◌else◌,
}
use mysql_operator.Cluster.{
  MysqlCluster, ConditionStatus, NodeConditionType, lagged, replicating, master, node_read_only,
  NodeCondition,
}
use mysql_operator.Cluster.Nodes.{find_condition, node_type_eq, update_node_condition_status}
use mysql_operator.Cluster.Nodes.Update.{after_node_update, find_condition-updated_nodes}

abbrev pub cond_in : MysqlCluster → Text → NodeConditionType → Option NodeCondition
cond_in c h t = find_condition h t c.status.nodes

set_lem :
    (now : ℕ) (host h : Text) (t u : NodeConditionType) (s : ConditionStatus) (c : MysqlCluster)
    → cond_in (update_node_condition_status now host t s c) h u ≡ (
        if text_eq host h && node_type_eq t u
        then after_node_update now t s (cond_in c host t)
        else cond_in c h u)
unfolding update_node_condition_status
set_lem now host h t u s c = find_condition-updated_nodes now host t s h u c.status.nodes

-- The host of the node keeps the other types, and other hosts keep all.
set_same :
    (now : ℕ) (host : Text) (t u : NodeConditionType) (s : ConditionStatus) (c : MysqlCluster)
    → cond_in (update_node_condition_status now host t s c) host u ≡ (
        if node_type_eq t u then after_node_update now t s (cond_in c host t) else cond_in c host u)
set_same now host t u s c = set_lem now host host t u s c ∙ rw (text_eq_refl host) refl

pub set_other :
    (now : ℕ) (host h : Text) (t u : NodeConditionType) (s : ConditionStatus) (c : MysqlCluster)
    → text_eq host h ≡ false
    → cond_in (update_node_condition_status now host t s c) h u ≡ cond_in c h u
set_other now host h t u s c other = set_lem now host h t u s c ∙ rw other refl

module _ (now : ℕ) (host : Text) (c : MysqlCluster) (sl sr sm so : ConditionStatus) where
  abbrev pub set : NodeConditionType → ConditionStatus → MysqlCluster → MysqlCluster
  set t s d = update_node_condition_status now host t s d

  abbrev pub set_three : MysqlCluster
  set_three = set master sm (set replicating sr (set lagged sl c))

  abbrev pub status_for : NodeConditionType → ConditionStatus
  status_for lagged = sl
  status_for replicating = sr
  status_for master = sm
  status_for node_read_only = so

  pub set_three-others :
      (h : Text) (t : NodeConditionType)
      → text_eq host h ≡ false
      → cond_in set_three h t ≡ cond_in c h t
  set_three-others h t other =
      set_other now host h master t sm (set replicating sr (set lagged sl c)) other
      ∙ (set_other now host h replicating t sr (set lagged sl c) other
          ∙ set_other now host h lagged t sl c other)

  pub set_three_lem :
      (t : NodeConditionType)
      → cond_in set_three host t ≡ (
          if node_type_eq t node_read_only
          then cond_in c host t
          else after_node_update now t (status_for t) (cond_in c host t))
  set_three_lem lagged = simp (set_same) refl
  set_three_lem replicating = simp (set_same) refl
  set_three_lem master = simp (set_same) refl
  set_three_lem node_read_only = simp (set_same) refl

  pub set_four_lem :
      (t : NodeConditionType)
      → cond_in (set node_read_only so set_three) host t
        ≡ after_node_update now t (status_for t) (cond_in c host t)
  set_four_lem lagged = simp (set_same) refl
  set_four_lem replicating = simp (set_same) refl
  set_four_lem master = simp (set_same) refl
  set_four_lem node_read_only = simp (set_same) refl
