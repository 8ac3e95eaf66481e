-- ===== src/Orchestrator/Status/Nodes.antt =====
-- What `updateNodesStatus` writes: the conditions of each node, by what orchestrator knows of it.
use mysql_operator.Base.{
  ℕ, ◌≡◌, refl, ◌∙◌, ap, Bool, false, Option, List, [], ◌∷◌, arith, Text, text_eq, any, ◌++◌,
}
use mysql_operator.Cluster.{MysqlCluster, NodeConditionType}
use mysql_operator.Orchestrator.{Instance}
use mysql_operator.Orchestrator.Status.{update_node_status, update_nodes_status}
use mysql_operator.Orchestrator.Status.Setting.{cond_in}
use mysql_operator.Orchestrator.Status.Shown.{wanted_status, written}
use mysql_operator.Orchestrator.Status.OneNode.{on_other_host, on_own_host, keeps_wanted}

-- An instance of the list is on the host.
abbrev pub has_host : Text → List Instance → Bool
has_host host insts = any (λ (i : Instance). text_eq i.key.hostname host) insts

module _ (now : ℕ) (m : Option Instance) where
  update_nodes_status-absent :
      (insts : List Instance) (h : Text) (t : NodeConditionType) (c : MysqlCluster)
      → has_host h insts ≡ false
      → cond_in (update_nodes_status now insts m c) h t ≡ cond_in c h t
  unfolding update_nodes_status
  update_nodes_status-absent [] h t c absent = refl
  update_nodes_status-absent (x ∷ insts) h t c absent =
      let c' = update_node_status now m x c in
      let here : text_eq x.key.hostname h ≡ false = ground arith in
      let rest : has_host h insts ≡ false = ground arith in
      update_nodes_status-absent insts h t c' rest ∙ on_other_host now m x h t c here

  -- Each condition of a node that orchestrator lists once gets the status that its instance shows,
  -- with the transition time of the old condition exactly when the status did not change, or is left
  -- alone: with a recent check, not lagging on the master's host or within the limit, replicating when
  -- both threads run, master on the master's host; after a failed check, unknown.
  pub update_nodes_status_lem :
      (before : List Instance) (inst : Instance) (after : List Instance) (t : NodeConditionType)
      (c : MysqlCluster)
      → has_host inst.key.hostname before ≡ false
      → has_host inst.key.hostname after ≡ false
      → cond_in (update_nodes_status now (before ++ inst ∷ after) m c) inst.key.hostname t
        ≡ written now t (wanted_status c m inst t) (cond_in c inst.key.hostname t)
  unfolding update_nodes_status
  update_nodes_status_lem [] inst after t c first last =
      update_nodes_status-absent after inst.key.hostname t (update_node_status now m inst c) last
      ∙ on_own_host now m inst t c
  update_nodes_status_lem (x ∷ before) inst after t c first last =
      let c' = update_node_status now m x c in
      let here : text_eq x.key.hostname inst.key.hostname ≡ false = ground arith in
      let rest : has_host inst.key.hostname before ≡ false = ground arith in
      let old = on_other_host now m x inst.key.hostname t c here in
      update_nodes_status_lem before inst after t c' rest last
      ∙ (ap (λ w. written now t w (cond_in c' inst.key.hostname t)) (keeps_wanted now m x inst t c)
          ∙ ap (written now t (wanted_status c m inst t)) old)
