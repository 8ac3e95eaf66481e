-- ===== src/PodLabels/Roles.antt =====
-- The labels that `podSyncer.SyncFn` sets, by the conditions of the node.
use mysql_operator.Base.{
  ◌≡◌, refl, ap, ◌∙◌, Bool, true, ◌&&◌, ◌||◌, not, Option, none, some, List, arith, Text, codes,
  text_eq, lookup, insert, lookup-insert, if◌then◌else◌, Result, ok, err, Bool-cases, Option-cases,
  inl, inr,
}
use mysql_operator.Cluster.{
  NodeStatus, NodeCondition, condition_true, status_eq, lagged, replicating, master,
}
use mysql_operator.Cluster.Nodes.{get_node_condition, find_condition}
use mysql_operator.Cluster.Nodes.Reading.{
  node_is, get_node_condition-found, get_node_condition-keeps,
}
use mysql_operator.PodLabels.{
  Labels, PodError, master_not_set, label_master, label_replica, label_healthy, label_not_healthy,
  sync_fn,
}

-- The pod serves reads: the master, or a replica that replicates and does not lag.
abbrev pub is_healthy : Text → List NodeStatus → Bool
is_healthy host nodes =
    node_is master host nodes || (node_is replicating host nodes && not (node_is lagged host nodes))

-- The labels that are wanted, with those that the pod had.
abbrev wanted_labels : Text → List NodeStatus → Labels → Labels
wanted_labels host nodes labels =
    insert (codes "healthy") (if is_healthy host nodes then label_healthy else label_not_healthy) (
      insert (codes "role") (if node_is master host nodes then label_master else label_replica)
        labels)

module _ (host : Text) (labels : Labels) (nodes : List NodeStatus) where
  sync_fn_lem :
      (sync_fn host true labels nodes).1
      ≡ elim (find_condition host master nodes) as (λ _. Result PodError Labels) [
        | none ↦ err master_not_set
        | some nc ↦ ok (wanted_labels host nodes labels)
      ]
  unfolding sync_fn
  sync_fn_lem =
      let n1 = (get_node_condition host master nodes).0 in
      let n2 = (get_node_condition host replicating n1).0 in
      let m = get_node_condition-found host nodes master in
      let r =
        get_node_condition-found host n1 replicating
        ∙ get_node_condition-keeps host nodes master replicating host in
      let l =
        get_node_condition-found host n2 lagged
        ∙ (get_node_condition-keeps host n1 replicating lagged host
            ∙ get_node_condition-keeps host nodes master lagged host) in
      elim (Option-cases (find_condition host master nodes)) [
        | inl e ↦ ground arith
        | inr (nc, e) ↦ elim (Bool-cases (status_eq nc.status condition_true)) [
          | inl is_master ↦ ground arith
          | inr is_replica ↦ ground arith
        ]
      ]

  -- A pod is labelled as the master exactly when its node's master condition is true, and else as a
  -- replica; it is labelled healthy exactly when it is the master, or replicates and does not lag; all
  -- other labels stay. This is for a pod that was created and a node whose master condition is set.
  pub sync_fn-labels :
      (nc : NodeCondition)
      → find_condition host master nodes ≡ some nc
      → (new : Labels) × ((sync_fn host true labels nodes).1 ≡ ok new)
        × ((k : Text)
            → lookup k new ≡ (
                if text_eq (codes "healthy") k
                then some (if is_healthy host nodes then label_healthy else label_not_healthy)
                else if text_eq (codes "role") k
                then some (if node_is master host nodes then label_master else label_replica)
                else lookup k labels))
  sync_fn-labels nc e =
      let healthy = if is_healthy host nodes then label_healthy else label_not_healthy in
      let role = if node_is master host nodes then label_master else label_replica in
      (
        wanted_labels host nodes labels,
        sync_fn_lem ∙ ok_case (find_condition host master nodes) nc e,
        λ k.
            lookup-insert (codes "healthy") k healthy (insert (codes "role") role labels)
            ∙ ap (λ o. if text_eq (codes "healthy") k then some healthy else o)
                (lookup-insert (codes "role") k role labels),
      )
    where
      ok_case :
          (o : Option NodeCondition) (c : NodeCondition)
          → o ≡ some c
          → elim o as (λ _. Result PodError Labels) [
            | none ↦ err master_not_set
            | some d ↦ ok (wanted_labels host nodes labels)
          ]
            ≡ ok (wanted_labels host nodes labels)
      ok_case o c h = rw h refl
