-- ===== src/Orchestrator/Status/OneNode.antt =====
-- What one round of `updateNodesStatus` writes: the conditions of one node, by what orchestrator knows
-- of it.
use mysql_operator.Base.{
  ℕ, ◌||◌, sym, ◌≡◌, refl, ◌∙◌, ap, true, false, ◌&&◌, Option, none, some, arith, Text, text_eq,
  if◌then◌else◌, Bool-cases, inl, inr,
}
use mysql_operator.Cluster.{
  MysqlCluster, ConditionStatus, condition_unknown, NodeConditionType, lagged, replicating, master,
  node_read_only, NodeCondition,
}
use mysql_operator.Cluster.Nodes.{node_type_eq, update_node_condition_status}
use mysql_operator.Cluster.Nodes.Update.{after_node_update}
use mysql_operator.Orchestrator.{Instance}
use mysql_operator.Orchestrator.Status.{
  is_master_host, lagged_status, max_slave_latency, status_of, update_node_status,
}
use mysql_operator.Orchestrator.Status.Setting.{
  cond_in, set_other, set_three, set_three-others, set_three_lem, set_four_lem, status_for,
}
use mysql_operator.Orchestrator.Status.Shown.{
  true_if, shown, wanted_status, written, after_node_update-eq, if_true, if_false, status_of-eq,
  is_master_host-eq, lagged_status-eq,
}

module _ (now : ℕ) (m : Option Instance) (node : Instance) where
  pub on_other_host :
      (h : Text) (t : NodeConditionType) (c : MysqlCluster)
      → text_eq node.key.hostname h ≡ false
      → cond_in (update_node_status now m node c) h t ≡ cond_in c h t
  unfolding update_node_status
  on_other_host h t c other =
      let host = node.key.hostname in
      let unknown =
        set_three-others now host c condition_unknown condition_unknown condition_unknown
          condition_unknown h t other in
      let sl = lagged_status (max_slave_latency c) m node in
      let sr = status_of (node.slave_sql_running && node.slave_io_running) in
      let sm = status_of (is_master_host m host) in
      let so = status_of node.read_only in
      let four =
        set_other now host h node_read_only t so (set_three now host c sl sr sm so) other
        ∙ set_three-others now host c sl sr sm so h t other in
      elim (Bool-cases node.is_recently_checked) [
        | inl recent ↦ rw recent four
        | inr stale ↦ rw stale (elim (Bool-cases node.is_last_check_valid) [
          | inl valid ↦ rw valid refl
          | inr invalid ↦ rw invalid unknown
        ])
      ]

  abbrev host : Text
  host = node.key.hostname

  abbrev sql_io : ConditionStatus
  sql_io = status_of (node.slave_sql_running && node.slave_io_running)

  abbrev as_recent : MysqlCluster → MysqlCluster
  as_recent c = update_node_condition_status now host node_read_only (status_of node.read_only) (
      set_three now host c (lagged_status (max_slave_latency c) m node) sql_io
        (status_of (is_master_host m host)) (status_of node.read_only))

  abbrev as_failed : MysqlCluster → MysqlCluster
  as_failed c =
      set_three now host c condition_unknown condition_unknown condition_unknown condition_unknown

  by_test :
      (c : MysqlCluster)
      → update_node_status now m node c ≡ (
          if node.is_recently_checked
          then as_recent c
          else if node.is_last_check_valid
          then c
          else as_failed c)
  unfolding update_node_status
  by_test c = ground arith

  shown-eq :
      (t : NodeConditionType) (c : MysqlCluster)
      → status_for now host c
          (lagged_status (max_slave_latency c) m node)
          (status_of (node.slave_sql_running && node.slave_io_running))
          (status_of (is_master_host m node.key.hostname))
          (status_of node.read_only)
          t
        ≡ shown c m node t
  shown-eq lagged c = lagged_status-eq c m node
  shown-eq replicating c = status_of-eq (node.slave_sql_running && node.slave_io_running)
  shown-eq master c =
      status_of-eq (is_master_host m node.key.hostname) ∙ ap true_if (is_master_host-eq m node)
  shown-eq node_read_only c = status_of-eq node.read_only

  recently :
      (t : NodeConditionType) (c : MysqlCluster)
      → node.is_recently_checked ≡ true
      → after_node_update now t
          (status_for now host c
            (lagged_status (max_slave_latency c) m node)
            (status_of (node.slave_sql_running && node.slave_io_running))
            (status_of (is_master_host m node.key.hostname))
            (status_of node.read_only)
            t)
          (cond_in c node.key.hostname t)
        ≡ written now t (wanted_status c m node t) (cond_in c node.key.hostname t)
  recently t c h =
      let old = cond_in c node.key.hostname t in
      ap (λ s. after_node_update now t s old) (shown-eq t c)
      ∙ (after_node_update-eq now t (shown c m node t) old ∙ rw h refl)

  unchecked :
      (t : NodeConditionType) (c : MysqlCluster)
      → node.is_recently_checked ≡ false
      → node.is_last_check_valid ≡ true
      → cond_in c node.key.hostname t
        ≡ written now t (wanted_status c m node t) (cond_in c node.key.hostname t)
  unchecked lagged c h k = rw (h, k) refl
  unchecked replicating c h k = rw (h, k) refl
  unchecked master c h k = rw (h, k) refl
  unchecked node_read_only c h k = rw (h, k) refl

  -- The condition of each other type is set to unknown.
  unknown_eq :
      (t : NodeConditionType) (c : MysqlCluster)
      → node_type_eq t node_read_only ≡ false
      → node.is_recently_checked ≡ false
      → node.is_last_check_valid ≡ false
      → after_node_update now t condition_unknown (cond_in c node.key.hostname t)
        ≡ written now t (wanted_status c m node t) (cond_in c node.key.hostname t)
  unknown_eq t c other h k =
      after_node_update-eq now t condition_unknown (cond_in c node.key.hostname t)
      ∙ rw (h, k, other) refl

  failed :
      (t : NodeConditionType) (c : MysqlCluster)
      → node.is_recently_checked ≡ false
      → node.is_last_check_valid ≡ false
      → (if node_type_eq t node_read_only
          then cond_in c node.key.hostname t
          else after_node_update now t
              (status_for now host c condition_unknown condition_unknown condition_unknown
                condition_unknown t)
              (cond_in c node.key.hostname t))
        ≡ written now t (wanted_status c m node t) (cond_in c node.key.hostname t)
  failed lagged c h k = unknown_eq lagged c refl h k
  failed replicating c h k = unknown_eq replicating c refl h k
  failed master c h k = unknown_eq master c refl h k
  failed node_read_only c h k = rw (h, k) refl

  when_recent :
      (c : MysqlCluster)
      → node.is_recently_checked ≡ true
      → update_node_status now m node c ≡ as_recent c
  when_recent c recent = by_test c ∙ if_true _ _ recent

  when_valid :
      (c : MysqlCluster)
      → node.is_recently_checked ≡ false
      → node.is_last_check_valid ≡ true
      → update_node_status now m node c ≡ c
  when_valid c stale valid = by_test c ∙ (if_false _ _ stale ∙ if_true _ _ valid)

  when_failed :
      (c : MysqlCluster)
      → node.is_recently_checked ≡ false
      → node.is_last_check_valid ≡ false
      → update_node_status now m node c ≡ as_failed c
  when_failed c stale failed = by_test c ∙ (if_false _ _ stale ∙ if_false _ _ failed)

  pub on_own_host :
      (t : NodeConditionType) (c : MysqlCluster)
      → cond_in (update_node_status now m node c) host t
        ≡ written now t (wanted_status c m node t) (cond_in c host t)
  on_own_host t c =
      let at : MysqlCluster → Option NodeCondition = (λ d. cond_in d host t) in
      let sl = lagged_status (max_slave_latency c) m node in
      let sm = status_of (is_master_host m host) in
      let so = status_of node.read_only in
      elim (Bool-cases node.is_recently_checked) [
        | inl recent ↦
            ap at (when_recent c recent)
            ∙ (set_four_lem now host c sl sql_io sm so t ∙ recently t c recent)
        | inr stale ↦ elim (Bool-cases node.is_last_check_valid) [
          | inl valid ↦ ap at (when_valid c stale valid) ∙ unchecked t c stale valid
          | inr invalid ↦
              ap at (when_failed c stale invalid)
              ∙ (set_three_lem now host c condition_unknown condition_unknown condition_unknown
                    condition_unknown t
                  ∙ failed t c stale invalid)
        ]
      ]

  as_recent-limit : (c : MysqlCluster) → max_slave_latency (as_recent c) ≡ max_slave_latency c
  unfolding update_node_condition_status
  as_recent-limit c = refl

  as_failed-limit : (c : MysqlCluster) → max_slave_latency (as_failed c) ≡ max_slave_latency c
  unfolding update_node_condition_status
  as_failed-limit c = refl

  keeps_limit :
      (c : MysqlCluster) → max_slave_latency (update_node_status now m node c) ≡ max_slave_latency c
  keeps_limit c = elim (Bool-cases node.is_recently_checked) [
    | inl recent ↦ ap max_slave_latency (when_recent c recent) ∙ as_recent-limit c
    | inr stale ↦ elim (Bool-cases node.is_last_check_valid) [
      | inl valid ↦ ap max_slave_latency (when_valid c stale valid)
      | inr invalid ↦ ap max_slave_latency (when_failed c stale invalid) ∙ as_failed-limit c
    ]
  ]

  pub keeps_wanted :
      (i : Instance) (t : NodeConditionType) (c : MysqlCluster)
      → wanted_status (update_node_status now m node c) m i t ≡ wanted_status c m i t
  keeps_wanted i lagged c =
      ap
        (λ s.
          if i.is_recently_checked
          then some s
          else if i.is_last_check_valid || node_type_eq lagged node_read_only
          then none
          else some condition_unknown)
        (sym (lagged_status-eq (update_node_status now m node c) m i)
          ∙ (ap (λ limit. lagged_status limit m i) (keeps_limit c) ∙ lagged_status-eq c m i))
  keeps_wanted i replicating c = refl
  keeps_wanted i master c = refl
  keeps_wanted i node_read_only c = refl
