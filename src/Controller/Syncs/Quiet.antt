-- ===== src/Controller/Syncs/Quiet.antt =====
-- A pass in which the syncers leave the status of the cluster as it is.
use mysql_operator.Base.{
  ◌≡◌, inl, inr, refl, sym, ap, ◌∙◌, subst, true, false, Option, none, some, List, [], ◌∷◌, Text,
  All, All-append, if◌then◌else◌, Result-cases, ok, err,
}
use mysql_operator.Semver.{Blang, lt}
use mysql_operator.Cluster.{MysqlCluster, ClusterSpec, ClusterStatus}
use mysql_operator.Cluster.Conditions.{update_status_condition}
use mysql_operator.Cluster.Versions.{StatefulSet, desired_version, applied_data_plane_version}
use mysql_operator.Versioning.Resolution
use mysql_operator.Versioning.UpgradePath.{profiles_match}
use mysql_operator.Cluster.Versions.Validation.{validate}
use mysql_operator.Upgrade.Pods.{Pod}
use mysql_operator.Upgrade.Checker.{ensure_checked, needs_applied_backfill, sync_applied_version}
use mysql_operator.PodLabels.{get_pod_syncers}
use mysql_operator.Controller.{
  Syncer, config_map, operated_secret, Step, sync, pod, update_cluster, update_status,
  resize_claims, clean_claims, Ending, going, Pass, Env, Action, ◌>>◌, stop, send, run_syncer,
  run_pod_syncer, status_same, persist_cluster_annotations, fail, request_failed, with_cluster,
}
use mysql_operator.Controller.Same.{status_same_refl, pairs_same_refl}
use mysql_operator.Controller.Steps.{Ending-cases, >>-going, >>-returned}
use mysql_operator.Controller.Gate.{no_upgrade_pending, backfill, checked, gate}
use mysql_operator.Controller.Syncs.{
  run_syncers, run_pod_syncers, cluster_syncers, read_stateful_set, advance, sync_all,
  deferred_status, with_deferred, reconcile,
}
use mysql_operator.Controller.Syncs.Held.{reconcile-unlisted, reconcile-invalid, reconcile-gate}

-- Not an update of the status.
abbrev pub KeepsStatus : Step → Type 0
KeepsStatus (sync s) = Unit {0}
KeepsStatus (update_cluster c) = Unit {0}
KeepsStatus (update_status c) = ⊥
KeepsStatus resize_claims = Unit {0}
KeepsStatus clean_claims = Unit {0}

-- The cluster `d` has the spec of `c`, and the status that `c` has when no upgrade is pending.
abbrev pub Kept : Env → MysqlCluster → MysqlCluster → Type 0
Kept env c d = (d.status ≡ (no_upgrade_pending env.now c).status) × (d.spec ≡ c.spec)

-- In such a cluster the syncers, the claim resizer and the claim cleaner leave the spec and the status
-- as they are.
pub record QuietLaws (env : Env) (c : MysqlCluster) : Type 0 where
  pub run_sync :
      (log : List Step) (s : Syncer) (d : MysqlCluster)
      → Kept env c d
      → Kept env c (env.run_sync log s d).0
  pub resize :
      (log : List Step) (d : MysqlCluster)
      → Kept env c d
      → Kept env c (env.answer log resize_claims d).0
  pub clean :
      (log : List Step) (d : MysqlCluster)
      → Kept env c d
      → Kept env c (env.answer log clean_claims d).0

module _ ⦃blang : Blang⦄ (env : Env) (c : MysqlCluster) (laws : QuietLaws env c)
    (same_line : profiles_match (applied_data_plane_version c) (desired_version c) ≡ true)
    (not_older : lt (applied_data_plane_version c) (desired_version c) ≡ false) where
  abbrev Stays : Pass → Type 0
  Stays p = All KeepsStatus p.log × Kept env c p.cluster

  -- The action sends no status and keeps the cluster.
  abbrev Quiet : Action → Type 0
  Quiet m =
      (d : MysqlCluster) (log : List Step) → Kept env c d → All KeepsStatus log → Stays (m d log)

  >>-Quiet : (m k : Action) → Quiet m → Quiet k → Quiet (m >> k)
  >>-Quiet m k hm hk d log kept h =
      let (hl, hs) = hm d log kept h in
      elim (Ending-cases (m d log).ending) [
        | inl e ↦
            subst Stays (sym (>>-going m k d log e)) (hk (m d log).cluster (m d log).log hs hl)
        | inr (x, n, e) ↦ subst Stays (sym (>>-returned m k d log x n e)) (hl, hs)
      ]

  run_syncer-Quiet : (s : Syncer) → Quiet (run_syncer env s)
  unfolding run_syncer
  run_syncer-Quiet s d log kept h =
      (All-append KeepsStatus log _ h (tt, tt), laws.run_sync log s d kept)

  run_syncers-Quiet : (syncers : List Syncer) → Quiet (run_syncers env syncers)
  unfolding run_syncers
  run_syncers-Quiet [] = λ d log kept h. (h, kept)
  run_syncers-Quiet (s ∷ syncers) =
      >>-Quiet (run_syncer env s) (run_syncers env syncers) (run_syncer-Quiet s)
        (run_syncers-Quiet syncers)

  run_pod_syncer-Quiet : (name : Text) → Quiet (run_pod_syncer env name)
  unfolding run_pod_syncer
  run_pod_syncer-Quiet name d log kept h =
      (All-append KeepsStatus log _ h (tt, tt), laws.run_sync log (pod name) d kept)

  run_pod_syncers-Quiet : (names : List Text) → Quiet (run_pod_syncers env names)
  unfolding run_pod_syncers
  run_pod_syncers-Quiet [] = λ d log kept h. (h, kept)
  run_pod_syncers-Quiet (n ∷ names) =
      >>-Quiet (run_pod_syncer env n) (run_pod_syncers env names) (run_pod_syncer-Quiet n)
        (run_pod_syncers-Quiet names)

  read_stateful_set-err :
      (d : MysqlCluster) (log : List Step) (e : Text)
      → env.get_stateful_set log ≡ err e
      → read_stateful_set env d log ≡ stop (fail (request_failed e)) d log
  unfolding read_stateful_set
  read_stateful_set-err d log e f = rw (read_stateful_set, f) refl

  read_stateful_set-ok :
      (d : MysqlCluster) (log : List Step) (sts : Option StatefulSet)
      → env.get_stateful_set log ≡ ok sts
      → read_stateful_set env d log ≡ stop going d log
  unfolding read_stateful_set
  read_stateful_set-ok d log sts f = rw (read_stateful_set, f) refl

  read_stateful_set-Quiet : Quiet (read_stateful_set env)
  read_stateful_set-Quiet d log kept h = elim (Result-cases (env.get_stateful_set log)) [
    | inl (e, f) ↦ subst Stays (sym (read_stateful_set-err d log e f)) (h, kept)
    | inr (sts, f) ↦ subst Stays (sym (read_stateful_set-ok d log sts f)) (h, kept)
  ]

  applied_kept :
      (d : MysqlCluster)
      → Kept env c d
      → applied_data_plane_version d ≡ applied_data_plane_version c
  unfolding applied_data_plane_version update_status_condition
  applied_kept d (status, spec) =
      ap (λ (s : ClusterStatus). Resolution.applied_data_plane_version s.applied_mysql_version)
        status

  desired_kept : (d : MysqlCluster) → Kept env c d → desired_version d ≡ desired_version c
  unfolding desired_version
  desired_kept d (status, spec) =
      ap (λ (s : ClusterSpec). Resolution.desired_version s.mysql_version) spec

  -- The version that is applied is already that of the spec, so none is recorded.
  sync_applied_version-settled :
      (d : MysqlCluster) (sts : StatefulSet) (pods : List Pod)
      → Kept env c d
      → sync_applied_version env.query env.operated_secret d (some sts) pods ≡ none
  unfolding sync_applied_version
  sync_applied_version-settled d sts pods kept =
      rw (applied_kept d kept, desired_kept d kept, same_line, not_older) refl

  advance-stops :
      (d : MysqlCluster) (log : List Step)
      → Kept env c d
      → (e : Ending) × (advance env d log ≡ stop e d log)
  unfolding advance
  advance-stops d log kept = elim (Result-cases (env.get_stateful_set log)) [
    | inl (e, f) ↦ (fail (request_failed e), rw (advance, f) refl)
    | inr (none, f) ↦ (going, rw (advance, f) refl)
    | inr (some sts, f) ↦ elim (Result-cases (env.list_pods log)) [
      | inl (e, g) ↦ (fail (request_failed e), rw (advance, f, g) refl)
      | inr (pods, g) ↦
          (going, rw (advance, f, g, sync_applied_version-settled d sts pods kept) refl)
    ]
  ]

  advance-Quiet : Quiet (advance env)
  advance-Quiet d log kept h =
      let (e, f) = advance-stops d log kept in subst Stays (sym f) (h, kept)

  resize-Quiet : Quiet (send env resize_claims)
  resize-Quiet d log kept h = (All-append KeepsStatus log _ h (tt, tt), laws.resize log d kept)

  clean-Quiet : Quiet (send env clean_claims)
  clean-Quiet d log kept h = (All-append KeepsStatus log _ h (tt, tt), laws.clean log d kept)

  sync_all-Quiet : Quiet (sync_all env)
  unfolding sync_all
  sync_all-Quiet =
      let cleaned : Action = send env clean_claims >> advance env in
      let resized : Action = send env resize_claims >> cleaned in
      let pods : Action = with_cluster λ c. run_pod_syncers env (get_pod_syncers c) in
      let own = run_syncers env (config_map ∷ operated_secret ∷ []) in
      let others = run_syncers env (cluster_syncers env) in
      >>-Quiet (read_stateful_set env) (own >> (others >> (pods >> resized)))
        read_stateful_set-Quiet
        (>>-Quiet own (others >> (pods >> resized))
          (run_syncers-Quiet (config_map ∷ operated_secret ∷ []))
          (>>-Quiet others (pods >> resized) (run_syncers-Quiet (cluster_syncers env)) (
            >>-Quiet pods resized (λ d. run_pod_syncers-Quiet (get_pod_syncers d) d)
              (>>-Quiet (send env resize_claims) cleaned resize-Quiet
                (>>-Quiet (send env clean_claims) (advance env) clean-Quiet advance-Quiet)))))

  with_deferred-KeepsStatus :
      (d : MysqlCluster) (log : List Step)
      → Kept env c d
      → All KeepsStatus log
      → All KeepsStatus (with_deferred env d log).log
  unfolding deferred_status
  with_deferred-KeepsStatus d log kept h =
      let (hl, after) = sync_all-Quiet d log kept h in
      let same : status_same d.status (sync_all env d log).cluster.status ≡ true =
        subst (λ s. status_same d.status s ≡ true) (kept.0 ∙ sym after.0)
          (status_same_refl d.status) in
      rw (All, same, if◌then◌else◌) hl

  -- The annotations are as they were, so the gate sends nothing.
  persist-stops :
      persist_cluster_annotations env c.annotations (no_upgrade_pending env.now c) []
      ≡ stop going (no_upgrade_pending env.now c) []
  unfolding persist_cluster_annotations update_status_condition
  persist-stops = rw (persist_cluster_annotations, pairs_same_refl c.annotations) refl

  kept_at_first : Kept env c (no_upgrade_pending env.now c)
  unfolding update_status_condition
  kept_at_first = (refl, refl)

  gate-passes :
      (pods : List Pod)
      → needs_applied_backfill c ≡ false
      → ensure_checked c ≡ ok tt
      → gate env c.annotations pods c [] ≡ stop going (no_upgrade_pending env.now c) []
  unfolding gate backfill checked
  gate-passes pods hn hc = rw (gate, backfill, hn, hc) persist-stops

  -- When the check of the upgrade passes, no version is to be backfilled, and the applied version is of
  -- the wanted line and not older than the wanted one, a pass sends no status, whatever the servers
  -- report, even if it has just put out `UpgradeBlocked` in memory: provided that the syncers and the
  -- work on the claims leave the spec and the status as they are where they already are those of this
  -- cluster with `UpgradeBlocked` put out.
  pub reconcile-KeepsStatus :
      needs_applied_backfill c ≡ false
      → ensure_checked c ≡ ok tt
      → All KeepsStatus (reconcile env c).log
  reconcile-KeepsStatus hn hc = elim (Result-cases (validate env.options c)) [
    | inl (x, f) ↦ subst (λ p. All KeepsStatus p.log) (sym (reconcile-invalid env c x f)) tt
    | inr (u, f) ↦ elim (Result-cases (env.list_pods [])) [
      | inl (x, g) ↦ subst (λ p. All KeepsStatus p.log) (sym (reconcile-unlisted env c u x f g)) tt
      | inr (pods, g) ↦
          let first = gate env c.annotations pods in
          let passed = gate-passes pods hn hc in
          subst (λ p. All KeepsStatus p.log)
            (sym (
              reconcile-gate env c u pods f g
              ∙ >>-going first (with_deferred env) c [] (ap (λ p. p.ending) passed)))
            (subst (λ p. All KeepsStatus (with_deferred env p.cluster p.log).log) (sym passed)
              (with_deferred-KeepsStatus (no_upgrade_pending env.now c) [] kept_at_first tt))
    ]
  ]
