-- ===== src/Controller/Gate.antt =====
-- The version gate of a pass: the backfill of the applied version, the check of the upgrade, and what
-- is held when it fails.
use mysql_operator.Base.{
  ℕ, Bool, true, false, none, List, [], Text, codes, if◌then◌else◌, Result, ok, err,
}
use mysql_operator.Semver.{Blang}
use mysql_operator.Cluster.{MysqlCluster, condition_true, condition_false, upgrade_blocked}
use mysql_operator.Cluster.Conditions.{condition_is_true, update_status_condition}
use mysql_operator.Upgrade.Pods.{Pod}
use mysql_operator.Upgrade.Observe.{ObserveError, is_hold}
use mysql_operator.Upgrade.Checker.{
  CheckError, hold_rollout, ensure_checked, needs_applied_backfill, backfill_applied_version,
}
use mysql_operator.Upgrade.Checker as Checker
use mysql_operator.Controller.{
  config_map, operated_secret, stateful_set, update_status, request_failed, observe_failed, going,
  returned, Pass, Env, Action, ◌>>◌, stop, fail, change, with_cluster, send, run_syncer,
  persist_cluster_annotations,
}

-- `syncRolloutHold`.
unfoldable pub sync_rollout_hold : Env → Action
unfolding run_syncer
sync_rollout_hold env c log = elim (env.get_stateful_set log) as (λ _. Pass) [
  | err e ↦ stop (fail (request_failed e)) c log
  | ok sts ↦
      (do run_syncer env config_map; run_syncer env operated_secret; run_syncer env stateful_set) c
        log
]

-- Only what keeps the StatefulSet on its version is synced, and the pass is repeated later.
unfoldable pub hold_rollout_for : Env → List (Text × Text) → ℕ → Action
unfolding sync_rollout_hold persist_cluster_annotations
hold_rollout_for env before seconds = do
  sync_rollout_hold env
  persist_cluster_annotations env before
  stop (returned none seconds)

abbrev pub no_upgrade_pending : ℕ → MysqlCluster → MysqlCluster
no_upgrade_pending now =
    update_status_condition now upgrade_blocked condition_false (codes "NoUpgradePending") []

-- A stale `UpgradeBlocked` is put out and the status sent.
unfoldable pub clear_blocked : Env → Action
unfolding update_status_condition
clear_blocked env c log =
    if condition_is_true upgrade_blocked c
    then (do change (no_upgrade_pending env.now); with_cluster λ d. send env (update_status d)) c
        log
    else stop going c log

-- By the answer of `EnsureChecked`.
unfoldable pub checked : Env → List (Text × Text) → Result CheckError (Unit {0}) → Action
unfolding clear_blocked hold_rollout_for persist_cluster_annotations update_status_condition
checked env before (ok _) = do
  change (no_upgrade_pending env.now)
  persist_cluster_annotations env before
checked env before (err hold_rollout) = do clear_blocked env; hold_rollout_for env before 15
checked env before (err (Checker.upgrade_blocked e)) = do
  change (
      update_status_condition env.now upgrade_blocked condition_true
        (codes "MySQLVersionUpgradeBlocked") (env.blocked_message e))
  with_cluster λ d. send env (update_status d)
  hold_rollout_for env before 30

module _ ⦃blang : Blang⦄ where
  abbrev pub backfilled :
      Env → List (Text × Text) → Result ObserveError (MysqlCluster × Bool) → Action
  backfilled env before (ok (c', true)) = do
    change (λ _. c')
    with_cluster λ d. send env (update_status d)
  backfilled env before (ok (c', false)) = change (λ _. c')
  backfilled env before (err e) =
      if is_hold e then hold_rollout_for env before 15 else stop (fail (observe_failed e))

  unfoldable pub backfill : Env → List (Text × Text) → List Pod → Action
  unfolding needs_applied_backfill backfill_applied_version is_hold hold_rollout_for
  backfill env before pods c log =
      if needs_applied_backfill c
      then backfilled env before (backfill_applied_version env.query env.operated_secret c pods) c
          log
      else stop going c log

  unfoldable pub gate : Env → List (Text × Text) → List Pod → Action
  unfolding backfill checked ensure_checked
  gate env before pods = do
    backfill env before pods
    with_cluster λ c. checked env before (ensure_checked c)
