-- ===== src/Upgrade/Checker.antt =====
-- checker.go and applied_backfill.go: whether a wanted version may be rolled out, and when the
-- applied version of the status advances.
pub mod Advance
use mysql_operator.Base.{
  ◌≡◌, ◌∙◌, inl, inr, sym, Bool, true, false, ◌&&◌, not, Option, none, some, List, arith, Text,
  if◌then◌else◌, Result, ok, err, Result-cases,
}
use mysql_operator.Semver.{Version, zero_version, Blang, BlangLaws, lt, is_zero, precedes}
use mysql_operator.Versioning.Profiles.{line_of, same_profile}
use mysql_operator.Versioning.UpgradePath.{
  PathError, validate_upgrade_path, version_change_pending, profiles_match,
}
use mysql_operator.Versioning.UpgradePath.OneLine.{version_change_pending_lem}
use mysql_operator.Cluster.{MysqlCluster}
use mysql_operator.Cluster.Versions.{
  StatefulSet, desired_version, applied_data_plane_version, source_version_for_upgrade,
}
use mysql_operator.Upgrade.{cluster_has_mysql_data, mark_applied_version}
use mysql_operator.Upgrade.Pods.{Pod, rollout_complete}
use mysql_operator.Upgrade.Observe.{ObserveError, Query, observe_data_plane_version_sql}
use mysql_operator.Upgrade.Rollout.{is_ok, rollout_mysql_version, rollout_mysql_version_lem}

-- `HoldRolloutError` and `UpgradeBlockedError`.
pub data CheckError : Type 0 where
  hold_rollout : CheckError
  upgrade_blocked : PathError → CheckError

held :
    (older : Bool) (verdict : Result PathError (Unit {0})) {e : PathError} (d a : Version)
    → verdict ≡ err e
    → (if not older && is_ok verdict then d else a) ≡ a
held older verdict d a h = ground arith

precedes_asym : (v w : Version) → precedes v w ≡ true → precedes w v ≡ false
precedes_asym v w h = ground arith

module _ ⦃blang : Blang⦄ where
  blocked_by : Result PathError (Unit {0}) → Result CheckError (Unit {0})
  blocked_by (ok _) = ok tt
  blocked_by (err e) = err (upgrade_blocked e)

  unfoldable pub ensure_checked : MysqlCluster → Result CheckError (Unit {0})
  unfolding blocked_by
  ensure_checked c =
      let source = source_version_for_upgrade c in
      if not (
        version_change_pending (desired_version c) (applied_data_plane_version c)
          (cluster_has_mysql_data c))
      then ok tt
      else if is_zero source
      then if not (cluster_has_mysql_data c) then ok tt else err hold_rollout
      else blocked_by (validate_upgrade_path source (desired_version c))

  -- applied_backfill.go
  unfoldable pub needs_applied_backfill : MysqlCluster → Bool
  needs_applied_backfill c =
      if not (is_zero (applied_data_plane_version c)) then false else cluster_has_mysql_data c

  -- The cluster and whether it changed, or the error of the observation.
  unfoldable pub backfill_applied_version :
      Query
      → Option (List (Text × Text))
      → MysqlCluster
      → List Pod
      → Result ObserveError (MysqlCluster × Bool)
  unfolding needs_applied_backfill
  backfill_applied_version query secret c pods =
      if not (needs_applied_backfill c)
      then ok (c, false)
      else elim (observe_data_plane_version_sql query secret c pods) [
        | err e ↦ err e
        | ok observed ↦ ok (mark_applied_version c observed, true)
      ]

  -- `none` for `(Zero, false)`.
  unfoldable pub sync_applied_version :
      Query
      → Option (List (Text × Text))
      → MysqlCluster
      → Option StatefulSet
      → List Pod
      → Option Version
  sync_applied_version query secret c sts pods =
      let desired = desired_version c in
      let applied = applied_data_plane_version c in
      if profiles_match applied desired && not (lt applied desired)
      then none
      else if not (rollout_complete c sts pods)
      then none
      else elim (observe_data_plane_version_sql query secret c pods) [
        | err e ↦ none
        | ok observed ↦ if not (profiles_match observed desired) then none else some observed
      ]

  module _ (laws : BlangLaws blang) (c : MysqlCluster) (sts : Option StatefulSet)
      (set : is_zero (applied_data_plane_version c) ≡ false) where
    -- A check that blocks the upgrade leaves the StatefulSet on the applied version.
    pub ensure_checked-blocked_holds :
        (e : PathError)
        → ensure_checked c ≡ err (upgrade_blocked e)
        → rollout_mysql_version c sts ≡ applied_data_plane_version c
    unfolding ensure_checked source_version_for_upgrade
    ensure_checked-blocked_holds e h =
        let d = desired_version c in
        let a = applied_data_plane_version c in
        elim (Result-cases (validate_upgrade_path a d)) [
          | inl (refused, failed) ↦
              rollout_mysql_version_lem laws c sts set
              ∙ held (precedes d a) (validate_upgrade_path a d) d a failed
          | inr (accepted, valid) ↦ ground arith
        ]

    -- A wanted version that is older than the applied one but of the same line passes the check,
    -- while the StatefulSet stays on the applied version.
    pub ensure_checked-patch_downgrade :
        precedes (desired_version c) (applied_data_plane_version c) ≡ true
        → same_profile (line_of (applied_data_plane_version c)) (line_of (desired_version c)) ≡ true
        → (ensure_checked c ≡ ok tt) × (rollout_mysql_version c sts ≡ applied_data_plane_version c)
    unfolding ensure_checked source_version_for_upgrade
    ensure_checked-patch_downgrade older same =
        (rw not_pending, rollout_mysql_version_lem laws c sts set ∙ rw older)
      where
        not_pending :
            version_change_pending
              (desired_version c)
              (applied_data_plane_version c)
              (cluster_has_mysql_data c)
            ≡ false
        not_pending =
            version_change_pending_lem laws (applied_data_plane_version c) (desired_version c)
              (cluster_has_mysql_data c)
            ∙ rw (
              sym (laws.eq_lem (applied_data_plane_version c) zero_version) ∙ set,
              same,
              precedes_asym (desired_version c) (applied_data_plane_version c) older,
            )
