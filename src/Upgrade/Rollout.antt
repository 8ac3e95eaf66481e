-- ===== src/Upgrade/Rollout.antt =====
-- rollout.go: the version that the StatefulSet must run.
use mysql_operator.Base.{
  ◌≡◌, ◌∙◌, inl, inr, sym, Bool, true, false, ◌&&◌, ◌||◌, not, Option, none, some, arith,
  if◌then◌else◌, Result, ok, err, Bool-cases,
}
use mysql_operator.Semver.{
  Version, zero_version, Blang, BlangLaws, eq, gt, is_zero, same_version, precedes,
}
use mysql_operator.Versioning.UpgradePath.{validate_upgrade_path, version_change_pending}
use mysql_operator.Versioning.UpgradePath.OneLine.{
  validate_upgrade_path_lem, version_change_pending_lem, verdict,
}
use mysql_operator.Versioning.Resolution.{semver_from_stateful_set}
use mysql_operator.Cluster.{MysqlCluster}
use mysql_operator.Cluster.Versions.{
  StatefulSet, template_of, desired_version, applied_data_plane_version,
  lagging_stateful_set_version, source_version_for_upgrade,
}
use mysql_operator.Upgrade.{cluster_has_mysql_data}

not_pending_bools :
    (unset has_data same older : Bool)
    → (if unset then has_data else not same || older) ≡ false
    → unset ≡ false
    → older ≡ false
not_pending_bools unset has_data same older h k = ground arith

abbrev pub is_ok : {E A : Type 0} → Result E A → Bool
is_ok (ok a) = true
is_ok (err e) = false

module _ ⦃blang : Blang⦄ where
  -- The last lines: the source version is held when the path from it is refused.
  hold_or_advance : Version → Version → Version
  hold_or_advance source desired =
      if not (is_zero source)
      then if is_ok (validate_upgrade_path source desired) then desired else source
      else desired

  -- What the StatefulSet's template runs, if it is set and differs from the wanted version.
  running_version : Option StatefulSet → Version → Option Version
  running_version none desired = none
  running_version (some sts) desired =
      let v = semver_from_stateful_set (template_of (some sts)) in
      if not (is_zero v) && not (eq v desired) then some v else none

  unfoldable pub rollout_mysql_version : MysqlCluster → Option StatefulSet → Version
  unfolding hold_or_advance running_version
  rollout_mysql_version c sts =
      let desired = desired_version c in
      let applied = applied_data_plane_version c in
      let lag = lagging_stateful_set_version c sts in
      let last = hold_or_advance (source_version_for_upgrade c) desired in
      if not (is_zero applied) && gt applied desired
      then applied
      else if not (version_change_pending desired applied (cluster_has_mysql_data c))
      then desired
      else if is_zero applied && cluster_has_mysql_data c
      then if not (is_zero lag)
        then lag
        else elim (running_version sts desired) [ some v ↦ v | none ↦ last ]
      else last

  module _ (laws : BlangLaws blang) where
    -- Two versions that are of one line, neither of them older, are the same.
    not_older : (v w : Version) → precedes v w ≡ false → precedes w v ≡ false → v ≡ w
    not_older v w h k = ground arith

    same_accepted : (v : Version) → verdict v v ≡ ok tt
    same_accepted v = ground arith

    validate_upgrade_path_refl : (v : Version) → validate_upgrade_path v v ≡ ok tt
    validate_upgrade_path_refl v = validate_upgrade_path_lem laws v v ∙ same_accepted v

    -- No change is pending at a set version, and the wanted version is not older: it is that version.
    not_pending→≡ :
        (desired applied : Version) (has_data : Bool)
        → version_change_pending desired applied has_data ≡ false
        → is_zero applied ≡ false
        → precedes desired applied ≡ false
        → applied ≡ desired
    not_pending→≡ desired applied has_data h set newer =
        not_older applied desired
          (not_pending_bools (same_version applied zero_version) has_data _ _
            (sym (version_change_pending_lem laws applied desired has_data) ∙ h)
            (sym (laws.eq_lem applied zero_version) ∙ set))
          newer

    -- Once a version has been applied, the StatefulSet runs the wanted version if that is not older
    -- and its upgrade path is accepted, and the applied version otherwise.
    pub rollout_mysql_version_lem :
        (c : MysqlCluster) (sts : Option StatefulSet)
        → is_zero (applied_data_plane_version c) ≡ false
        → rollout_mysql_version c sts ≡ (
            if not (precedes (desired_version c) (applied_data_plane_version c))
              && is_ok (validate_upgrade_path (applied_data_plane_version c) (desired_version c))
            then desired_version c
            else applied_data_plane_version c)
    unfolding rollout_mysql_version source_version_for_upgrade
    rollout_mysql_version_lem c sts set =
        let d = desired_version c in
        let a = applied_data_plane_version c in
        elim (Bool-cases (precedes d a)) [
          | inl older ↦ rw (set, laws.gt_lem a d, older)
          | inr newer ↦ elim (Bool-cases (version_change_pending d a (cluster_has_mysql_data c))) [
            | inl pending ↦ rw (set, laws.gt_lem a d, newer, pending)
            | inr none_pending ↦
                let e : a ≡ d =
                  not_pending→≡ d a (cluster_has_mysql_data c) none_pending set newer in
                let accepted : validate_upgrade_path a d ≡ ok tt =
                  rw (← e) (validate_upgrade_path_refl a) in
                rw (set, laws.gt_lem a d, newer, none_pending, accepted)
          ]
        ]
