-- ===== src/Tests/Passes.antt =====
-- The theorems on a pass over a cluster at concrete inputs.
use mysql_operator.Base.{◌≢◌, refl, ap, false, none, some, [], ◌∷◌, codes, ok, All, arith, cut}
use mysql_operator.Base.Decimal.{atoi}
use mysql_operator.Cluster.{MysqlCluster, ClusterStatus, condition_true, upgrade_blocked}
use mysql_operator.Cluster.Versions.{
  desired_version, applied_data_plane_version, source_version_for_upgrade,
}
use mysql_operator.Versioning.Profiles.{profile_for}
use mysql_operator.Versioning.UpgradePath.{
  validate_upgrade_path, version_change_pending, skips_line, profiles_match,
}
use mysql_operator.Upgrade.Checker.{ensure_checked, needs_applied_backfill}
use mysql_operator.Upgrade.Checker as Checker
use mysql_operator.Controller.{
  Env, going, Syncer, config_map, operated_secret, secret, headless_svc, master_svc, healthy_svc,
  healthy_replicas_svc, stateful_set, pdb, pod,
}
use mysql_operator.Cluster.Conditions.{update_status_condition}
use mysql_operator.Controller.Gate.{backfill}
use mysql_operator.Controller.Syncs.{reconcile}
use mysql_operator.Controller.Syncs.Held.{IsHoldStep, reconcile-IsHoldStep}
use mysql_operator.Controller.Syncs.Quiet.{KeepsStatus, Kept, QuietLaws, reconcile-KeepsStatus}
use mysql_operator.Tests.{numbers, cluster, options, current}

-- Every request succeeds and leaves the cluster as it is.
abbrev calm : Env
calm = record {
  options = options;
  min_available = false;
  query = λ host user password. none;
  operated_secret = none;
  list_pods = λ log. ok [];
  get_stateful_set = λ log. ok none;
  run_sync = λ log s c. (c, none);
  answer = λ log step c. (c, none);
  blocked_message = λ e. codes "blocked";
  now = 9;
}

-- Two lines at once are wanted.
abbrev skipping : MysqlCluster
skipping = cluster (codes "8.4.8") (codes "5.7.35")

reconcile-IsHoldStep_example :
    All IsHoldStep (reconcile calm skipping).log × (reconcile calm skipping).ending ≢ going
unfolding backfill needs_applied_backfill ensure_checked numbers applied_data_plane_version
    mysql_operator.Versioning.Resolution.applied_data_plane_version cut atoi version_change_pending
    mysql_operator.Versioning.Profiles.name profile_for desired_version
    mysql_operator.Versioning.Resolution.desired_version source_version_for_upgrade
    validate_upgrade_path mysql_operator.Versioning.Profiles.profile_upgrade_index
reconcile-IsHoldStep_example =
    reconcile-IsHoldStep calm skipping [] (Checker.upgrade_blocked skips_line) refl refl

-- A cluster whose upgrade was blocked before.
abbrev unblocked : MysqlCluster
unblocked = record current {
  status = record current.status {
    conditions =
        record {
          type = upgrade_blocked;
          status = condition_true;
          reason = codes "MySQLVersionUpgradeBlocked";
          message = codes "blocked";
          last_transition_time = 3;
        }
        ∷ [];
  };
}

-- The syncer of the StatefulSet records the number of ready nodes.
abbrev recorded : Syncer → MysqlCluster → MysqlCluster
recorded stateful_set d = record d { status = record d.status { ready_nodes = 2 } }
recorded _ d = d

-- The StatefulSet is there, and each server answers with the version of the spec.
abbrev steady : Env
steady = record calm {
  query = λ host user password. some (codes "8.0.20");
  get_stateful_set =
      λ log. ok (some (record { containers = []; init_containers = []; ready_replicas = 2 }));
  run_sync = λ log s d. (recorded s d, none);
}

recorded-Kept :
    (s : Syncer) (d : MysqlCluster) → Kept steady unblocked d → Kept steady unblocked (recorded s d)
unfolding update_status_condition
recorded-Kept config_map d kept = kept
recorded-Kept operated_secret d kept = kept
recorded-Kept secret d kept = kept
recorded-Kept headless_svc d kept = kept
recorded-Kept master_svc d kept = kept
recorded-Kept healthy_svc d kept = kept
recorded-Kept healthy_replicas_svc d kept = kept
recorded-Kept stateful_set d (status, spec) =
    (ap (λ (s : ClusterStatus). record s { ready_nodes = 2 }) status, spec)
recorded-Kept pdb d kept = kept
recorded-Kept (pod name) d kept = kept

abbrev steady_laws : QuietLaws steady unblocked
steady_laws = record {
  run_sync = λ log s d. recorded-Kept s d;
  resize = λ log d kept. kept;
  clean = λ log d kept. kept;
}

reconcile-KeepsStatus_example : All KeepsStatus (reconcile steady unblocked).log
unfolding needs_applied_backfill ensure_checked numbers applied_data_plane_version profiles_match
    mysql_operator.Base.text_eq mysql_operator.Versioning.Resolution.applied_data_plane_version cut
    atoi version_change_pending mysql_operator.Versioning.Profiles.name profile_for desired_version
    mysql_operator.Versioning.Resolution.desired_version source_version_for_upgrade
    validate_upgrade_path mysql_operator.Versioning.Profiles.profile_upgrade_index
reconcile-KeepsStatus_example =
    reconcile-KeepsStatus steady unblocked steady_laws refl refl refl refl
