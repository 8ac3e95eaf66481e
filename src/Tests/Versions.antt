-- ===== src/Tests/Versions.antt =====
-- The theorems on versions and upgrades at concrete inputs.
use mysql_operator.Base.{
  ◌≡◌, ◌≢◌, ◌↔◌, refl, true, false, Option, none, some, List, [], ◌∷◌, Text, codes, cut, ok, err,
  All,
}
use mysql_operator.Base.Decimal.{atoi}
use mysql_operator.Semver.{version, is_zero}
use mysql_operator.Versioning.Profiles.{
  percona57, percona80, percona84, fallback, profile_for, rank, matches,
}
use mysql_operator.Versioning.UpgradePath.{
  validate_upgrade_path, version_change_pending, skips_line,
}
use mysql_operator.Versioning.UpgradePath.OneLine.{validate_upgrade_path_lem}
use mysql_operator.Cluster.{MysqlCluster}
use mysql_operator.Cluster.Versions.{
  StatefulSet, desired_version, applied_data_plane_version, mysql_image, sidecar_image,
  is_percona_image, source_version_for_upgrade,
}
use mysql_operator.Cluster.Versions.Validation.{validate, validate_iff}
use mysql_operator.Upgrade.{has_persistent_data_volume}
use mysql_operator.Upgrade.Rollout.{rollout_mysql_version, rollout_mysql_version_lem}
use mysql_operator.Upgrade.Checker.{
  ensure_checked, ensure_checked-blocked_holds, ensure_checked-patch_downgrade,
}
use mysql_operator.Upgrade.Pods.{Pod, pod_ready, rollout_complete, ready_mysql_pods}
use mysql_operator.Upgrade.Observe.{
  Query, operator_sql_credentials, observe_data_plane_version_sql,
  observe_data_plane_version_sql_sound,
}
use mysql_operator.Upgrade.Steps.{needs_datadir_chown_init, needs_datadir_chown_init_iff}
use mysql_operator.Base.{arith}
use mysql_operator.Cluster.{condition_true, name_for_resource, headless_svc}
use mysql_operator.Versioning.Resolution.{Container}
use mysql_operator.Upgrade.Observe.{Agrees}
use mysql_operator.Upgrade.Pods.Complete.{IsComplete, rollout_complete_iff}
use mysql_operator.Tests.{numbers, numbers_laws, cluster, options, current}

abbrev upgrading : MysqlCluster
upgrading = cluster (codes "8.4.8") (codes "8.0.20")

abbrev skipping : MysqlCluster
skipping = cluster (codes "8.4.8") (codes "5.7.35")

abbrev stepping_back : MysqlCluster
stepping_back = cluster (codes "8.0.15") (codes "8.0.20")

validate_upgrade_path_lem_example :
    validate_upgrade_path (version 5 7 35) (version 8 4 8) ≡ err skips_line
validate_upgrade_path_lem_example =
    validate_upgrade_path_lem numbers_laws (version 5 7 35) (version 8 4 8)

rollout_mysql_version_lem_example : rollout_mysql_version upgrading none ≡ version 8 4 8
unfolding desired_version numbers applied_data_plane_version
    mysql_operator.Versioning.Resolution.applied_data_plane_version cut atoi
    mysql_operator.Versioning.Resolution.desired_version validate_upgrade_path
    mysql_operator.Versioning.Profiles.profile_upgrade_index mysql_operator.Versioning.Profiles.name
    profile_for
rollout_mysql_version_lem_example = rollout_mysql_version_lem numbers_laws upgrading none refl

ensure_checked-blocked_holds_example : rollout_mysql_version skipping none ≡ version 5 7 35
unfolding ensure_checked numbers applied_data_plane_version
    mysql_operator.Versioning.Resolution.applied_data_plane_version cut atoi version_change_pending
    mysql_operator.Versioning.Profiles.name profile_for desired_version
    mysql_operator.Versioning.Resolution.desired_version source_version_for_upgrade
    validate_upgrade_path mysql_operator.Versioning.Profiles.profile_upgrade_index
ensure_checked-blocked_holds_example =
    ensure_checked-blocked_holds numbers_laws skipping none refl skips_line refl

ensure_checked-patch_downgrade_example :
    (ensure_checked stepping_back ≡ ok tt)
    × (rollout_mysql_version stepping_back none ≡ version 8 0 20)
unfolding desired_version numbers applied_data_plane_version
    mysql_operator.Versioning.Resolution.applied_data_plane_version cut atoi
    mysql_operator.Versioning.Resolution.desired_version
ensure_checked-patch_downgrade_example =
    ensure_checked-patch_downgrade numbers_laws stepping_back none refl refl refl

validate_iff_example : (validate options current ≡ ok tt) ↔ (
    (current.spec.secret_name ≢ [])
    × (mysql_image options current ≢ [])
    × (sidecar_image options current ≢ []))
validate_iff_example = validate_iff options current

needs_datadir_chown_init_iff_example : (needs_datadir_chown_init options upgrading ≡ true) ↔ (
    (is_zero (source_version_for_upgrade upgrading) ≡ false)
    × (profile_for (source_version_for_upgrade upgrading) ≡ percona80)
    × (profile_for (desired_version upgrading) ≡ percona84)
    × (has_persistent_data_volume upgrading ≡ true)
    × (is_percona_image options upgrading ≡ true))
needs_datadir_chown_init_iff_example = needs_datadir_chown_init_iff numbers_laws options upgrading

-- A pod that has run its only init container and is ready, and its StatefulSet.
abbrev mysql_container : Container
mysql_container = record {
  name = codes "mysql";
  image = codes "percona:8.4.8";
  env = record { name = codes "MY_MYSQL_VERSION"; value = codes "8.4.8" } ∷ [];
}

abbrev init_container : Container
init_container = record { name = codes "init"; image = []; env = [] }

abbrev pod : Text → Pod
pod pod_name = record {
  name = pod_name;
  hostname = pod_name;
  containers = mysql_container ∷ [];
  init_containers = init_container ∷ [];
  conditions = record { type = pod_ready; status = condition_true } ∷ [];
  init_container_statuses = record { name = codes "init"; terminated = some 0 } ∷ [];
}

abbrev pods : List Pod
pods = pod (codes "db-mysql-0") ∷ pod (codes "db-mysql-1") ∷ []

abbrev stateful_set_of_two : StatefulSet
stateful_set_of_two = record {
  containers = mysql_container ∷ [];
  init_containers = init_container ∷ [];
  ready_replicas = 2;
}

-- Every server answers with its version.
abbrev query : Query
query user password host = some (codes "8.4.8-8")

abbrev secret : Option (List (Text × Text))
secret =
    some
      ((codes "OPERATOR_USER", codes "operator") ∷ (codes "OPERATOR_PASSWORD", codes "word") ∷ [])

rollout_complete_iff_example :
    (rollout_complete upgrading (some stateful_set_of_two) pods ≡ true)
    ↔ IsComplete upgrading stateful_set_of_two pods
rollout_complete_iff_example = rollout_complete_iff upgrading stateful_set_of_two pods (omega arith)

observe_data_plane_version_sql_sound_example :
    (user : Text) × (password : Text) × (operator_sql_credentials secret ≡ ok (user, password))
    × (ready_mysql_pods pods ≢ [])
    × All
        (Agrees query user password
          (name_for_resource headless_svc (codes "db"))
          (codes "prod")
          (version 8 4 8))
        (ready_mysql_pods pods)
unfolding observe_data_plane_version_sql ready_mysql_pods
    mysql_operator.Upgrade.Pods.pod_mysql_ready mysql_operator.Upgrade.Observe.pod_version
    mysql_operator.Versioning.Resolution.parse_server_version numbers atoi
observe_data_plane_version_sql_sound_example =
    observe_data_plane_version_sql_sound query numbers_laws secret upgrading pods (version 8 4 8)
      refl
