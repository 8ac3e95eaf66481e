-- ===== src/Cluster/Versions.antt =====
-- pkg/internal/mysqlcluster/version.go, validation.go and the images of mysqlcluster.go: the version
-- that is wanted, applied and effective, and the validation of the spec. `opt` is `GetOptions()`.
pub mod Validation
pub mod InitContainer
use mysql_operator.Base.{
  ℕ, Bool, ◌&&◌, not, Option, none, some, List, [], Text, codes, contains, if◌then◌else◌,
}
use mysql_operator.Semver.{Version, zero_version, Blang, eq, is_zero}
use mysql_operator.Versioning.Profiles.{profile_for, wants_percona_init_container}
use mysql_operator.Versioning.Resolution
use mysql_operator.Versioning.Resolution.{Container, semver_from_stateful_set}
use mysql_operator.Versioning.Images.{Options, server_image, sidecar_image_for}
use mysql_operator.Cluster.{MysqlCluster}

-- The parts of a StatefulSet that the operator reads.
pub record StatefulSet : Type 0 where
  pub containers : List Container
  pub init_containers : List Container
  pub ready_replicas : ℕ

abbrev pub template_of : Option StatefulSet → Option (List Container × List Container)
template_of none = none
template_of (some sts) = some (sts.containers, sts.init_containers)

module _ ⦃blang : Blang⦄ where
  unfoldable pub desired_version : MysqlCluster → Version
  desired_version c = Resolution.desired_version c.spec.mysql_version

  unfoldable pub applied_data_plane_version : MysqlCluster → Version
  applied_data_plane_version c =
      Resolution.applied_data_plane_version c.status.applied_mysql_version

  unfoldable pub lagging_stateful_set_version : MysqlCluster → Option StatefulSet → Version
  lagging_stateful_set_version c none = zero_version
  lagging_stateful_set_version c (some sts) =
      let v = semver_from_stateful_set (template_of (some sts)) in
      if not (is_zero v) && not (eq v (desired_version c)) then v else zero_version

  unfoldable pub source_version_for_upgrade : MysqlCluster → Version
  source_version_for_upgrade c = applied_data_plane_version c

  unfoldable pub effective_version : MysqlCluster → Option StatefulSet → Version
  effective_version c sts =
      let applied = applied_data_plane_version c in
      let lagging = lagging_stateful_set_version c sts in
      if not (is_zero applied)
      then applied
      else if not (is_zero lagging)
      then lagging
      else desired_version c

  -- The empty text stands for an image that is not found.
  unfoldable pub mysql_image : Options → MysqlCluster → Text
  mysql_image opt c = elim (server_image opt (desired_version c) c.spec.image) [
    | some image ↦ image
    | none ↦ []
  ]

  unfoldable pub sidecar_image : Options → MysqlCluster → Text
  sidecar_image opt c = sidecar_image_for opt (desired_version c) c.spec.sidecar_image

  unfoldable pub is_percona_image : Options → MysqlCluster → Bool
  is_percona_image opt c = contains (mysql_image opt c) (codes "percona")

  unfoldable pub wants_percona_init_container_for : Options → MysqlCluster → Version → Bool
  wants_percona_init_container_for opt c v =
      is_percona_image opt c && wants_percona_init_container (profile_for v) v

  unfoldable pub should_have_init_container_for_mysql : Options → MysqlCluster → Bool
  unfolding wants_percona_init_container_for
  should_have_init_container_for_mysql opt c =
      wants_percona_init_container_for opt c (desired_version c)
