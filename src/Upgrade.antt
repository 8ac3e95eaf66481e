-- ===== src/Upgrade.antt =====
-- pkg/controller/mysqlcluster/internal/versionupgrade: the rollout of a new server version.
pub mod Pods
pub mod Observe
pub mod Rollout
pub mod Applied
pub mod Checker
pub mod Steps
use mysql_operator.Base.{Bool, false, ltb, if◌then◌else◌}
use mysql_operator.Semver.{Version, Blang, string}
use mysql_operator.Cluster.{MysqlCluster}

-- version.go
unfoldable pub has_persistent_data_volume : MysqlCluster → Bool
has_persistent_data_volume c = c.spec.volume_spec.persistent_volume_claim

unfoldable pub cluster_has_mysql_data : MysqlCluster → Bool
unfolding has_persistent_data_volume
cluster_has_mysql_data c =
    if has_persistent_data_volume c then ltb 0 c.status.ready_nodes else false

unfoldable pub mark_applied_version : ⦃blang : Blang⦄ → MysqlCluster → Version → MysqlCluster
mark_applied_version ⦃blang⦄ c v = record c {
  status = record c.status { applied_mysql_version = string v };
}
