-- ===== src/Upgrade/Applied.antt =====
-- The applied version of the status, as it is written and read (`MarkAppliedVersion` of version.go and
-- `AppliedDataPlaneVersion`).
use mysql_operator.Base.{◌≡◌, refl, some, [], ◌∷◌, Text, arith}
use mysql_operator.Semver.{Version, Blang, BlangLaws, IsInt64, string}
use mysql_operator.Versioning.Resolution
use mysql_operator.Versioning.Resolution.{or_zero}
use mysql_operator.Cluster.{MysqlCluster}
use mysql_operator.Cluster.Versions.{applied_data_plane_version}
use mysql_operator.Upgrade.{mark_applied_version}

read_back :
    ⦃blang : Blang⦄
    → BlangLaws blang
    → (v : Version) (s : Text) → blang.parse_strict s ≡ some v
    → Resolution.applied_data_plane_version s ≡ v
unfolding Resolution.applied_data_plane_version
read_back laws v [] h = ground (arith, laws.parse_empty)
read_back laws v (c ∷ s) h = rw h refl

-- The applied version that is read back from the status is the one that was recorded.
pub applied_data_plane_version-mark_applied_version :
    ⦃blang : Blang⦄
    → BlangLaws blang
    → (c : MysqlCluster) (v : Version) → IsInt64 v
    → applied_data_plane_version (mark_applied_version c v) ≡ v
unfolding applied_data_plane_version mark_applied_version
applied_data_plane_version-mark_applied_version laws c v h =
    read_back laws v (string v) (laws.parse_string v h)
