-- ===== src/Cluster/Defaults.antt =====
-- pkg/internal/mysqlcluster/defaults.go: the version and the options of MySQL that are computed from
-- the resources of a cluster. Sizes are bytes. Those of the memory are below 2 ^ 50, where the
-- products of Go's `float64` are the quotients below.
pub mod Sizes
pub mod Wanted
pub mod Fill
pub mod Stages
pub mod Settings
use mysql_operator.Base.{
  ℕ, ◌+◌, ◌-◌, ◌*◌, ◌/◌, ◌%◌, Bool, ◌&&◌, Option, none, some, List, [], ◌∷◌, ◌++◌, Text, codes, ltb,
  leb, ◌==◌, if◌then◌else◌, lookup, insert,
}
use mysql_operator.Base.Decimal.{decimal}
use mysql_operator.Semver.{Blang}
use mysql_operator.Versioning.Profiles.{profile_for, innodb_operator_log_sizing}
use mysql_operator.Versioning.Resolution.{mysql_default_version}
use mysql_operator.Versioning.Images.{Options}
use mysql_operator.Cluster.{MysqlCluster, desired_data_volume_storage}
use mysql_operator.Cluster.Versions.{desired_version, is_percona_image}

abbrev pub kb : ℕ
kb = 1024

abbrev pub mb : ℕ
mb = 1048576

abbrev pub gb : ℕ
gb = 1073741824

-- The requested memory and the limit of the CPU in thousandths, 0 if there is none.
pub record Resources : Type 0 where
  pub memory : ℕ
  pub cpu_millis : ℕ

abbrev pub min : ℕ → ℕ → ℕ
min a b = if leb a b then a else b

abbrev pub max : ℕ → ℕ → ℕ
max a b = if leb a b then b else a

unfoldable pub try_unit : ℕ → ℕ → ℕ → Option Text
try_unit value scale unit =
    if leb scale value && leb (value % scale) (value / 1000)
    then some (decimal (value / scale) ++ unit ∷ [])
    else none

unfoldable pub humanize_size : ℕ → Text
unfolding try_unit
humanize_size value = elim (try_unit value gb b'G') [
  | some r ↦ r
  | none ↦ elim (try_unit value mb b'M') [
    | some r ↦ r
    | none ↦ elim (try_unit value kb b'K') [ some r ↦ r | none ↦ decimal value ]
  ]
]

unfoldable pub compute_innodb_log_file_size : ℕ → ℕ
compute_innodb_log_file_size memory =
    if ltb memory gb
    then 48 * mb
    else if leb memory (4 * gb)
    then 128 * mb
    else if leb memory (8 * gb)
    then 512 * mb
    else if leb memory (16 * gb)
    then gb
    else 2 * gb

-- `none` for the error of a memory that is too small.
unfoldable pub compute_innodb_buffer_pool_size : ℕ → Option ℕ
compute_innodb_buffer_pool_size memory =
    if leb memory (512 * mb)
    then none
    else if leb memory gb
    then some ((memory - 256 * mb) * 50 / 100)
    else if leb memory (4 * gb)
    then some ((memory - 256 * mb) * 75 / 100)
    else some ((memory - 512 * mb) * 80 / 100)

abbrev pub Conf : Type 0
Conf = List (Text × Text)

unfoldable pub set_config_if_not_set : Text → Text → Conf → Conf
unfolding lookup insert
set_config_if_not_set option value conf = elim (lookup option conf) [
  | some _ ↦ conf
  | none ↦ insert option value conf
]

-- What is known of the size of the pool later on: the error sets it to 0.
unfoldable pub buffer_pool_size : ℕ → ℕ
unfolding compute_innodb_buffer_pool_size
buffer_pool_size memory =
    if memory == 0
    then 128 * mb
    else elim (compute_innodb_buffer_pool_size memory) as (λ _. ℕ) [ none ↦ 0 | some size ↦ size ]

abbrev pub set_pool_size : Option ℕ → Conf → Conf
unfolding set_config_if_not_set humanize_size
set_pool_size none conf = conf
set_pool_size (some size) conf =
    set_config_if_not_set (codes "innodb-buffer-pool-size") (humanize_size size) conf

unfoldable pub set_buffer_pool : ℕ → Conf → Conf
unfolding compute_innodb_buffer_pool_size
set_buffer_pool memory conf =
    if memory == 0 then conf else set_pool_size (compute_innodb_buffer_pool_size memory) conf

unfoldable pub binlog_sizes : ℕ → ℕ × ℕ
binlog_sizes space =
    if ltb space (2 * gb)
    then (space / 3, min (space / 3 / 3) gb)
    else (space / 2, min (space / 2 / 4) gb)

unfoldable pub set_binlog : Bool → Option ℕ → Conf → Conf
unfolding binlog_sizes set_config_if_not_set humanize_size
set_binlog is_percona none conf = conf
set_binlog is_percona (some space) conf =
    set_config_if_not_set (codes "max-binlog-size") (humanize_size (binlog_sizes space).1) (
      if is_percona
      then set_config_if_not_set (codes "binlog-space-limit") (humanize_size (binlog_sizes space).0)
          conf
      else conf)

unfoldable pub buffer_pool_instances : ℕ → ℕ → ℕ
buffer_pool_instances cpu_millis pool = max (min ((cpu_millis + 999) / 1000) (pool / gb)) 1

unfoldable pub set_instances : ℕ → ℕ → Conf → Conf
unfolding buffer_pool_instances set_config_if_not_set
set_instances cpu_millis pool conf =
    if cpu_millis == 0
    then conf
    else set_config_if_not_set (codes "innodb-buffer-pool-instances")
        (decimal (buffer_pool_instances cpu_millis pool)) conf

abbrev pub version_or_default : Text → Text
version_or_default [] = mysql_default_version
version_or_default (b ∷ version) = b ∷ version

abbrev pub with_version : MysqlCluster → MysqlCluster
with_version c = record c {
  spec = record c.spec { mysql_version = version_or_default c.spec.mysql_version };
}

module _ ⦃blang : Blang⦄ (opt : Options) (res : Resources) where
  unfoldable pub set_log_size : MysqlCluster → Conf → Conf
  unfolding innodb_operator_log_sizing compute_innodb_log_file_size set_config_if_not_set
      humanize_size
  set_log_size c conf =
      let v = desired_version c in
      let (key, size) =
        innodb_operator_log_sizing (profile_for v) v (compute_innodb_log_file_size res.memory) in
      set_config_if_not_set key (humanize_size size) conf

  -- The cluster with its version and the options of MySQL.
  unfoldable pub set_defaults : MysqlCluster → Conf → MysqlCluster × Conf
  unfolding buffer_pool_size set_buffer_pool set_log_size set_binlog set_instances
  set_defaults c conf =
      let c' = with_version c in
      (
        c',
        set_instances res.cpu_millis (buffer_pool_size res.memory) (
            set_binlog (is_percona_image opt c') (desired_data_volume_storage c')
              (set_log_size c' (set_buffer_pool res.memory conf))),
      )
