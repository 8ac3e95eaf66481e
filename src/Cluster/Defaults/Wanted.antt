-- ===== src/Cluster/Defaults/Wanted.antt =====
-- defaults.go in terms of the resources: which options of MySQL are wanted, and with which values.
use mysql_operator.Base.{
  ℕ, ◌-◌, ◌*◌, ◌+◌, ◌/◌, Bool, Option, none, some, [], ◌∷◌, ◌++◌, Text, codes, ltb, leb,
  if◌then◌else◌, ◌==◌,
}
use mysql_operator.Base.Decimal.{decimal}
use mysql_operator.Semver.{Version, version, Blang, precedes}
use mysql_operator.Versioning.Resolution.{mysql_default_version}
use mysql_operator.Versioning.Images.{Options}
use mysql_operator.Cluster.{MysqlCluster, desired_data_volume_storage}
use mysql_operator.Cluster.Versions.{desired_version, is_percona_image}
use mysql_operator.Cluster.Defaults.{Resources, Conf, humanize_size}

-- Half a gibibyte is the least memory; a quarter or half a gibibyte is left to the rest of MySQL.
abbrev pub wanted_pool : ℕ → ℕ
wanted_pool memory =
    if leb memory 536_870_912
    then 0
    else if leb memory 1_073_741_824
    then (memory - 268_435_456) / 2
    else if leb memory 4_294_967_296
    then (memory - 268_435_456) * 3 / 4
    else (memory - 536_870_912) * 4 / 5

abbrev pub wanted_log_size : ℕ → ℕ
wanted_log_size memory =
    if ltb memory 1_073_741_824
    then 50_331_648
    else if leb memory 4_294_967_296
    then 134_217_728
    else if leb memory 8_589_934_592
    then 536_870_912
    else if leb memory 17_179_869_184
    then 1_073_741_824
    else 2_147_483_648

-- One instance for each gibibyte of the pool, but no more than CPUs, and at least one.
abbrev pub wanted_instances : ℕ → ℕ → ℕ
wanted_instances cpu_millis memory =
    let cpus = (cpu_millis + 999) / 1000 in
    let gibibytes = wanted_pool memory / 1_073_741_824 in
    if gibibytes == 0
    then 1
    else if ltb cpus gibibytes
    then if cpus == 0 then 1 else cpus
    else gibibytes

abbrev pub wanted_binlog : Bool → Option ℕ → Conf
wanted_binlog is_percona none = []
wanted_binlog is_percona (some space) =
    (if is_percona
      then (
        codes "binlog-space-limit",
        humanize_size (if ltb space 2_147_483_648 then space / 3 else space / 2),
      )
        ∷ []
      else [])
    ++ (
      codes "max-binlog-size",
      humanize_size (
          if ltb space 2_147_483_648
          then space / 9
          else if leb space 8_589_934_592
          then space / 8
          else 1_073_741_824),
    )
      ∷ []

abbrev pub wanted_pool_size : ℕ → Conf
wanted_pool_size memory =
    if leb memory 536_870_912
    then []
    else (codes "innodb-buffer-pool-size", humanize_size (wanted_pool memory)) ∷ []

abbrev pub wanted_log_file : Version → ℕ → Conf
wanted_log_file v memory =
    if precedes v (version 8 0 30)
    then (codes "innodb-log-file-size", humanize_size (wanted_log_size memory)) ∷ []
    else (codes "innodb-redo-log-capacity", humanize_size (2 * wanted_log_size memory)) ∷ []

abbrev pub wanted_pool_instances : ℕ → ℕ → Conf
wanted_pool_instances cpu_millis memory =
    if cpu_millis == 0
    then []
    else (codes "innodb-buffer-pool-instances", decimal (wanted_instances cpu_millis memory)) ∷ []

abbrev pub wanted_version : Text → Text
wanted_version text = elim text as (λ _. Text) [ [] ↦ mysql_default_version | b ∷ v ↦ b ∷ v ]

-- The cluster with the version that an empty one stands for.
abbrev pub defaulted : MysqlCluster → MysqlCluster
defaulted c = record c {
  spec = record c.spec { mysql_version = wanted_version c.spec.mysql_version };
}

abbrev pub or_else : Option Text → Option Text → Option Text
or_else none other = other
or_else (some v) other = some v

-- The options that are set if they are not there.
abbrev pub wanted_options : ⦃blang : Blang⦄ → Options → Resources → MysqlCluster → Conf
wanted_options ⦃blang⦄ opt res c =
    wanted_pool_size res.memory
    ++ (wanted_log_file (desired_version c) res.memory
        ++ (wanted_binlog (is_percona_image opt c) (desired_data_volume_storage c)
            ++ wanted_pool_instances res.cpu_millis res.memory))
