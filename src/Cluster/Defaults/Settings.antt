-- ===== src/Cluster/Defaults/Settings.antt =====
-- Which options of MySQL the defaults set, and to what.
use mysql_operator.Base.{
  ℕ, ◌≡◌, ◌∙◌, refl, ap, sym, ◌*◌, Bool, true, false, [], ◌∷◌, Text, codes, lookup, if◌then◌else◌,
}
use mysql_operator.Semver.{version, Blang, precedes}
use mysql_operator.Versioning.Images.{Options}
use mysql_operator.Cluster.{MysqlCluster, desired_data_volume_storage}
use mysql_operator.Cluster.Versions.{desired_version, is_percona_image}
use mysql_operator.Cluster.Defaults.{
  Resources, Conf, set_config_if_not_set, set_buffer_pool, set_binlog, set_instances,
  buffer_pool_size, compute_innodb_log_file_size, set_log_size, set_defaults, with_version,
  humanize_size,
}
use mysql_operator.Cluster.Defaults.Wanted.{
  wanted_log_size, wanted_binlog, wanted_pool_size, wanted_log_file, wanted_pool_instances,
  defaulted, or_else, wanted_options,
}
use mysql_operator.Cluster.Defaults.Fill.{set_all, lookup-set_all, set_all-append}
use mysql_operator.Cluster.Defaults.Stages.{
  log_size_lem, log_sizing_lem, set_buffer_pool_lem, set_binlog_lem, set_instances_lem,
  with_version_lem,
}

abbrev set_sized : Conf → Text × ℕ → Conf
set_sized conf sizing = set_config_if_not_set sizing.0 (humanize_size sizing.1) conf

abbrev sized : Bool → ℕ → Text × ℕ
sized older size =
    if older
    then (codes "innodb-log-file-size", size)
    else (codes "innodb-redo-log-capacity", 2 * size)

log_cases :
    (older : Bool) (size : ℕ) (conf : Conf)
    → set_sized conf (sized older size)
      ≡ set_all
          (if older
            then (codes "innodb-log-file-size", humanize_size size) ∷ []
            else (codes "innodb-redo-log-capacity", humanize_size (2 * size)) ∷ [])
          conf
unfolding set_all
log_cases true size conf = refl
log_cases false size conf = refl

module _ ⦃blang : Blang⦄ (opt : Options) (res : Resources) where
  set_log_size_lem :
      (c : MysqlCluster) (conf : Conf)
      → set_log_size opt res c conf ≡ set_all (wanted_log_file (desired_version c) res.memory) conf
  unfolding set_log_size set_all
  set_log_size_lem c conf =
      let v = desired_version c in
      ap (set_sized conf) (
        log_sizing_lem v (compute_innodb_log_file_size res.memory)
        ∙ ap (sized (precedes v (version 8 0 30))) (log_size_lem res.memory))
      ∙ log_cases (precedes v (version 8 0 30)) (wanted_log_size res.memory) conf

  abbrev settings : MysqlCluster → Conf → Conf
  settings c conf = set_instances res.cpu_millis (buffer_pool_size res.memory) (
      set_binlog (is_percona_image opt c) (desired_data_volume_storage c)
        (set_log_size opt res c (set_buffer_pool res.memory conf)))

  settings_lem :
      (c : MysqlCluster) (conf : Conf) → settings c conf ≡ set_all (wanted_options opt res c) conf
  settings_lem c conf =
      set_instances_lem res.cpu_millis res.memory _
      ∙ ap (set_all (wanted_pool_instances res.cpu_millis res.memory)) (
          set_binlog_lem (is_percona_image opt c) (desired_data_volume_storage c) _
          ∙ ap (set_all (wanted_binlog (is_percona_image opt c) (desired_data_volume_storage c))) (
              set_log_size_lem c _
              ∙ ap (set_all (wanted_log_file (desired_version c) res.memory))
                  (set_buffer_pool_lem res.memory conf)))
      ∙ sym (
          set_all-append (wanted_pool_size res.memory) _ conf
          ∙ set_all-append (wanted_log_file (desired_version c) res.memory) _ _
          ∙ set_all-append (wanted_binlog (is_percona_image opt c) (desired_data_volume_storage c))
              _ _)

  -- An empty version becomes the default one. An option that is there keeps its value, and one that is
  -- not has after that the value of the list: the size of the buffer pool only for more than half a
  -- gibibyte of memory; of the size of the log files and the capacity of the redo log the one that the
  -- version has, from 8.0.30 on the capacity, twice as large; the space of the binary logs only for
  -- Percona images, and like the size of such a log only with a size of the volume; and the instances
  -- of the pool only with a limit of the CPUs.
  pub set_defaults-lookup :
      (c : MysqlCluster) (conf : Conf) (key : Text)
      → ((set_defaults opt res c conf).0 ≡ defaulted c)
        × (lookup key (set_defaults opt res c conf).1
            ≡ or_else (lookup key conf) (lookup key (wanted_options opt res (defaulted c))))
  unfolding set_defaults
  set_defaults-lookup c conf key = (
    with_version_lem c,
    ap (lookup key) (
          settings_lem (with_version c) conf
          ∙ ap (λ d. set_all (wanted_options opt res d) conf) (with_version_lem c))
        ∙ lookup-set_all key (wanted_options opt res (defaulted c)) conf,
  )
