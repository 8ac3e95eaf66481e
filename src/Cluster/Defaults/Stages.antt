-- ===== src/Cluster/Defaults/Stages.antt =====
-- The options of the buffer pool, its instances, the binary logs and the log files.
use mysql_operator.Base.{
  ℕ, ◌≡◌, ◌∙◌, refl, ap, Bool-cases, arith, ◌*◌, ◌/◌, Bool, true, false, not, Option, none, some,
  [], ◌∷◌, Text, codes, inl, inr, ltb, leb, if◌then◌else◌, ◌==◌,
}
use mysql_operator.Semver.{Version, version, Blang, precedes, gates-precedes}
use mysql_operator.Versioning.Profiles.{
  profile_for, profile_for_lem, line_of, Profile, percona57, percona80, percona84, fallback,
  innodb_operator_log_sizing,
}
use mysql_operator.Cluster.{MysqlCluster}
use mysql_operator.Cluster.Defaults.{
  Conf, set_config_if_not_set, set_pool_size, set_buffer_pool, binlog_sizes, set_binlog,
  set_instances, buffer_pool_instances, buffer_pool_size, compute_innodb_buffer_pool_size,
  compute_innodb_log_file_size, version_or_default, with_version, humanize_size,
}
use mysql_operator.Cluster.Defaults.Wanted.{
  wanted_pool, wanted_log_size, wanted_instances, wanted_binlog, wanted_pool_size,
  wanted_pool_instances, wanted_version, defaulted,
}
use mysql_operator.Cluster.Defaults.Fill.{set_all}

pool_lem :
    (memory : ℕ)
    → compute_innodb_buffer_pool_size memory
      ≡ (if leb memory 536_870_912 then none else some (wanted_pool memory))
unfolding compute_innodb_buffer_pool_size
pool_lem memory = ground arith

pub log_size_lem : (memory : ℕ) → compute_innodb_log_file_size memory ≡ wanted_log_size memory
unfolding compute_innodb_log_file_size
log_size_lem memory = ground arith

binlog_sizes_lem :
    (space : ℕ)
    → binlog_sizes space ≡ (
      if ltb space 2_147_483_648 then space / 3 else space / 2,
      if ltb space 2_147_483_648
          then space / 9
          else if leb space 8_589_934_592
          then space / 8
          else 1_073_741_824,
    )
unfolding binlog_sizes
binlog_sizes_lem space = ground arith

pool_size_lem :
    (memory : ℕ) → buffer_pool_size memory / 1_073_741_824 ≡ wanted_pool memory / 1_073_741_824
unfolding buffer_pool_size
pool_size_lem memory = rw (pool_lem memory) (ground arith)

instances_lem :
    (cpu_millis memory : ℕ)
    → buffer_pool_instances cpu_millis (buffer_pool_size memory)
      ≡ wanted_instances cpu_millis memory
unfolding buffer_pool_instances
instances_lem cpu_millis memory = let same = pool_size_lem memory in ground arith

swap_branches {ℓ} :
    {A : Type ℓ} (b : Bool) (x y : A) → (if not b then x else y) ≡ (if b then y else x)
swap_branches true x y = refl
swap_branches false x y = refl

sizing_lem :
    (p : Profile) (v : Version) (size : ℕ)
    → p ≡ line_of v
    → innodb_operator_log_sizing p v size ≡ (
        if precedes v (version 8 0 30)
        then (codes "innodb-log-file-size", size)
        else (codes "innodb-redo-log-capacity", 2 * size))
unfolding innodb_operator_log_sizing
sizing_lem percona57 v size h =
    let before : precedes v (version 8 0 30) ≡ true = ground arith in rw before refl
sizing_lem percona80 v size h =
    rw (gates-precedes v).1 (swap_branches (precedes v (version 8 0 30)) _ _)
sizing_lem percona84 v size h =
    let after : precedes v (version 8 0 30) ≡ false = ground arith in rw after refl
sizing_lem fallback v size h =
    rw (gates-precedes v).1 (swap_branches (precedes v (version 8 0 30)) _ _)

pub log_sizing_lem :
    (v : Version) ⦃blang : Blang⦄ (size : ℕ)
    → innodb_operator_log_sizing (profile_for v) v size ≡ (
        if precedes v (version 8 0 30)
        then (codes "innodb-log-file-size", size)
        else (codes "innodb-redo-log-capacity", 2 * size))
log_sizing_lem v size = sizing_lem (profile_for v) v size (profile_for_lem v)

pool_cases :
    (unset small : Bool)
    → (unset ≡ true → small ≡ true)
    → (size : ℕ) (conf : Conf)
    → (if unset then conf else set_pool_size (if small then none else some size) conf)
      ≡ set_all
          (if small then [] else (codes "innodb-buffer-pool-size", humanize_size size) ∷ [])
          conf
unfolding set_all set_config_if_not_set set_pool_size
pool_cases true true h size conf = refl
pool_cases true false h size conf = let bad = h refl in cc
pool_cases false true h size conf = refl
pool_cases false false h size conf = refl

pub set_buffer_pool_lem :
    (memory : ℕ) (conf : Conf)
    → set_buffer_pool memory conf ≡ set_all (wanted_pool_size memory) conf
unfolding set_buffer_pool set_all
set_buffer_pool_lem memory conf =
    ap (λ o. if memory == 0 then conf else set_pool_size o conf) (pool_lem memory)
    ∙ pool_cases (memory == 0) (leb memory 536_870_912) (λ h. ground arith) (wanted_pool memory)
        conf

pub set_binlog_lem :
    (is_percona : Bool) (storage : Option ℕ) (conf : Conf)
    → set_binlog is_percona storage conf ≡ set_all (wanted_binlog is_percona storage) conf
unfolding set_binlog set_all
set_binlog_lem is_percona none conf = refl
set_binlog_lem true (some space) conf = rw (binlog_sizes_lem space) refl
set_binlog_lem false (some space) conf = rw (binlog_sizes_lem space) refl

pub set_instances_lem :
    (cpu_millis memory : ℕ) (conf : Conf)
    → set_instances cpu_millis (buffer_pool_size memory) conf
      ≡ set_all (wanted_pool_instances cpu_millis memory) conf
unfolding set_instances set_all
set_instances_lem cpu_millis memory conf = elim (Bool-cases (cpu_millis == 0)) [
  | inl unset ↦ rw unset refl
  | inr set ↦ rw (set, instances_lem cpu_millis memory) refl
]

version_or_default_lem : (text : Text) → version_or_default text ≡ wanted_version text
version_or_default_lem [] = refl
version_or_default_lem (b ∷ text) = refl

pub with_version_lem : (c : MysqlCluster) → with_version c ≡ defaulted c
with_version_lem c =
    ap (λ v. record c { spec = record c.spec { mysql_version = v } })
      (version_or_default_lem c.spec.mysql_version)
