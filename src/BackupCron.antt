-- ===== src/BackupCron.antt =====
-- pkg/controller/mysqlbackupcron/job_backup.go: one scheduled run of the backups of a cluster. The
-- Kubernetes client is a parameter: its answers to the list requests, and whether a create or a delete
-- request fails; so is `sort.Sort`, which is given the comparison `Less` of `byTimestamp`.

pub mod History
use mysql_operator.Base.{
  ℕ, suc, Bool, Option, none, some, List, [], ◌∷◌, ◌++◌, Text, codes, ltb, length, ℤ, pos, leb_ℤ,
  if◌then◌else◌,
}

pub record Backup : Type 0 where
  pub name : Text
  pub creation_timestamp : ℕ

pub data Request : Type 0 where
  create : Text → Request
  delete : Text → Request

pub record Job : Type 0 where
  pub cluster_name : Text
  pub backup_schedule_jobs_history_limit : Option ℤ

-- `Less(i, j)`: the newer backup comes first.
abbrev pub less : Backup → Backup → Bool
less a b = ltb b.creation_timestamp a.creation_timestamp

-- The answers of the client: the backups that were not completed when the run began, `none` for an
-- error; the backups of the cluster when the collector runs, `none` for an error; and the time of the
-- run as it is printed.
pub record World : Type 0 where
  pub running : Option (List Backup)
  pub listed : Option (List Backup)
  pub now : Text

unfoldable pub scheduled_backups_running_count : World → ℕ
scheduled_backups_running_count world = elim world.running [
  | none ↦ 0
  | some backups ↦ length backups
]

unfoldable pub create_backup : Job → World → List Request
create_backup j world = create (j.cluster_name ++ (codes "-auto-" ++ world.now)) ∷ []

-- The loop over the sorted backups from index `i` on.
unfoldable pub delete_from : ℤ → ℕ → List Backup → List Request
delete_from limit i [] = []
delete_from limit i (b ∷ backups) =
    let rest = delete_from limit (suc i) backups in
    if leb_ℤ limit (pos i) then delete b.name ∷ rest else rest

module _ (sort : (Backup → Backup → Bool) → List Backup → List Backup) where
  unfoldable pub backup_gc : ℤ → World → List Request
  unfolding delete_from
  backup_gc limit world = elim world.listed [
    | none ↦ []
    | some backups ↦ delete_from limit 0 (sort less backups)
  ]

  -- The collector is deferred, so it comes last, and runs also when a backup is running.
  unfoldable pub run : Job → World → List Request
  unfolding backup_gc create_backup scheduled_backups_running_count
  run j world =
      let collected : List Request = elim j.backup_schedule_jobs_history_limit [
        | none ↦ []
        | some limit ↦ backup_gc limit world
      ] in
      if ltb 0 (scheduled_backups_running_count world)
      then collected
      else create_backup j world ++ collected
