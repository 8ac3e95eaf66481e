-- ===== src/Backups/Status.antt =====
-- job.go, `updateStatus`, and status.go: what a backup takes over from the job that runs it.
use mysql_operator.Base.{
  ℕ, ◌≡◌, refl, ap, ◌∙◌, Bool, true, false, ◌||◌, Option, none, some, List, codes, find, upsert,
  find-upsert_self, find-upsert_other, if◌then◌else◌,
}
use mysql_operator.Cluster.{
  ConditionStatus, status_eq, condition_true, condition_false, condition_unknown,
}
use mysql_operator.Backups.{
  BackupConditionType, backup_complete, backup_failed, type_eq, BackupCondition, MysqlBackup, Job,
  JobCondition, get_backup_condition, new_condition, update_status_condition, job_condition,
  completed_if, take_over, update_status,
}

-- The condition with what the job says, which keeps the time of the old one exactly if the status stays.
abbrev pub taken_over :
    ℕ → BackupConditionType → Option JobCondition → Option BackupCondition → Option BackupCondition
taken_over now t none old = old
taken_over now t (some cond) none = some (new_condition t cond.status cond.reason cond.message now)
taken_over now t (some cond) (some old) = some (
    new_condition t cond.status cond.reason cond.message
      (if status_eq old.status cond.status then old.last_transition_time else now))

-- The job has the condition, and it is true.
abbrev pub has_ended : Option JobCondition → Bool
has_ended none = false
has_ended (some cond) = status_eq cond.status condition_true

type_eq_refl : (t : BackupConditionType) → type_eq t t ≡ true
type_eq_refl backup_complete = refl
type_eq_refl backup_failed = refl

completed_if-completed :
    (s : ConditionStatus) (b : MysqlBackup)
    → (completed_if s b).completed ≡ (status_eq s condition_true || b.completed)
completed_if-completed condition_true b = refl
completed_if-completed condition_false b = refl
completed_if-completed condition_unknown b = refl

completed_if-conditions :
    (s : ConditionStatus) (b : MysqlBackup) → (completed_if s b).conditions ≡ b.conditions
completed_if-conditions condition_true b = refl
completed_if-conditions condition_false b = refl
completed_if-conditions condition_unknown b = refl

take_over-completed :
    (now : ℕ) (t : BackupConditionType) (o : Option JobCondition) (b : MysqlBackup)
    → (take_over now t o b).completed ≡ (has_ended o || b.completed)
unfolding update_status_condition
take_over-completed now t none b = refl
take_over-completed now t (some cond) b =
    completed_if-completed cond.status
      (update_status_condition now t cond.status cond.reason cond.message b)

module _ (now : ℕ) (t : BackupConditionType) (cond : JobCondition) where
  abbrev rewritten : BackupCondition → BackupCondition
  rewritten old =
      new_condition t cond.status cond.reason cond.message
        (if status_eq old.status cond.status then old.last_transition_time else now)

  abbrev added : BackupCondition
  added = new_condition t cond.status cond.reason cond.message now

  abbrev written : List BackupCondition → List BackupCondition
  written = upsert (λ (x : BackupCondition). type_eq x.type t) rewritten added

  take_over-conditions :
      (b : MysqlBackup) → (take_over now t (some cond) b).conditions ≡ written b.conditions
  unfolding update_status_condition
  take_over-conditions b =
      completed_if-conditions cond.status
        (update_status_condition now t cond.status cond.reason cond.message b)

  taken_over-eq :
      (o : Option BackupCondition)
      → elim o as (λ _. Option BackupCondition) [ some x ↦ some (rewritten x) | none ↦ some added ]
        ≡ taken_over now t (some cond) o
  taken_over-eq none = refl
  taken_over-eq (some x) = refl

take_over_self :
    (now : ℕ) (t : BackupConditionType) (o : Option JobCondition) (b : MysqlBackup)
    → get_backup_condition t (take_over now t o b) ≡ taken_over now t o (get_backup_condition t b)
unfolding get_backup_condition take_over
take_over_self now t none b = refl
take_over_self now t (some cond) b =
    let p = λ (x : BackupCondition). type_eq x.type t in
    ap (find p) (take_over-conditions now t cond b)
    ∙ find-upsert_self p (rewritten now t cond) (added now t cond) (type_eq_refl t)
        (λ x _. type_eq_refl t) b.conditions
    ∙ taken_over-eq now t cond (find p b.conditions)

apart :
    (t u s : BackupConditionType) → type_eq t u ≡ false → type_eq s t ≡ true → type_eq s u ≡ false
apart backup_complete backup_failed backup_complete h e = refl
apart backup_failed backup_complete backup_failed h e = refl
apart backup_complete backup_complete s h e = cc
apart backup_failed backup_failed s h e = cc
apart backup_complete backup_failed backup_failed h e = cc
apart backup_failed backup_complete backup_complete h e = cc

take_over_other :
    (now : ℕ) (t u : BackupConditionType) (o : Option JobCondition) (b : MysqlBackup)
    → type_eq t u ≡ false
    → get_backup_condition u (take_over now t o b) ≡ get_backup_condition u b
unfolding get_backup_condition take_over
take_over_other now t u none b h = refl
take_over_other now t u (some cond) b h =
    let p = λ (x : BackupCondition). type_eq x.type t in
    let q = λ (x : BackupCondition). type_eq x.type u in
    ap (find q) (take_over-conditions now t cond b)
    ∙ find-upsert_other p (rewritten now t cond) (added now t cond) q h (λ x _. h)
        (λ x e. apart t u x.type h e) b.conditions

-- After the update each of the two conditions that the job has is taken over from it, with the time of the
-- backup's own condition exactly if that has the same status, and one that the job does not have is as
-- before. The backup is completed exactly if it was or one of the two is true of the job.
pub update_status_lem :
    (now : ℕ) (job : Job) (b : MysqlBackup)
    → (get_backup_condition backup_complete (update_status now job b)
        ≡ taken_over now backup_complete
            (job_condition (codes "Complete") job)
            (get_backup_condition backup_complete b))
      × (get_backup_condition backup_failed (update_status now job b)
          ≡ taken_over now backup_failed
              (job_condition (codes "Failed") job)
              (get_backup_condition backup_failed b))
      × ((update_status now job b).completed ≡ (
          has_ended (job_condition (codes "Failed") job)
          || (has_ended (job_condition (codes "Complete") job) || b.completed)))
unfolding update_status
update_status_lem now job b =
    let complete = job_condition (codes "Complete") job in
    let failure = job_condition (codes "Failed") job in
    let first = take_over now backup_complete complete b in
    (
      take_over_other now backup_failed backup_complete failure first refl
          ∙ take_over_self now backup_complete complete b,
      take_over_self now backup_failed failure first
          ∙ ap (taken_over now backup_failed failure)
              (take_over_other now backup_complete backup_failed complete b refl),
      take_over-completed now backup_failed failure first
          ∙ ap (λ (x : Bool). has_ended failure || x)
              (take_over-completed now backup_complete complete b),
    )
