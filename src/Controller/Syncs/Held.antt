-- ===== src/Controller/Syncs/Held.antt =====
-- What a pass does while the check of the upgrade holds it.
use mysql_operator.Base.{
  ℕ, ◌≡◌, ◌≢◌, inl, inr, refl, sym, subst, Bool, true, false, none, some, List, [], Text, All,
  All-append, Result, Result-cases, ok, err,
}
use mysql_operator.Semver.{Blang}
use mysql_operator.Cluster.{upgrade_blocked, MysqlCluster}
use mysql_operator.Cluster.Versions.Validation.{ValidationError, validate}
use mysql_operator.Upgrade.Pods.{Pod}
use mysql_operator.Upgrade.Checker.{
  CheckError, hold_rollout, ensure_checked, needs_applied_backfill, backfill_applied_version,
}
use mysql_operator.Upgrade.Checker as Checker
use mysql_operator.Upgrade.Observe.{ObserveError, is_hold}
use mysql_operator.Cluster.Conditions.{condition_is_true}
use mysql_operator.Controller.{
  invalid, config_map, operated_secret, secret, headless_svc, master_svc, healthy_svc,
  healthy_replicas_svc, stateful_set, pdb, pod, Step, sync, update_cluster, update_status,
  resize_claims, clean_claims, going, returned, Pass, Env, Action, ◌>>◌, stop, fail, change,
  with_cluster, send, run_syncer, persist_cluster_annotations, observe_failed, request_failed,
}
use mysql_operator.Controller.Steps.{
  Ending-cases, >>-returned, Adds, >>-Adds, send-Adds, run_syncer-Adds, persist-Adds, if-Adds,
  if-All, returned-going, >>-ended,
}
use mysql_operator.Controller.Gate.{
  no_upgrade_pending, sync_rollout_hold, hold_rollout_for, clear_blocked, backfilled, backfill,
  checked, gate,
}
use mysql_operator.Controller.Syncs.{with_deferred, reconcile}

-- An update, or a sync of what pins the StatefulSet to its version.
abbrev pub IsHoldStep : Step → Type 0
IsHoldStep (sync config_map) = Unit {0}
IsHoldStep (sync operated_secret) = Unit {0}
IsHoldStep (sync stateful_set) = Unit {0}
IsHoldStep (sync secret) = ⊥
IsHoldStep (sync headless_svc) = ⊥
IsHoldStep (sync master_svc) = ⊥
IsHoldStep (sync healthy_svc) = ⊥
IsHoldStep (sync healthy_replicas_svc) = ⊥
IsHoldStep (sync pdb) = ⊥
IsHoldStep (sync (pod name)) = ⊥
IsHoldStep (update_cluster c) = Unit {0}
IsHoldStep (update_status c) = Unit {0}
IsHoldStep resize_claims = ⊥
IsHoldStep clean_claims = ⊥

abbrev hold_syncers : Env → Action
hold_syncers env = do
  run_syncer env config_map
  run_syncer env operated_secret
  run_syncer env stateful_set

hold_syncers-Adds : (env : Env) → Adds IsHoldStep (hold_syncers env)
hold_syncers-Adds env =
    >>-Adds IsHoldStep (run_syncer env config_map)
      (run_syncer env operated_secret >> run_syncer env stateful_set)
      (run_syncer-Adds IsHoldStep env config_map tt)
      (>>-Adds IsHoldStep (run_syncer env operated_secret) (run_syncer env stateful_set)
        (run_syncer-Adds IsHoldStep env operated_secret tt)
        (run_syncer-Adds IsHoldStep env stateful_set tt))

sync_rollout_hold-Adds : (env : Env) → Adds IsHoldStep (sync_rollout_hold env)
unfolding sync_rollout_hold
sync_rollout_hold-Adds env c log h = elim (Result-cases (env.get_stateful_set log)) [
  | inl (e, f) ↦ rw (All, f) h
  | inr (sts, f) ↦ rw (All, f) (hold_syncers-Adds env c log h)
]

hold_rollout_for-Adds :
    (env : Env) (before : List (Text × Text)) (n : ℕ)
    → Adds IsHoldStep (hold_rollout_for env before n)
unfolding hold_rollout_for
hold_rollout_for-Adds env before n =
    >>-Adds IsHoldStep (sync_rollout_hold env)
      (persist_cluster_annotations env before >> stop (returned none n))
      (sync_rollout_hold-Adds env)
      (>>-Adds IsHoldStep (persist_cluster_annotations env before) (stop (returned none n))
        (persist-Adds IsHoldStep env before (λ d. tt)) (λ c log h. h))

abbrev sent_cleared : Env → Action
sent_cleared env = do
  change (no_upgrade_pending env.now)
  with_cluster λ d. send env (update_status d)

clear_blocked-Adds : (env : Env) → Adds IsHoldStep (clear_blocked env)
unfolding clear_blocked
clear_blocked-Adds env c log h =
    if-All IsHoldStep (condition_is_true upgrade_blocked c) (sent_cleared env c log)
      (stop going c log) (All-append IsHoldStep log _ h (tt, tt)) h

checked-Adds :
    (env : Env) (before : List (Text × Text)) (answer : Result CheckError (Unit {0}))
    → Adds IsHoldStep (checked env before answer)
unfolding checked
checked-Adds env before (ok _) = λ c log h. persist-Adds IsHoldStep env before (λ d. tt) _ log h
checked-Adds env before (err hold_rollout) =
    >>-Adds IsHoldStep (clear_blocked env) (hold_rollout_for env before 15) (clear_blocked-Adds env)
      (hold_rollout_for-Adds env before 15)
checked-Adds env before (err (Checker.upgrade_blocked e)) = λ c log h.
    >>-Adds IsHoldStep (with_cluster λ d. send env (update_status d))
      (hold_rollout_for env before 30)
      (λ d log' h'. send-Adds IsHoldStep env (update_status d) tt d log' h')
      (hold_rollout_for-Adds env before 30) _ log h

module _ ⦃blang : Blang⦄ (env : Env) (before : List (Text × Text)) where
  backfilled-Adds :
      (answer : Result ObserveError (MysqlCluster × Bool))
      → Adds IsHoldStep (backfilled env before answer)
  backfilled-Adds (ok (c', true)) = λ c log h. All-append IsHoldStep log _ h (tt, tt)
  backfilled-Adds (ok (c', false)) = λ c log h. h
  backfilled-Adds (err e) =
      if-Adds IsHoldStep (is_hold e) (hold_rollout_for env before 15)
        (stop (fail (observe_failed e))) (hold_rollout_for-Adds env before 15) (λ c log h. h)

  backfill-Adds : (pods : List Pod) → Adds IsHoldStep (backfill env before pods)
  unfolding backfill
  backfill-Adds pods c log h =
      let found = backfill_applied_version env.query env.operated_secret c pods in
      if-All IsHoldStep (needs_applied_backfill c) (backfilled env before found c log)
        (stop going c log) (backfilled-Adds found c log h) h

  gate-Adds : (pods : List Pod) → Adds IsHoldStep (gate env before pods)
  unfolding gate
  gate-Adds pods =
      >>-Adds IsHoldStep (backfill env before pods)
        (with_cluster λ c. checked env before (ensure_checked c)) (backfill-Adds pods)
        (λ c. checked-Adds env before (ensure_checked c) c)

hold_rollout_for-ended :
    (env : Env) (before : List (Text × Text)) (n : ℕ) (c : MysqlCluster) (log : List Step)
    → (hold_rollout_for env before n c log).ending ≢ going
unfolding hold_rollout_for
hold_rollout_for-ended env before n c log =
    let rest : Action = persist_cluster_annotations env before >> stop (returned none n) in
    let p = sync_rollout_hold env c log in
    >>-ended (sync_rollout_hold env) rest c log (
      >>-ended (persist_cluster_annotations env before) (stop (returned none n)) p.cluster p.log
        (λ e. returned-going (stop (returned none n) c log) none n refl e))

checked-ended :
    (env : Env) (before : List (Text × Text)) (e : CheckError) (c : MysqlCluster) (log : List Step)
    → (checked env before (err e) c log).ending ≢ going
unfolding checked
checked-ended env before hold_rollout c log =
    >>-ended (clear_blocked env) (hold_rollout_for env before 15) c log
      (hold_rollout_for-ended env before 15 _ _)
checked-ended env before (Checker.upgrade_blocked e) c log =
    >>-ended (with_cluster λ d. send env (update_status d)) (hold_rollout_for env before 30) _ log
      (hold_rollout_for-ended env before 30 _ _)

abbrev Held : Pass → Type 0
Held p = All IsHoldStep p.log × p.ending ≢ going

module _ ⦃blang : Blang⦄ (env : Env) (c : MysqlCluster) where
  gate-ended :
      (before : List (Text × Text)) (pods : List Pod) (e : CheckError)
      → ensure_checked (backfill env before pods c []).cluster ≡ err e
      → (gate env before pods c []).ending ≢ going
  unfolding gate
  gate-ended before pods e h =
      let p = backfill env before pods c [] in
      >>-ended (backfill env before pods) (with_cluster λ d. checked env before (ensure_checked d))
        c []
        (subst (λ r. (checked env before r p.cluster p.log).ending ≢ going) (sym h)
          (checked-ended env before e p.cluster p.log))

  pub reconcile-invalid :
      (e : ValidationError)
      → validate env.options c ≡ err e
      → reconcile env c ≡ stop (fail (invalid e)) c []
  unfolding reconcile
  reconcile-invalid e h = rw (reconcile, h) refl

  pub reconcile-gate :
      (u : Unit {0}) (pods : List Pod)
      → validate env.options c ≡ ok u
      → env.list_pods [] ≡ ok pods
      → reconcile env c ≡ (gate env c.annotations pods >> with_deferred env) c []
  unfolding reconcile
  reconcile-gate u pods h hp = rw (reconcile, h, hp) refl

  pub reconcile-unlisted :
      (u : Unit {0}) (e : Text)
      → validate env.options c ≡ ok u
      → env.list_pods [] ≡ err e
      → reconcile env c ≡ stop (fail (request_failed e)) c []
  unfolding reconcile
  reconcile-unlisted u e h hp = rw (reconcile, h, hp) refl

  gate-Held :
      (before : List (Text × Text)) (pods : List Pod) (e : CheckError) (k : Action)
      → ensure_checked (backfill env before pods c []).cluster ≡ err e
      → Held ((gate env before pods >> k) c [])
  gate-Held before pods e k h = elim (Ending-cases (gate env before pods c []).ending) [
    | inl g ↦ absurd (gate-ended before pods e h g)
    | inr (x, n, g) ↦
        subst Held (sym (>>-returned (gate env before pods) k c [] x n g))
          (gate-Adds env before pods c [] tt, gate-ended before pods e h)
  ]

  -- While the check of the upgrade fails, a pass has returned before the deferred update and has only
  -- sent the cluster and its status and synced the config map, the operated secret and the StatefulSet:
  -- the services, the pods and the claims are left alone.
  pub reconcile-IsHoldStep :
      (pods : List Pod) (e : CheckError)
      → env.list_pods [] ≡ ok pods
      → ensure_checked (backfill env c.annotations pods c []).cluster ≡ err e
      → All IsHoldStep (reconcile env c).log × (reconcile env c).ending ≢ going
  reconcile-IsHoldStep pods e hp h = elim (Result-cases (validate env.options c)) [
    | inl (x, f) ↦
        subst Held (sym (reconcile-invalid x f))
          (tt, λ g. returned-going (stop (fail (invalid x)) c []) (some (invalid x)) 0 refl g)
    | inr (u, f) ↦
        subst Held (sym (reconcile-gate u pods f hp))
          (gate-Held c.annotations pods e (with_deferred env) h)
  ]
