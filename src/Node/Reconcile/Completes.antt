-- ===== src/Node/Reconcile/Completes.antt =====
-- That a pass over a pod initialises it, if MySQL wakes up in time and no request to the API server fails.
use mysql_operator.Base.{
  ℕ, ◌<◌, ◌≡◌, sym, ap, ◌∙◌, subst, arith, Bool, false, Option, none, some, List, [], ◌∷◌, ◌++◌,
  Text, text_eq, lookup, Result, ok, if◌then◌else◌,
}
use mysql_operator.Semver.{Blang}
use mysql_operator.Cluster.{MysqlCluster, failover_in_progress, stateful_set, name_for_resource}
use mysql_operator.Cluster.Conditions.{condition_is_true}
use mysql_operator.Cluster.Versions.{StatefulSet}
use mysql_operator.Node.{Pod, Credentials, should_update_to_version}
use mysql_operator.Node.Requests.{
  Request, update_pod, update_cluster, disable_super_read_only, enable_super_read_only, Env, Exec,
  lift, attempt, answered, send, ◌>>=◌,
}
use mysql_operator.Node.Requests.Works.{Works, Works-pure, Works-if, Works-bind, bind-ok}
use mysql_operator.Node.Runner.{
  NodeSqlRunner, run_query, is_configured, set_purged_gtid, wait, wait_for_operator_status_table,
}
use mysql_operator.Node.Runner.Works.{
  Wakes, IsAwake, run_query-Works, change_master_to-Works, mark_configuration_done-Works,
  is_configured-Works, mark_set_gtid_purged-Works, set_purged_gtid-Works, wait-Works,
  wait_for_operator_status_table-Works,
}
use mysql_operator.Node.Initialize.{
  skip_gtid_purged, skip_if, skip_gtid, replicate, configure, deferred, initialize_mysql,
  get_master_host,
}
use mysql_operator.Node.Reconcile.{
  get_node_cluster, get_creds_secret, initialized, annotated, refresh_cluster, report,
  initialize_node, unless_deleted, get_mysql_connection, sync_node, reconcile_pod, if_found,
  reconcile,
}

module _ {P : List Request → Type 0} {A : Type 0} where
  deferred-Works :
      (m : Exec A) (last : Exec (Unit {0})) → Works P m → Works P last → Works P (deferred m last)
  deferred-Works m last wm wl = record {
    at = λ log h. let (a, done, next) = wm.at log h in (a, done, (wl.at (m log).1 next).2);
  }

lift-ok :
    {A B : Type 0} (r : Result Text A) (k : A → Exec B) (log : List Request) (a : A)
    → r ≡ ok a
    → (lift r >>= k) log ≡ k a log
unfolding lift
lift-ok r k log a h = bind-ok (lift r) k log a h

module _ (env : Env) (awake : ℕ) (w : Wakes env awake) (r : NodeSqlRunner) (c : MysqlCluster)
    (creds : Credentials) where
  skip_if-Works : (o : Option Text) → Works (IsAwake awake) (skip_if env r c creds o)
  skip_if-Works none = Works-pure tt
  skip_if-Works (some t) = mark_set_gtid_purged-Works env awake w r

  skip_gtid-Works : Works (IsAwake awake) (skip_gtid env r c creds)
  unfolding skip_gtid
  skip_gtid-Works = skip_if-Works (lookup skip_gtid_purged c.annotations)

  replicate-Works : Works (IsAwake awake) (replicate env r c creds)
  unfolding replicate
  replicate-Works = Works-if (text_eq (get_master_host c) r.host) _ _ (Works-pure tt) (
      change_master_to-Works env awake w r (get_master_host c) creds.replication_user
        creds.replication_password)

  configure-Works : Works (IsAwake awake) (configure env r c creds)
  unfolding configure
  configure-Works = Works-bind (skip_gtid env r c creds) _ skip_gtid-Works λ _.
      Works-bind (set_purged_gtid env r) _ (set_purged_gtid-Works env awake w r) λ _.
        Works-bind (replicate env r c creds) _ replicate-Works
          λ _. mark_configuration_done-Works env awake w r

  initialize_mysql-Works : Works (IsAwake awake) (initialize_mysql env r c creds)
  unfolding initialize_mysql
  initialize_mysql-Works =
      Works-bind (is_configured env r) _ (is_configured-Works env awake w r) λ configured.
        Works-if configured _ _ (Works-pure tt) (
          Works-bind (run_query env r disable_super_read_only) _
            (run_query-Works env awake w r disable_super_read_only)
            (λ _.
              deferred-Works (configure env r c creds) _ configure-Works
                (run_query-Works env awake w r enable_super_read_only)))

module _ (env : Env) (awake : ℕ) (w : Wakes env awake)
    (updates : (log : List Request) (request : Request) → env.update log request ≡ none)
    (pod : Pod) where
  -- The pass succeeds, and the last that it sent is the update that marks the pod as initialised.
  abbrev Ends : Result Text (Unit {0}) × List Request → Type 0
  Ends p = (sent : List Request) × (p ≡ (ok tt, sent ++ update_pod (initialized env.now pod) ∷ []))

  report-eq :
      (log : List Request)
      → report env pod (ok tt) log ≡ (ok tt, log ++ update_pod (initialized env.now pod) ∷ [])
  unfolding report
  report-eq log =
      let last = update_pod (initialized env.now pod) in
      ap (λ o. (answered o, log ++ last ∷ [])) (updates log last)

  initialize_node-Ends :
      (r : NodeSqlRunner) (creds : Credentials) (fresh : MysqlCluster)
      → condition_is_true failover_in_progress fresh ≡ false
      → (log : List Request) → IsAwake awake log
      → Ends (initialize_node env r pod creds fresh log)
  unfolding initialize_node attempt
  initialize_node-Ends r creds fresh calm log awoken =
      let m = initialize_mysql env r fresh creds in
      let (u, done, next) = (initialize_mysql-Works env awake w r fresh creds).at log awoken in
      let steps = bind-ok (attempt m) (report env pod) log (ok tt) (ap (λ x. ok x) done) in
      rw calm ((m log).1, steps ∙ report-eq (m log).1)

  module _ ⦃blang : Blang⦄ (c fresh : MysqlCluster) (creds : Credentials)
      (sts : Option StatefulSet) where
    sync_node-Ends :
        get_creds_secret env c ≡ ok creds
        → env.get_stateful_set (name_for_resource stateful_set c.name) c.namespace ≡ ok sts
        → awake < env.ticks
        → 0 < env.table_ticks
        → ((log : List Request) → env.refresh log c ≡ ok fresh)
        → condition_is_true failover_in_progress fresh ≡ false
        → Ends (sync_node env pod c [])
    unfolding sync_node refresh_cluster
    sync_node-Ends secret set ticks table_ticks refreshed calm =
        let r = get_mysql_connection c pod creds sts in
        let (waited, awoken) =
          wait-Works env awake w r env.ticks [] (omega arith) (omega (arith, ticks)) in
        let log1 = (wait env r env.ticks []).1 in
        let (u, complete, still) =
          (wait_for_operator_status_table-Works env awake w r env.table_ticks table_ticks).at log1
            awoken in
        let log2 = (wait_for_operator_status_table env r env.table_ticks log1).1 in
        let rest : MysqlCluster → Exec (Unit {0}) = initialize_node env r pod creds in
        let path =
          lift-ok (get_creds_secret env c) _ [] creds secret
          ∙ lift-ok (env.get_stateful_set (name_for_resource stateful_set c.name) c.namespace) _ []
              sts set
          ∙ bind-ok (wait env r env.ticks) _ [] tt waited
          ∙ bind-ok (wait_for_operator_status_table env r env.table_ticks) _ log1 tt complete
          ∙ bind-ok (refresh_cluster env c) rest log2 fresh (refreshed log2) in
        subst Ends (sym path) (initialize_node-Ends r creds fresh calm log2 still)

    abbrev by_version : Bool → Exec (Unit {0})
    by_version b = if b then send env.update (update_cluster (annotated c)) else sync_node env pod c

    -- If MySQL refuses fewer statements than the first wait has rounds and takes each one from then on,
    -- its status table can be read and holds that the init file is complete, the cluster is found, not
    -- being deleted and of a current version, its credentials are complete, no failover is in progress and
    -- no request to the API server fails, a pass over the pod succeeds, and the last that it sends marks
    -- the pod as initialised.
    pub reconcile_completes :
        env.get_pod ≡ ok (some pod)
        → get_node_cluster env pod ≡ ok c
        → c.deletion_timestamp ≡ none
        → should_update_to_version c 300 ≡ false
        → get_creds_secret env c ≡ ok creds
        → env.get_stateful_set (name_for_resource stateful_set c.name) c.namespace ≡ ok sts
        → awake < env.ticks
        → 0 < env.table_ticks
        → ((log : List Request) → env.refresh log c ≡ ok fresh)
        → condition_is_true failover_in_progress fresh ≡ false
        → (sent : List Request) × (reconcile env []
            ≡ (ok tt, sent ++ update_pod (initialized env.now pod) ∷ []))
    unfolding reconcile reconcile_pod
    reconcile_completes found named alive new secret set ticks table_ticks refreshed calm =
        let path =
          lift-ok env.get_pod (if_found env) [] (some pod) found
          ∙ lift-ok (get_node_cluster env pod) _ [] c named
          ∙ ap (λ o. unless_deleted o (by_version (should_update_to_version c 300)) []) alive
          ∙ ap (λ b. by_version b []) new in
        subst Ends (sym path) (sync_node-Ends secret set ticks table_ticks refreshed calm)
