-- ===== src/Node/Reconcile/Marked.antt =====
-- When a pass over a pod marks it as initialised.
use mysql_operator.Base.{
  ℕ, ◌≡◌, inl, inr, refl, sym, ap, ◌∙◌, subst, append-nil, append_assoc, Bool, true, false, Option,
  none, some, List, [], ◌∷◌, ◌++◌, Text, codes, text_eq, text_eq_refl, Result, ok, err,
  if◌then◌else◌, Bool-cases, find, find-upsert_self,
}
use mysql_operator.Semver.{Blang}
use mysql_operator.Cluster.{
  MysqlCluster, status_eq, condition_true, condition_false, failover_in_progress, stateful_set,
  name_for_resource,
}
use mysql_operator.Cluster.Conditions.{condition_is_true}
use mysql_operator.Cluster.Versions.{StatefulSet}
use mysql_operator.Node.{
  Pod, PodCondition, pod_condition, Credentials, node_initialized, update_pod_status_condition,
  should_update_to_version,
}
use mysql_operator.Node.Requests.{
  Request, exec, read, update_cluster, update_pod, Env, Exec, lift, ◌>>=◌, attempt, send,
}
use mysql_operator.Node.Requests.Keeps.{
  Keeps, Keeps-pure, Keeps-raise, Keeps-lift, Keeps-if, Keeps-bind,
}
use mysql_operator.Node.Runner.{NodeSqlRunner, wait, wait_for_operator_status_table}
use mysql_operator.Node.Runner.Keeps.{Grows, wait-Keeps, wait_for_operator_status_table-Keeps}
use mysql_operator.Node.Initialize.{initialize_mysql}
use mysql_operator.Node.Initialize.Evidence.{initialize_mysql-Keeps}
use mysql_operator.Node.Initialize.Sealed.{IsConfigured, initialize_mysql-IsConfigured}
use mysql_operator.Node.Reconcile.{
  get_node_cluster, get_creds_secret, initialized, not_initialized, annotated, refresh_cluster,
  report, initialize_node, unless_deleted, get_mysql_connection, sync_node, reconcile_pod, if_found,
  reconcile,
}

-- Each request is sent only where `Q` holds of it and of those before it.
abbrev pub Each : (List Request → Request → Type 0) → List Request → List Request → Type 0
Each Q before [] = Unit {0}
Each Q before (x ∷ xs) = Q before x × Each Q (before ++ x ∷ []) xs

Each-append :
    (Q : List Request → Request → Type 0) (before xs : List Request) (x : Request)
    → Each Q before xs
    → Q (before ++ xs) x
    → Each Q before (xs ++ x ∷ [])
Each-append Q before [] x h q = (subst (λ l. Q l x) (append-nil before) q, tt)
Each-append Q before (y ∷ xs) x h q = (
  h.0,
  Each-append Q (before ++ y ∷ []) xs x h.1
      (subst (λ l. Q l x) (sym (append_assoc before (y ∷ []) xs)) q),
)

abbrev pub has_initialized : Option PodCondition → Bool
has_initialized none = false
has_initialized (some cond) = status_eq cond.status condition_true

-- The pod has the condition, and it is true.
abbrev pub is_initialized : Pod → Bool
is_initialized pod =
    has_initialized (find (λ cond. text_eq cond.type node_initialized) pod.conditions)

upserted-False :
    (f : PodCondition → PodCondition) (new : PodCondition)
    → ((x : PodCondition) → status_eq (f x).status condition_true ≡ false)
    → status_eq new.status condition_true ≡ false
    → (o : Option PodCondition)
    → has_initialized
        (elim o as (λ _. Option PodCondition) [ some x ↦ some (f x) | none ↦ some new ])
      ≡ false
upserted-False f new hf hn (some x) = hf x
upserted-False f new hf hn none = hn

not_initialized-False :
    (now : ℕ) (e : Text) (pod : Pod) → is_initialized (not_initialized now e pod) ≡ false
unfolding update_pod_status_condition
not_initialized-False now e pod =
    let p = λ (cond : PodCondition). text_eq cond.type node_initialized in
    let written =
      pod_condition now node_initialized condition_false (codes "mysqlInitializationFailed") e in
    let f = λ (cond : PodCondition).
      written (if status_eq cond.status condition_false then cond.last_transition_time else now) in
    ap has_initialized (
      find-upsert_self p f (written now) (text_eq_refl node_initialized)
        (λ x _. text_eq_refl node_initialized) pod.conditions)
    ∙ upserted-False f (written now) (λ x. refl) refl (find p pod.conditions)

-- The host of the pod in the headless service.
abbrev pub host_of : Pod → Text
host_of pod = pod.hostname ++ (b'.' ∷ (codes "mysql" ++ (b'.' ∷ pod.namespace)))

module _ (env : Env) where
  -- MySQL on the host of the pod is configured by the requests sent so far, for the cluster as the API
  -- server had it then, which was in no failover.
  pub record IsReady (pod : Pod) (sent : List Request) : Type 0 where
    pub runner : NodeSqlRunner
    pub cluster : MysqlCluster
    pub creds : Credentials
    pub host : runner.host ≡ host_of pod
    pub calm : condition_is_true failover_in_progress cluster ≡ false
    pub configured : IsConfigured env runner cluster creds sent

  -- A pod is marked as initialised only if it is ready.
  abbrev pub MarksReady : List Request → Request → Type 0
  MarksReady before (exec s) = Unit {0}
  MarksReady before (read key) = Unit {0}
  MarksReady before (update_cluster c) = Unit {0}
  MarksReady before (update_pod pod) = is_initialized pod ≡ true → IsReady pod before

  abbrev Marks : List Request → Type 0
  Marks = Each MarksReady []

  Marks-Grows : Grows Marks
  Marks-Grows = record {
    exec = λ log s h. Each-append MarksReady [] log (exec s) h tt;
    read = λ log key h. Each-append MarksReady [] log (read key) h tt;
  }

  unmarked :
      (log : List Request) (e : Text) (pod : Pod)
      → MarksReady log (update_pod (not_initialized env.now e pod))
  unmarked log e pod t = let n = not_initialized-False env.now e pod in cc

  report-Marks :
      (pod : Pod) (result : Result Text (Unit {0})) (log : List Request)
      → Marks log
      → (result ≡ ok tt → IsReady (initialized env.now pod) log)
      → Marks (report env pod result log).1
  unfolding report ◌>>=◌ update_pod_status_condition
  report-Marks pod (ok _) log h ready =
      Each-append MarksReady [] log (update_pod (initialized env.now pod)) h (λ _. ready refl)
  report-Marks pod (err e) log h ready =
      let failed = update_pod (not_initialized env.now e pod) in
      let m : Exec (Unit {0}) = send env.update failed in
      let sent : Keeps Marks m = record {
        at = λ l k. Each-append MarksReady [] l failed k (unmarked l e pod);
      } in
      (Keeps-bind m _ sent (λ _. Keeps-raise e)).at log h

  module _ (r : NodeSqlRunner) (pod : Pod) (creds : Credentials) (fresh : MysqlCluster)
      (host : r.host ≡ host_of pod) where
    tail-Marks :
        condition_is_true failover_in_progress fresh ≡ false
        → Keeps Marks (attempt (initialize_mysql env r fresh creds) >>= report env pod)
    unfolding ◌>>=◌ update_pod_status_condition
    tail-Marks calm = record {
      at = λ log h.
          report-Marks pod (initialize_mysql env r fresh creds log).0
            (initialize_mysql env r fresh creds log).1
            ((initialize_mysql-Keeps env r fresh creds Marks-Grows).at log h)
            (λ done. record {
              runner = r;
              cluster = fresh;
              creds = creds;
              host = host;
              calm = calm;
              configured = initialize_mysql-IsConfigured env r fresh creds log done;
            });
    }

    initialize_node-Marks : Keeps Marks (initialize_node env r pod creds fresh)
    unfolding initialize_node
    initialize_node-Marks = elim (Bool-cases (condition_is_true failover_in_progress fresh)) [
      | inl failing ↦
          rw failing (Keeps-raise (codes "delay node sync because a failover is in progress"))
      | inr calm ↦ rw calm (tail-Marks calm)
    ]

  refresh_cluster-Marks : (c : MysqlCluster) → Keeps Marks (refresh_cluster env c)
  unfolding refresh_cluster
  refresh_cluster-Marks c = record { at = λ log h. h }

  annotate-Marks : (c : MysqlCluster) → Keeps Marks (send env.update (update_cluster (annotated c)))
  annotate-Marks c = record {
    at = λ log h. Each-append MarksReady [] log (update_cluster (annotated c)) h tt;
  }

  unless_deleted-Marks :
      (t : Option ℕ) (m : Exec (Unit {0})) → Keeps Marks m → Keeps Marks (unless_deleted t m)
  unless_deleted-Marks (some t) m k = Keeps-pure tt
  unless_deleted-Marks none m k = k

  module _ ⦃blang : Blang⦄ where
    host_lem :
        (pod : Pod) (c : MysqlCluster) (creds : Credentials) (sts : Option StatefulSet)
        → (get_mysql_connection c pod creds sts).host ≡ host_of pod
    unfolding get_mysql_connection
    host_lem pod c creds sts = refl

    sync_node-Marks : (pod : Pod) (c : MysqlCluster) → Keeps Marks (sync_node env pod c)
    unfolding sync_node
    sync_node-Marks pod c = Keeps-bind (lift (get_creds_secret env c)) _ (Keeps-lift _) λ creds.
        Keeps-bind (lift (env.get_stateful_set (name_for_resource stateful_set c.name) c.namespace))
          _ (Keeps-lift _)
          λ sts.
            let r = get_mysql_connection c pod creds sts in
            Keeps-bind (wait env r env.ticks) _ (wait-Keeps Marks-Grows env r env.ticks) λ _.
              Keeps-bind (wait_for_operator_status_table env r env.table_ticks) _
                (wait_for_operator_status_table-Keeps Marks-Grows env r env.table_ticks)
                λ _.
                  Keeps-bind (refresh_cluster env c) _ (refresh_cluster-Marks c)
                    λ fresh. initialize_node-Marks r pod creds fresh (host_lem pod c creds sts)

    reconcile_pod-Marks : (pod : Pod) → Keeps Marks (reconcile_pod env pod)
    unfolding reconcile_pod
    reconcile_pod-Marks pod = Keeps-bind (lift (get_node_cluster env pod)) _ (Keeps-lift _) λ c.
        unless_deleted-Marks c.deletion_timestamp _
          (Keeps-if (should_update_to_version c 300) _ _ (annotate-Marks c) (sync_node-Marks pod c))

    if_found-Marks : (found : Option Pod) → Keeps Marks (if_found env found)
    if_found-Marks none = Keeps-pure tt
    if_found-Marks (some pod) = reconcile_pod-Marks pod

    -- In a pass over a pod, each update that marks a pod as initialised is sent only where, for MySQL
    -- on its host and a cluster in no failover, MySQL has reported before that it is configured; or
    -- has taken the statement that ends its super-read-only mode, the mark that the GTID is skipped if
    -- the cluster asks for it, the GTID of a backup (or reported that one is set or that there is
    -- none), the source and the start of the replication unless it is the master, and the mark that
    -- it is configured.
    pub reconcile-MarksReady : Each MarksReady [] (reconcile env []).1
    unfolding reconcile
    reconcile-MarksReady =
        (Keeps-bind (lift env.get_pod) _ (Keeps-lift env.get_pod) if_found-Marks).at [] tt
