-- ===== src/Accounts/Users/Stable.antt =====
-- Passes over a MysqlUser when no request fails.
use mysql_operator.Base.{
  ok, ◌≡◌, ◌≢◌, refl, sym, ap, ◌∙◌, true, false, none, some, List, [], ◌∷◌, ◌++◌, append_assoc,
  append-nil, Text, codes, map, if◌then◌else◌, Bool-cases, inl, inr,
}
use mysql_operator.Cluster.{MysqlCluster}
use mysql_operator.Cluster.Conditions.{is_cluster_ready}
use mysql_operator.Sql.{Query, create_user_query}
use mysql_operator.Accounts.{
  Request, exec, update, update_status, done, ◌>>◌, stop, change, provision_succeeded_reason,
}
use mysql_operator.Accounts.Passes.{>>-done, exec_query-done}
use mysql_operator.Accounts.Users.{
  MysqlUser, Env, user_finalizer, cluster_key, connect, create_user_if_not_exists, drop_user,
  drop_hosts, password_of, write_user, reconcile_user_in_db, string_diff_in,
}
use mysql_operator.Accounts.Users.Reconcile.{
  ensure_finalizer, set_condition, record_hosts, provision, reconcile_user_in_cluster, send_status,
  update_status_and_err, crosses_namespaces, came_to, reconcile_allowed, reconcile, status_same,
}
use mysql_operator.Accounts.Users.Drops.{drop_request}
use mysql_operator.Accounts.Users.Provision.{
  query_of, stale_drops, db_connected, with_finalizer, finalizing, success, all_requests,
}
use mysql_operator.Accounts.Users.Ready.{set_failed_status-marked_by}

-- The user may be provisioned, and nothing fails.
pub record Calm (env : Env) (user : MysqlUser) (password : Text) (query : Query) : Type 0 where
  pub allowed : crosses_namespaces env user ≡ false
  pub live : user.deletion_timestamp ≡ none
  pub cluster : MysqlCluster
  pub has_cluster : env.get_cluster (cluster_key user) ≡ ok cluster
  pub cluster_ready : is_cluster_ready cluster ≡ true
  pub connected : connect env user ≡ none
  pub has_password : password_of env user ≡ ok password
  pub has_hosts : user.spec.allowed_hosts ≢ []
  pub has_query : query_of env user password ≡ some query
  pub granted : (log : List (Request MysqlUser)) (r : Request MysqlUser) → env.answer log r ≡ none

drop_hosts-done :
    (env : Env) (name : Text) (hosts : List Text) (user : MysqlUser)
    (log : List (Request MysqlUser))
    → ((l : List (Request MysqlUser)) (r : Request MysqlUser) → env.answer l r ≡ none)
    → drop_hosts env name hosts user log ≡ stop done user (log ++ map (drop_request name) hosts)
unfolding drop_hosts drop_user
drop_hosts-done env name [] user log granted = ap (stop done user) (sym (append-nil log))
drop_hosts-done env name (host ∷ hosts) user log granted =
    let first : drop_user env name host user log
        ≡ stop done user (log ++ drop_request name host ∷ []) =
      rw (granted log (drop_request name host)) refl in
    >>-done (drop_user env name host) (drop_hosts env name hosts) user log user
      (log ++ drop_request name host ∷ []) first
    ∙ (drop_hosts-done env name hosts user (log ++ drop_request name host ∷ []) granted
        ∙ ap (stop done user)
            (append_assoc log (drop_request name host ∷ []) (map (drop_request name) hosts)))

create-done :
    (env : Env) (user : MysqlUser) (password : Text) (hosts : List Text) (query : Query)
    (log : List (Request MysqlUser))
    → hosts ≢ []
    → create_user_query user.spec.user password hosts user.spec.permissions
        user.spec.resource_limits
      ≡ some query
    → env.answer log (exec query) ≡ none
    → create_user_if_not_exists env user.spec.user password hosts user log
      ≡ stop done user (log ++ exec query ∷ [])
unfolding create_user_if_not_exists
create-done env user password [] query log h q g = absurd (h refl)
create-done env user password (host ∷ hosts) query log h q g =
    rw (q, create_user_if_not_exists)
      (exec_query-done env.answer (codes "failed to configure user (user/pass/access), err: ") query
        user log g)

module _ (env : Env) (user : MysqlUser) (password : Text) (query : Query)
    (calm : Calm env user password query) where
  db-done : reconcile_user_in_db env user [] ≡ stop done user (exec query ∷ stale_drops env user)
  unfolding write_user
  db-done =
      let hosts = string_diff_in user.status.allowed_hosts user.spec.allowed_hosts in
      db_connected env user [] calm.connected (ok password) calm.has_password
      ∙ (>>-done (create_user_if_not_exists env user.spec.user password user.spec.allowed_hosts)
            (drop_hosts env user.spec.user hosts) user [] user (exec query ∷ [])
            (create-done env user password user.spec.allowed_hosts query [] calm.has_hosts
              calm.has_query (calm.granted [] (exec query)))
          ∙ drop_hosts-done env user.spec.user hosts user (exec query ∷ []) calm.granted)

  ensure-done :
      (log : List (Request MysqlUser))
      → ensure_finalizer env user log
        ≡ stop done (with_finalizer env user) (log ++ finalizing env user)
  unfolding ensure_finalizer
  ensure-done log = elim (Bool-cases (env.finalizers.has user_finalizer user.finalizers)) [
    | inl has ↦ rw (has, if◌then◌else◌) (ap (stop done user) (sym (append-nil log)))
    | inr lacks ↦
        rw (lacks, if◌then◌else◌)
          (rw
            (calm.granted log (
              update
                (record user { finalizers = env.finalizers.add user_finalizer user.finalizers })))
            refl)
  ]

  abbrev pub settled : MysqlUser
  settled = success env user (with_finalizer env user)

  in_cluster-done :
      reconcile_user_in_cluster env user [] ≡ stop done settled (all_requests env user query)
  unfolding reconcile_user_in_cluster provision
  in_cluster-done =
      let end =
        change record_hosts
        >> change (
            set_condition env.now true provision_succeeded_reason
              (codes "The user provisioning has succeeded.")) in
      let log = exec query ∷ stale_drops env user in
      let run : provision env user [] ≡ stop done settled (all_requests env user query) =
        >>-done (reconcile_user_in_db env) (ensure_finalizer env >> end) user [] user log db-done
        ∙ >>-done (ensure_finalizer env) end user log (with_finalizer env user)
            (log ++ finalizing env user) (ensure-done log) in
      set_failed_status-marked_by env (provision env user []) done (ap (λ p. p.ending) run) ∙ run

  -- What is sent behind the requests, if the status has changed.
  abbrev pub status_requests : List (Request MysqlUser)
  status_requests =
      if status_same user.status settled.status then [] else update_status settled ∷ []

  send_status-done :
      (log : List (Request MysqlUser))
      → send_status env user.status done settled log ≡ stop done settled (log ++ status_requests)
  unfolding send_status
  send_status-done log = elim (Bool-cases (status_same user.status settled.status)) [
    | inl same ↦ rw (same, if◌then◌else◌) (ap (stop done settled) (sym (append-nil log)))
    | inr changed ↦ rw (changed, if◌then◌else◌) (rw (calm.granted log (update_status settled)) refl)
  ]

  allowed_pass :
      reconcile_allowed env user none
      ≡ came_to (update_status_and_err env user.status (reconcile_user_in_cluster env user []))
  unfolding reconcile_allowed
  allowed_pass =
      rw (calm.has_cluster, reconcile_allowed) (rw (calm.cluster_ready, if◌then◌else◌) refl)

  pub reconcile-done : reconcile env user ≡ record {
    pass = stop done settled (all_requests env user query ++ status_requests);
    requeue = true;
    requeue_after = 120;
  }
  unfolding reconcile update_status_and_err
  reconcile-done =
      let guard : reconcile env user ≡ reconcile_allowed env user user.deletion_timestamp =
        rw (calm.allowed, if◌then◌else◌) refl in
      guard
      ∙ (ap (reconcile_allowed env user) calm.live
          ∙ (allowed_pass
              ∙ (ap (λ p. came_to (update_status_and_err env user.status p)) in_cluster-done
                  ∙ ap came_to (send_status-done (all_requests env user query)))))
