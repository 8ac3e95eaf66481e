-- ===== src/Accounts/Users/Reconcile.antt =====
-- pkg/controller/mysqluser/mysqluser_controller.go: the finalizer, the status and the whole of
-- `Reconcile`.
use mysql_operator.Base.{
  err, ok, ℕ, Bool, true, false, ◌&&◌, not, Option, none, some, [], ◌∷◌, ◌++◌, Text, codes, text_eq,
  if◌then◌else◌,
}
use mysql_operator.Cluster.{condition_true, condition_false}
use mysql_operator.Cluster.Conditions.{is_cluster_ready}
use mysql_operator.Accounts.{
  ApiError, plain_error, is_cluster_gone, is_mysql_cluster_kind, deletion_policy_retain, ready_type,
  provision_failed_reason, provision_succeeded_reason, updated_conditions, conditions_same,
  texts_same, update, update_status, Ending, done, failed, panicked, Pass, Action, ◌>>◌, stop, send,
  change, with_object, Outcome, no_requeue,
}
use mysql_operator.Accounts.Users.{
  MysqlUser, MysqlUserStatus, Env, user_finalizer, cluster_key, connect, drop_hosts,
  reconcile_user_in_db,
}

-- The finalizer is added and the object sent, unless it has it.
unfoldable pub ensure_finalizer : Env → Action MysqlUser
ensure_finalizer env user log =
    if env.finalizers.has user_finalizer user.finalizers
    then stop done user log
    else (let u : MysqlUser = record user {
      finalizers = env.finalizers.add user_finalizer user.finalizers;
    } in
        send env.answer (update u) u log)

abbrev pub set_condition : ℕ → Bool → Text → Text → MysqlUser → MysqlUser
set_condition now is_true reason message user = record user {
  status = record user.status {
    conditions =
        updated_conditions now ready_type (if is_true then condition_true else condition_false)
          reason message user.status.conditions;
  };
}

abbrev pub record_hosts : MysqlUser → MysqlUser
record_hosts user =
    if texts_same user.status.allowed_hosts user.spec.allowed_hosts
    then user
    else record user { status = record user.status { allowed_hosts = user.spec.allowed_hosts } }

-- The deferred function: an error becomes the condition.
abbrev pub marked_by : ℕ → Ending → Pass MysqlUser → Pass MysqlUser
marked_by now done pass = pass
marked_by now panicked pass = pass
marked_by now (failed e) pass =
    let o =
      set_condition now false provision_failed_reason
        (codes "The user provisioning has failed: " ++ e.message) pass.object in
    record pass { object = o }

unfoldable pub set_failed_status : ℕ → Pass MysqlUser → Pass MysqlUser
unfolding updated_conditions
set_failed_status now pass = marked_by now pass.ending pass

unfoldable pub provision : Env → Action MysqlUser
unfolding reconcile_user_in_db ensure_finalizer updated_conditions texts_same
provision env = do
  reconcile_user_in_db env
  ensure_finalizer env
  change record_hosts
  change (
      set_condition env.now true provision_succeeded_reason
        (codes "The user provisioning has succeeded."))

unfoldable pub reconcile_user_in_cluster : Env → Action MysqlUser
unfolding provision set_failed_status
reconcile_user_in_cluster env user log = set_failed_status env.now (provision env user log)

unfoldable pub status_same : MysqlUserStatus → MysqlUserStatus → Bool
unfolding conditions_same texts_same
status_same s t =
    conditions_same s.conditions t.conditions && texts_same s.allowed_hosts t.allowed_hosts

abbrev both_errors : ApiError → Ending → ApiError
both_errors e done = e
both_errors e panicked = e
both_errors e (failed previous) = plain_error (
    codes "failed to update status: "
    ++ e.message
    ++ codes ", previous error was: "
    ++ previous.message)

-- The status is sent if it has changed; the error of that hides the previous one. Lists of length 0
-- count as one, whether the slice is nil or empty.
unfoldable pub send_status : Env → MysqlUserStatus → Ending → Action MysqlUser
unfolding status_same
send_status env old previous user log =
    if status_same old user.status
    then stop previous user log
    else elim (env.answer log (update_status user)) as (λ _. Pass MysqlUser) [
      | none ↦ stop previous user (log ++ update_status user ∷ [])
      | some e ↦ stop (failed (both_errors e previous)) user (log ++ update_status user ∷ [])
    ]

-- A panic does not come back.
unfoldable pub update_status_and_err : Env → MysqlUserStatus → Pass MysqlUser → Pass MysqlUser
unfolding send_status
update_status_and_err env old pass = elim pass.ending as (λ _. Pass MysqlUser) [
  | panicked ↦ pass
  | done ↦ send_status env old done pass.object pass.log
  | failed e ↦ send_status env old (failed e) pass.object pass.log
]

unfoldable pub drop_user_from_db : Env → Action MysqlUser
unfolding connect drop_hosts is_mysql_cluster_kind
drop_user_from_db env user log = elim (connect env user) as (λ _. Pass MysqlUser) [
  | some e ↦ if is_cluster_gone e then stop done user log else stop (failed e) user log
  | none ↦ drop_hosts env user.spec.user user.status.allowed_hosts user log
]

abbrev pub released : Env → MysqlUser → MysqlUser
released env user = record user {
  finalizers = env.finalizers.remove user_finalizer user.finalizers;
}

unfoldable pub drop_unless_retained : Env → Action MysqlUser
unfolding drop_user_from_db deletion_policy_retain
drop_unless_retained env user log =
    if deletion_policy_retain user.annotations
    then stop done user log
    else drop_user_from_db env user log

unfoldable pub remove_user : Env → Action MysqlUser
unfolding drop_unless_retained
remove_user env user log =
    if env.finalizers.has user_finalizer user.finalizers
    then (do
      drop_unless_retained env
      change (released env)
      with_object λ u. send env.answer (update u))
        user log
    else stop done user log

-- `Requeue` is set together with two minutes after a success.
abbrev pub came_to : Pass MysqlUser → Outcome MysqlUser
came_to pass = elim pass.ending [
  | done ↦ record { pass = pass; requeue = true; requeue_after = 120 }
  | failed e ↦ no_requeue pass
  | panicked ↦ no_requeue pass
]

-- The error of the status update is logged only.
abbrev not_ready : Env → MysqlUser → Outcome MysqlUser
not_ready env user =
    let message : Text = codes "cluster is not ready" in
    let marked = set_condition env.now false provision_failed_reason message user in
    let sent = send_status env user.status (failed (plain_error message)) marked [] in
    record { pass = record sent { ending = done }; requeue = false; requeue_after = 30 }

-- `Reconcile` behind its first guard, by the time at which the deletion was asked for.
unfoldable pub reconcile_allowed : Env → MysqlUser → Option ℕ → Outcome MysqlUser
unfolding remove_user reconcile_user_in_cluster update_status_and_err is_cluster_ready
reconcile_allowed env user (some t) = no_requeue (remove_user env user [])
reconcile_allowed env user none = elim (env.get_cluster (cluster_key user)) [
  | err e ↦ no_requeue (stop (failed e) user [])
  | ok cluster ↦
      if is_cluster_ready cluster
      then came_to (update_status_and_err env user.status (reconcile_user_in_cluster env user []))
      else not_ready env user
]

unfoldable pub crosses_namespaces : Env → MysqlUser → Bool
unfolding text_eq
crosses_namespaces env user =
    not env.allow_cross_namespace_users && not (text_eq user.namespace (cluster_key user).namespace)

-- `Reconcile`, for the object that was read.
unfoldable pub reconcile : Env → MysqlUser → Outcome MysqlUser
unfolding crosses_namespaces reconcile_allowed
reconcile env user =
    if crosses_namespaces env user
    then no_requeue
        (stop (failed (plain_error (codes "cross namespace user creation is disabled"))) user [])
    else reconcile_allowed env user user.deletion_timestamp
