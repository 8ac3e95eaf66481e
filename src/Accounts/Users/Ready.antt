-- ===== src/Accounts/Users/Ready.antt =====
-- The Ready condition of a MysqlUser on every branch of its provisioning.
use mysql_operator.Base.{
  ok, ◌≡◌, ◌⊎◌, inl, inr, refl, sym, ap, ◌∙◌, subst, true, none, some, [], ◌++◌, arith, Text, codes,
  if◌then◌else◌, Bool-cases,
}
use mysql_operator.Cluster.{condition_true, condition_false}
use mysql_operator.Sql.{Query}
use mysql_operator.Accounts.{
  ApiError, Ending, done, failed, panicked, Pass, FinalizersLaws, ready_type,
  provision_failed_reason, provision_succeeded_reason, texts_same,
}
use mysql_operator.Accounts.Passes.{Succeeded}
use mysql_operator.Accounts.Conditions.{Reads, updated_conditions-Reads, texts_same→≡}
use mysql_operator.Accounts.Users.{MysqlUser, Env, user_finalizer, connect, password_of}
use mysql_operator.Accounts.Users.Reconcile.{
  record_hosts, marked_by, set_failed_status, provision, reconcile_user_in_cluster,
}
use mysql_operator.Accounts.Users.Provision.{
  query_of, with_finalizer, with_finalizer-has, with_finalizer-spec, all_requests, provision_cases,
}

-- The user was written into MySQL and has the finalizer, and its status says so.
pub record Provisioned (env : Env) (user : MysqlUser) (pass : Pass MysqlUser) : Type 0 where
  pub password : Text
  pub query : Query
  pub connected : connect env user ≡ none
  pub has_password : password_of env user ≡ ok password
  pub has_query : query_of env user password ≡ some query
  pub requests : pass.log ≡ all_requests env user query
  pub succeeded : Succeeded env.answer [] (all_requests env user query)
  pub has_finalizer : env.finalizers.has user_finalizer pass.object.finalizers ≡ true
  pub hosts : pass.object.status.allowed_hosts ≡ user.spec.allowed_hosts
  pub is_ready :
      Reads ready_type condition_true provision_succeeded_reason
        (codes "The user provisioning has succeeded.")
        pass.object.status.conditions

-- The status says that the user is not ready, with the error, and records the hosts as before.
pub record NotProvisioned (user : MysqlUser) (e : ApiError) (pass : Pass MysqlUser) : Type 0 where
  pub hosts : pass.object.status.allowed_hosts ≡ user.status.allowed_hosts
  pub is_not_ready :
      Reads ready_type condition_false provision_failed_reason
        (codes "The user provisioning has failed: " ++ e.message)
        pass.object.status.conditions

pub record_hosts-hosts :
    (user : MysqlUser) → (record_hosts user).status.allowed_hosts ≡ user.spec.allowed_hosts
record_hosts-hosts user =
    elim (Bool-cases (texts_same user.status.allowed_hosts user.spec.allowed_hosts)) [
      | inl same ↦ rw (same, if◌then◌else◌) (texts_same→≡ _ _ same)
      | inr other ↦ rw (other, if◌then◌else◌) refl
    ]

pub record_hosts-finalizers : (user : MysqlUser) → (record_hosts user).finalizers ≡ user.finalizers
record_hosts-finalizers user = ground arith

pub set_failed_status-marked_by :
    (env : Env) (pass : Pass MysqlUser) (e : Ending)
    → pass.ending ≡ e
    → set_failed_status env.now pass ≡ marked_by env.now e pass
unfolding set_failed_status
set_failed_status-marked_by env pass e h = ap (λ x. marked_by env.now x pass) h

-- Provisioning ends in one of three ways. It succeeds: with the password of the secret every request
-- was sent and answered with success (the statement that configures the user, a drop for each host that
-- only the old status has, and the update if the finalizer is missing), and the object has the
-- finalizer, the hosts of the spec in its status and a Ready condition that is true. It fails: Ready
-- is false and carries the error, and the hosts of the status are as before. Or it panics, with the
-- object unchanged.
pub reconcile_user_in_cluster_cases :
    (env : Env) (user : MysqlUser)
    → FinalizersLaws env.finalizers
    → (((reconcile_user_in_cluster env user []).ending ≡ done)
        × Provisioned env user (reconcile_user_in_cluster env user []))
      ⊎ (((e : ApiError) × ((reconcile_user_in_cluster env user []).ending ≡ failed e)
            × NotProvisioned user e (reconcile_user_in_cluster env user []))
          ⊎ (((reconcile_user_in_cluster env user []).ending ≡ panicked)
              × ((reconcile_user_in_cluster env user []).object ≡ user)))
unfolding reconcile_user_in_cluster
reconcile_user_in_cluster_cases env user laws =
    let pass = provision env user [] in
    elim (provision_cases env user) [
      | inl (password, query, c, p, q, granted, run) ↦
          let u = with_finalizer env user in
          let s = set_failed_status-marked_by env pass done (ap (λ x. x.ending) run) ∙ run in
          inl (
            ap (λ x. x.ending) s,
            record {
              password = password;
              query = query;
              connected = c;
              has_password = p;
              has_query = q;
              requests = ap (λ x. x.log) s;
              succeeded = granted;
              has_finalizer =
                  ap (λ x. env.finalizers.has user_finalizer x.object.finalizers) s
                  ∙ (ap (λ l. env.finalizers.has user_finalizer l) (record_hosts-finalizers u)
                      ∙ with_finalizer-has env user laws);
              hosts =
                  ap (λ x. x.object.status.allowed_hosts) s
                  ∙ (record_hosts-hosts u
                      ∙ ap (λ x. x.allowed_hosts) (with_finalizer-spec env user));
              is_ready =
                  subst
                    (λ x.
                      Reads ready_type condition_true provision_succeeded_reason
                        (codes "The user provisioning has succeeded.") x.object.status.conditions)
                    (sym s)
                    (updated_conditions-Reads env.now ready_type condition_true
                      provision_succeeded_reason (codes "The user provisioning has succeeded.")
                      (record_hosts u).status.conditions);
            },
          )
      | inr (inl (kept, (e, f))) ↦
          let s = set_failed_status-marked_by env pass (failed e) f in
          let message = codes "The user provisioning has failed: " ++ e.message in
          inr (
            inl (
              e,
              ap (λ x. x.ending) s ∙ f,
              record {
                hosts = ap (λ x. x.object.status.allowed_hosts) s ∙ ap (λ x. x.allowed_hosts) kept;
                is_not_ready =
                    subst
                      (λ x.
                        Reads ready_type condition_false provision_failed_reason message
                          x.object.status.conditions)
                      (sym s)
                      (updated_conditions-Reads env.now ready_type condition_false
                        provision_failed_reason message pass.object.status.conditions);
              },
            ))
      | inr (inr (same, f)) ↦
          let s = set_failed_status-marked_by env pass panicked f in
          inr (inr (ap (λ x. x.ending) s ∙ f, ap (λ x. x.object) s ∙ same))
    ]
