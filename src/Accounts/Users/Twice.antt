-- ===== src/Accounts/Users/Twice.antt =====
-- The second pass over a MysqlUser that the first one has provisioned.
use mysql_operator.Base.{
  ℕ, ◌≡◌, refl, sym, ap, ◌∙◌, subst, true, List, [], ◌∷◌, ◌++◌, arith, Text, codes, map, text_eq,
  text_eq_refl, any, any_Memᴰ, not, ◌&&◌, if◌then◌else◌,
}
use mathlib.Core.List.{Memᴰ}
use mysql_operator.Cluster.{condition_true}
use mysql_operator.Sql.{Query, create_user_query}
use mysql_operator.Accounts.{
  exec, update_status, done, stop, FinalizersLaws, texts_same, get_cluster_key, ready_type,
  provision_succeeded_reason, new_sql_runner, new_config_from_cluster_key,
}
use mysql_operator.Accounts.Conditions.{
  Reads, updated_conditions-Reads, updated_conditions_twice, texts_same_refl, conditions_same_refl,
}
use mysql_operator.Accounts.Users.{
  MysqlUser, MysqlUserStatus, Env, user_finalizer, connect, password_of, password_in,
  string_diff_in,
}
use mysql_operator.Accounts.Users.Reconcile.{
  set_condition, record_hosts, reconcile, status_same, crosses_namespaces,
}
use mysql_operator.Accounts.Users.Drops.{drop_request}
use mysql_operator.Accounts.Users.Provision.{
  stale_drops, with_finalizer, with_finalizer-has, with_finalizer-spec, finalizing, success,
  all_requests,
}
use mysql_operator.Accounts.Users.Ready.{record_hosts-hosts, record_hosts-finalizers}
use mysql_operator.Accounts.Users.Stable.{Calm, settled, status_requests, reconcile-done}

-- Nothing is left of a list without its own elements.
string_diff_in_self :
    (actual desired : List Text)
    → ((a : Text) → Memᴰ a actual → Memᴰ a desired)
    → string_diff_in actual desired ≡ []
unfolding string_diff_in
string_diff_in_self [] desired within = refl
string_diff_in_self (s ∷ actual) desired within =
    let found : any (λ t. text_eq t s) desired ≡ true =
      any_Memᴰ (λ t. text_eq t s) desired (within s (Memᴰ.head refl)) (text_eq_refl s) in
    rw found (string_diff_in_self actual desired (λ a m. within a (Memᴰ.tail m)))

pub status_same_refl : (s : MysqlUserStatus) → status_same s s ≡ true
unfolding status_same
status_same_refl s = rw (conditions_same_refl s.conditions, texts_same_refl s.allowed_hosts) refl

-- What is read of a user, if its spec, its namespace and its deletion time stay, and whatever the
-- clock says.
Calm-later :
    (env : Env) (user u : MysqlUser) (password : Text) (query : Query) (later : ℕ)
    → Calm env user password query
    → u.spec ≡ user.spec
    → u.namespace ≡ user.namespace
    → u.deletion_timestamp ≡ user.deletion_timestamp
    → Calm (record env { now = later }) u password query
unfolding crosses_namespaces connect password_of
Calm-later env user u password query later calm s n d = record {
  allowed =
      (λ i.
        not env.allow_cross_namespace_users
        && not (text_eq (n i) (get_cluster_key (s i).cluster_ref (n i)).namespace))
      ∙ calm.allowed;
  live = d ∙ calm.live;
  cluster = calm.cluster;
  has_cluster = (λ i. env.get_cluster (get_cluster_key (s i).cluster_ref (n i))) ∙ calm.has_cluster;
  cluster_ready = calm.cluster_ready;
  connected =
      (λ i.
        new_sql_runner env.sql_open
          (new_config_from_cluster_key env.client (get_cluster_key (s i).cluster_ref (n i))))
      ∙ calm.connected;
  has_password =
      (λ i.
        password_in (s i).password_key
          (env.client.get_secret (record { name = (s i).password_name; namespace = n i })))
      ∙ calm.has_password;
  has_hosts = λ e. calm.has_hosts (sym (ap (λ x. x.allowed_hosts) s) ∙ e);
  has_query =
      (λ i.
        create_user_query (s i).user password (s i).allowed_hosts (s i).permissions
          (s i).resource_limits)
      ∙ calm.has_query;
  granted = calm.granted;
}

module _ (env : Env) (user : MysqlUser) (password : Text) (query : Query)
    (calm : Calm env user password query) (laws : FinalizersLaws env.finalizers) where
  abbrev first : MysqlUser
  first = settled env user password query calm

  record_hosts-spec : (u : MysqlUser) → (record_hosts u).spec ≡ u.spec
  record_hosts-spec u = ground arith

  record_hosts-namespace : (u : MysqlUser) → (record_hosts u).namespace ≡ u.namespace
  record_hosts-namespace u = ground arith

  record_hosts-deletion_timestamp :
      (u : MysqlUser) → (record_hosts u).deletion_timestamp ≡ u.deletion_timestamp
  record_hosts-deletion_timestamp u = ground arith

  first-spec : first.spec ≡ user.spec
  first-spec = record_hosts-spec (with_finalizer env user) ∙ with_finalizer-spec env user

  first-namespace : first.namespace ≡ user.namespace
  first-namespace = record_hosts-namespace (with_finalizer env user) ∙ ground arith

  first-deletion_timestamp : first.deletion_timestamp ≡ user.deletion_timestamp
  first-deletion_timestamp =
      record_hosts-deletion_timestamp (with_finalizer env user) ∙ ground arith

  first-hosts : first.status.allowed_hosts ≡ first.spec.allowed_hosts
  first-hosts =
      record_hosts-hosts (with_finalizer env user)
      ∙ sym (ap (λ s. s.allowed_hosts) (record_hosts-spec (with_finalizer env user)))

  first-finalizer : env.finalizers.has user_finalizer first.finalizers ≡ true
  first-finalizer =
      ap (λ l. env.finalizers.has user_finalizer l)
        (record_hosts-finalizers (with_finalizer env user))
      ∙ with_finalizer-has env user laws

  module _ (later : ℕ) where
    abbrev next : Env
    next = record env { now = later }

    no_stale_drops : stale_drops next first ≡ []
    no_stale_drops = ap (map (drop_request first.spec.user)) (
        ap (λ l. string_diff_in l first.spec.allowed_hosts) first-hosts
        ∙ string_diff_in_self first.spec.allowed_hosts first.spec.allowed_hosts (λ a m. m))

    no_finalizing : finalizing next first ≡ []
    no_finalizing = rw (first-finalizer, if◌then◌else◌) refl

    kept_finalizer : with_finalizer next first ≡ first
    kept_finalizer = rw (first-finalizer, if◌then◌else◌) refl

    kept_hosts : record_hosts first ≡ first
    kept_hosts =
        let same : texts_same first.status.allowed_hosts first.spec.allowed_hosts ≡ true =
          ap (λ l. texts_same l first.spec.allowed_hosts) first-hosts
          ∙ texts_same_refl first.spec.allowed_hosts in
        rw (same, if◌then◌else◌) refl

    kept_condition :
        set_condition later true provision_succeeded_reason
          (codes "The user provisioning has succeeded.")
          first
        ≡ first
    kept_condition =
        let w = record_hosts (with_finalizer env user) in
        ap (λ cs. record w { status = record w.status { conditions = cs } })
          (updated_conditions_twice env.now ready_type condition_true provision_succeeded_reason
            (codes "The user provisioning has succeeded.") later w.status.conditions)

    kept : success next first (with_finalizer next first) ≡ first
    kept =
        ap (λ u. success next first u) kept_finalizer
        ∙ (ap
              (λ u.
                set_condition later true provision_succeeded_reason
                  (codes "The user provisioning has succeeded.") u)
              kept_hosts
            ∙ kept_condition)

    abbrev later_calm : Calm next first password query
    later_calm =
        Calm-later env user first password query later calm first-spec first-namespace
          first-deletion_timestamp

    no_status_requests : status_requests next first password query later_calm ≡ []
    no_status_requests =
        ap (λ u. if status_same first.status u.status then [] else update_status u ∷ []) kept
        ∙ rw (status_same_refl first.status) refl

    one_request :
        all_requests next first query ++ status_requests next first password query later_calm
        ≡ exec query ∷ []
    one_request = λ i. (exec query ∷ no_stale_drops i ++ no_finalizing i) ++ no_status_requests i

    second_pass :
        reconcile next first
        ≡ record { pass = stop done first (exec query ∷ []); requeue = true; requeue_after = 120 }
    second_pass = reconcile-done next first password query later_calm ∙ (λ i. record {
      pass = stop done (kept i) (one_request i);
      requeue = true;
      requeue_after = 120;
    })

-- When the cluster is ready and no request fails, a pass over a user with hosts, a password and a
-- statement succeeds: the user has the finalizer, its status records the hosts of the spec, and Ready is
-- true. The next pass, at whatever time, sends the statement once more and nothing else, and leaves the
-- object as it is.
pub reconcile_twice :
    (env : Env) (user : MysqlUser) (password : Text) (query : Query) (later : ℕ)
    → Calm env user password query
    → FinalizersLaws env.finalizers
    → ((reconcile env user).pass.ending ≡ done)
      × (env.finalizers.has user_finalizer (reconcile env user).pass.object.finalizers ≡ true)
      × ((reconcile env user).pass.object.status.allowed_hosts ≡ user.spec.allowed_hosts)
      × Reads ready_type condition_true provision_succeeded_reason
          (codes "The user provisioning has succeeded.")
          (reconcile env user).pass.object.status.conditions
      × (reconcile (record env { now = later }) (reconcile env user).pass.object ≡ record {
        pass = stop done (reconcile env user).pass.object (exec query ∷ []);
        requeue = true;
        requeue_after = 120;
      })
reconcile_twice env user password query later calm laws =
    let u = first env user password query calm laws in
    let run = reconcile-done env user password query calm in
    let same : u ≡ (reconcile env user).pass.object = sym (ap (λ o. o.pass.object) run) in
    (
      ap (λ o. o.pass.ending) run,
      ap (λ o. env.finalizers.has user_finalizer o.pass.object.finalizers) run
          ∙ first-finalizer env user password query calm laws,
      ap (λ o. o.pass.object.status.allowed_hosts) run
          ∙ (first-hosts env user password query calm laws
              ∙ ap (λ s. s.allowed_hosts) (first-spec env user password query calm laws)),
      subst
          (λ v.
            Reads ready_type condition_true provision_succeeded_reason
              (codes "The user provisioning has succeeded.") v.status.conditions)
          same
          (updated_conditions-Reads env.now ready_type condition_true provision_succeeded_reason
            (codes "The user provisioning has succeeded.")
            (record_hosts (with_finalizer env user)).status.conditions),
      subst
          (λ v.
            reconcile (record env { now = later }) v
            ≡ record { pass = stop done v (exec query ∷ []); requeue = true; requeue_after = 120 })
          same (second_pass env user password query calm laws later),
    )
