-- ===== src/Accounts/Users.antt =====
-- pkg/controller/mysqluser/mysqluser_controller.go: one pass over a MysqlUser. `now` is `time.Now()`.
pub mod Reconcile
pub mod Drops
pub mod Removal
pub mod Provision
pub mod Ready
pub mod Stable
pub mod Twice
use mysql_operator.Base.{
  Result, err, ok, ℕ, Bool, not, Option, none, some, List, [], ◌∷◌, Text, codes, text_eq, any, keep,
  ℤ,
}
use mysql_operator.Cluster.{MysqlCluster}
use mysql_operator.Sql.{MysqlPermission, create_user_query, drop_user_query}
use mysql_operator.Accounts.{
  ObjectKey, ClusterReference, get_cluster_key, ApiError, plain_error, Condition, Finalizers,
  Client, value_of, new_config_from_cluster_key, new_sql_runner, done, failed, Pass, Answer, Action,
  ◌>>◌, stop, with_object, exec_query,
}

pub record MysqlUserSpec : Type 0 where
  pub cluster_ref : ClusterReference
  pub user : Text
  pub password_name : Text
  pub password_key : Text
  pub allowed_hosts : List Text
  pub permissions : List MysqlPermission
  pub resource_limits : List (Text × ℤ)

pub record MysqlUserStatus : Type 0 where
  pub conditions : List Condition
  pub allowed_hosts : List Text

pub record MysqlUser : Type 0 where
  pub name : Text
  pub namespace : Text
  pub annotations : List (Text × Text)
  pub finalizers : List Text
  pub deletion_timestamp : Option ℕ
  pub spec : MysqlUserSpec
  pub status : MysqlUserStatus

abbrev pub user_finalizer : Text
user_finalizer = codes "mysql-operator.presslabs.org/user"

-- What a pass reads and how its requests are answered. The cluster is read twice, so the two answers
-- may differ.
pub record Env : Type 0 where
  pub allow_cross_namespace_users : Bool
  pub finalizers : Finalizers
  pub get_cluster : ObjectKey → Result ApiError MysqlCluster
  pub client : Client
  pub sql_open : Text → Option ApiError
  pub answer : Answer MysqlUser
  pub now : ℕ

abbrev pub cluster_key : MysqlUser → ObjectKey
cluster_key user = get_cluster_key user.spec.cluster_ref user.namespace

unfoldable pub connect : Env → MysqlUser → Option ApiError
unfolding new_config_from_cluster_key new_sql_runner
connect env user =
    new_sql_runner env.sql_open (new_config_from_cluster_key env.client (cluster_key user))

unfoldable pub string_diff_in : List Text → List Text → List Text
unfolding text_eq
string_diff_in actual desired = keep (λ s. not (any (λ t. text_eq t s) desired)) actual

-- `CreateUserIfNotExists`.
unfoldable pub create_user_if_not_exists : Env → Text → Text → List Text → Action MysqlUser
unfolding exec_query
create_user_if_not_exists env user pass [] object log =
    stop (failed (plain_error (codes "no allowedHosts specified"))) object log
create_user_if_not_exists env user pass (host ∷ hosts) object log =
    exec_query env.answer (codes "failed to configure user (user/pass/access), err: ")
      (create_user_query user pass (host ∷ hosts) object.spec.permissions
        object.spec.resource_limits)
      object log

-- `DropUser`.
unfoldable pub drop_user : Env → Text → Text → Action MysqlUser
unfolding exec_query drop_user_query
drop_user env user host =
    exec_query env.answer (codes "failed to delete user, err: ") (drop_user_query user host)

-- The loop that drops the user of each host, up to the first failure.
unfoldable pub drop_hosts : Env → Text → List Text → Action MysqlUser
unfolding drop_user
drop_hosts env user [] = stop done
drop_hosts env user (host ∷ hosts) = drop_user env user host >> drop_hosts env user hosts

abbrev non_empty : Text → Result ApiError Text
non_empty [] = err (plain_error (codes "the MySQL user's password must not be empty"))
non_empty (c ∷ password) = ok (c ∷ password)

unfoldable pub password_in : Text → Result ApiError (List (Text × Text)) → Result ApiError Text
unfolding value_of
password_in key (err e) = err e
password_in key (ok secret) = non_empty (value_of key secret)

unfoldable pub password_of : Env → MysqlUser → Result ApiError Text
unfolding password_in
password_of env user =
    password_in user.spec.password_key (
      env.client.get_secret (record { name = user.spec.password_name; namespace = user.namespace }))

-- With a connection and the password.
unfoldable pub write_user : Env → Text → Action MysqlUser
unfolding create_user_if_not_exists drop_hosts string_diff_in
write_user env password = with_object λ user. do
  create_user_if_not_exists env user.spec.user password user.spec.allowed_hosts
  drop_hosts env user.spec.user (string_diff_in user.status.allowed_hosts user.spec.allowed_hosts)

abbrev pub write_with : Env → Result ApiError Text → Action MysqlUser
write_with env (err e) = stop (failed e)
write_with env (ok password) = write_user env password

unfoldable pub reconcile_user_in_db : Env → Action MysqlUser
unfolding connect write_user password_of
reconcile_user_in_db env user log = elim (connect env user) as (λ _. Pass MysqlUser) [
  | some e ↦ stop (failed e) user log
  | none ↦ write_with env (password_of env user) user log
]
