-- ===== src/Tests/Accounts.antt =====
-- The theorems on users and databases at concrete inputs.
use mysql_operator.Base.{
  ok, ◌≡◌, ◌⊎◌, refl, none, some, List, [], ◌∷◌, ◌++◌, arith, Text, codes, text_eq, text_eq_refl,
  any, keep, not, Bool, true, false, pos,
}
use mathlib.Core.List.{Memᴰ}
use mysql_operator.Cluster.{MysqlCluster, condition_true, ready}
use mysql_operator.Sql.{drop_database_query}
use mysql_operator.Accounts.{
  ApiError, exec, update, done, failed, panicked, stop, Finalizers, FinalizersLaws, Client,
  ready_type, provision_succeeded_reason,
}
use mysql_operator.Accounts.Conditions.{Reads}
use mysql_operator.Accounts.Users
use mysql_operator.Accounts.Users.{MysqlUser, user_finalizer}
use mysql_operator.Accounts.Users.Reconcile
use mysql_operator.Accounts.Users.Removal.{reconcile-MayRelease_user}
use mysql_operator.Accounts.Users.Removal as UserRemoval
use mysql_operator.Accounts.Users.Ready.{
  Provisioned, NotProvisioned, reconcile_user_in_cluster_cases,
}
use mysql_operator.Accounts.Users.Stable.{Calm}
use mysql_operator.Accounts.Users.Twice.{reconcile_twice}
use mysql_operator.Accounts.Databases
use mysql_operator.Accounts.Databases.{MysqlDatabase, database_finalizer}
use mysql_operator.Accounts.Databases.Removal.{reconcile-MayRelease_database}
use mysql_operator.Accounts.Databases.Removal as DatabaseRemoval
use mysql_operator.Tests.{current}
use mysql_operator.Tests.Statements.{select_all, configured, configured_lem}

-- Finalizers as a list of names.
abbrev listed : Finalizers
listed = record {
  has = λ name names. any (λ n. text_eq n name) names;
  add = λ name names. names ++ name ∷ [];
  remove = λ name names. keep (λ n. not (text_eq n name)) names;
}

any-keep-not : (p : Text → Bool) (names : List Text) → any p (keep (λ n. not (p n)) names) ≡ false
any-keep-not p [] = refl
any-keep-not p (n ∷ names) = ground (arith, any-keep-not p names)

any-append_found :
    (name : Text) (names : List Text) → any (λ n. text_eq n name) (names ++ name ∷ []) ≡ true
any-append_found name [] = rw (text_eq_refl name) refl
any-append_found name (n ∷ names) = ground (arith, any-append_found name names)

listed_laws : FinalizersLaws listed
listed_laws = record {
  has-add = any-append_found;
  has-remove = λ name names. any-keep-not (λ n. text_eq n name) names;
}

abbrev ready_cluster : MysqlCluster
ready_cluster = record current {
  status = record current.status {
    conditions =
        record {
          type = ready;
          status = condition_true;
          reason = [];
          message = [];
          last_transition_time = 3;
        }
        ∷ [];
  };
}

abbrev secret : List (Text × Text)
secret = (codes "ROOT_PASSWORD", codes "root") ∷ (codes "PASSWORD", codes "secret") ∷ []

abbrev client : Client
client = record { get_cluster = λ key. ok ready_cluster; get_secret = λ key. ok secret }

-- Every request is granted.
abbrev env : Users.Env
env = record {
  allow_cross_namespace_users = false;
  finalizers = listed;
  get_cluster = λ key. ok ready_cluster;
  client = client;
  sql_open = λ dsn. none;
  answer = λ log request. none;
  now = 100;
}

-- A user with one host in the spec, and another one recorded.
abbrev app : MysqlUser
app = record {
  name = codes "app";
  namespace = codes "prod";
  annotations = [];
  finalizers = [];
  deletion_timestamp = none;
  spec = record {
    cluster_ref = record { name = codes "db"; namespace = [] };
    user = codes "app";
    password_name = codes "app-secret";
    password_key = codes "PASSWORD";
    allowed_hosts = codes "%" ∷ [];
    permissions = select_all ∷ [];
    resource_limits = (codes "MAX_USER_CONNECTIONS", pos 10) ∷ [];
  };
  status = record { conditions = []; allowed_hosts = codes "10.0.0.1" ∷ [] };
}

reconcile_user_in_cluster_cases_example :
    (((Reconcile.reconcile_user_in_cluster env app []).ending ≡ done)
      × Provisioned env app (Reconcile.reconcile_user_in_cluster env app []))
    ⊎ (((e : ApiError) × ((Reconcile.reconcile_user_in_cluster env app []).ending ≡ failed e)
          × NotProvisioned app e (Reconcile.reconcile_user_in_cluster env app []))
        ⊎ (((Reconcile.reconcile_user_in_cluster env app []).ending ≡ panicked)
            × ((Reconcile.reconcile_user_in_cluster env app []).object ≡ app)))
reconcile_user_in_cluster_cases_example = reconcile_user_in_cluster_cases env app listed_laws

calm : Calm env app (codes "secret") configured
unfolding Reconcile.crosses_namespaces mysql_operator.Cluster.Conditions.is_cluster_ready
    Users.connect Users.password_of
calm = record {
  allowed = refl;
  live = refl;
  cluster = ready_cluster;
  has_cluster = refl;
  cluster_ready = refl;
  connected = refl;
  has_password = refl;
  has_hosts = λ e. cc;
  has_query = configured_lem;
  granted = λ log r. refl;
}

reconcile_twice_example :
    ((Reconcile.reconcile env app).pass.ending ≡ done)
    × (listed.has user_finalizer (Reconcile.reconcile env app).pass.object.finalizers ≡ true)
    × ((Reconcile.reconcile env app).pass.object.status.allowed_hosts ≡ app.spec.allowed_hosts)
    × Reads ready_type condition_true provision_succeeded_reason
        (codes "The user provisioning has succeeded.")
        (Reconcile.reconcile env app).pass.object.status.conditions
    × (Reconcile.reconcile (record env { now = 500 }) (Reconcile.reconcile env app).pass.object
        ≡ record {
          pass = stop done (Reconcile.reconcile env app).pass.object (exec configured ∷ []);
          requeue = true;
          requeue_after = 120;
        })
reconcile_twice_example = reconcile_twice env app (codes "secret") configured 500 calm listed_laws

abbrev deleted_app : MysqlUser
deleted_app = record app { deletion_timestamp = some 90; finalizers = user_finalizer ∷ [] }

-- The user is dropped for the recorded host, and then the finalizer is taken away.
released_app :
    Memᴰ
      (update (Reconcile.released env deleted_app))
      (Reconcile.reconcile env deleted_app).pass.log
unfolding Reconcile.reconcile
released_app = Memᴰ.tail (Memᴰ.head refl)

reconcile-MayRelease_user_example :
    (Reconcile.released env deleted_app ≡ Reconcile.released env deleted_app)
    × UserRemoval.MayRelease env deleted_app (Reconcile.reconcile env deleted_app).pass.log
reconcile-MayRelease_user_example =
    reconcile-MayRelease_user env deleted_app (Reconcile.released env deleted_app) 90 refl
      released_app

abbrev database_env : Databases.Env
database_env = record {
  allow_cross_namespace_databases = false;
  finalizers = listed;
  get_cluster = λ key. ok ready_cluster;
  client = client;
  sql_open = λ dsn. none;
  answer = λ log request. none;
  now = 100;
}

abbrev shop : MysqlDatabase
shop = record {
  name = codes "shop";
  namespace = codes "prod";
  annotations = [];
  finalizers = database_finalizer ∷ [];
  deletion_timestamp = some 90;
  spec = record {
    cluster_ref = record { name = codes "db"; namespace = [] };
    database = codes "shop";
    character_set = [];
    collation = [];
  };
  status = record { conditions = [] };
}

released_shop :
    Memᴰ
      (update (Databases.released database_env shop))
      (Databases.reconcile database_env shop).pass.log
unfolding Databases.reconcile drop_database_query
released_shop = Memᴰ.tail (Memᴰ.head refl)

reconcile-MayRelease_database_example :
    (Databases.released database_env shop ≡ Databases.released database_env shop)
    × DatabaseRemoval.MayRelease database_env shop
        (Databases.released database_env shop)
        (Databases.reconcile database_env shop).pass.log
reconcile-MayRelease_database_example =
    reconcile-MayRelease_database database_env shop (Databases.released database_env shop) 90 refl
      released_shop
