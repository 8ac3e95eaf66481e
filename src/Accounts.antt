-- ===== src/Accounts.antt =====
-- What the controllers of users and databases share: references to a cluster, conditions, the
-- connection to MySQL (pkg/internal/mysql/mysql.go), and a pass over an object as the requests that it
-- sends one after the other. The answers of the API server and of MySQL are parameters.
pub mod Passes
pub mod Conditions
pub mod Users
pub mod Databases
use mysql_operator.Base.{
  ℕ, ◌≡◌, Bool, true, false, ◌&&◌, ◌||◌, not, Option, none, some, List, [], ◌∷◌, ◌++◌, Text, codes,
  text_eq, lookup, upsert, if◌then◌else◌, Result, ok, err, ◌==◌,
}
use mysql_operator.Base.Decimal.{decimal}
use mysql_operator.Cluster.{MysqlCluster, ConditionStatus, status_eq}
use mysql_operator.Sql.{Query}

pub record ObjectKey : Type 0 where
  pub name : Text
  pub namespace : Text

-- `ClusterReference`: an empty namespace stands for that of the object.
pub record ClusterReference : Type 0 where
  pub name : Text
  pub namespace : Text

abbrev pub get_cluster_key : ClusterReference → Text → ObjectKey
get_cluster_key ref own_namespace = record {
  name = ref.name;
  namespace = if text_eq ref.namespace [] then own_namespace else ref.namespace;
}

-- An error: its message, and for an answer "not found" of the API server the kind of the object.
pub record ApiError : Type 0 where
  pub message : Text
  pub not_found : Option Text

abbrev pub plain_error : Text → ApiError
plain_error message = record { message = message; not_found = none }

unfoldable pub is_mysql_cluster_kind : Text → Bool
unfolding text_eq
is_mysql_cluster_kind kind =
    text_eq kind (codes "MysqlCluster")
    || text_eq kind (codes "mysqlcluster")
    || text_eq kind (codes "mysqlclusters")

-- The error says that the cluster itself is gone.
abbrev pub is_cluster_gone : ApiError → Bool
is_cluster_gone e = elim e.not_found [ none ↦ false | some kind ↦ is_mysql_cluster_kind kind ]

unfoldable pub deletion_policy_retain : List (Text × Text) → Bool
unfolding text_eq lookup
deletion_policy_retain annotations =
    elim (lookup (codes "mysql-operator.presslabs.org/resourceDeletionPolicy") annotations) [
      | none ↦ false
      | some policy ↦ text_eq policy (codes "retain")
    ]

-- `MySQLUserCondition` and `MysqlDatabaseCondition`.
pub record Condition : Type 0 where
  pub type : Text
  pub status : ConditionStatus
  pub last_update_time : ℕ
  pub last_transition_time : ℕ
  pub reason : Text
  pub message : Text

abbrev pub ready_type : Text
ready_type = codes "Ready"

abbrev pub provision_failed_reason : Text
provision_failed_reason = codes "ProvisionFailed"

abbrev pub provision_succeeded_reason : Text
provision_succeeded_reason = codes "ProvisionSucceeded"

-- The body of `UpdateStatusCondition` and of `UpdateCondition`: the first condition of the type is
-- written, or a new one is put behind the others.
module _ (now : ℕ) (type : Text) (status : ConditionStatus) (reason message : Text) where
  unfoldable pub renewed : Condition → Condition
  unfolding text_eq
  renewed c = record {
    type = c.type;
    status = status;
    last_update_time =
        if not (text_eq message c.message) || not (text_eq reason c.reason)
        then now
        else c.last_update_time;
    last_transition_time = if status_eq status c.status then c.last_transition_time else now;
    reason = reason;
    message = message;
  }

  abbrev pub new_condition : Condition
  new_condition = record {
    type = type;
    status = status;
    last_update_time = now;
    last_transition_time = now;
    reason = reason;
    message = message;
  }

  unfoldable pub updated_conditions : List Condition → List Condition
  unfolding text_eq renewed
  updated_conditions conditions = upsert (λ c. text_eq c.type type) renewed new_condition conditions

-- `reflect.DeepEqual` on conditions and on lists of texts.
abbrev condition_same : Condition → Condition → Bool
condition_same c d =
    text_eq c.type d.type
    && status_eq c.status d.status
    && c.last_update_time == d.last_update_time
    && c.last_transition_time == d.last_transition_time
    && text_eq c.reason d.reason
    && text_eq c.message d.message

unfoldable pub conditions_same : List Condition → List Condition → Bool
unfolding text_eq
conditions_same [] [] = true
conditions_same [] (d ∷ ds) = false
conditions_same (c ∷ cs) [] = false
conditions_same (c ∷ cs) (d ∷ ds) = condition_same c d && conditions_same cs ds

unfoldable pub texts_same : List Text → List Text → Bool
unfolding text_eq
texts_same [] [] = true
texts_same [] (t ∷ ts) = false
texts_same (s ∷ ss) [] = false
texts_same (s ∷ ss) (t ∷ ts) = text_eq s t && texts_same ss ts

-- The functions of the library controller-util on the finalizers of an object.
pub record Finalizers : Type 0 where
  pub has : Text → List Text → Bool
  pub add : Text → List Text → List Text
  pub remove : Text → List Text → List Text

pub record FinalizersLaws (f : Finalizers) : Type 0 where
  pub has-add : (name : Text) (names : List Text) → f.has name (f.add name names) ≡ true
  pub has-remove : (name : Text) (names : List Text) → f.has name (f.remove name names) ≡ false

-- A read of the API server: clusters, and the data of secrets.
pub record Client : Type 0 where
  pub get_cluster : ObjectKey → Result ApiError MysqlCluster
  pub get_secret : ObjectKey → Result ApiError (List (Text × Text))

-- The value of a key of a Go map, empty if it is missing.
unfoldable pub value_of : Text → List (Text × Text) → Text
unfolding lookup
value_of key m = elim (lookup key m) [ none ↦ [] | some v ↦ v ]

pub record Config : Type 0 where
  pub user : Text
  pub password : Text
  pub host : Text
  pub port : ℕ

unfoldable pub new_config_from_cluster_key : Client → ObjectKey → Result ApiError Config
unfolding value_of
new_config_from_cluster_key client key = elim (client.get_cluster key) [
  | err e ↦ err e
  | ok cluster ↦
      elim (client.get_secret
        (record { name = cluster.spec.secret_name; namespace = cluster.namespace })) [
          | err e ↦ err e
          | ok secret ↦ ok (record {
            user = codes "root";
            password = value_of (codes "ROOT_PASSWORD") secret;
            host = cluster.name ++ codes "-mysql-master." ++ cluster.namespace;
            port = 3306;
          })
        ]
]

unfoldable pub get_mysql_dsn : Config → Text
get_mysql_dsn c =
    c.user
    ++ codes ":"
    ++ c.password
    ++ codes "@tcp("
    ++ c.host
    ++ codes ":"
    ++ decimal c.port
    ++ codes ")/?timeout=5s&multiStatements=true&interpolateParams=true"

-- The error of opening a connection, if there is one. The first argument is `sql.Open`.
unfoldable pub new_sql_runner : (Text → Option ApiError) → Result ApiError Config → Option ApiError
unfolding get_mysql_dsn
new_sql_runner sql_open (err e) = some e
new_sql_runner sql_open (ok config) = sql_open (get_mysql_dsn config)

-- A request that changes something: a statement, or an update of the object or of its status.
pub data Request (O : Type 0) : Type 0 where
  exec : Query → Request O
  update : O → Request O
  update_status : O → Request O

-- How a piece of a pass ends.
pub data Ending : Type 0 where
  done : Ending
  failed : ApiError → Ending
  panicked : Ending

-- The object in memory, the requests sent so far and the ending.
pub record Pass (O : Type 0) : Type 0 where
  pub object : O
  pub log : List (Request O)
  pub ending : Ending

-- What a request is answered with after those sent before it; `none` for success.
abbrev pub Answer : Type 0 → Type 0
Answer O = List (Request O) → Request O → Option ApiError

abbrev pub Action : Type 0 → Type 0
Action O = O → List (Request O) → Pass O

-- What runs behind a pass, unless that has failed.
abbrev pub continue : {O : Type 0} → Action O → Pass O → Pass O
continue k first = elim first.ending [
  | done ↦ k first.object first.log
  | failed e ↦ first
  | panicked ↦ first
]

infixl 5 ◌>>◌
abbrev pub ◌>>◌ : {O : Type 0} → Action O → Action O → Action O
◌>>◌ m k object log = continue k (m object log)

abbrev pub stop : {O : Type 0} → Ending → Action O
stop ending object log = record { object = object; log = log; ending = ending }

abbrev pub ending_of : Option ApiError → Ending
ending_of none = done
ending_of (some e) = failed e

abbrev pub send : {O : Type 0} → Answer O → Request O → Action O
send answer request object log = record {
  object = object;
  log = log ++ request ∷ [];
  ending = ending_of (answer log request);
}

-- A change of the object in memory.
abbrev pub change : {O : Type 0} → (O → O) → Action O
change f object log = record { object = f object; log = log; ending = done }

-- An action that is made from the object.
abbrev pub with_object : {O : Type 0} → (O → Action O) → Action O
with_object f object log = f object object log

abbrev with_prefix : Text → Ending → Ending
with_prefix text done = done
with_prefix text (failed e) = failed (plain_error (text ++ e.message))
with_prefix text panicked = panicked

-- `sql.QueryExec` with the message that its caller puts before the error; `none` is a panic of
-- `NewQuery`.
unfoldable pub exec_query : {O : Type 0} → Answer O → Text → Option Query → Action O
exec_query answer text none object log = stop panicked object log
exec_query answer text (some query) object log =
    let sent = send answer (exec query) object log in
    record sent { ending = with_prefix text sent.ending }

-- What `Reconcile` returns besides the error: whether to come back, and in how many seconds.
pub record Outcome (O : Type 0) : Type 0 where
  pub pass : Pass O
  pub requeue : Bool
  pub requeue_after : ℕ

abbrev pub no_requeue : {O : Type 0} → Pass O → Outcome O
no_requeue pass = record { pass = pass; requeue = false; requeue_after = 0 }
