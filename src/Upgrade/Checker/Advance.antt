-- ===== src/Upgrade/Checker/Advance.antt =====
-- checker.go: when the applied version of the status advances, and to what.
use mysql_operator.Base.{◌≡◌, ◌≢◌, Option, List, [], Text, ok, All}
use mysql_operator.Semver.{Version, Blang}
use mysql_operator.Cluster.{MysqlCluster, headless_svc, name_for_resource}
use mysql_operator.Upgrade.Pods.{Pod, ready_mysql_pods}
use mysql_operator.Upgrade.Observe.{Query, operator_sql_credentials, Agrees}

-- Every ready pod reports the version over SQL, and there is one.
abbrev pub IsObserved :
    ⦃blang : Blang⦄
    → Query
    → Option (List (Text × Text))
    → MysqlCluster
    → List Pod
    → Version
    → Type 0
IsObserved ⦃blang⦄ query secret c pods v =
    (user : Text) × (password : Text) × (operator_sql_credentials secret ≡ ok (user, password))
    × (ready_mysql_pods pods ≢ [])
    × All (Agrees query user password (name_for_resource headless_svc c.name) c.namespace v)
        (ready_mysql_pods pods)
