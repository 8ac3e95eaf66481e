-- ===== src/Node/Names.antt =====
-- The name of the cluster that is read from the name of a pod.
use mysql_operator.Base.{
  ℕ, ◌-◌, ◌≡◌, true, some, ◌∷◌, ◌++◌, arith, all, all-append, take, take-length, length,
  length-append, codes, Text, cut_last, cut_last-append, has_suffix-append, ltb,
}
use mysql_operator.Base.Decimal.{decimal, decimal-Absent, decimal-digits}
use mysql_operator.Cluster.{MysqlCluster, name_for_resource, stateful_set}
use mysql_operator.Orchestrator.Removal.{is_word, is_nonempty_word, is_digit}
use mysql_operator.Node.{cluster_of_pod}

cluster_of_pod-digits :
    (name digits : Text)
    → is_nonempty_word name ≡ true
    → all is_digit digits ≡ true
    → cut_last b'-' ((name ++ codes "-mysql") ++ b'-' ∷ digits)
      ≡ some (name ++ codes "-mysql", digits)
    → cluster_of_pod ((name ++ codes "-mysql") ++ b'-' ∷ digits) ≡ some name
unfolding cluster_of_pod
cluster_of_pod-digits name digits h d last =
    let before = name ++ codes "-mysql" in
    let size : length before - 6 ≡ length name =
      omega (arith, length-append name (codes "-mysql")) in
    let is_long : ltb 6 (length before) ≡ true =
      ground (arith, length-append name (codes "-mysql")) in
    let word : all is_word before ≡ true =
      ground (arith, all-append is_word name (codes "-mysql")) in
    let suffix = has_suffix-append name (codes "-mysql") in
    let start : take (length before - 6) before ≡ name =
      rw size (take-length name (codes "-mysql")) in
    ground arith

-- The name that is read from the name of pod `i` of a cluster is that of the cluster, for a cluster
-- whose name is not empty and made of letters, digits, underscores and dashes.
pub cluster_of_pod-name_for_resource :
    (c : MysqlCluster) (i : ℕ)
    → is_nonempty_word c.name ≡ true
    → cluster_of_pod (name_for_resource stateful_set c.name ++ b'-' ∷ decimal i) ≡ some c.name
unfolding name_for_resource
cluster_of_pod-name_for_resource c i h =
    cluster_of_pod-digits c.name (decimal i) h (decimal-digits i) (
      cut_last-append b'-' (c.name ++ codes "-mysql") (decimal i)
        (decimal-Absent b'-' i (omega arith)))
