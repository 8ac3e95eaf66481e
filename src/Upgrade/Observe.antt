-- ===== src/Upgrade/Observe.antt =====
-- server_version.go: the version that all ready pods report over SQL. The query of one server and
-- the read of the secret are parameters: `query` gives the server's answer, `none` for an error, and
-- `secret` the data of the operator's secret, `none` if it cannot be read.
use mysql_operator.Base.{
  ◌≡◌, ◌≢◌, ◌⊎◌, inl, inr, ap, Bool, true, false, not, Option, none, some, List, [], ◌∷◌, ◌++◌,
  arith, Text, codes, lookup, if◌then◌else◌, Result, ok, err, All, Bool-cases, Result-cases, sym,
  ◌∙◌,
}
use mysql_operator.Semver.{Version, zero_version, Blang, BlangLaws, eq, is_zero, same_version→≡}
use mysql_operator.Versioning.Resolution.{parse_server_version}
use mysql_operator.Cluster.{MysqlCluster, headless_svc, name_for_resource}
use mysql_operator.Upgrade.Pods.{Pod, ready_mysql_pods}

pub data ObserveError : Type 0 where
  no_ready_pods query_failed unparsable pods_disagree no_credentials secret_unreadable :
      ObserveError

-- `IsHoldRollout`: all but the failed read of the secret are `HoldRolloutError`.
unfoldable pub is_hold : ObserveError → Bool
is_hold secret_unreadable = false
is_hold _ = true

unfoldable pub mysqld_host : Pod → Text → Text → Text
mysqld_host pod headless namespace =
    let host = elim pod.hostname as (λ _. Text) [ [] ↦ pod.name | c ∷ s ↦ c ∷ s ] in
    host ++ (b'.' ∷ (headless ++ (b'.' ∷ namespace)))

abbrev value_of : Option Text → Text
value_of none = []
value_of (some v) = v

abbrev credentials_of : Text → Text → Result ObserveError (Text × Text)
credentials_of [] password = err no_credentials
credentials_of (c ∷ user) [] = err no_credentials
credentials_of (c ∷ user) (d ∷ password) = ok (c ∷ user, d ∷ password)

unfoldable pub operator_sql_credentials :
    Option (List (Text × Text)) → Result ObserveError (Text × Text)
unfolding lookup
operator_sql_credentials none = err secret_unreadable
operator_sql_credentials (some secret) =
    credentials_of (value_of (lookup (codes "OPERATOR_USER") secret))
      (value_of (lookup (codes "OPERATOR_PASSWORD") secret))

-- Who is asked, with which user and password.
abbrev pub Query : Type 0
Query = Text → Text → Text → Option Text

module _ ⦃blang : Blang⦄ (query : Query) where
  -- The version that one pod reports.
  unfoldable pub pod_version : Text → Text → Text → Text → Pod → Result ObserveError Version
  pod_version user password headless namespace pod =
      elim (query user password (mysqld_host pod headless namespace)) [
        | none ↦ err query_failed
        | some raw ↦ elim (parse_server_version raw) [ none ↦ err unparsable | some v ↦ ok v ]
      ]

  -- The loop over the ready pods, `observed` being the version so far.
  unfoldable pub observe_from :
      Text → Text → Text → Text → Version → List Pod → Result ObserveError Version
  observe_from user password headless namespace observed [] = ok observed
  observe_from user password headless namespace observed (pod ∷ pods) =
      elim (pod_version user password headless namespace pod) [
        | err e ↦ err e
        | ok v ↦
            let first = observe_from user password headless namespace v pods in
            let next = observe_from user password headless namespace observed pods in
            if is_zero observed
            then first
            else if not (eq observed v)
            then err pods_disagree
            else next
      ]

  observe_ready :
      Option (List (Text × Text)) → MysqlCluster → List Pod → Result ObserveError Version
  unfolding observe_from operator_sql_credentials
  observe_ready secret c [] = err no_ready_pods
  observe_ready secret c (pod ∷ pods) = elim (operator_sql_credentials secret) [
    | err e ↦ err e
    | ok (user, password) ↦
        observe_from user password (name_for_resource headless_svc c.name) c.namespace zero_version
          (pod ∷ pods)
  ]

  unfoldable pub observe_data_plane_version_sql :
      Option (List (Text × Text)) → MysqlCluster → List Pod → Result ObserveError Version
  unfolding observe_ready
  observe_data_plane_version_sql secret c pods = observe_ready secret c (ready_mysql_pods pods)

  -- A pod reports `v`, or the unset version 0.0.0.
  abbrev pub Agrees : Text → Text → Text → Text → Version → Pod → Type 0
  Agrees user password headless namespace v pod =
      (pod_version user password headless namespace pod ≡ ok v)
      ⊎ (pod_version user password headless namespace pod ≡ ok zero_version)

  module _ (laws : BlangLaws blang) (user password headless namespace : Text) where
    observe_from_sound :
        (observed v : Version) (pods : List Pod)
        → observe_from user password headless namespace observed pods ≡ ok v
        → ((observed ≡ v) ⊎ (observed ≡ zero_version))
          × All (Agrees user password headless namespace v) pods
    unfolding observe_from
    observe_from_sound observed v [] h = (inl (ground arith), tt)
    observe_from_sound observed v (pod ∷ pods) h =
        elim (Result-cases (pod_version user password headless namespace pod)) [
          | inl (e, failed) ↦ ground arith
          | inr (w, reported) ↦ elim (Bool-cases (is_zero observed)) [
            | inl unset ↦
                let (now, rest) = observe_from_sound w v pods (ground arith) in
                let e : observed ≡ zero_version =
                  same_version→≡ observed zero_version (sym (laws.eq_lem _ _) ∙ unset) in
                (inr e, (agrees w v now reported, rest))
            | inr set ↦
                let (now, rest) = observe_from_sound observed v pods (ground arith) in
                let same : eq observed w ≡ true = ground arith in
                let e : observed ≡ w = same_version→≡ observed w (sym (laws.eq_lem _ _) ∙ same) in
                (now, (agrees observed v now (reported ∙ ap ok (sym e)), rest))
          ]
        ]
      where
        agrees :
            (w u : Version)
            → (w ≡ u) ⊎ (w ≡ zero_version)
            → pod_version user password headless namespace pod ≡ ok w
            → Agrees user password headless namespace u pod
        agrees w u (inl e) r = inl (rw (← e) r)
        agrees w u (inr e) r = inr (rw (← e) r)

  observe_ready_sound :
      BlangLaws blang
      → (secret : Option (List (Text × Text))) (c : MysqlCluster) (pods : List Pod) (v : Version)
      → observe_ready secret c pods ≡ ok v
      → (user : Text) × (password : Text) × (operator_sql_credentials secret ≡ ok (user, password))
        × (pods ≢ [])
        × All (Agrees user password (name_for_resource headless_svc c.name) c.namespace v) pods
  unfolding observe_ready
  observe_ready_sound laws secret c [] v h = ground arith
  observe_ready_sound laws secret c (pod ∷ pods) v h =
      elim (Result-cases (operator_sql_credentials secret)) [
        | inl (e, failed) ↦ ground arith
        | inr ((user, password), found) ↦ (
          user,
          password,
          found,
          (λ e. cc),
          (observe_from_sound laws user password _ _ zero_version v (pod ∷ pods) (ground arith)).1,
        )
      ]

  -- An observed version comes from at least one ready pod, the credentials of the operator's secret
  -- were found, and every ready pod reports that version over SQL, or 0.0.0.
  pub observe_data_plane_version_sql_sound :
      BlangLaws blang
      → (secret : Option (List (Text × Text))) (c : MysqlCluster) (pods : List Pod) (v : Version)
      → observe_data_plane_version_sql secret c pods ≡ ok v
      → (user : Text) × (password : Text) × (operator_sql_credentials secret ≡ ok (user, password))
        × (ready_mysql_pods pods ≢ [])
        × All
            (Agrees user password (name_for_resource headless_svc c.name) c.namespace v)
            (ready_mysql_pods pods)
  unfolding observe_data_plane_version_sql
  observe_data_plane_version_sql_sound laws secret c pods v h =
      observe_ready_sound laws secret c (ready_mysql_pods pods) v h
