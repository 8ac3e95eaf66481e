-- ===== src/Controller/Syncs.antt =====
-- The rest of a pass: the syncers, the claims, the applied version, and the whole of it.
pub mod Held
pub mod Quiet
use mysql_operator.Base.{Option, none, some, List, [], ◌∷◌, ◌++◌, Text, if◌then◌else◌, ok, err}
use mysql_operator.Semver.{Blang, Version}
use mysql_operator.Cluster.{MysqlCluster, ClusterStatus}
use mysql_operator.Cluster.Versions.Validation.{validate}
use mysql_operator.Upgrade.{mark_applied_version}
use mysql_operator.Upgrade.Checker.{sync_applied_version}
use mysql_operator.PodLabels.{get_pod_syncers}
use mysql_operator.Controller.{
  Syncer, config_map, operated_secret, secret, headless_svc, master_svc, healthy_svc,
  healthy_replicas_svc, stateful_set, pdb, update_status, resize_claims, clean_claims, invalid,
  request_failed, going, Pass, Env, Action, continue, ◌>>◌, stop, fail, change, with_cluster, send,
  run_syncer, run_pod_syncer, status_same,
}
use mysql_operator.Controller.Gate.{gate}

unfoldable pub run_syncers : Env → List Syncer → Action
unfolding run_syncer
run_syncers env [] = stop going
run_syncers env (s ∷ syncers) = run_syncer env s >> run_syncers env syncers

unfoldable pub run_pod_syncers : Env → List Text → Action
unfolding run_pod_syncer
run_pod_syncers env [] = stop going
run_pod_syncers env (name ∷ names) = run_pod_syncer env name >> run_pod_syncers env names

-- The syncers of the services, the disruption budget and the StatefulSet.
abbrev pub cluster_syncers : Env → List Syncer
cluster_syncers env =
    secret
    ∷ headless_svc
    ∷ master_svc
    ∷ healthy_svc
    ∷ healthy_replicas_svc
    ∷ stateful_set
    ∷ (if env.min_available then pdb ∷ [] else [])

-- The StatefulSet is read before the first syncer.
unfoldable pub read_stateful_set : Env → Action
read_stateful_set env c log = elim (env.get_stateful_set log) as (λ _. Pass) [
  | err e ↦ stop (fail (request_failed e)) c log
  | ok sts ↦ stop going c log
]

module _ ⦃blang : Blang⦄ where
  abbrev advanced : Env → Option Version → Action
  advanced env none = stop going
  advanced env (some v) = do
    change (λ c. mark_applied_version c v)
    with_cluster λ c. send env (update_status c)

  -- The applied version is recorded when the rollout has succeeded.
  unfoldable pub advance : Env → Action
  unfolding sync_applied_version mark_applied_version
  advance env c log = elim (env.get_stateful_set log) as (λ _. Pass) [
    | err e ↦ stop (fail (request_failed e)) c log
    | ok none ↦ stop going c log
    | ok (some sts) ↦ elim (env.list_pods log) as (λ _. Pass) [
      | err e ↦ stop (fail (request_failed e)) c log
      | ok pods ↦
          advanced env (sync_applied_version env.query env.operated_secret c (some sts) pods) c log
    ]
  ]

  unfoldable pub sync_all : Env → Action
  unfolding read_stateful_set run_syncers run_pod_syncers get_pod_syncers advance
  sync_all env = do
    read_stateful_set env
    run_syncers env (config_map ∷ operated_secret ∷ [])
    run_syncers env (cluster_syncers env)
    with_cluster λ c. run_pod_syncers env (get_pod_syncers c)
    send env resize_claims
    send env clean_claims
    advance env

-- The deferred update of the status, whose error is logged only.
unfoldable pub deferred_status : ClusterStatus → Pass → Pass
unfolding status_same
deferred_status before pass =
    if status_same before pass.cluster.status
    then pass
    else record pass { log = pass.log ++ update_status pass.cluster ∷ [] }

module _ ⦃blang : Blang⦄ where
  abbrev pub with_deferred : Env → Action
  with_deferred env c log = deferred_status c.status (sync_all env c log)

  -- From the validation of the cluster with its defaults on.
  unfoldable pub reconcile : Env → MysqlCluster → Pass
  unfolding validate gate sync_all deferred_status
  reconcile env c = elim (validate env.options c) as (λ _. Pass) [
    | err e ↦ stop (fail (invalid e)) c []
    | ok _ ↦ elim (env.list_pods []) as (λ _. Pass) [
      | err e ↦ stop (fail (request_failed e)) c []
      | ok pods ↦ (gate env c.annotations pods >> with_deferred env) c []
    ]
  ]
