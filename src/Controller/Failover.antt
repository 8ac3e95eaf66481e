-- ===== src/Controller/Failover.antt =====
-- The reset of `FailoverInProgress`, which comes before the validation in a pass.
use mysql_operator.Base.{
  ◌≡◌, ◌≢◌, ◌⊎◌, inl, inr, refl, sym, subst, Bool, true, false, ◌&&◌, Bool-cases, none, List, [],
  ◌∷◌, ◌++◌, codes, ◌==◌, if◌then◌else◌,
}
use mysql_operator.Cluster.{MysqlCluster, condition_false, replicas, failover_in_progress}
use mysql_operator.Cluster.Conditions.{condition_is_true, update_status_condition}
use mysql_operator.Controller.{
  Ending, Step, update_status, going, returned, Env, Action, ◌>>◌, stop, change, with_cluster, send,
}
use mysql_operator.Controller.Steps.{Ending-cases, >>-going, >>-returned, >>-ended, returned-going}

-- In failover, without a pod that is wanted or ready.
abbrev is_stopped : MysqlCluster → Bool
is_stopped c =
    condition_is_true failover_in_progress c && replicas c == 0 && c.status.ready_nodes == 0

abbrev out_of_failover : Env → MysqlCluster → MysqlCluster
unfolding update_status_condition
out_of_failover env =
    update_status_condition env.now failover_in_progress condition_false (codes "ClusterNotRunning")
      (codes "cluster is not running")

abbrev reset : Env → Action
reset env = do
  change (out_of_failover env)
  with_cluster λ d. send env (update_status d)
  stop (returned none 0)

-- The condition `FailoverInProgress` of a cluster without pods is put out, which ends the pass.
reset_failover : Env → Action
reset_failover env c log = if is_stopped c then reset env c log else stop going c log

reset_failover_stopped :
    (env : Env) (c : MysqlCluster) (log : List Step)
    → is_stopped c ≡ true
    → reset_failover env c log ≡ reset env c log
unfolding reset_failover
reset_failover_stopped env c log h = rw (reset_failover, h) refl

reset_failover_running :
    (env : Env) (c : MysqlCluster) (log : List Step)
    → is_stopped c ≡ false
    → reset_failover env c log ≡ stop going c log
unfolding reset_failover
reset_failover_running env c log h = rw (reset_failover, h) refl

>>-stop_log :
    (m : Action) (x : Ending) (c : MysqlCluster) (log : List Step)
    → ((m >> stop x) c log).log ≡ (m c log).log
>>-stop_log m x c log = elim (Ending-cases (m c log).ending) [
  | inl e ↦ subst (λ p. p.log ≡ (m c log).log) (sym (>>-going m (stop x) c log e)) refl
  | inr (y, n, e) ↦
      subst (λ p. p.log ≡ (m c log).log) (sym (>>-returned m (stop x) c log y n e)) refl
]

-- A stopped cluster has exactly one update sent, in which `FailoverInProgress` is put out, and the pass
-- has returned; any other cluster is left as it is, and the pass goes on.
reset_failover_cases :
    (env : Env) (c : MysqlCluster) (log : List Step)
    → ((is_stopped c ≡ true)
        × ((reset_failover env c log).log ≡ log ++ update_status (out_of_failover env c) ∷ [])
        × ((reset_failover env c log).ending ≢ going))
      ⊎ ((is_stopped c ≡ false) × (reset_failover env c log ≡ stop going c log))
reset_failover_cases env c log = elim (Bool-cases (is_stopped c)) [
  | inl stopped ↦
      let sent : Action = with_cluster λ d. send env (update_status d) in
      let same = sym (reset_failover_stopped env c log stopped) in
      inl (
        stopped,
        subst (λ p. p.log ≡ log ++ update_status (out_of_failover env c) ∷ []) same
            (>>-stop_log sent (returned none 0) (out_of_failover env c) log),
        subst (λ p. p.ending ≢ going) same
            (>>-ended sent (stop (returned none 0)) (out_of_failover env c) log
              (λ g. returned-going (stop (returned none 0) c log) none 0 refl g)),
      )
  | inr running ↦ inr (running, reset_failover_running env c log running)
]
