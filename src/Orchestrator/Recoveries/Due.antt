-- ===== src/Orchestrator/Recoveries/Due.antt =====
-- Which recoveries `acknowledgeRecoveries` acknowledges, and when.
use mysql_operator.Base.{
  ℕ, ◌+◌, ◌-◌, ◌*◌, ◌≡◌, refl, ap, ◌∙◌, Bool, true, false, ◌&&◌, not, Option, none, some, find, ltb,
  leb, List, [], ◌∷◌, arith, keep, map, if◌then◌else◌, ℤ,
}
use mysql_operator.Cluster.{MysqlCluster, ClusterCondition, ready, status_eq, condition_true}
use mysql_operator.Cluster.Conditions.{
  type_eq, get_cluster_condition, get_cluster_condition-eq-find,
}
use mysql_operator.Orchestrator.{TopologyRecovery, ack_recovery}
use mysql_operator.Orchestrator.Discovery.{ready_for}
use mysql_operator.Orchestrator.Recoveries.{
  recovery_grace_time, is_too_young, due_recoveries, get_recoveries_to_ack, acknowledge_recoveries,
}

-- The recovery is not acknowledged, and its start can be read and lies 600 seconds back or more.
abbrev pub has_aged : ℕ → Option ℕ → Bool
has_aged now none = false
has_aged now (some start) = leb (start + 600_000_000_000) now

abbrev pub is_due : ℕ → TopologyRecovery → Bool
is_due now r = not r.acknowledged && has_aged now r.start

-- The cluster has the ready condition, which is true and turned so more than 600 seconds ago.
abbrev pub is_settled : ℕ → Option ClusterCondition → Bool
is_settled now none = false
is_settled now (some cond) =
    status_eq cond.status condition_true && ltb (cond.last_transition_time + 600_000_000_000) now

abbrev pub has_been_ready : ℕ → MysqlCluster → Bool
has_been_ready now c =
    is_settled now (find (λ (cond : ClusterCondition). type_eq cond.type ready) c.status.conditions)

aged-eq :
    (now : ℕ) (start : Option ℕ)
    → not (elim start as (λ _. Bool) [
      | none ↦ true
      | some t ↦ ltb (now - t) (recovery_grace_time * 1_000_000_000)
    ])
      ≡ has_aged now start
aged-eq now none = refl
aged-eq now (some t) = ground arith

is_too_young-eq : (now : ℕ) (r : TopologyRecovery) → not (is_too_young now r) ≡ has_aged now r.start
unfolding is_too_young
is_too_young-eq now r = aged-eq now r.start

late :
    (now t : ℕ)
    → ltb (recovery_grace_time * 1_000_000_000) (now - t) ≡ ltb (t + 600_000_000_000) now
late now t = ground arith

settled-eq :
    (now : ℕ) (o : Option ClusterCondition)
    → (elim o as (λ _. Bool) [
      | none ↦ false
      | some cond ↦
          status_eq cond.status condition_true
          && ltb (recovery_grace_time * 1_000_000_000) (now - cond.last_transition_time)
    ])
      ≡ is_settled now o
settled-eq now none = refl
settled-eq now (some cond) =
    ap (λ b. status_eq cond.status condition_true && b) (late now cond.last_transition_time)

ready_for-eq :
    (now : ℕ) (c : MysqlCluster) → ready_for now recovery_grace_time c ≡ has_been_ready now c
unfolding ready_for
ready_for-eq now c =
    settled-eq now (get_cluster_condition ready c)
    ∙ ap (is_settled now) (get_cluster_condition-eq-find ready c)

due_recoveries-eq-keep :
    (now : ℕ) (recoveries : List TopologyRecovery)
    → due_recoveries now recoveries ≡ keep (is_due now) recoveries
unfolding due_recoveries
due_recoveries-eq-keep now [] = refl
due_recoveries-eq-keep now (r ∷ recoveries) =
    ground (arith, is_too_young-eq now r, due_recoveries-eq-keep now recoveries)

-- The recoveries up to the first whose call fails, that one included.
abbrev pub until_failure : (ℤ → Bool) → List TopologyRecovery → List TopologyRecovery
until_failure fails [] = []
until_failure fails (r ∷ rs) =
    let rest = until_failure fails rs in if fails r.id then r ∷ [] else r ∷ rest

acknowledge_recoveries-eq :
    (fails : ℤ → Bool) (rs : List TopologyRecovery)
    → (acknowledge_recoveries fails rs).0
      ≡ map (λ (r : TopologyRecovery). ack_recovery r.id) (until_failure fails rs)
unfolding acknowledge_recoveries
acknowledge_recoveries-eq fails [] = refl
acknowledge_recoveries-eq fails (r ∷ rs) = ground (arith, acknowledge_recoveries-eq fails rs)

acknowledged :
    (now : ℕ) (fails : ℤ → Bool) (c : MysqlCluster) (recoveries : List TopologyRecovery)
    → (acknowledge_recoveries fails (get_recoveries_to_ack now c recoveries)).0 ≡ (
        if ready_for now recovery_grace_time c
        then map
            (λ (r : TopologyRecovery). ack_recovery r.id)
            (until_failure fails (keep (is_due now) recoveries))
        else [])
unfolding get_recoveries_to_ack
acknowledged now fails c [] = ground (arith, acknowledge_recoveries-eq fails [])
acknowledged now fails c (r ∷ recoveries) = ground (
  arith,
  acknowledge_recoveries-eq fails [],
  acknowledge_recoveries-eq fails (due_recoveries now (r ∷ recoveries)),
  due_recoveries-eq-keep now (r ∷ recoveries),
)

-- The calls acknowledge nothing unless the cluster has been ready for longer than 600 seconds; then they
-- acknowledge, in order and up to the first call that fails, the recoveries that are not acknowledged
-- yet and that started at least 600 seconds ago.
pub acknowledge_recoveries_lem :
    (now : ℕ) (fails : ℤ → Bool) (c : MysqlCluster) (recoveries : List TopologyRecovery)
    → (acknowledge_recoveries fails (get_recoveries_to_ack now c recoveries)).0 ≡ (
        if has_been_ready now c
        then map
            (λ (r : TopologyRecovery). ack_recovery r.id)
            (until_failure fails (keep (is_due now) recoveries))
        else [])
acknowledge_recoveries_lem now fails c recoveries =
    acknowledged now fails c recoveries ∙ rw (ready_for-eq now c) refl
