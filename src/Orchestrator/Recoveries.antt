-- ===== src/Orchestrator/Recoveries.antt =====
-- orchestrator_reconcile.go: which recoveries are acknowledged. Times are nanoseconds, and a
-- recovery that starts in the future is as young as one that starts now.
pub mod Due
use mysql_operator.Base.{
  ℕ, ◌-◌, ◌*◌, Bool, true, false, not, none, some, List, [], ◌∷◌, ltb, length, ◌==◌, if◌then◌else◌,
  ℤ,
}
use mysql_operator.Cluster.{MysqlCluster}
use mysql_operator.Orchestrator.{TopologyRecovery, Call, ack_recovery}
use mysql_operator.Orchestrator.Discovery.{ready_for}

-- `recoveryGraceTime`, in seconds.
abbrev pub recovery_grace_time : ℕ
recovery_grace_time = 600

-- Younger than the grace time, or without a time that can be read.
unfoldable pub is_too_young : ℕ → TopologyRecovery → Bool
is_too_young now r = elim r.start [
  | none ↦ true
  | some start ↦ ltb (now - start) (recovery_grace_time * 1_000_000_000)
]

-- The loop over the recoveries.
unfoldable pub due_recoveries : ℕ → List TopologyRecovery → List TopologyRecovery
unfolding is_too_young
due_recoveries now [] = []
due_recoveries now (r ∷ recoveries) =
    let rest = due_recoveries now recoveries in
    if not r.acknowledged then if is_too_young now r then rest else r ∷ rest else rest

unfoldable pub get_recoveries_to_ack :
    ℕ → MysqlCluster → List TopologyRecovery → List TopologyRecovery
unfolding due_recoveries ready_for
get_recoveries_to_ack now c recoveries =
    if length recoveries == 0
    then []
    else if not (ready_for now recovery_grace_time c)
    then []
    else due_recoveries now recoveries

-- The calls that are made, and whether the last one failed, which ends the loop. `fails` says for
-- which recoveries orchestrator answers with an error.
unfoldable pub acknowledge_recoveries : (ℤ → Bool) → List TopologyRecovery → List Call × Bool
acknowledge_recoveries fails [] = ([], false)
acknowledge_recoveries fails (r ∷ to_ack) =
    let (calls, failed) = acknowledge_recoveries fails to_ack in
    if fails r.id then (ack_recovery r.id ∷ [], true) else (ack_recovery r.id ∷ calls, failed)
