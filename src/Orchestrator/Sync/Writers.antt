-- ===== src/Orchestrator/Sync/Writers.antt =====
-- Which instances a reconciliation makes writable.
use mysql_operator.Base.{
  ℕ, ◌≡◌, refl, sym, ap, ◌∙◌, Bool, true, false, ◌&&◌, not, Option, none, some, List, [], ◌∷◌, ◌++◌,
  arith, Text, all, map, Bool-cases, Option-cases, inl, inr, ℤ,
}
use mysql_operator.Cluster.{MysqlCluster, NodeStatus}
use mysql_operator.Cluster.Nodes.{update_node_condition_status}
use mysql_operator.Cluster.Conditions.{get_cluster_condition}
use mysql_operator.Orchestrator.{
  Instance, InstanceKey, TopologyRecovery, Call, discover, forget, set_host_writable,
  set_host_read_only, ack_recovery,
}
use mysql_operator.Orchestrator.Topology.{get_instance}
use mysql_operator.Orchestrator.Discovery.{
  update_nodes_in_orc, discover_nodes_in_orc, forget_nodes_from_orc,
}
use mysql_operator.Orchestrator.Writable.{
  mark_read_only_nodes_in_orc, mark_all_read_only, mark_by_master, in_failover,
}
use mysql_operator.Orchestrator.Removal.{
  remove_node_condition_not_in_orc, mark_missing, mark_unknown,
}
use mysql_operator.Orchestrator.Recoveries.{acknowledge_recoveries}
use mysql_operator.Orchestrator.Sync.{Answers, reconcile}
use mysql_operator.Orchestrator.Status.{is_master_host}

-- A call may make a host writable only if it is the master's, the spec does not ask for a read-only
-- cluster and no failover is in progress.
abbrev pub may_call : MysqlCluster → Option Instance → Call → Bool
may_call c master (set_host_writable k) =
    is_master_host master k.hostname && (not c.spec.read_only && not (in_failover c))
may_call c master (discover k) = true
may_call c master (forget k) = true
may_call c master (set_host_read_only k) = true
may_call c master (ack_recovery id) = true

all-append {ℓ} :
    {A : Type ℓ} (p : A → Bool) (xs ys : List A) → all p (xs ++ ys) ≡ (all p xs && all p ys)
all-append p [] ys = refl
all-append p (x ∷ xs) ys = ground (arith, all-append p xs ys)

all-map {ℓ κ} :
    {A : Type ℓ} {B : Type κ} (p : B → Bool) (f : A → B)
    → ((a : A) → p (f a) ≡ true)
    → (xs : List A) → all p (map f xs) ≡ true
all-map p f h [] = refl
all-map p f h (x ∷ xs) = ground (arith, h x, all-map p f h xs)

module _ (c : MysqlCluster) (master : Option Instance) where
  abbrev ok_call : Call → Bool
  ok_call = may_call c master

  acks :
      (fails : ℤ → Bool) (rs : List TopologyRecovery)
      → all ok_call (acknowledge_recoveries fails rs).0 ≡ true
  unfolding acknowledge_recoveries
  acks fails [] = refl
  acks fails (r ∷ rs) = ground (arith, acks fails rs)

  discovers : (keys : List InstanceKey) → all ok_call (discover_nodes_in_orc keys) ≡ true
  unfolding discover_nodes_in_orc
  discovers keys = all-map ok_call discover (λ k. refl) keys

  forgets :
      (now : ℕ) (d : MysqlCluster) (keys : List InstanceKey)
      → all ok_call (forget_nodes_from_orc now d keys) ≡ true
  unfolding forget_nodes_from_orc
  forgets now d keys = ground (arith, all-map ok_call forget (λ k. refl) keys)

  read_onlys : (insts : List Instance) → all ok_call (mark_all_read_only insts) ≡ true
  unfolding mark_all_read_only
  read_onlys [] = refl
  read_onlys (i ∷ insts) = ground (arith, read_onlys insts)

by_master :
    (c : MysqlCluster) (m : Instance) (insts : List Instance)
    → in_failover c ≡ false
    → all (may_call c (some m)) (mark_by_master c m insts) ≡ true
unfolding mark_by_master
by_master c m [] calm = refl
by_master c m (i ∷ insts) calm = ground (arith, by_master c m insts)

marks :
    (c : MysqlCluster) (master : Option Instance) (insts : List Instance)
    → all (may_call c master) (mark_read_only_nodes_in_orc c insts master) ≡ true
unfolding mark_read_only_nodes_in_orc
marks c none insts = ground (arith, read_onlys c none insts)
marks c (some m) insts = elim (Bool-cases (in_failover c)) [
  | inl busy ↦ rw busy refl
  | inr calm ↦ rw calm (by_master c m insts calm)
]

-- Removing the status of nodes changes neither the spec nor the conditions of the cluster.
module _ (now : ℕ) (insts : List Instance) (ns : NodeStatus) (nodes : List NodeStatus)
    (c : MysqlCluster) where
  mark_missing-cons_missing :
      get_instance insts ns.name ≡ none
      → mark_missing now insts (ns ∷ nodes) c
        ≡ mark_missing now insts nodes (mark_unknown now ns.name c)
  unfolding mark_missing
  mark_missing-cons_missing e = rw (mark_missing, e) refl

  mark_missing-cons_known :
      (i : Instance)
      → get_instance insts ns.name ≡ some i
      → mark_missing now insts (ns ∷ nodes) c ≡ mark_missing now insts nodes c
  unfolding mark_missing
  mark_missing-cons_known i e = rw (mark_missing, e) refl

abbrev wants_writers : MysqlCluster → Bool × Bool
wants_writers c = (c.spec.read_only, in_failover c)

mark_unknown-keeps :
    (now : ℕ) (host : Text) (c : MysqlCluster)
    → wants_writers (mark_unknown now host c) ≡ wants_writers c
unfolding mark_unknown update_node_condition_status in_failover get_cluster_condition
mark_unknown-keeps now host c = refl

mark_missing-keeps :
    (now : ℕ) (insts : List Instance) (nodes : List NodeStatus) (c : MysqlCluster)
    → wants_writers (mark_missing now insts nodes c) ≡ wants_writers c
unfolding mark_missing
mark_missing-keeps now insts [] c = refl
mark_missing-keeps now insts (ns ∷ nodes) c = elim (Option-cases (get_instance insts ns.name)) [
  | inl e ↦
      ap wants_writers (mark_missing-cons_missing now insts ns nodes c e)
      ∙ (mark_missing-keeps now insts nodes (mark_unknown now ns.name c)
          ∙ mark_unknown-keeps now ns.name c)
  | inr (i, e) ↦
      ap wants_writers (mark_missing-cons_known now insts ns nodes c i e)
      ∙ mark_missing-keeps now insts nodes c
]

remove-may_call :
    (now : ℕ) (insts : List Instance) (c : MysqlCluster) (master : Option Instance) (call : Call)
    → may_call (remove_node_condition_not_in_orc now insts c) master call ≡ may_call c master call
unfolding remove_node_condition_not_in_orc in_failover get_cluster_condition
remove-may_call now insts c master (set_host_writable k) =
    ap (λ (w : Bool × Bool). is_master_host master k.hostname && (not w.0 && not w.1))
      (mark_missing-keeps now insts c.status.nodes c)
remove-may_call now insts c master (discover k) = refl
remove-may_call now insts c master (forget k) = refl
remove-may_call now insts c master (set_host_read_only k) = refl
remove-may_call now insts c master (ack_recovery id) = refl

all-congr {ℓ} :
    {A : Type ℓ} (p q : A → Bool) → ((a : A) → p a ≡ q a) → (xs : List A) → all p xs ≡ all q xs
all-congr p q h [] = refl
all-congr p q h (x ∷ xs) = ground (arith, h x, all-congr p q h xs)

-- A reconciliation makes an instance writable only on the host of the master that it was given, in a
-- cluster that is not to be read-only, and when no failover is in progress.
pub reconcile-writers :
    (now : ℕ) (answers : Answers) (insts : List Instance) (master : Option Instance)
    (c : MysqlCluster)
    → all (may_call c master) (reconcile now answers insts master c).1 ≡ true
unfolding reconcile
reconcile-writers now answers insts master c =
    let present = (update_nodes_in_orc c insts).ready_instances in
    let c1 = remove_node_condition_not_in_orc now present c in
    let marked = mark_read_only_nodes_in_orc c1 present master in
    let allowed =
      sym (all-congr _ _ (remove-may_call now present c master) marked) ∙ marks c1 master present in
    simp (all-append, discovers c master, forgets c master, acks c master, allowed) refl
