-- ===== src/Orchestrator/Writable/Effect.antt =====
-- The mode in which the calls of `mark_read_only_nodes_in_orc` leave the instances.
use mysql_operator.Base.{
  ◌≡◌, ◌∙◌, refl, ap, inl, inr, Bool, true, false, not, Option, none, some, List, [], ◌∷◌, ◌++◌,
  arith, Text, text_eq, text_eq_iff, text_eq_refl, ==_iff, if◌then◌else◌, All, Bool-cases,
}
use mathlib.Core.List.{Memᴰ}
use mathlib.Core.List.Memᴰ
use mysql_operator.Cluster.{MysqlCluster}
use mysql_operator.Orchestrator.{
  Instance, InstanceKey, key_eq, Call, discover, forget, set_host_writable, set_host_read_only,
  ack_recovery,
}
use mysql_operator.Orchestrator.Writable.{
  is_skipped, mark_all_read_only, mark_by_master, in_failover, mark_read_only_nodes_in_orc,
}

-- The host is to be read-only: no master is known, the spec asks for it, or it is not the master's.
abbrev pub wants_read_only : MysqlCluster → Option Instance → Text → Bool
wants_read_only c master host = elim master [
  | none ↦ true
  | some m ↦ if c.spec.read_only then true else not (text_eq host m.key.hostname)
]

-- Whether the instance with key `k` is read-only after the calls, if it was `mode` before.
unfoldable pub read_only_after : InstanceKey → Bool → List Call → Bool
read_only_after k mode [] = mode
read_only_after k mode (set_host_writable j ∷ calls) =
    read_only_after k (if key_eq j k then false else mode) calls
read_only_after k mode (set_host_read_only j ∷ calls) =
    read_only_after k (if key_eq j k then true else mode) calls
read_only_after k mode (discover j ∷ calls) = read_only_after k mode calls
read_only_after k mode (forget j ∷ calls) = read_only_after k mode calls
read_only_after k mode (ack_recovery id ∷ calls) = read_only_after k mode calls

-- One loop for both branches: the call, if any, that an instance gets.
abbrev mark_one : MysqlCluster → Option Instance → Instance → List Call
mark_one c master inst =
    if is_skipped inst
    then []
    else if wants_read_only c master inst.key.hostname
    then if not inst.read_only then set_host_read_only inst.key ∷ [] else []
    else if inst.read_only
    then set_host_writable inst.key ∷ []
    else []

abbrev mark_each : MysqlCluster → Option Instance → List Instance → List Call
mark_each c master [] = []
mark_each c master (inst ∷ insts) = mark_one c master inst ++ mark_each c master insts

mark_all_read_only_lem :
    (c : MysqlCluster) (insts : List Instance) → mark_all_read_only insts ≡ mark_each c none insts
unfolding mark_all_read_only
mark_all_read_only_lem c [] = refl
mark_all_read_only_lem c (inst ∷ insts) = ground (arith, mark_all_read_only_lem c insts)

mark_by_master_lem :
    (c : MysqlCluster) (m : Instance) (insts : List Instance)
    → mark_by_master c m insts ≡ mark_each c (some m) insts
unfolding mark_by_master
mark_by_master_lem c m [] = refl
mark_by_master_lem c m (inst ∷ insts) = ground (arith, mark_by_master_lem c m insts)

marks_lem :
    (c : MysqlCluster) (insts : List Instance) (master : Option Instance)
    → in_failover c ≡ false
    → mark_read_only_nodes_in_orc c insts master ≡ mark_each c master insts
unfolding mark_read_only_nodes_in_orc
marks_lem c insts none calm = rw calm (mark_all_read_only_lem c insts)
marks_lem c insts (some m) calm = rw calm (mark_by_master_lem c m insts)

-- The call of one instance, after the tests.
abbrev call_for : Bool → Bool → Bool → InstanceKey → List Call
call_for skipped wanted now key =
    if skipped
    then []
    else if wanted
    then if not now then set_host_read_only key ∷ [] else []
    else if now
    then set_host_writable key ∷ []
    else []

-- A call for a host that wants a mode keeps it, and a call for the key itself sets it.
call_keeps :
    (skipped wanted now mode : Bool) (key k : InstanceKey) (rest : List Call)
    → (key_eq key k ≡ true → wanted ≡ mode)
    → read_only_after k mode (call_for skipped wanted now key ++ rest) ≡ read_only_after k mode rest
unfolding read_only_after
call_keeps skipped wanted now mode key k rest h = ground arith

call_skips :
    (skipped wanted now mode : Bool) (key k : InstanceKey) (rest : List Call)
    → key_eq key k ≡ false
    → read_only_after k mode (call_for skipped wanted now key ++ rest) ≡ read_only_after k mode rest
unfolding read_only_after
call_skips skipped wanted now mode key k rest h = ground arith

call_sets :
    (wanted now : Bool) (k : InstanceKey) (rest : List Call)
    → key_eq k k ≡ true
    → read_only_after k now (call_for false wanted now k ++ rest) ≡ read_only_after k wanted rest
unfolding read_only_after
call_sets true true k rest h = refl
call_sets true false k rest h = rw h
call_sets false true k rest h = rw h
call_sets false false k rest h = refl

key_eq_refl : (k : InstanceKey) → key_eq k k ≡ true
key_eq_refl k = rw (text_eq_refl k.hostname) ((==_iff k.port k.port).1 refl)

key_eq→≡ : (a b : InstanceKey) → key_eq a b ≡ true → a ≡ b
key_eq→≡ a b h =
    let e : a.hostname ≡ b.hostname = ground (arith, text_eq_iff a.hostname b.hostname) in
    let f : a.port ≡ b.port = ground arith in λ i. record { hostname = e i; port = f i }

-- No other instance of the list has the instance's key.
abbrev pub HasOwnKey : Instance → List Instance → Type 0
HasOwnKey inst insts = All (λ (j : Instance). key_eq j.key inst.key ≡ true → j ≡ inst) insts

module _ (c : MysqlCluster) (master : Option Instance) where
  keeps :
      (k : InstanceKey) (insts : List Instance)
      → read_only_after k (wants_read_only c master k.hostname) (mark_each c master insts)
        ≡ wants_read_only c master k.hostname
  unfolding read_only_after
  keeps k [] = refl
  keeps k (inst ∷ insts) =
      call_keeps (is_skipped inst) (wants_read_only c master inst.key.hostname) inst.read_only
        (wants_read_only c master k.hostname) inst.key k (mark_each c master insts)
        (λ e. ap (λ (j : InstanceKey). wants_read_only c master j.hostname) (key_eq→≡ inst.key k e))
      ∙ keeps k insts

  mark_each_lem :
      (inst : Instance) (insts : List Instance)
      → is_skipped inst ≡ false
      → Memᴰ inst insts
      → HasOwnKey inst insts
      → read_only_after inst.key inst.read_only (mark_each c master insts)
        ≡ wants_read_only c master inst.key.hostname
  mark_each_lem inst [] fresh m own = elim m [ ]
  mark_each_lem inst (x ∷ insts) fresh m own = elim (Bool-cases (key_eq x.key inst.key)) [
    | inl same ↦
        (let e : x ≡ inst = own.0 same in
          rw e (
            rw fresh (
              call_sets (wants_read_only c master inst.key.hostname) inst.read_only inst.key
                (mark_each c master insts) (key_eq_refl inst.key)
              ∙ keeps inst.key insts)))
    | inr other ↦
        (call_skips (is_skipped x) (wants_read_only c master x.key.hostname) x.read_only
            inst.read_only x.key inst.key (mark_each c master insts) other
          ∙ elim (Memᴰ.cases_cons m) [
            | inl e ↦ (let absurd : key_eq x.key inst.key ≡ true = rw e (key_eq_refl x.key) in cc)
            | inr n ↦ mark_each_lem inst insts fresh n own.1
          ])
  ]

-- Without a failover in progress, an instance that is up to date and has been up for the grace time,
-- and shares its key with no other instance, ends in the mode that the cluster wants: read-only when
-- no master is known, when the spec says so, or when it is not on the master's host; else writable.
pub mark_read_only_nodes_in_orc_lem :
    (c : MysqlCluster) (master : Option Instance) (inst : Instance) (insts : List Instance)
    → in_failover c ≡ false
    → is_skipped inst ≡ false
    → Memᴰ inst insts
    → HasOwnKey inst insts
    → read_only_after inst.key inst.read_only (mark_read_only_nodes_in_orc c insts master)
      ≡ wants_read_only c master inst.key.hostname
mark_read_only_nodes_in_orc_lem c master inst insts calm fresh m own =
    rw (marks_lem c insts master calm) (mark_each_lem c master inst insts fresh m own)
