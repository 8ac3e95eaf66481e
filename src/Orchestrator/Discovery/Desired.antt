-- ===== src/Orchestrator/Discovery/Desired.antt =====
-- What `update_nodes_in_orc` registers and forgets, in terms of the pods that the cluster wants.
use mysql_operator.Base.{
  ℕ, zero, suc, ◌≡◌, ◌≢◌, ◌∙◌, refl, sym, inl, inr, Bool, true, false, ◌&&◌, ◌||◌, not, Option,
  none, some, List, [], ◌∷◌, arith, map, keep, keep_congr, find_sound, find-none, any_Memᴰ, any,
  filter_map, filter_map-cons_none, filter_map-cons_some, range_from, Text, text_eq, text_eq_iff,
  text_eq_refl, ltb, if◌then◌else◌, Option-cases,
}
use mathlib.Core.List.{Memᴰ}
use mysql_operator.Cluster.{MysqlCluster, replicas, pod_hostname}
use mysql_operator.Orchestrator.{Instance}
use mysql_operator.Orchestrator.Topology.{get_instance}
use mysql_operator.Orchestrator.Discovery.{pod_key, is_missing, walk_pods, update_nodes_in_orc}

-- The pods of the cluster.
abbrev pub pods : MysqlCluster → List ℕ
pods c = range_from 0 (replicas c)

-- The pod is counted as ready and orchestrator does not know its host.
abbrev pub is_undiscovered : MysqlCluster → List Instance → ℕ → Bool
is_undiscovered c is i = is_missing is (pod_hostname c i) && ltb i c.status.ready_nodes

-- The host is that of a pod of the cluster.
abbrev pub is_pod_host : MysqlCluster → Text → Bool
is_pod_host c host = any (λ i. text_eq (pod_hostname c i) host) (pods c)

is_missing-nil : (host : Text) → is_missing [] host ≡ true
unfolding get_instance
is_missing-nil host = refl

is_missing-cons :
    (x : Instance) (xs : List Instance) (host : Text)
    → is_missing (x ∷ xs) host ≡ (if text_eq host x.key.hostname then false else is_missing xs host)
unfolding get_instance
is_missing-cons x xs host = ground arith

text_eq_comm : (s t : Text) → text_eq s t ≡ text_eq t s
text_eq_comm s t = ground (arith, text_eq_iff s t, text_eq_iff t s)

if_or : (a b : Bool) → (if a then false else not b) ≡ not (a || b)
if_or a b = ground arith

module _ (c : MysqlCluster) (is : List Instance) where
  abbrev instance_of : ℕ → Option Instance
  instance_of i = get_instance is (pod_hostname c i)

  walk_pods_lem :
      (left start : ℕ)
      → walk_pods c is left start ≡ (
        filter_map instance_of (range_from start left),
        map (pod_key c) (keep (is_undiscovered c is) (range_from start left)),
      )
  unfolding walk_pods
  walk_pods_lem zero start = refl
  walk_pods_lem (suc left) start = ground (arith, walk_pods_lem left (suc start))

  get_instance_host :
      (host : Text) (inst : Instance) → get_instance is host ≡ some inst → inst.key.hostname ≡ host
  unfolding get_instance
  get_instance_host host inst h = sym (
      (text_eq_iff host inst.key.hostname).0
        (find_sound (λ (i : Instance). text_eq host i.key.hostname) is inst h).1)

  known_host : (inst : Instance) → Memᴰ inst is → get_instance is inst.key.hostname ≢ none
  unfolding get_instance
  known_host inst m h =
      let p : Instance → Bool = (λ i. text_eq inst.key.hostname i.key.hostname) in
      let found = any_Memᴰ p is m (text_eq_refl inst.key.hostname) in
      let absent = find-none p is h in cc

  is_missing-present :
      (inst : Instance) (is_known : get_instance is inst.key.hostname ≢ none) (indices : List ℕ)
      → is_missing (filter_map instance_of indices) inst.key.hostname
        ≡ not (any (λ i. text_eq (pod_hostname c i) inst.key.hostname) indices)
  is_missing-present inst is_known [] = is_missing-nil inst.key.hostname
  is_missing-present inst is_known (i ∷ indices) =
      let rest = is_missing-present inst is_known indices in
      elim (Option-cases (instance_of i)) [
        | inl missing ↦
            let other : text_eq (pod_hostname c i) inst.key.hostname ≡ false =
              ground (arith, text_eq_iff (pod_hostname c i) inst.key.hostname) in
            rw (filter_map-cons_none instance_of i indices missing, other) rest
        | inr (x, found) ↦ rw (filter_map-cons_some instance_of i indices x found) (
            is_missing-cons x (filter_map instance_of indices) inst.key.hostname
            ∙ rw
                (
                  get_instance_host (pod_hostname c i) x found,
                  rest,
                  text_eq_comm inst.key.hostname (pod_hostname c i),
                )
                (if_or (text_eq (pod_hostname c i) inst.key.hostname) _))
      ]

  -- While the cluster is not being deleted, the keys to discover are those of the pods that are
  -- counted as ready and unknown to orchestrator, in order, and the keys to forget are those of
  -- the instances that stand on no pod's host.
  pub update_nodes_in_orc_lem :
      c.deletion_timestamp ≡ none
      → ((update_nodes_in_orc c is).should_discover
          ≡ map (pod_key c) (keep (is_undiscovered c is) (pods c)))
        × ((update_nodes_in_orc c is).should_forget
            ≡ map
                (λ (i : Instance). i.key)
                (keep (λ (i : Instance). not (is_pod_host c i.key.hostname)) is))
  unfolding update_nodes_in_orc
  update_nodes_in_orc_lem alive =
      let walk = walk_pods_lem (replicas c) 0 in
      let same : keep
            (λ (i : Instance). is_missing (walk_pods c is (replicas c) 0).0 i.key.hostname) is
          ≡ keep (λ (i : Instance). not (is_pod_host c i.key.hostname)) is =
        keep_congr _ _ is
          (λ inst m. rw walk (is_missing-present inst (known_host inst m) (pods c))) in
      (ground (arith, walk), ground (arith, same))
