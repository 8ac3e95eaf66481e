-- ===== src/Backups/Candidate.antt =====
-- job.go, `getBackupCandidate`: the node that a backup is taken from.
use mysql_operator.Base.{
  ◌≡◌, ◌≢◌, ◌⊎◌, inl, inr, refl, ap, Bool, true, false, ◌&&◌, not, Option, none, some, List, [],
  ◌∷◌, ◌++◌, All, find, Text, arith, Bool-cases,
}
use mysql_operator.Cluster.{
  MysqlCluster, NodeStatus, NodeCondition, ConditionStatus, status_eq, condition_true,
  condition_false, condition_unknown, master, replicating, lagged,
}
use mysql_operator.Cluster.Nodes.{get_node_condition}
use mysql_operator.Node.Initialize.{get_master_host}
use mysql_operator.Backups.{is_candidate, is_good_node, candidate_or, get_backup_candidate}

-- The node is known not to be the master, to replicate and not to lag.
pub record IsGoodNode (nodes : List NodeStatus) (host : Text) : Type 0 where
  pub on_master : NodeCondition
  pub on_replicating : NodeCondition
  pub on_lagged : NodeCondition
  pub has_master : (get_node_condition host master nodes).1 ≡ some on_master
  pub has_replicating : (get_node_condition host replicating nodes).1 ≡ some on_replicating
  pub has_lagged : (get_node_condition host lagged nodes).1 ≡ some on_lagged
  pub is_replica : on_master.status ≢ condition_true
  pub replicates : on_replicating.status ≡ condition_true
  pub is_in_time : on_lagged.status ≢ condition_true

status_eq→≡ : (s : ConditionStatus) → status_eq s condition_true ≡ true → s ≡ condition_true
status_eq→≡ condition_true h = refl
status_eq→≡ condition_false h = cc
status_eq→≡ condition_unknown h = cc

status_eq-≢ : (s : ConditionStatus) → status_eq s condition_true ≡ false → s ≢ condition_true
status_eq-≢ condition_true h e = cc
status_eq-≢ condition_false h e = cc
status_eq-≢ condition_unknown h e = cc

≢-status_eq : (s : ConditionStatus) → s ≢ condition_true → status_eq s condition_true ≡ false
≢-status_eq condition_true h = elim (h refl) [ ]
≢-status_eq condition_false h = refl
≢-status_eq condition_unknown h = refl

and_parts : (a b c : Bool) → (not a && (b && not c)) ≡ true → (a ≡ false) × (b ≡ true) × (c ≡ false)
and_parts a b c h = ground (arith, h)

-- What a test that passes read.
is_candidate_sound :
    (m r l : Option NodeCondition)
    → is_candidate m r l ≡ true
    → (x y z : NodeCondition) × (m ≡ some x)
      × (r ≡ some y)
      × (l ≡ some z)
      × (x.status ≢ condition_true)
      × (y.status ≡ condition_true)
      × (z.status ≢ condition_true)
is_candidate_sound (some x) (some y) (some z) h =
    let (a, b, c) =
      and_parts (status_eq x.status condition_true) (status_eq y.status condition_true)
        (status_eq z.status condition_true) h in
    (
      x,
      y,
      z,
      refl,
      refl,
      refl,
      status_eq-≢ x.status a,
      status_eq→≡ y.status b,
      status_eq-≢ z.status c,
    )
is_candidate_sound (some x) (some y) none h = cc
is_candidate_sound (some x) none l h = cc
is_candidate_sound none r l h = cc

module _ (nodes : List NodeStatus) (host : Text) where
  is_good_node-IsGoodNode : is_good_node nodes host ≡ true → IsGoodNode nodes host
  unfolding is_good_node
  is_good_node-IsGoodNode h =
      let (x, y, z, a, b, c, d, e, f) =
        is_candidate_sound (get_node_condition host master nodes).1
          (get_node_condition host replicating nodes).1 (get_node_condition host lagged nodes).1
          h in
      record {
        on_master = x;
        on_replicating = y;
        on_lagged = z;
        has_master = a;
        has_replicating = b;
        has_lagged = c;
        is_replica = d;
        replicates = e;
        is_in_time = f;
      }

  IsGoodNode-is_good_node : IsGoodNode nodes host → is_good_node nodes host ≡ true
  unfolding is_good_node
  IsGoodNode-is_good_node g =
      rw
        (
          g.has_master,
          g.has_replicating,
          g.has_lagged,
          ≢-status_eq g.on_master.status g.is_replica,
          g.replicates,
          ≢-status_eq g.on_lagged.status g.is_in_time,
        )
        refl

  is_good_node-not : is_good_node nodes host ≡ false → ¬ (IsGoodNode nodes host)
  is_good_node-not h g = let yes_too = IsGoodNode-is_good_node g in cc

-- An element that is found stands behind others that do not pass.
module _ {A : Type 0} (p : A → Bool) where
  find_cases :
      (xs : List A)
      → ((x : A) × (before after : List A) × (find p xs ≡ some x)
          × (xs ≡ before ++ x ∷ after)
          × (p x ≡ true)
          × All (λ y. p y ≡ false) before)
        ⊎ ((find p xs ≡ none) × All (λ y. p y ≡ false) xs)
  find_cases [] = inr (refl, tt)
  find_cases (x ∷ xs) = elim (Bool-cases (p x)) [
    | inl passes ↦ inl (x, [], xs, rw passes refl, refl, passes, tt)
    | inr fails ↦ elim (find_cases xs) [
      | inl (y, before, after, found, split, passes, others) ↦
          inl
            (y, x ∷ before, after, rw fails found, ap (λ ys. x ∷ ys) split, passes, (fails, others))
      | inr (missing, others) ↦ inr (rw fails missing, (fails, others))
    ]
  ]

none_good :
    (nodes xs : List NodeStatus)
    → All (λ (ns : NodeStatus). is_good_node nodes ns.name ≡ false) xs
    → All (λ (ns : NodeStatus). ¬ (IsGoodNode nodes ns.name)) xs
none_good nodes [] h = tt
none_good nodes (ns ∷ xs) h = (is_good_node-not nodes ns.name h.0, none_good nodes xs h.1)

-- A backup is taken from the first node that is known not to be the master, to replicate and not to lag,
-- or from the host of the master if there is no such node.
pub get_backup_candidate_cases :
    (c : MysqlCluster)
    → ((ns : NodeStatus) × (before after : List NodeStatus) × (c.status.nodes
          ≡ before ++ ns ∷ after)
        × IsGoodNode c.status.nodes ns.name
        × All (λ (x : NodeStatus). ¬ (IsGoodNode c.status.nodes x.name)) before
        × (get_backup_candidate c ≡ ns.name))
      ⊎ (All (λ (x : NodeStatus). ¬ (IsGoodNode c.status.nodes x.name)) c.status.nodes
          × (get_backup_candidate c ≡ get_master_host c))
unfolding get_backup_candidate
get_backup_candidate_cases c =
    let nodes = c.status.nodes in
    elim (find_cases (λ (ns : NodeStatus). is_good_node nodes ns.name) nodes) [
      | inl (ns, before, after, found, split, passes, others) ↦ inl (
        ns,
        before,
        after,
        split,
        is_good_node-IsGoodNode nodes ns.name passes,
        none_good nodes before others,
        ap (candidate_or (get_master_host c)) found,
      )
      | inr (missing, others) ↦
          inr (none_good nodes nodes others, ap (candidate_or (get_master_host c)) missing)
    ]
