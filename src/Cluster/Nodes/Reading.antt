-- ===== src/Cluster/Nodes/Reading.antt =====
-- What readers of the nodes find: a node's status, and its conditions. Asking for a node that is
-- missing appends it, which changes no answer.
use mysql_operator.Base.{
  ℕ, suc, ◌≡◌, refl, ap, ◌∙◌, Bool, false, Option, none, some, List, [], ◌∷◌, ◌++◌, arith, Text,
  text_eq, index_of, get_elem?, length, find, if◌then◌else◌, Bool-cases, Option-cases, inl, inr,
  ◌⊎◌,
}
use mysql_operator.Cluster.{NodeStatus, condition_true, status_eq, NodeConditionType}
use mysql_operator.Cluster.Nodes.{
  get_node_status_for, get_node_condition, get_cond_as_bool, has_name, has_node_type, fresh_node,
  find_condition, holds,
}
use mysql_operator.Cluster.Nodes.Update.{condition_of-eq-find}

-- The condition of type `t` of the node `host` is true.
abbrev pub node_is : NodeConditionType → Text → List NodeStatus → Bool
node_is t host nodes = elim (find_condition host t nodes) [
  | some cond ↦ status_eq cond.status condition_true
  | none ↦ false
]

find-append_fresh :
    (h host : Text) (nodes : List NodeStatus)
    → find (has_name h) (nodes ++ fresh_node host ∷ [])
      ≡ elim (find (has_name h) nodes) as (λ _. Option NodeStatus) [
        | some ns ↦ some ns
        | none ↦ if text_eq host h then some (fresh_node host) else none
      ]
find-append_fresh h host [] = refl
find-append_fresh h host (x ∷ nodes) = ground (arith, find-append_fresh h host nodes)

get_elem?-last {ℓ} :
    {A : Type ℓ} (xs : List A) (x : A) → get_elem? (xs ++ x ∷ []) (length xs) ≡ some x
get_elem?-last [] x = refl
get_elem?-last (y ∷ xs) x = get_elem?-last xs x

get_cond_as_bool-eq-find :
    (t : NodeConditionType) (ns : NodeStatus)
    → get_cond_as_bool t ns ≡ elim (find (has_node_type t) ns.conditions) as (λ _. Bool) [
      | some cond ↦ status_eq cond.status condition_true
      | none ↦ false
    ]
unfolding get_cond_as_bool
get_cond_as_bool-eq-find t ns = rw (get_cond_as_bool, condition_of-eq-find t ns)

index_of_cases {ℓ} :
    {A : Type ℓ} (p : A → Bool) (xs : List A)
    → ((find p xs ≡ none) × (index_of p xs ≡ none))
      ⊎ ((x : A) × (i : ℕ) × (find p xs ≡ some x)
          × (index_of p xs ≡ some i)
          × (get_elem? xs i ≡ some x))
index_of_cases p [] = inl (refl, refl)
index_of_cases p (x ∷ xs) = elim (Bool-cases (p x)) [
  | inl passes ↦ inr (x, 0, rw passes, rw passes, refl)
  | inr fails ↦ elim (index_of_cases p xs) [
    | inl (e, f) ↦ inl (rw (fails, e), rw (fails, f))
    | inr (y, i, e, f, g) ↦ inr (y, suc i, rw (fails, e), rw (fails, f), g)
  ]
]

module _ (host : Text) (nodes : List NodeStatus) where
  get_node_status_for_lem :
      get_node_status_for host nodes
      ≡ elim (find (has_name host) nodes) as (λ _. List NodeStatus × Option NodeStatus) [
        | some ns ↦ (nodes, some ns)
        | none ↦ (nodes ++ fresh_node host ∷ [], some (fresh_node host))
      ]
  unfolding get_node_status_for
  get_node_status_for_lem = elim (index_of_cases (has_name host) nodes) [
    | inl (e, f) ↦ ground (arith, get_elem?-last nodes (fresh_node host))
    | inr (ns, i, e, f, g) ↦ ground (arith)
  ]

  pub get_node_status_for-holds :
      (t : NodeConditionType) → holds t (get_node_status_for host nodes).1 ≡ node_is t host nodes
  get_node_status_for-holds t = elim (Option-cases (find (has_name host) nodes)) [
    | inl e ↦ ground (arith, get_node_status_for_lem, get_cond_as_bool-eq-find t (fresh_node host))
    | inr (ns, e) ↦ ground (arith, get_node_status_for_lem, get_cond_as_bool-eq-find t ns)
  ]

  pub get_node_status_for-node_is :
      (t : NodeConditionType) (h : Text)
      → node_is t h (get_node_status_for host nodes).0 ≡ node_is t h nodes
  get_node_status_for-node_is t h =
      ground (arith, get_node_status_for_lem, find-append_fresh h host nodes)

  find_condition-get_node_status_for :
      (t : NodeConditionType) (h : Text)
      → find_condition h t (get_node_status_for host nodes).0 ≡ find_condition h t nodes
  find_condition-get_node_status_for t h =
      ground (arith, get_node_status_for_lem, find-append_fresh h host nodes)

  -- The condition that is read is that of the first node with the name, if there is one.
  get_node_condition_lem :
      (t : NodeConditionType)
      → get_node_condition host t nodes
        ≡ ((get_node_status_for host nodes).0, find_condition host t nodes)
  unfolding get_node_condition get_node_status_for
  get_node_condition_lem t = elim (index_of_cases (has_name host) nodes) [
    | inl (e, f) ↦
        ground
          (arith, get_elem?-last nodes (fresh_node host), condition_of-eq-find t (fresh_node host))
    | inr (ns, i, e, f, g) ↦ ground (arith, condition_of-eq-find t ns)
  ]

-- Reading one condition leaves the answers for all others.
module _ (host : Text) (nodes : List NodeStatus) (t : NodeConditionType) where
  pub get_node_condition-found : (get_node_condition host t nodes).1 ≡ find_condition host t nodes
  get_node_condition-found = ap (λ r. r.1) (get_node_condition_lem host nodes t)

  pub get_node_condition-keeps :
      (u : NodeConditionType) (h : Text)
      → find_condition h u (get_node_condition host t nodes).0 ≡ find_condition h u nodes
  get_node_condition-keeps u h =
      ap (λ r. find_condition h u r.0) (get_node_condition_lem host nodes t)
      ∙ find_condition-get_node_status_for host nodes u h
