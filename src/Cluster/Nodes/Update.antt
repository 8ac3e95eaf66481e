-- ===== src/Cluster/Nodes/Update.antt =====
-- What readers find after an update of a node's condition (pkg/internal/mysqlcluster/status.go).
use mysql_operator.Base.{
  ℕ, ◌≡◌, refl, ap, true, false, Option, none, some, List, [], ◌∷◌, ◌++◌, arith, Text, text_eq,
  text_eq_iff, text_eq_refl, length, modify, find, if◌then◌else◌, upsert, write_at_index-eq-upsert,
  get_elem?-index_of, Bool-cases, Option-cases, inl, inr, find-upsert_self, find-upsert_other, ◌&&◌,
}
use mysql_operator.Cluster.{ConditionStatus, NodeConditionType, NodeCondition, NodeStatus}
use mysql_operator.Cluster.Nodes.{
  node_type_eq, has_node_type, has_name, fresh_node, new_node_condition, renewed_node_condition,
  update_node_condition, updated_nodes, condition_of, find_condition,
}

pub condition_of-eq-find :
    (t : NodeConditionType) (ns : NodeStatus)
    → condition_of t ns ≡ find (has_node_type t) ns.conditions
unfolding condition_of
condition_of-eq-find t ns = get_elem?-index_of (has_node_type t) ns.conditions

upsert_cases :
    (now : ℕ) (t : NodeConditionType) (s : ConditionStatus) (ns : NodeStatus)
    (conds : List NodeCondition)
    → ns.conditions ≡ conds
    → (update_node_condition now t s ns).0.conditions
      ≡ upsert (has_node_type t) (renewed_node_condition now t s) (new_node_condition now t s) conds
unfolding update_node_condition
upsert_cases now t s ns [] e = ground arith
upsert_cases now t s ns (c ∷ cs) e = ground (
  arith,
  write_at_index-eq-upsert (has_node_type t) (renewed_node_condition now t s)
      (new_node_condition now t s) (c ∷ cs),
)

update_node_condition-eq-upsert :
    (now : ℕ) (t : NodeConditionType) (s : ConditionStatus) (ns : NodeStatus)
    → (update_node_condition now t s ns).0.conditions
      ≡ upsert
          (has_node_type t)
          (renewed_node_condition now t s)
          (new_node_condition now t s)
          ns.conditions
update_node_condition-eq-upsert now t s ns = upsert_cases now t s ns ns.conditions refl

update_node_condition-name :
    (now : ℕ) (t : NodeConditionType) (s : ConditionStatus) (ns : NodeStatus)
    → (update_node_condition now t s ns).0.name ≡ ns.name
unfolding update_node_condition
update_node_condition-name now t s ns = ground arith

modify-last {ℓ} :
    {A : Type ℓ} (xs : List A) (x : A) (f : A → A)
    → modify (xs ++ x ∷ []) (length xs) f ≡ xs ++ f x ∷ []
modify-last [] x f = refl
modify-last (y ∷ ys) x f = ap (λ t. y ∷ t) (modify-last ys x f)

updated_nodes-eq-upsert :
    (now : ℕ) (host : Text) (t : NodeConditionType) (s : ConditionStatus) (nodes : List NodeStatus)
    → updated_nodes now host t s nodes
      ≡ upsert
          (has_name host)
          (λ ns. (update_node_condition now t s ns).0)
          (update_node_condition now t s (fresh_node host)).0
          nodes
unfolding updated_nodes
updated_nodes-eq-upsert now host t s nodes = ground (
  arith,
  write_at_index-eq-upsert (has_name host) (λ ns. (update_node_condition now t s ns).0)
      (update_node_condition now t s (fresh_node host)).0 nodes,
  modify-last nodes (fresh_node host) (λ ns. (update_node_condition now t s ns).0),
)

-- What a reader finds of a node's condition after an update of it.
abbrev pub after_node_update :
    ℕ → NodeConditionType → ConditionStatus → Option NodeCondition → Option NodeCondition
after_node_update now t s old = elim old [
  | some cond ↦ some (renewed_node_condition now t s cond)
  | none ↦ some (new_node_condition now t s)
]

node_type_eq→≡ : (t u : NodeConditionType) → node_type_eq t u ≡ true → t ≡ u
node_type_eq→≡ t u h = ground arith

node_type_eq_refl : (t : NodeConditionType) → node_type_eq t t ≡ true
node_type_eq_refl t = ground arith

find-upsert :
    (now : ℕ) (t u : NodeConditionType) (s : ConditionStatus) (ns : NodeStatus)
    → find (has_node_type u) (update_node_condition now t s ns).0.conditions ≡ (
        if node_type_eq t u
        then after_node_update now t s (find (has_node_type t) ns.conditions)
        else find (has_node_type u) ns.conditions)
find-upsert now t u s ns = elim (Bool-cases (node_type_eq t u)) [
  | inl same ↦
      let e : t ≡ u = node_type_eq→≡ t u same in
      rw (← e) (
        rw (update_node_condition-eq-upsert, node_type_eq_refl t)
          (find-upsert_self (has_node_type t) (renewed_node_condition now t s)
            (new_node_condition now t s) (node_type_eq_refl t) (λ _ _. node_type_eq_refl t)
            ns.conditions))
  | inr other ↦
      rw (update_node_condition-eq-upsert, other)
        (find-upsert_other (has_node_type t) (renewed_node_condition now t s)
          (new_node_condition now t s) (has_node_type u) other (λ _ _. other) (λ x h. ground arith)
          ns.conditions)
]

module _ (now : ℕ) (host : Text) (t : NodeConditionType) (s : ConditionStatus) where
  abbrev update : NodeStatus → NodeStatus
  update ns = (update_node_condition now t s ns).0

  has_name-update : (h : Text) (ns : NodeStatus) → has_name h (update ns) ≡ has_name h ns
  has_name-update h ns = rw (update_node_condition-name now t s ns)

  find-updated_nodes :
      (h : Text) (nodes : List NodeStatus)
      → find (has_name h) (updated_nodes now host t s nodes) ≡ (
          if text_eq host h
          then elim (find (has_name host) nodes) as (λ _. Option NodeStatus) [
            | some ns ↦ some (update ns)
            | none ↦ some (update (fresh_node host))
          ]
          else find (has_name h) nodes)
  find-updated_nodes h nodes = elim (Bool-cases (text_eq host h)) [
    | inl same ↦
        let e : host ≡ h = (text_eq_iff host h).0 same in
        rw (← e) (
          rw (updated_nodes-eq-upsert, text_eq_refl host)
            (find-upsert_self (has_name host) update (update (fresh_node host))
              (rw (has_name-update host (fresh_node host)) (text_eq_refl host))
              (λ x p. rw (has_name-update host x) p) nodes))
    | inr other ↦
        rw (updated_nodes-eq-upsert, other)
          (find-upsert_other (has_name host) update (update (fresh_node host)) (has_name h)
            (rw (has_name-update h (fresh_node host)) other)
            (λ x p. rw (has_name-update h x) (apart x p other)) (λ x p. apart x p other) nodes)
  ]
    where
      apart :
          (x : NodeStatus) → has_name host x ≡ true → text_eq host h ≡ false → has_name h x ≡ false
      apart x p o = ground (arith, text_eq_iff x.name host)

  -- After an update of the condition of type `t` of the node `host`, that condition has the given
  -- status, and keeps its transition time exactly when the status did not change; every other
  -- condition, of this node and of all others, is as before.
  pub find_condition-updated_nodes :
      (h : Text) (u : NodeConditionType) (nodes : List NodeStatus)
      → find_condition h u (updated_nodes now host t s nodes) ≡ (
          if text_eq host h && node_type_eq t u
          then after_node_update now t s (find_condition host t nodes)
          else find_condition h u nodes)
  find_condition-updated_nodes h u nodes = elim (Option-cases (find (has_name host) nodes)) [
    | inl e ↦ ground (
      arith,
      text_eq_iff host h,
      find-updated_nodes h nodes,
      find-upsert now t u s (fresh_node host),
    )
    | inr (ns, e) ↦
        ground (arith, text_eq_iff host h, find-updated_nodes h nodes, find-upsert now t u s ns)
  ]
