-- ===== src/Cluster/Conditions.antt =====
-- pkg/internal/mysqlcluster/status.go: the conditions of the cluster. `now` is `time.Now()`.
use mysql_operator.Base.{
  ℕ, ◌≡◌, refl, Bool, true, false, Option, none, some, List, [], ◌∷◌, ◌++◌, arith, Text, length,
  get_elem?, modify, index_of, find, any, ◌==◌, if◌then◌else◌, upsert, write_at_index-eq-upsert,
  get_elem?-index_of, count_if, ◌≤◌, Bool-cases, inl, inr, find-upsert_self, find-upsert_other,
  count_if-upsert_self, count_if-upsert_other, count_if-upsert_other,
}
use mysql_operator.Cluster.{
  ConditionStatus, condition_true, status_eq, ClusterConditionType, ready, failover_ack, read_only,
  failover_in_progress, upgrade_blocked, ClusterCondition, MysqlCluster,
}

abbrev type_index : ClusterConditionType → ℕ
type_index ready = 0
type_index failover_ack = 1
type_index read_only = 2
type_index failover_in_progress = 3
type_index upgrade_blocked = 4

-- `==` on the constants.
abbrev pub type_eq : ClusterConditionType → ClusterConditionType → Bool
type_eq t u = type_index t == type_index u

abbrev pub has_type : ClusterConditionType → ClusterCondition → Bool
has_type t cond = type_eq cond.type t

-- The index, or `none` for `(0, false)`.
unfoldable pub cond_index : ClusterConditionType → List ClusterCondition → Option ℕ
cond_index t conds = index_of (has_type t) conds

module _ (now : ℕ) (t : ClusterConditionType) (s : ConditionStatus) (reason message : Text) where
  abbrev pub new_condition : ClusterCondition
  new_condition = record {
    type = t;
    status = s;
    reason = reason;
    message = message;
    last_transition_time = now;
  }

  -- The new condition keeps the old transition time unless the status changes.
  abbrev pub renewed : ClusterCondition → ClusterCondition
  renewed cond = record {
    type = t;
    status = s;
    reason = reason;
    message = message;
    last_transition_time = if status_eq cond.status s then cond.last_transition_time else now;
  }

  unfoldable pub updated_conditions : List ClusterCondition → List ClusterCondition
  unfolding cond_index
  updated_conditions conds =
      if length conds == 0 then new_condition ∷ [] else elim (cond_index t conds) [
        | some i ↦ modify conds i renewed
        | none ↦ conds ++ new_condition ∷ []
      ]

  unfoldable pub update_status_condition : MysqlCluster → MysqlCluster
  update_status_condition c = record c {
    status = record c.status { conditions = updated_conditions c.status.conditions };
  }

unfoldable pub get_cluster_condition : ClusterConditionType → MysqlCluster → Option ClusterCondition
unfolding cond_index
get_cluster_condition t c = elim (cond_index t c.status.conditions) [
  | some i ↦ get_elem? c.status.conditions i
  | none ↦ none
]

-- The cluster has the condition and it is true.
abbrev pub condition_is_true : ClusterConditionType → MysqlCluster → Bool
unfolding get_cluster_condition
condition_is_true t c = elim (get_cluster_condition t c) [
  | none ↦ false
  | some cond ↦ status_eq cond.status condition_true
]

-- The loop of `IsClusterReady`.
unfoldable pub is_cluster_ready : MysqlCluster → Bool
is_cluster_ready c =
    any
      (λ (cond : ClusterCondition). elim (type_eq cond.type ready) [
        | true ↦ status_eq cond.status condition_true
        | false ↦ false
      ])
      c.status.conditions

-- The same by one walk over the list.
type_eq→≡ : (t u : ClusterConditionType) → type_eq t u ≡ true → t ≡ u
type_eq→≡ t u h = ground arith

updated_conditions-eq-upsert :
    (now : ℕ) (t : ClusterConditionType) (s : ConditionStatus) (reason message : Text)
    (conds : List ClusterCondition)
    → updated_conditions now t s reason message conds
      ≡ upsert
          (has_type t)
          (renewed now t s reason message)
          (new_condition now t s reason message)
          conds
unfolding updated_conditions
updated_conditions-eq-upsert now t s reason message [] = refl
updated_conditions-eq-upsert now t s reason message (c ∷ cs) = ground (
  arith,
  write_at_index-eq-upsert (has_type t) (renewed now t s reason message)
      (new_condition now t s reason message) (c ∷ cs),
)

pub get_cluster_condition-eq-find :
    (t : ClusterConditionType) (c : MysqlCluster)
    → get_cluster_condition t c ≡ find (has_type t) c.status.conditions
unfolding get_cluster_condition
get_cluster_condition-eq-find t c = get_elem?-index_of (has_type t) c.status.conditions

-- What a reader finds after an update.
abbrev pub after_update :
    ℕ
    → ClusterConditionType
    → ConditionStatus
    → Text
    → Text
    → Option ClusterCondition
    → Option ClusterCondition
after_update now t s reason message old = elim old [
  | some cond ↦ some (renewed now t s reason message cond)
  | none ↦ some (new_condition now t s reason message)
]

type_eq_refl : (t : ClusterConditionType) → type_eq t t ≡ true
type_eq_refl t = ground arith

find-upsert :
    (now : ℕ) (t u : ClusterConditionType) (s : ConditionStatus) (reason message : Text)
    (conds : List ClusterCondition)
    → find (has_type u) (
        upsert
          (has_type t)
          (renewed now t s reason message)
          (new_condition now t s reason message)
          conds)
      ≡ (if type_eq t u
          then after_update now t s reason message (find (has_type t) conds)
          else find (has_type u) conds)
find-upsert now t u s reason message conds = elim (Bool-cases (type_eq t u)) [
  | inl same ↦
      let e : t ≡ u = type_eq→≡ t u same in
      rw (← e) (
        rw (type_eq_refl t) (
          find-upsert_self (has_type t) (renewed now t s reason message)
            (new_condition now t s reason message) (type_eq_refl t) (λ _ _. type_eq_refl t) conds))
  | inr other ↦ rw other (
      find-upsert_other (has_type t) (renewed now t s reason message)
        (new_condition now t s reason message) (has_type u) other (λ _ _. other)
        (λ x h. ground arith) conds)
]

-- After an update of the condition of type `t`, the condition of that type has the given status,
-- reason and message, and keeps its transition time exactly when the status did not change (a new
-- one has the present time); the conditions of all other types are as before.
pub get_cluster_condition-update :
    (now : ℕ) (t u : ClusterConditionType) (s : ConditionStatus) (reason message : Text)
    (c : MysqlCluster)
    → get_cluster_condition u (update_status_condition now t s reason message c) ≡ (
        if type_eq t u
        then after_update now t s reason message (get_cluster_condition t c)
        else get_cluster_condition u c)
unfolding update_status_condition
get_cluster_condition-update now t u s reason message c =
    rw
      (
        get_cluster_condition-eq-find u (update_status_condition now t s reason message c),
        get_cluster_condition-eq-find u c,
        get_cluster_condition-eq-find t c,
        updated_conditions-eq-upsert,
      )
      (find-upsert now t u s reason message c.status.conditions)

-- Each type occurs at most once.
abbrev pub UniqueTypes : List ClusterCondition → Type 0
UniqueTypes conds = (u : ClusterConditionType) → count_if (has_type u) conds ≤ 1

-- An update keeps the types of the conditions distinct.
update_status_condition-UniqueTypes :
    (now : ℕ) (t : ClusterConditionType) (s : ConditionStatus) (reason message : Text)
    (c : MysqlCluster)
    → UniqueTypes c.status.conditions
    → UniqueTypes (update_status_condition now t s reason message c).status.conditions
unfolding update_status_condition
update_status_condition-UniqueTypes now t s reason message c h u =
    let conds = c.status.conditions in
    let f = renewed now t s reason message in
    let new = new_condition now t s reason message in
    rw updated_conditions-eq-upsert (elim (Bool-cases (type_eq t u)) [
      | inl same ↦
          let e : t ≡ u = type_eq→≡ t u same in
          rw (← e) (
            omega (
              arith,
              count_if-upsert_self (has_type t) f new (type_eq_refl t) (λ _ _. type_eq_refl t) conds
                  (h t),
            ))
      | inr other ↦ omega (
        arith,
        h u,
        count_if-upsert_other (has_type t) f new (has_type u) other (λ _ _. other)
            (λ x k. ground arith) conds,
      )
    ])
