-- ===== src/Cluster/Nodes.antt =====
-- pkg/internal/mysqlcluster/status.go: the status of the nodes and their conditions. Asking for a
-- node that has no status appends an empty one, so readers return the cluster too.
pub mod Update
pub mod Reading
use mysql_operator.Base.{
  ℕ, Bool, true, false, Option, none, some, List, [], ◌∷◌, ◌++◌, Text, text_eq, length, get_elem?,
  modify, index_of, find, ◌==◌, if◌then◌else◌,
}
use mysql_operator.Cluster.{
  ConditionStatus, condition_true, status_eq, NodeConditionType, lagged, replicating, master,
  node_read_only, NodeCondition, NodeStatus, MysqlCluster,
}

abbrev node_type_index : NodeConditionType → ℕ
node_type_index lagged = 0
node_type_index replicating = 1
node_type_index master = 2
node_type_index node_read_only = 3

abbrev pub node_type_eq : NodeConditionType → NodeConditionType → Bool
node_type_eq t u = node_type_index t == node_type_index u

abbrev pub has_node_type : NodeConditionType → NodeCondition → Bool
has_node_type t cond = node_type_eq cond.type t

abbrev pub has_name : Text → NodeStatus → Bool
has_name host ns = text_eq ns.name host

abbrev pub fresh_node : Text → NodeStatus
fresh_node host = record { name = host; conditions = [] }

unfoldable pub node_condition_index : NodeConditionType → NodeStatus → Option ℕ
node_condition_index t ns = index_of (has_node_type t) ns.conditions

module _ (now : ℕ) (t : NodeConditionType) (s : ConditionStatus) where
  abbrev pub new_node_condition : NodeCondition
  new_node_condition = record { type = t; status = s; last_transition_time = now }

  abbrev pub renewed_node_condition : NodeCondition → NodeCondition
  renewed_node_condition cond = record {
    type = t;
    status = s;
    last_transition_time = if status_eq cond.status s then cond.last_transition_time else now;
  }

  -- The node and whether its condition changed.
  unfoldable pub update_node_condition : NodeStatus → NodeStatus × Bool
  unfolding node_condition_index
  update_node_condition ns =
      if length ns.conditions == 0
      then (record ns { conditions = new_node_condition ∷ [] }, true)
      else elim (node_condition_index t ns) [
        | some i ↦ (
          record ns { conditions = modify ns.conditions i renewed_node_condition },
          elim (get_elem? ns.conditions i) [
            | some cond ↦ if status_eq cond.status s then false else true
            | none ↦ false
          ],
        )
        | none ↦ (record ns { conditions = ns.conditions ++ new_node_condition ∷ [] }, true)
      ]

-- The nodes and the index of the named one. A missing one is appended, and the second search, the
-- recursive call, finds it behind the others.
unfoldable pub get_node_status_index : Text → List NodeStatus → List NodeStatus × ℕ
get_node_status_index host nodes = elim (index_of (has_name host) nodes) [
  | some i ↦ (nodes, i)
  | none ↦ (nodes ++ fresh_node host ∷ [], length nodes)
]

abbrev pub with_nodes : List NodeStatus → MysqlCluster → MysqlCluster
with_nodes nodes c = record c { status = record c.status { nodes = nodes } }

unfoldable pub updated_nodes :
    ℕ → Text → NodeConditionType → ConditionStatus → List NodeStatus → List NodeStatus
unfolding get_node_status_index
updated_nodes now host t s nodes =
    let (nodes', i) = get_node_status_index host nodes in
    modify nodes' i (λ ns. (update_node_condition now t s ns).0)

unfoldable pub update_node_condition_status :
    ℕ → Text → NodeConditionType → ConditionStatus → MysqlCluster → MysqlCluster
update_node_condition_status now host t s c =
    with_nodes (updated_nodes now host t s c.status.nodes) c

unfoldable pub get_node_status_for : Text → List NodeStatus → List NodeStatus × Option NodeStatus
unfolding get_node_status_index
get_node_status_for host nodes =
    let (nodes', i) = get_node_status_index host nodes in (nodes', get_elem? nodes' i)

unfoldable pub condition_of : NodeConditionType → NodeStatus → Option NodeCondition
unfolding node_condition_index
condition_of t ns = elim (node_condition_index t ns) [
  | some i ↦ get_elem? ns.conditions i
  | none ↦ none
]

unfoldable pub get_node_condition :
    Text → NodeConditionType → List NodeStatus → List NodeStatus × Option NodeCondition
unfolding get_node_status_index
get_node_condition host t nodes =
    let (nodes', i) = get_node_status_index host nodes in
    (nodes', elim (get_elem? nodes' i) [ some ns ↦ condition_of t ns | none ↦ none ])

-- `getCondAsBool` of the orchestrator's reconciler and of the cluster controller.
unfoldable pub get_cond_as_bool : NodeConditionType → NodeStatus → Bool
unfolding condition_of
get_cond_as_bool t ns = elim (condition_of t ns) [
  | some cond ↦ status_eq cond.status condition_true
  | none ↦ false
]

-- The node has the condition. The index of a node that was asked for is never out of range.
abbrev pub holds : NodeConditionType → Option NodeStatus → Bool
holds t ns = elim ns [ none ↦ false | some n ↦ get_cond_as_bool t n ]

-- The condition of type `t` of the node `host`, without the index.
abbrev pub find_condition : Text → NodeConditionType → List NodeStatus → Option NodeCondition
find_condition host t nodes = elim (find (has_name host) nodes) [
  | some ns ↦ find (has_node_type t) ns.conditions
  | none ↦ none
]
