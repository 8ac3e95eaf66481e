-- ===== src/Orchestrator/Topology.antt =====
-- pkg/controller/orchestrator/orchestrator_reconcile.go: the master that the topology shows.
-- `get_master_for_node` takes fuel for its recursion, and `none` means that the fuel ran out;
-- `Topology.Fuel` shows that one more than the number of instances is enough.
pub mod Fuel
pub mod Chain
use mysql_operator.Base.{
  ℕ, zero, suc, ◌+◌, Bool, true, false, ◌&&◌, not, Option, none, some, List, [], ◌∷◌, ◌++◌, Text,
  text_eq, any, all, find, length, if◌then◌else◌,
}
use mysql_operator.Orchestrator.{Instance, key_eq}

unfoldable pub get_instance : List Instance → Text → Option Instance
get_instance is host = find (λ (i : Instance). text_eq host i.key.hostname) is

abbrev pub is_set : Text → Bool
is_set [] = false
is_set (c ∷ s) = true

-- The node replicates from a master that is to be followed.
abbrev pub follows : Instance → Bool
follows node =
    is_set node.master_key.hostname && (not node.is_co_master && not node.is_detached_master)

abbrev pub was_visited : List Instance → Instance → Bool
was_visited visited node = any (λ (vn : Instance). key_eq vn.key node.key) visited

unfoldable pub get_master_for_node :
    ℕ → List Instance → Instance → List Instance → Option (Option Instance)
get_master_for_node zero is node visited = none
get_master_for_node (suc fuel) is node visited =
    if was_visited visited node
    then some none
    else if follows node
    then elim (get_instance is node.master_key.hostname) as (λ _. Option (Option Instance)) [
      | none ↦ some none
      | some master ↦ get_master_for_node fuel is master (visited ++ node ∷ [])
    ]
    else if node.is_co_master
    then some (get_instance is node.master_key.hostname)
    else some (some node)

-- `is.getMasterForNode(&node, []*orc.Instance{})`.
unfoldable pub master_for_node : List Instance → Instance → Option Instance
master_for_node is node = elim (get_master_for_node (suc (length is)) is node []) [
  | none ↦ none
  | some master ↦ master
]

-- The first loop of `DetermineMaster`: a node without a master ends it.
unfoldable pub masters_for_nodes : List Instance → List Instance → Option (List Instance)
masters_for_nodes is [] = some []
masters_for_nodes is (node ∷ nodes) = elim (master_for_node is node) [
  | none ↦ none
  | some master ↦ elim (masters_for_nodes is nodes) [
    | none ↦ none
    | some masters ↦ some (master ∷ masters)
  ]
]

-- The second loop: all masters are on the host of the first.
agreed_master : List Instance → Option Instance
agreed_master [] = none
agreed_master (first ∷ rest) =
    if all (λ (m : Instance). text_eq m.key.hostname first.key.hostname) (first ∷ rest)
    then some first
    else none

unfoldable pub determine_master : List Instance → Option Instance
unfolding masters_for_nodes agreed_master
determine_master is = elim (masters_for_nodes is is) [
  | none ↦ none
  | some masters ↦ agreed_master masters
]
