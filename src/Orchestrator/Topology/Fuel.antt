-- ===== src/Orchestrator/Topology/Fuel.antt =====
-- The walk to a node's master ends: it never visits an instance twice.
use mysql_operator.Base.{
  ℕ, zero, suc, ◌≡◌, ◌≤◌, ◌<◌, inl, inr, Bool, true, false, ◌||◌, not, Option, none, some, List, [],
  ◌∷◌, ◌++◌, arith, Text, text_eq, text_eq_refl, count_if, find_sound, length, any-append_one,
  count_if_strict, count_if-le_length, Bool-cases, Option-cases,
}
use mathlib.Core.List.{Memᴰ}
use mysql_operator.Orchestrator.{Instance, InstanceKey, key_eq}
use mysql_operator.Orchestrator.Topology.{
  get_instance, follows, was_visited, get_master_for_node, master_for_node,
}

-- How many instances have not been visited.
abbrev unvisited : List Instance → List Instance → ℕ
unvisited is visited = count_if (λ i. not (was_visited visited i)) is

key_eq_refl : (k : InstanceKey) → key_eq k k ≡ true
key_eq_refl k = ground (arith, text_eq_refl k.hostname)

unvisited-decreases :
    (is visited : List Instance) (node : Instance)
    → Memᴰ node is
    → was_visited visited node ≡ false
    → unvisited is (visited ++ node ∷ []) < unvisited is visited
unvisited-decreases is visited node m h =
    count_if_strict (λ i. not (was_visited visited i))
      (λ i. not (was_visited (visited ++ node ∷ []) i))
      (λ x k.
        not_or (was_visited visited x) (key_eq node.key x.key)
          (rw (any-append_one (λ (vn : Instance). key_eq vn.key x.key) visited node) at k))
      is m (rw h)
      (rw
        (
          any-append_one (λ (vn : Instance). key_eq vn.key node.key) visited node,
          key_eq_refl node.key,
        )
        (or_true (was_visited visited node)))
  where
    not_or : (a b : Bool) → not (a || b) ≡ true → not a ≡ true
    not_or a b k = ground arith

    or_true : (a : Bool) → not (a || true) ≡ false
    or_true a = ground arith

get_instance-Memᴰ :
    (is : List Instance) (host : Text) (m : Instance) → get_instance is host ≡ some m → Memᴰ m is
unfolding get_instance
get_instance-Memᴰ is host m h =
    (find_sound (λ (i : Instance). text_eq host i.key.hostname) is m h).0

get_master_for_node-ends :
    (fuel : ℕ) (is : List Instance) (node : Instance) (visited : List Instance)
    → Memᴰ node is
    → unvisited is visited < fuel
    → (r : Option Instance) × (get_master_for_node fuel is node visited ≡ some r)
unfolding get_master_for_node
get_master_for_node-ends zero is node visited m h = elim h [ ]
get_master_for_node-ends (suc fuel) is node visited m h =
    elim (Bool-cases (was_visited visited node)) [
      | inl seen ↦ (none, rw seen)
      | inr new ↦ elim (Bool-cases (follows node)) [
        | inl linked ↦ elim (Option-cases (get_instance is node.master_key.hostname)) [
          | inl missing ↦ (none, rw (new, linked, missing))
          | inr (master, found) ↦
              let (r, e) =
                get_master_for_node-ends fuel is master (visited ++ node ∷ [])
                  (get_instance-Memᴰ is node.master_key.hostname master found)
                  (omega (arith, unvisited-decreases is visited node m new)) in
              (r, rw (new, linked, found) e)
        ]
        | inr top ↦ elim (Bool-cases node.is_co_master) [
          | inl co ↦ (get_instance is node.master_key.hostname, rw (new, top, co))
          | inr lone ↦ (some node, rw (new, top, lone))
        ]
      ]
    ]

-- More fuel than an answer needed gives the same answer.
get_master_for_node_mono :
    (fuel : ℕ) (is : List Instance) (node : Instance) (visited : List Instance)
    (r : Option Instance) (more : ℕ)
    → get_master_for_node fuel is node visited ≡ some r
    → fuel ≤ more
    → get_master_for_node more is node visited ≡ some r
unfolding get_master_for_node
get_master_for_node_mono zero is node visited r more h le = cc
get_master_for_node_mono (suc fuel) is node visited r zero h le = absurd (omega arith)
get_master_for_node_mono (suc fuel) is node visited r (suc more) h le =
    elim (Option-cases (get_instance is node.master_key.hostname)) [
      | inl missing ↦ ground arith
      | inr (master, found) ↦
          ground (arith, get_master_for_node_mono fuel is master (visited ++ node ∷ []) r more)
    ]

-- From a node of the set, the walk ends with the fuel that the model gives it, and any greater fuel
-- ends with the same master.
pub get_master_for_node_total :
    (is : List Instance) (node : Instance)
    → Memᴰ node is
    → (fuel : ℕ) → length is < fuel
    → get_master_for_node fuel is node [] ≡ some (master_for_node is node)
unfolding master_for_node
get_master_for_node_total is node m fuel h =
    let start : unvisited is [] < suc (length is) =
      omega (arith, count_if-le_length (λ i. not (was_visited [] i)) is) in
    let (r, e) = get_master_for_node-ends (suc (length is)) is node [] m start in
    rw (master_for_node, e) (get_master_for_node_mono (suc (length is)) is node [] r fuel e h)
