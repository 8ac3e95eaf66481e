-- ===== src/Orchestrator/Topology/Chain.antt =====
-- What a determined master means: every instance's chain of replication links ends at its host.
use mysql_operator.Base.{
  ℕ, zero, suc, ◌≡◌, ◌≢◌, ◌∙◌, refl, sym, inl, inr, Bool, true, false, ◌&&◌, some, List, [], ◌∷◌,
  ◌++◌, arith, text_eq, text_eq_iff, all, length, All, Bool-cases, Option-cases, some-injective,
  subst,
}
use mysql_operator.Orchestrator.{Instance}
use mysql_operator.Orchestrator.Topology.{
  get_instance, follows, was_visited, get_master_for_node, master_for_node, masters_for_nodes,
  agreed_master, determine_master,
}

-- `Chain is n m`: from `n`, the replication links in `is` lead to the master `m`.
pub data Chain (is : List Instance) : Instance → Instance → Type 0 where
  root : {n : Instance} → follows n ≡ false → n.is_co_master ≡ false → Chain is n n
  co_master :
      {n m : Instance}
      → n.is_co_master ≡ true
      → get_instance is n.master_key.hostname ≡ some m
      → Chain is n m
  link :
      {n k m : Instance}
      → follows n ≡ true
      → get_instance is n.master_key.hostname ≡ some k
      → Chain is k m
      → Chain is n m

follows_not_co : (n : Instance) → follows n ≡ true → n.is_co_master ≡ true → ⊥
follows_not_co n f c = ground arith

get_master_for_node-Chain :
    (fuel : ℕ) (is : List Instance) (node : Instance) (visited : List Instance) (m : Instance)
    → get_master_for_node fuel is node visited ≡ some (some m)
    → Chain is node m
unfolding get_master_for_node
get_master_for_node-Chain zero is node visited m h = cc
get_master_for_node-Chain (suc fuel) is node visited m h =
    elim (Bool-cases (was_visited visited node)) [
      | inl seen ↦ ground arith
      | inr new ↦ elim (Bool-cases (follows node)) [
        | inl linked ↦ elim (Option-cases (get_instance is node.master_key.hostname)) [
          | inl missing ↦ ground arith
          | inr (master, found) ↦ link linked found (
              get_master_for_node-Chain fuel is master (visited ++ node ∷ []) m
                (rw (new, linked, found) at h))
        ]
        | inr top ↦ elim (Bool-cases node.is_co_master) [
          | inl co ↦ co_master co (ground arith)
          | inr lone ↦ (let e : node ≡ m = ground arith in rw (← e) (root top lone))
        ]
      ]
    ]

master_for_node-Chain :
    (is : List Instance) (node m : Instance) → master_for_node is node ≡ some m → Chain is node m
unfolding master_for_node
master_for_node-Chain is node m h =
    get_master_for_node-Chain (suc (length is)) is node [] m (ground arith)

-- The chain of `n` ends on the host of `m`.
abbrev pub EndsAt : List Instance → Instance → Instance → Type 0
EndsAt is m n = (k : Instance) × Chain is n k × (k.key.hostname ≡ m.key.hostname)

abbrev same_host : Instance → List Instance → Bool
same_host m masters = all (λ (k : Instance). text_eq k.key.hostname m.key.hostname) masters

masters_for_nodes-EndsAt :
    (is nodes masters : List Instance) (m : Instance)
    → masters_for_nodes is nodes ≡ some masters
    → same_host m masters ≡ true
    → All (EndsAt is m) nodes
unfolding masters_for_nodes
masters_for_nodes-EndsAt is [] masters m h same = tt
masters_for_nodes-EndsAt is (node ∷ nodes) masters m h same =
    elim (Option-cases (master_for_node is node)) [
      | inl missing ↦ ground arith
      | inr (k, found) ↦ elim (Option-cases (masters_for_nodes is nodes)) [
        | inl missing ↦ ground arith
        | inr (ks, rest) ↦
            let e : masters ≡ k ∷ ks = ground arith in
            let both : (text_eq k.key.hostname m.key.hostname && same_host m ks) ≡ true =
              rw e at same in
            (
              (k, master_for_node-Chain is node k found, (text_eq_iff _ _).0 (ground arith)),
              masters_for_nodes-EndsAt is nodes ks m rest (ground arith),
            )
      ]
    ]

agreed_master-same_host :
    (masters : List Instance) (m : Instance)
    → agreed_master masters ≡ some m
    → same_host m masters ≡ true
unfolding agreed_master
agreed_master-same_host [] m h = cc
agreed_master-same_host (k ∷ ks) m h = elim (Bool-cases (same_host k (k ∷ ks))) [
  | inl same ↦ (let e : k ≡ m = ground arith in subst (λ x. same_host x (k ∷ ks) ≡ true) e same)
  | inr differ ↦ ground arith
]

determined_not_empty : (is : List Instance) (m : Instance) → determine_master is ≡ some m → is ≢ []
unfolding determine_master masters_for_nodes agreed_master
determined_not_empty [] m h = cc
determined_not_empty (i ∷ is) m h = λ e. cc

-- Two chains from one instance end at the same master.
Chain-unique : (is : List Instance) {n m k : Instance} → Chain is n m → Chain is n k → m ≡ k
Chain-unique is (root f c) (root g d) = refl
Chain-unique is (root f c) (co_master d e) = cc
Chain-unique is (root f c) (link g e r) = cc
Chain-unique is (co_master c e) (root g d) = cc
Chain-unique is (co_master c e) (co_master d g) = some-injective _ _ (sym e ∙ g)
Chain-unique is {n} (co_master c e) (link g h r) = absurd (follows_not_co n g c)
Chain-unique is (link f e r) (root g d) = cc
Chain-unique is {n} (link f e r) (co_master d g) = absurd (follows_not_co n f d)
Chain-unique is {k} (link f e r) (link g h s) =
    Chain-unique is r (subst (λ x. Chain is x k) (some-injective _ _ (sym h ∙ e)) s)

-- A determined master belongs to a cluster that is not empty, and the chain of every instance
-- ends on its host.
pub determine_master-EndsAt :
    (is : List Instance) (m : Instance)
    → determine_master is ≡ some m
    → (is ≢ []) × All (EndsAt is m) is
unfolding determine_master
determine_master-EndsAt is m h = elim (Option-cases (masters_for_nodes is is)) [
  | inl missing ↦ ground arith
  | inr (masters, found) ↦
      let agreed : agreed_master masters ≡ some m = ground arith in
      (
        determined_not_empty is m h,
        masters_for_nodes-EndsAt is is masters m found (agreed_master-same_host masters m agreed),
      )
]
