-- ===== src/Pvc/Cleanup.antt =====
-- What the cleaner deletes, and that it keeps the claims of the pods that the cluster wants.
use mysql_operator.Base.{
  ℕ, zero, suc, ℤ, negsuc, any, text_eq, Text, Option, true, not, ◌||◌, leb, ◌^◌, ◌≡◌, ◌≢◌, ◌<◌,
  refl, ap, ◌∙◌, Bool, false, ◌&&◌, none, some, List, [], ◌∷◌, ◌++◌, arith, keep, keep_sound, codes,
  has_prefix, after_last-append, if◌then◌else◌, pos, to_int32-pos, Bool-cases, inl, inr,
}
use mathlib.Core.List.{Memᴰ}
use mathlib.Core.List.Memᴰ
use mysql_operator.Base.Decimal.{decimal, atoi-decimal, decimal-Absent}
use mysql_operator.Cluster.{
  MysqlCluster, replicas, name_for_resource, stateful_set, data_pvc_name, data_pvc_name_prefix,
}
use mysql_operator.Pvc.{
  Claim, OwnerReference, is_cluster_managed_pvc, is_live, list_owned_cluster_pvcs, get_ordinal,
  is_surplus, delete_surplus, run,
}

-- The ordinal that is read from the name of the claim of pod `i` is `i`, as long as it fits in 31 bits.
get_ordinal-data_pvc_name :
    (c : MysqlCluster) (i : ℕ) → i < 2 ^ 31 → get_ordinal (data_pvc_name c i) ≡ some (pos i)
unfolding get_ordinal data_pvc_name
get_ordinal-data_pvc_name c i small =
    let prefix = codes "data-" ++ name_for_resource stateful_set c.name in
    let last = after_last-append b'-' prefix (decimal i) (decimal-Absent b'-' i (omega arith)) in
    let shape : codes "data-" ++ (name_for_resource stateful_set c.name ++ b'-' ∷ decimal i)
        ≡ prefix ++ b'-' ∷ decimal i =
      refl in
    let value = atoi-decimal i (omega arith) in let kept = to_int32-pos i small in ground arith

-- An ordinal that no pod of the cluster has, but for that of pod 0.
abbrev pub is_past : ℕ → ℤ → Bool
is_past wanted (pos zero) = false
is_past wanted (pos (suc i)) = leb wanted (suc i)
is_past wanted (negsuc i) = false

-- The claim has a name of the cluster's data claims, with such an ordinal.
abbrev pub is_orphan : MysqlCluster → Claim → Bool
is_orphan c claim =
    has_prefix claim.name (data_pvc_name_prefix c) && elim (get_ordinal claim.name) as (λ _. Bool) [
      | none ↦ false
      | some ord ↦ is_past (replicas c) ord
    ]

is_surplus-eq : (c : MysqlCluster) (ord : ℤ) → is_surplus c ord ≡ is_past (replicas c) ord
is_surplus-eq c (pos zero) = ground arith
is_surplus-eq c (pos (suc i)) = ground arith
is_surplus-eq c (negsuc i) = ground arith

-- The claims up to the first whose request fails, that one included.
abbrev pub until_failure : (Text → Bool) → List Claim → List Claim
until_failure fails [] = []
until_failure fails (claim ∷ claims) =
    let rest = until_failure fails claims in if fails claim.name then claim ∷ [] else claim ∷ rest

delete_surplus-eq :
    (fails : Text → Bool) (c : MysqlCluster) (claims : List Claim)
    → (delete_surplus fails c claims).0 ≡ until_failure fails (keep (is_orphan c) claims)
unfolding delete_surplus
delete_surplus-eq fails c [] = refl
delete_surplus-eq fails c (claim ∷ claims) =
    ground (arith, is_surplus-eq c, delete_surplus-eq fails c claims)

-- An owner of the kind and the name.
abbrev pub has_owner : Text → Text → Claim → Bool
has_owner kind name claim =
    any (λ (ref : OwnerReference). text_eq ref.kind kind && text_eq ref.name name)
      claim.owner_references

abbrev pub is_none : Option ℕ → Bool
is_none none = true
is_none (some t) = false

-- The claim is in the namespace of the cluster, which owns it or whose StatefulSet does; it is not being
-- deleted, and is an orphan.
abbrev pub is_deleted_claim : MysqlCluster → Claim → Bool
is_deleted_claim c claim =
    (text_eq claim.namespace c.namespace
      && (has_owner (codes "MysqlCluster") c.name claim
          || has_owner (codes "StatefulSet") (c.name ++ codes "-mysql") claim)
      && is_none claim.deletion_timestamp)
    && is_orphan c claim

keep-keep {ℓ} :
    {A : Type ℓ} (p q : A → Bool) (xs : List A) → keep q (keep p xs) ≡ keep (λ x. p x && q x) xs
keep-keep p q [] = refl
keep-keep p q (x ∷ xs) = ground (arith, keep-keep p q xs)

keep-eq {ℓ} :
    {A : Type ℓ} (p q : A → Bool) → ((x : A) → p x ≡ q x) → (xs : List A) → keep p xs ≡ keep q xs
keep-eq p q h [] = refl
keep-eq p q h (x ∷ xs) = ground (arith, h x, keep-eq p q h xs)

any-or {ℓ} :
    {A : Type ℓ} (p q : A → Bool) (xs : List A) → any (λ x. p x || q x) xs ≡ (any p xs || any q xs)
any-or p q [] = refl
any-or p q (x ∷ xs) = ground (arith, any-or p q xs)

live-eq : (t : Option ℕ) → (elim t as (λ _. Bool) [ none ↦ true | some n ↦ false ]) ≡ is_none t
live-eq none = refl
live-eq (some n) = refl

by_namespace :
    (here owned owned' live live' : Bool)
    → owned ≡ owned'
    → live ≡ live'
    → ((if not here then false else owned) && live) ≡ (here && owned' && live')
by_namespace here owned owned' live live' h k = ground arith

managed-eq :
    (c : MysqlCluster) (claim : Claim)
    → (is_cluster_managed_pvc claim c && is_live claim) ≡ (
        text_eq claim.namespace c.namespace
        && (has_owner (codes "MysqlCluster") c.name claim
            || has_owner (codes "StatefulSet") (c.name ++ codes "-mysql") claim)
        && is_none claim.deletion_timestamp)
unfolding is_cluster_managed_pvc mysql_operator.Cluster.name_for_resource
managed-eq c claim =
    let own : Text → Text → OwnerReference → Bool =
      λ kind name ref. text_eq ref.kind kind && text_eq ref.name name in
    let split =
      any-or (own (codes "MysqlCluster") c.name)
        (own (codes "StatefulSet") (c.name ++ codes "-mysql")) claim.owner_references in
    by_namespace (text_eq claim.namespace c.namespace) _ _ _ _ split
      (live-eq claim.deletion_timestamp)

is_deleted_claim-eq :
    (c : MysqlCluster) (claim : Claim)
    → ((is_cluster_managed_pvc claim c && is_live claim) && is_orphan c claim)
      ≡ is_deleted_claim c claim
is_deleted_claim-eq c claim = ap (λ b. b && is_orphan c claim) (managed-eq c claim)

-- In a cluster that is not being deleted, the delete requests are, in order and up to the first that
-- fails, those for the claims in its namespace that it or its StatefulSet owns, that are not being
-- deleted, that have a name of its data claims, and whose ordinal is positive and not below the number of
-- replicas.
pub run_lem :
    (claims : List Claim) (fails : Text → Bool) (c : MysqlCluster)
    → c.deletion_timestamp ≡ none
    → (run (some claims) fails c).0 ≡ until_failure fails (keep (is_deleted_claim c) claims)
unfolding run list_owned_cluster_pvcs data_pvc_name_prefix
run_lem claims fails c alive =
    rw (run, alive)
      (delete_surplus-eq fails c (list_owned_cluster_pvcs c claims)
        ∙ ap (until_failure fails) (
            keep-keep (λ (claim : Claim). is_cluster_managed_pvc claim c && is_live claim)
              (is_orphan c) claims
            ∙ keep-eq _ (is_deleted_claim c) (is_deleted_claim-eq c) claims))

until_failure_sound :
    (fails : Text → Bool) (claims : List Claim) (claim : Claim)
    → Memᴰ claim (until_failure fails claims)
    → Memᴰ claim claims
until_failure_sound fails [] claim m = m
until_failure_sound fails (x ∷ claims) claim m = elim (Bool-cases (fails x.name)) [
  | inl last ↦ elim (Memᴰ.cases_cons (rw last at m)) [ inl e ↦ Memᴰ.head e | inr n ↦ elim n [ ] ]
  | inr next ↦ elim (Memᴰ.cases_cons (rw next at m)) [
    | inl e ↦ Memᴰ.head e
    | inr n ↦ Memᴰ.tail (until_failure_sound fails claims claim n)
  ]
]

surplus_bound : (c : MysqlCluster) (i : ℕ) → i < replicas c → is_surplus c (pos i) ≡ false
surplus_bound c i h = ground arith

-- No delete request names the claim of a pod that the cluster wants: of a pod with an index below the
-- number of replicas and 2 ^ 31.
pub run-keeps_claims :
    (claims : List Claim) (fails : Text → Bool) (c : MysqlCluster) (i : ℕ) (claim : Claim)
    → c.deletion_timestamp ≡ none
    → i < replicas c
    → i < 2 ^ 31
    → Memᴰ claim (run (some claims) fails c).0
    → claim.name ≢ data_pvc_name c i
run-keeps_claims claims fails c i claim alive wanted small m named =
    let m' = rw (run_lem claims fails c alive) at m in
    let (n, deleted) =
      keep_sound (is_deleted_claim c) claims (until_failure_sound fails _ claim m') in
    let ordinal : get_ordinal claim.name ≡ some (pos i) =
      ap get_ordinal named ∙ get_ordinal-data_pvc_name c i small in
    let kept = surplus_bound c i wanted in ground arith
