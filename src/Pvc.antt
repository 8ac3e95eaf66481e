-- ===== src/Pvc.antt =====
-- pkg/controller/mysqlcluster/internal/cleaner: the claims of a cluster, which of them the cleaner
-- deletes after a scale-down (Cleanup), and which the resizer expands (Resize). The Kubernetes client is a
-- parameter: the claims that a list request with the cluster's labels answers, and for which claims a
-- delete request fails.
pub mod Cleanup
pub mod Resize
use mysql_operator.Base.{
  ℕ, Bool, true, false, ◌&&◌, ◌||◌, not, Option, none, some, List, [], ◌∷◌, any, keep, Text, codes,
  text_eq, has_prefix, after_last, if◌then◌else◌, ℤ, pos, leb_ℤ, pos_part, neg_part, to_int32, ◌==◌,
}
use mysql_operator.Base.Decimal.{atoi}
use mysql_operator.Cluster.{
  MysqlCluster, replicas, name_for_resource, stateful_set, data_pvc_name_prefix,
}

pub record OwnerReference : Type 0 where
  pub kind : Text
  pub name : Text

-- A quantity of storage is its value, which `Cmp` compares.
pub record Claim : Type 0 where
  pub name : Text
  pub namespace : Text
  pub owner_references : List OwnerReference
  pub deletion_timestamp : Option ℕ
  pub storage : Option ℕ
  pub storage_class_name : Option Text

abbrev pub is_owner : MysqlCluster → OwnerReference → Bool
is_owner c ref =
    text_eq ref.kind (codes "MysqlCluster") && text_eq ref.name c.name
    || (text_eq ref.kind (codes "StatefulSet")
        && text_eq ref.name (name_for_resource stateful_set c.name))

unfoldable pub is_cluster_managed_pvc : Claim → MysqlCluster → Bool
is_cluster_managed_pvc claim c =
    if not (text_eq claim.namespace c.namespace)
    then false
    else any (is_owner c) claim.owner_references

abbrev pub is_live : Claim → Bool
is_live claim = elim claim.deletion_timestamp [ none ↦ true | some t ↦ false ]

-- The loop over the claims that the request answers.
unfoldable pub list_owned_cluster_pvcs : MysqlCluster → List Claim → List Claim
unfolding is_cluster_managed_pvc
list_owned_cluster_pvcs c claims =
    keep (λ (claim : Claim). is_cluster_managed_pvc claim c && is_live claim) claims

-- `none` for an error.
unfoldable pub get_ordinal : Text → Option ℤ
get_ordinal name = elim (after_last b'-' name) [
  | none ↦ none
  | some digits ↦ elim (atoi digits) [ none ↦ none | some i ↦ some (to_int32 i) ]
]

-- `ord >= *cluster.Spec.Replicas && ord != 0`.
abbrev pub is_surplus : MysqlCluster → ℤ → Bool
is_surplus c ord = leb_ℤ (pos (replicas c)) ord && not (pos_part ord == 0 && neg_part ord == 0)

-- The claims that a delete request is sent for, and whether the last one failed, which ends the loop.
unfoldable pub delete_surplus : (Text → Bool) → MysqlCluster → List Claim → List Claim × Bool
unfolding get_ordinal
delete_surplus fails c [] = ([], false)
delete_surplus fails c (claim ∷ claims) =
    let (deleted, failed) = delete_surplus fails c claims in
    if not (has_prefix claim.name (data_pvc_name_prefix c))
    then (deleted, failed)
    else elim (get_ordinal claim.name) as (λ _. List Claim × Bool) [
      | none ↦ (deleted, failed)
      | some ord ↦
          if is_surplus c ord
          then if fails claim.name then (claim ∷ [], true) else (claim ∷ deleted, failed)
          else (deleted, failed)
    ]

-- `PVCCleaner.Run`. `listed` is `none` when the list request fails.
unfoldable pub run : Option (List Claim) → (Text → Bool) → MysqlCluster → List Claim × Bool
unfolding delete_surplus list_owned_cluster_pvcs
run listed fails c = elim c.deletion_timestamp [
  | some t ↦ ([], false)
  | none ↦ elim listed [
    | none ↦ ([], true)
    | some claims ↦ delete_surplus fails c (list_owned_cluster_pvcs c claims)
  ]
]
