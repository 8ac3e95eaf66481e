-- ===== src/Pvc/Resize.antt =====
-- pvc_resize.go and pvc_resize_support.go: the claims that the resizer expands. The storage classes and
-- the answers to the patches are parameters, each answer after the patches that were sent before it.
pub mod Expansion
use mysql_operator.Base.{
  ℕ, ◌+◌, Bool, true, false, ◌&&◌, Option, none, some, List, [], ◌∷◌, ◌++◌, Text, codes, text_eq,
  find, contains, has_prefix, leb, if◌then◌else◌, Result, ok, err, map,
}
use mysql_operator.Cluster.{MysqlCluster, data_pvc_name_prefix, desired_data_volume_storage}
use mysql_operator.Pvc.{Claim, list_owned_cluster_pvcs}

-- `is_default` is the value of the annotation, empty if it is missing.
pub record StorageClass : Type 0 where
  pub name : Text
  pub is_default : Text
  pub allow_volume_expansion : Option Bool

pub record PatchError : Type 0 where
  pub forbidden : Bool
  pub message : Text

pub record Client : Type 0 where
  pub list_claims : Result Text (List Claim)
  pub list_classes : Result Text (List StorageClass)
  pub get_class : Text → Result Text StorageClass
  pub patch : List Claim → Claim → Option PatchError

unfoldable pub storage_class_allows_resize : StorageClass → Bool
storage_class_allows_resize sc = elim sc.allow_volume_expansion [ none ↦ false | some b ↦ b ]

abbrev pub default_name : Option StorageClass → Text
default_name none = []
default_name (some sc) = sc.name

abbrev pub default_of : Result Text (List StorageClass) → Result Text Text
unfolding text_eq
default_of (err e) = err e
default_of (ok classes) =
    ok (default_name (find (λ (sc : StorageClass). text_eq sc.is_default (codes "true")) classes))

-- The class of the claim, or else the first one that is the default; the empty name for none.
unfoldable pub resolve_storage_class_name : Client → Option Text → Result Text Text
unfolding default_of
resolve_storage_class_name client none = default_of client.list_classes
resolve_storage_class_name client (some []) = default_of client.list_classes
resolve_storage_class_name client (some (c ∷ name)) = ok (c ∷ name)

-- Whether the class allows it, by `storageClassForPVC` and `resizeNotSupportedReason`.
abbrev pub allowed_by : Result Text StorageClass → Result Text Bool
allowed_by (err e) = err e
allowed_by (ok sc) = ok (storage_class_allows_resize sc)

abbrev pub class_allows : Client → Result Text Text → Result Text Bool
class_allows client (err e) = err e
class_allows client (ok []) = ok false
class_allows client (ok (c ∷ name)) = allowed_by (client.get_class (c ∷ name))

unfoldable pub resize_supported : Client → Claim → Result Text Bool
unfolding resolve_storage_class_name storage_class_allows_resize
resize_supported client claim =
    class_allows client (resolve_storage_class_name client claim.storage_class_name)

-- `to_lower` is ASCII's.
abbrev lower : ℕ → ℕ
lower c = if leb b'A' c && leb c b'Z' then c + 32 else c

-- "resized" contains "resize".
unfoldable pub is_pvc_resize_forbidden : PatchError → Bool
unfolding contains
is_pvc_resize_forbidden e = e.forbidden && contains (map lower e.message) (codes "resize")

-- What is done with a claim.
pub data Decision : Type 0 where
  leave : Decision
  give_up : Text → Decision
  expand : Claim → Decision

abbrev pub by_support : Claim → Result Text Bool → Decision
by_support updated (err e) = give_up e
by_support updated (ok true) = expand updated
by_support updated (ok false) = leave

unfoldable pub decide : Client → ℕ → Claim → Decision
unfolding resize_supported
decide client desired claim = elim claim.storage [
  | none ↦ leave
  | some current ↦
      if leb desired current
      then leave
      else by_support (record claim { storage = some desired }) (resize_supported client claim)
]

-- Whether the loop goes on behind a patch.
abbrev pub after_patch : Option PatchError → Option Text
after_patch none = none
after_patch (some e) = if is_pvc_resize_forbidden e then none else some e.message

abbrev pub then_rest :
    Option Text → List Claim → List Claim × Option Text → List Claim × Option Text
then_rest none before rest = rest
then_rest (some e) before rest = (before, some e)

-- The loop, with the patches that were sent before, to those that were sent and the error.
unfoldable pub resize_from : Client → ℕ → Text → List Claim → List Claim → List Claim × Option Text
unfolding decide has_prefix
resize_from client desired prefix sent [] = (sent, none)
resize_from client desired prefix sent (claim ∷ claims) =
    elim (has_prefix claim.name prefix) as (λ _. List Claim × Option Text) [
      | false ↦ resize_from client desired prefix sent claims
      | true ↦ elim (decide client desired claim) as (λ _. List Claim × Option Text) [
        | leave ↦ resize_from client desired prefix sent claims
        | give_up e ↦ (sent, some e)
        | expand updated ↦
            let rest = resize_from client desired prefix (sent ++ updated ∷ []) claims in
            then_rest (after_patch (client.patch sent updated)) (sent ++ updated ∷ []) rest
      ]
    ]

-- `PVCResizer.Run`: the claims of the patches and the error.
unfoldable pub resize : Client → MysqlCluster → List Claim × Option Text
unfolding resize_from list_owned_cluster_pvcs data_pvc_name_prefix
resize client c = elim c.deletion_timestamp as (λ _. List Claim × Option Text) [
  | some t ↦ ([], none)
  | none ↦ elim (desired_data_volume_storage c) as (λ _. List Claim × Option Text) [
    | none ↦ ([], none)
    | some desired ↦ elim client.list_claims as (λ _. List Claim × Option Text) [
      | err e ↦ ([], some e)
      | ok claims ↦
          resize_from client desired (data_pvc_name_prefix c) [] (list_owned_cluster_pvcs c claims)
    ]
  ]
]
