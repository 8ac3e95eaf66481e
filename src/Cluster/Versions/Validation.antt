-- ===== src/Cluster/Versions/Validation.antt =====
-- pkg/internal/mysqlcluster/validation.go: `Validate` and what it does not check. The texts of the
-- errors are left out: an error is its kind.
use mysql_operator.Base.{
  ◌≡◌, ◌≢◌, ◌↔◌, Bool, true, false, ◌||◌, List, [], ◌∷◌, arith, Text, if◌then◌else◌, Result, ok,
  err,
}
use mysql_operator.Semver.{Blang}
use mysql_operator.Versioning.Images.{Options}
use mysql_operator.Cluster.{VolumeSpec, MysqlCluster}
use mysql_operator.Cluster.Versions.{mysql_image, sidecar_image}

pub data ValidationError : Type 0 where
  secret_name_missing invalid_mysql_version no_sidecar_image no_volume_spec : ValidationError

-- A value of type `interface{}`: the nil interface, or a value with its type, which may itself be a
-- nil pointer.
pub data Interface : Type 0 where
  nil_interface : Interface
  typed_pointer : (is_set : Bool) → Interface

-- `v == nil` on an interface.
abbrev is_nil : Interface → Bool
is_nil nil_interface = true
is_nil (typed_pointer is_set) = false

any_is_null_from : Bool → List Interface → Bool
any_is_null_from found [] = found
any_is_null_from found (v ∷ vs) = any_is_null_from (found || is_nil v) vs

unfoldable pub any_is_null : List Interface → Bool
unfolding any_is_null_from
any_is_null vars = any_is_null_from false vars

-- `DefaultValidate`, the validator of every profile.
unfoldable pub default_validate : Text → Result ValidationError (Unit {0})
default_validate [] = err secret_name_missing
default_validate (c ∷ s) = ok tt

check_volumes : VolumeSpec → Result ValidationError (Unit {0})
unfolding any_is_null
check_volumes vs =
    if any_is_null (
      typed_pointer vs.persistent_volume_claim
      ∷ typed_pointer vs.host_path
      ∷ typed_pointer vs.empty_dir
      ∷ [])
    then err no_volume_spec
    else ok tt

abbrev is_empty : Text → Bool
is_empty [] = true
is_empty (c ∷ s) = false

abbrev and_then :
    Result ValidationError (Unit {0})
    → Result ValidationError (Unit {0})
    → Result ValidationError (Unit {0})
and_then (ok _) next = next
and_then (err e) next = err e

unfoldable pub validate :
    ⦃blang : Blang⦄ → Options → MysqlCluster → Result ValidationError (Unit {0})
unfolding default_validate check_volumes
validate ⦃blang⦄ opt c =
    if is_empty c.spec.secret_name
    then err secret_name_missing
    else if is_empty (mysql_image opt c)
    then err invalid_mysql_version
    else if is_empty (sidecar_image opt c)
    then err no_sidecar_image
    else and_then (default_validate c.spec.secret_name) (check_volumes c.spec.volume_spec)

-- A spec is accepted exactly when it has a secret's name, a server image and a sidecar image. Its
-- volumes do not matter: a typed nil pointer in an interface is not nil, so the check of the volumes
-- never fails.
pub validate_iff :
    ⦃blang : Blang⦄ (opt : Options) (c : MysqlCluster)
    → (validate opt c ≡ ok tt)
      ↔ ((c.spec.secret_name ≢ []) × (mysql_image opt c ≢ []) × (sidecar_image opt c ≢ []))
unfolding validate
validate_iff ⦃blang⦄ opt c = (λ h. ground arith, λ h. ground arith)
