-- ===== src/Versioning/UpgradePath.antt =====
-- upgrade_path.go and version_state.go: when a change of the server version is allowed, and when one
-- is pending. The texts of the errors are left out: an error is its kind.
pub mod OneLine
use mysql_operator.Base.{
  ℕ, ◌+◌, Bool, true, false, not, Option, none, some, text_eq, ltb, if◌then◌else◌, Result, ok, err,
}
use mysql_operator.Semver.{Version, Blang, eq, lt, is_zero}
use mysql_operator.Versioning.Profiles.{name, profile_for, profile_upgrade_index}

pub data PathError : Type 0 where
  downgrade unknown_profile skips_line : PathError

module _ ⦃blang : Blang⦄ where
  check_indices : Option ℕ → Option ℕ → Result PathError (Unit {0})
  check_indices none _ = err unknown_profile
  check_indices (some from_idx) none = err unknown_profile
  check_indices (some from_idx) (some to_idx) =
      if ltb (from_idx + 1) to_idx then err skips_line else ok tt

  unfoldable pub validate_upgrade_path : Version → Version → Result PathError (Unit {0})
  unfolding check_indices
  validate_upgrade_path current target =
      if lt target current
      then err downgrade
      else if eq target current
      then ok tt
      else let from_name = name (profile_for current) in
        let to_name = name (profile_for target) in
        check_indices (profile_upgrade_index from_name) (profile_upgrade_index to_name)

  unfoldable pub profiles_match : Version → Version → Bool
  profiles_match a b = text_eq (name (profile_for a)) (name (profile_for b))

  unfoldable pub version_change_pending : Version → Version → Bool → Bool
  unfolding profiles_match
  version_change_pending desired applied has_data =
      if is_zero applied
      then if not has_data then false else true
      else if not (profiles_match applied desired)
      then true
      else lt applied desired
