-- ===== src/Versioning/UpgradePath/OneLine.antt =====
-- An upgrade goes one line at a time: what `validate_upgrade_path` and `version_change_pending` of
-- pkg/mysqlversioning decide, in terms of the order of versions and of the lines 5.7, 8.0 and 8.4.
use mysql_operator.Base.{
  ◌+◌, ◌≡◌, ◌≢◌, ◌⊎◌, ◌∙◌, Bool, true, false, ◌||◌, not, arith, ltb, if◌then◌else◌, Result, ok, err,
}
use mysql_operator.Semver.{Version, zero_version, Blang, BlangLaws, same_version, precedes}
use mysql_operator.Versioning.Profiles.{
  percona57, percona80, percona84, fallback, profile_for, profile_for_lem, line_of, rank,
  profile_upgrade_index-name, text_eq-name, same_profile,
}
use mysql_operator.Versioning.UpgradePath.{
  PathError, downgrade, skips_line, validate_upgrade_path, profiles_match, version_change_pending,
}

pub profiles_match_lem :
    (v w : Version) ⦃blang : Blang⦄ → profiles_match v w ≡ same_profile (line_of v) (line_of w)
unfolding profiles_match
profiles_match_lem v w = rw (profile_for_lem v, profile_for_lem w) (text_eq-name _ _)

abbrev pub verdict : Version → Version → Result PathError (Unit {0})
verdict current target =
    if precedes target current
    then err downgrade
    else if ltb (rank (line_of current) + 1) (rank (line_of target))
    then err skips_line
    else ok tt

pending_bools :
    (unset has_data same older : Bool)
    → (if unset then if not has_data then false else true else if not same then true else older)
      ≡ (if unset then has_data else not same || older)
pending_bools unset has_data same older = ground arith

next_line :
    (v w : Version)
    → verdict v w ≡ ok tt
    → line_of v ≢ fallback
    → (line_of w ≡ line_of v)
      ⊎ ((line_of v ≡ percona57) × (line_of w ≡ percona80))
      ⊎ ((line_of v ≡ percona80) × (line_of w ≡ percona84))
next_line v w accepted known = ground arith

fallback_accepts :
    (v w : Version) → line_of v ≡ fallback → precedes w v ≡ false → verdict v w ≡ ok tt
fallback_accepts v w unknown newer = ground arith

module _ ⦃blang : Blang⦄ (laws : BlangLaws blang) (current target : Version) where
  -- The path is refused as a downgrade when the target precedes the current version, as a skipped
  -- line when the target's place in the upgrade order is more than one above that of the current
  -- version, and accepted otherwise.
  pub validate_upgrade_path_lem : validate_upgrade_path current target ≡ (
      if precedes target current
      then err downgrade
      else if ltb (rank (line_of current) + 1) (rank (line_of target))
      then err skips_line
      else ok tt)
  unfolding validate_upgrade_path
  validate_upgrade_path_lem =
      simp (laws.lt_lem, laws.eq_lem, profile_for_lem, profile_upgrade_index-name) (ground arith)

  -- From a known line an accepted target is in the same line or in the next one.
  validate_upgrade_path-next_line :
      validate_upgrade_path current target ≡ ok tt
      → profile_for current ≢ fallback
      → (profile_for target ≡ profile_for current)
        ⊎ ((profile_for current ≡ percona57) × (profile_for target ≡ percona80))
        ⊎ ((profile_for current ≡ percona80) × (profile_for target ≡ percona84))
  validate_upgrade_path-next_line accepted known = simp (profile_for_lem) (
      next_line current target (rw validate_upgrade_path_lem at accepted)
        (rw (profile_for_lem current) at known))

  -- From a version of no known line every target that is not older is accepted.
  validate_upgrade_path-fallback :
      profile_for current ≡ fallback
      → precedes target current ≡ false
      → validate_upgrade_path current target ≡ ok tt
  validate_upgrade_path-fallback unknown newer =
      validate_upgrade_path_lem
      ∙ fallback_accepts current target (rw (profile_for_lem current) at unknown) newer

  -- A change is pending when no version has been applied and there is data, when the line differs,
  -- or when the applied version is older.
  pub version_change_pending_lem :
      (has_data : Bool)
      → version_change_pending target current has_data ≡ (
          if same_version current zero_version
          then has_data
          else not (same_profile (line_of current) (line_of target)) || precedes current target)
  unfolding version_change_pending
  version_change_pending_lem has_data =
      simp (laws.lt_lem, laws.eq_lem, profiles_match_lem)
        (pending_bools (same_version current zero_version) has_data _ (precedes current target))
