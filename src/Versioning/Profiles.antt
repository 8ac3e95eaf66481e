-- ===== src/Versioning/Profiles.antt =====
-- profiles_builtin.go, registry.go, profile_names.go and runtime.go: a profile for each server line,
-- found by the first match in the registry. A Go type that implements `Profile` is a constructor.
-- `ProfileFor` asks the process registry when it is set; both registries hold the built-in profiles.
use mysql_operator.Base.{
  ℕ, ◌*◌, ◌≡◌, refl, Bool, true, false, ◌&&◌, not, Option, none, some, List, [], ◌∷◌, arith, Text,
  codes, text_eq, index_of, find, ◌==◌, if◌then◌else◌,
}
use mysql_operator.Semver.{
  Version, version, Blang, percona_init_expr, precedes, at_least_mysql8, at_least_mysql8030,
  at_least_mysql84,
}

pub data Profile : Type 0 where
  percona57 percona80 percona84 fallback : Profile

abbrev profile_percona57 : Text
profile_percona57 = codes "percona-5.7"

abbrev profile_percona80 : Text
profile_percona80 = codes "percona-8.0"

abbrev profile_percona84 : Text
profile_percona84 = codes "percona-8.4"

abbrev profile_fallback_unknown : Text
profile_fallback_unknown = codes "fallback-unknown"

unfoldable pub name : Profile → Text
name percona57 = profile_percona57
name percona80 = profile_percona80
name percona84 = profile_percona84
name fallback = profile_fallback_unknown

unfoldable pub matches : Profile → Version → Bool
unfolding at_least_mysql8 at_least_mysql84
matches percona57 v = v.major == 5
matches percona80 v = at_least_mysql8 v && not (at_least_mysql84 v)
matches percona84 v = at_least_mysql84 v
matches fallback v = true

unfoldable pub use_mysql5x_configs : Profile → Bool
use_mysql5x_configs percona57 = true
use_mysql5x_configs percona80 = false
use_mysql5x_configs percona84 = false
use_mysql5x_configs fallback = true

unfoldable pub use_mysql8x_configs : Profile → Bool
use_mysql8x_configs percona57 = false
use_mysql8x_configs percona80 = true
use_mysql8x_configs percona84 = true
use_mysql8x_configs fallback = false

unfoldable pub use_mysql80_auth_plugin : Profile → Bool
use_mysql80_auth_plugin percona80 = true
use_mysql80_auth_plugin _ = false

pub data SidecarKey : Type 0 where
  sidecar57 sidecar80 sidecar84 : SidecarKey

unfoldable pub sidecar_profile_key : Profile → SidecarKey
sidecar_profile_key percona57 = sidecar57
sidecar_profile_key percona80 = sidecar80
sidecar_profile_key percona84 = sidecar84
sidecar_profile_key fallback = sidecar57

unfoldable pub wants_percona_init_container : ⦃blang : Blang⦄ → Profile → Version → Bool
wants_percona_init_container ⦃blang⦄ fallback v = false
wants_percona_init_container ⦃blang⦄ _ v = blang.in_range percona_init_expr v

-- The option's key and its size in bytes.
unfoldable pub innodb_operator_log_sizing : Profile → Version → ℕ → Text × ℕ
unfolding at_least_mysql8030
innodb_operator_log_sizing percona57 v per_file = (codes "innodb-log-file-size", per_file)
innodb_operator_log_sizing percona80 v per_file =
    if at_least_mysql8030 v
    then (codes "innodb-redo-log-capacity", 2 * per_file)
    else (codes "innodb-log-file-size", per_file)
innodb_operator_log_sizing percona84 v per_file = (codes "innodb-redo-log-capacity", 2 * per_file)
innodb_operator_log_sizing fallback v per_file =
    if at_least_mysql8030 v
    then (codes "innodb-redo-log-capacity", 2 * per_file)
    else (codes "innodb-log-file-size", per_file)

abbrev pub builtin_profiles : List Profile
builtin_profiles = percona84 ∷ percona80 ∷ percona57 ∷ fallback ∷ []

-- `Registry.Resolve`: the first match, or an error.
unfoldable pub resolve : List Profile → Version → Option Profile
unfolding matches
resolve profiles v = find (λ p. matches p v) profiles

unfoldable pub must_resolve : List Profile → Version → Profile
unfolding resolve
must_resolve profiles v = elim (resolve profiles v) [ some p ↦ p | none ↦ fallback ]

unfoldable pub profile_for : Version → Profile
unfolding must_resolve
profile_for v = must_resolve builtin_profiles v

abbrev pub profile_upgrade_order : List Text
profile_upgrade_order =
    profile_percona57 ∷ profile_percona80 ∷ profile_percona84 ∷ profile_fallback_unknown ∷ []

unfoldable pub profile_upgrade_index : Text → Option ℕ
unfolding text_eq
profile_upgrade_index n = index_of (λ m. text_eq m n) profile_upgrade_order

-- The line of a version, written out: the numbers at which the profile changes.
abbrev pub line_of : Version → Profile
line_of v =
    if not (precedes v (version 8 4 0))
    then percona84
    else if not (precedes v (version 8 0 0))
    then percona80
    else if v.major == 5
    then percona57
    else fallback

pub profile_for_lem : (v : Version) → profile_for v ≡ line_of v
unfolding profile_for
profile_for_lem v = ground arith

-- The place of a profile in the upgrade order.
abbrev pub rank : Profile → ℕ
rank percona57 = 0
rank percona80 = 1
rank percona84 = 2
rank fallback = 3

pub profile_upgrade_index-name : (p : Profile) → profile_upgrade_index (name p) ≡ some (rank p)
unfolding profile_upgrade_index name
profile_upgrade_index-name percona57 = refl
profile_upgrade_index-name percona80 = refl
profile_upgrade_index-name percona84 = refl
profile_upgrade_index-name fallback = refl

-- Two profiles have the same name only if they are the same.
abbrev pub same_profile : Profile → Profile → Bool
same_profile p q = rank p == rank q

pub text_eq-name : (p q : Profile) → text_eq (name p) (name q) ≡ same_profile p q
unfolding text_eq name
text_eq-name percona57 percona57 = refl
text_eq-name percona57 percona80 = refl
text_eq-name percona57 percona84 = refl
text_eq-name percona57 fallback = refl
text_eq-name percona80 percona57 = refl
text_eq-name percona80 percona80 = refl
text_eq-name percona80 percona84 = refl
text_eq-name percona80 fallback = refl
text_eq-name percona84 percona57 = refl
text_eq-name percona84 percona80 = refl
text_eq-name percona84 percona84 = refl
text_eq-name percona84 fallback = refl
text_eq-name fallback percona57 = refl
text_eq-name fallback percona80 = refl
text_eq-name fallback percona84 = refl
text_eq-name fallback fallback = refl
