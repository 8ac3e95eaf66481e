-- ===== src/Semver.antt =====
-- pkg/util/semver/semver.go and pkg/util/mysqlversion/mysqlversion.go. The operations of the
-- library github.com/blang/semver are a parameter: `Blang` holds those that the program calls, at
-- versions without a prerelease part, and `BlangLaws` what its documentation says of them.
use mysql_operator.Base.{
  ℕ, ◌<◌, ◌^◌, ◌≡◌, Bool, true, false, ◌&&◌, ◌||◌, not, Option, none, some, [], arith, Text, codes,
  ltb, leb, ◌==◌, if◌then◌else◌,
}

pub record Version : Type 0 where
  pub major : ℕ
  pub minor : ℕ
  pub patch : ℕ

abbrev pub version : ℕ → ℕ → ℕ → Version
version a b c = record { major = a; minor = b; patch = c }

-- The unset version.
abbrev pub zero_version : Version
zero_version = version 0 0 0

pub record Blang : Type 0 where
  pub eq : Version → Version → Bool
  pub lt : Version → Version → Bool
  pub gt : Version → Version → Bool
  pub to_string : Version → Text
  pub parse_strict : Text → Option Version
  pub parse_tolerant : Text → Option Version
  pub in_range : Text → Version → Bool

-- Equality and precedence of two versions, read off their three numbers.
abbrev pub same_version : Version → Version → Bool
same_version v w = v.major == w.major && (v.minor == w.minor && v.patch == w.patch)

abbrev pub precedes : Version → Version → Bool
precedes v w =
    ltb v.major w.major
    || v.major == w.major && (ltb v.minor w.minor || v.minor == w.minor && ltb v.patch w.patch)

abbrev pub percona_init_expr : Text
percona_init_expr = codes ">=5.7.26 <8.0.0 || >=8.0.15"

-- The numbers fit in the integers of the machine.
abbrev pub IsInt64 : Version → Type 0
IsInt64 v = (v.major < 2 ^ 63) × (v.minor < 2 ^ 63) × (v.patch < 2 ^ 63)

pub record BlangLaws (b : Blang) : Type 0 where
  pub eq_lem : (v w : Version) → b.eq v w ≡ same_version v w
  pub lt_lem : (v w : Version) → b.lt v w ≡ precedes v w
  pub gt_lem : (v w : Version) → b.gt v w ≡ precedes w v
  pub parse_string : (v : Version) → IsInt64 v → b.parse_strict (b.to_string v) ≡ some v
  pub parse_empty : b.parse_strict [] ≡ none
  pub range_lem :
      (v : Version)
      → b.in_range percona_init_expr v ≡ (
          not (precedes v (version 5 7 26)) && precedes v (version 8 0 0)
          || not (precedes v (version 8 0 15)))

module _ ⦃blang : Blang⦄ where
  abbrev pub eq : Version → Version → Bool
  eq v w = blang.eq v w

  abbrev pub lt : Version → Version → Bool
  lt v w = blang.lt v w

  abbrev pub gt : Version → Version → Bool
  gt v w = blang.gt v w

  abbrev pub is_zero : Version → Bool
  is_zero v = eq v zero_version

  abbrev pub string : Version → Text
  string v = blang.to_string v

  -- `Zero` with an error is `none`.
  abbrev pub parse : Text → Option Version
  parse s = blang.parse_strict s

  abbrev pub make : Text → Option Version
  make s = blang.parse_tolerant s

unfoldable pub at_least_mysql8 : Version → Bool
at_least_mysql8 v = leb 8 v.major

unfoldable pub at_least_mysql8030 : Version → Bool
at_least_mysql8030 v =
    if ltb 8 v.major
    then true
    else if v.major == 8 && ltb 0 v.minor
    then true
    else if v.major == 8 && (v.minor == 0 && leb 30 v.patch)
    then true
    else false

unfoldable pub at_least_mysql84 : Version → Bool
at_least_mysql84 v =
    if ltb 8 v.major then true else if v.major == 8 && leb 4 v.minor then true else false

-- Each gate is a lower bound in the order of versions.
pub gates-precedes :
    (v : Version)
    → (at_least_mysql8 v ≡ not (precedes v (version 8 0 0)))
      × (at_least_mysql8030 v ≡ not (precedes v (version 8 0 30)))
      × (at_least_mysql84 v ≡ not (precedes v (version 8 4 0)))
unfolding at_least_mysql8 at_least_mysql8030 at_least_mysql84
gates-precedes v = (ground arith, ground arith, ground arith)

pub same_version→≡ : (v w : Version) → same_version v w ≡ true → v ≡ w
same_version→≡ v w h = ground arith
