-- ===== src/Versioning/Resolution.antt =====
-- resolution.go: the version that a spec, a status, a container or a server string stands for.
use mysql_operator.Base.{
  Bool, true, false, ◌&&◌, ◌||◌, not, Option, none, some, List, [], ◌∷◌, Text, codes, text_eq,
  contains, after_last, cut, trim_space, lookup, find, if◌then◌else◌,
}
use mysql_operator.Semver.{Version, zero_version, Blang, is_zero, parse, make}

-- util/constants: the default version and the short tags.
abbrev pub mysql_version5735 : Text
mysql_version5735 = codes "5.7.35"

abbrev pub mysql_version8020 : Text
mysql_version8020 = codes "8.0.20"

abbrev pub mysql_version848 : Text
mysql_version848 = codes "8.4.8"

abbrev pub mysql_default_version : Text
mysql_default_version = mysql_version5735

abbrev pub mysql_tags_to_semver : List (Text × Text)
mysql_tags_to_semver =
    (codes "5.7", mysql_version5735)
    ∷ (codes "8.0", mysql_version8020)
    ∷ (codes "8.4", mysql_version848)
    ∷ []

abbrev pub mysql_version_env : Text
mysql_version_env = codes "MY_MYSQL_VERSION"

pub record EnvVar : Type 0 where
  pub name : Text
  pub value : Text

pub record Container : Type 0 where
  pub name : Text
  pub image : Text
  pub env : List EnvVar

abbrev is_empty : Text → Bool
is_empty [] = true
is_empty (c ∷ s) = false

abbrev pub or_zero : Option Version → Version
or_zero none = zero_version
or_zero (some v) = v

-- `strings.LastIndex(image, "@")`, then `strings.LastIndex(image, ":")`.
unfoldable pub image_tag : Text → Text
unfolding contains after_last
image_tag image =
    let tag = elim (after_last b':' image) as (λ _. Text) [ some t ↦ t | none ↦ [] ] in
    elim (after_last b'@' image) [
      | some digest ↦ if contains (b'@' ∷ digest) (codes "sha256:") then [] else tag
      | none ↦ tag
    ]

module _ ⦃blang : Blang⦄ where
  -- The first parse that succeeds.
  abbrev first_of_parses : Option Version → Option Version → Option Version
  first_of_parses (some v) next = some v
  first_of_parses none next = next

  -- The part before the first dash, if the dash is not the first byte.
  before_dash : Text → Option Version
  unfolding cut
  before_dash s = elim (cut b'-' s) [
    | some (before, after) ↦ if is_empty before then none else parse before
    | none ↦ none
  ]

  mapped_tag : Text → Option Version
  unfolding lookup
  mapped_tag tag = elim (lookup tag mysql_tags_to_semver) [ some v ↦ parse v | none ↦ none ]

  unfoldable pub semver_from_image_ref : Text → Version
  unfolding image_tag before_dash mapped_tag text_eq
  semver_from_image_ref image =
      if is_empty image
      then zero_version
      else let tag = image_tag image in
        if is_empty tag || text_eq tag (codes "latest")
        then zero_version
        else or_zero (
            first_of_parses (mapped_tag tag)
              (first_of_parses (before_dash tag) (first_of_parses (parse tag) (make tag))))

  unfoldable pub desired_version : Text → Version
  unfolding lookup
  desired_version spec_version =
      let version = if is_empty spec_version then mysql_default_version else spec_version in
      or_zero (make (elim (lookup version mysql_tags_to_semver) [ some v ↦ v | none ↦ version ]))

  unfoldable pub applied_data_plane_version : Text → Version
  applied_data_plane_version status_applied =
      if is_empty status_applied then zero_version else or_zero (parse status_applied)

  -- The first `MY_MYSQL_VERSION` with a value that parses.
  env_version : List EnvVar → Option Version
  unfolding text_eq
  env_version [] = none
  env_version (e ∷ es) =
      let rest = env_version es in
      if text_eq e.name mysql_version_env && not (is_empty e.value)
      then first_of_parses (parse e.value) rest
      else rest

  unfoldable pub semver_from_mysql_container : Container → Version
  unfolding env_version
  semver_from_mysql_container c = elim (env_version c.env) [
    | some v ↦ v
    | none ↦ semver_from_image_ref c.image
  ]

  -- The pod template's containers and init containers; `none` is a nil StatefulSet.
  unfoldable pub semver_from_stateful_set : Option (List Container × List Container) → Version
  unfolding text_eq
  semver_from_stateful_set none = zero_version
  semver_from_stateful_set (some (containers, init_containers)) =
      elim (find (λ (c : Container). text_eq c.name (codes "mysql")) containers) [
        | some c ↦ semver_from_mysql_container c
        | none ↦
            elim (find (λ (c : Container). text_eq c.name (codes "mysql-init-only"))
              init_containers) [ some c ↦ semver_from_mysql_container c | none ↦ zero_version ]
      ]

  unfoldable pub semver_from_pod : Option (List Container) → Version
  unfolding text_eq
  semver_from_pod none = zero_version
  semver_from_pod (some containers) =
      elim (find (λ (c : Container). text_eq c.name (codes "mysql")) containers) [
        | some c ↦ semver_from_mysql_container c
        | none ↦ zero_version
      ]

  -- `none` is an error.
  unfoldable pub parse_server_version : Text → Option Version
  unfolding trim_space before_dash
  parse_server_version raw =
      let version = trim_space raw in
      let from_image =
        let v = semver_from_image_ref version in if is_zero v then none else some v in
      if is_empty version
      then none
      else first_of_parses (before_dash version) (first_of_parses (parse version) from_image)
