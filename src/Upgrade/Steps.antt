-- ===== src/Upgrade/Steps.antt =====
-- step.go, step_strategy.go, steps_builtin.go, registry.go, upgrade_paths.go, init_steps.go and
-- chown.go: the steps of an upgrade and the paths that run them. There is one step, which changes the
-- owner of the data directory, so a strategy is a constructor with its methods by clauses.
use mysql_operator.Base.{
  ◌≡◌, ◌↔◌, ◌∙◌, refl, sym, Bool, true, false, ◌&&◌, ◌||◌, not, Option, none, some, List, [], ◌∷◌,
  arith, Text, codes, text_eq, find, any, if◌then◌else◌,
}
use mysql_operator.Semver.{Version, zero_version, Blang, BlangLaws, eq, is_zero, same_version→≡}
use mysql_operator.Versioning.Profiles.{
  Profile, percona57, percona80, percona84, fallback, name, profile_for,
}
use mysql_operator.Versioning.Images.{Options}
use mysql_operator.Cluster.{MysqlCluster}
use mysql_operator.Cluster.Versions.{desired_version, source_version_for_upgrade, is_percona_image}
use mysql_operator.Upgrade.{has_persistent_data_volume}

abbrev pub step_datadir_chown : Text
step_datadir_chown = codes "datadir-chown"

abbrev datadir_chown_init_container_name : Text
datadir_chown_init_container_name = codes "mysql-datadir-chown"

pub data Phase : Type 0 where
  phase_rollout_init : Phase

pub data Strategy : Type 0 where
  datadir_chown : Strategy

pub record UpgradeContext : Type 0 where
  pub cluster : MysqlCluster
  pub options : Options
  pub source : Version
  pub target : Version

-- `init` is the name of the init container.
pub record UpgradeStep : Type 0 where
  pub id : Text
  pub phase : Phase
  pub strategy : Option Strategy
  pub init : Option Text

abbrev datadir_chown_step : UpgradeStep
datadir_chown_step = record {
  id = step_datadir_chown;
  phase = phase_rollout_init;
  strategy = some datadir_chown;
  init = some datadir_chown_init_container_name;
}

abbrev pub builtin_upgrade_steps : List UpgradeStep
builtin_upgrade_steps = datadir_chown_step ∷ []

unfoldable pub step_by_id : Text → Option UpgradeStep
unfolding text_eq
step_by_id id = find (λ (s : UpgradeStep). text_eq s.id id) builtin_upgrade_steps

record Transition : Type 0 where
  from : Text
  to : Text
  steps : List Text

abbrev upgrade_path_steps : List Transition
upgrade_path_steps =
    record { from = codes "percona-8.0"; to = codes "percona-8.4"; steps = step_datadir_chown ∷ [] }
    ∷ []

-- The value of the map at a pair of names, or the nil list.
steps_at : Text → Text → List Transition → List Text
unfolding text_eq
steps_at from to [] = []
steps_at from to (t ∷ ts) =
    let rest = steps_at from to ts in
    if text_eq t.from from && text_eq t.to to then t.steps else rest

unfoldable pub step_ids_on_path : Version → Version → List Text
unfolding steps_at
step_ids_on_path from to =
    let from_profile = name (profile_for from) in
    let to_profile = name (profile_for to) in
    if text_eq from_profile to_profile
    then []
    else steps_at from_profile to_profile upgrade_path_steps

unfoldable pub strategy_source_version : Strategy → UpgradeContext → Version
strategy_source_version datadir_chown uctx = uctx.source

unfoldable pub strategy_applicable : ⦃blang : Blang⦄ → Strategy → UpgradeContext → Bool
unfolding strategy_source_version
strategy_applicable ⦃blang⦄ datadir_chown uctx =
    let from = strategy_source_version datadir_chown uctx in
    if is_zero from || eq from uctx.target
    then false
    else if not (has_persistent_data_volume uctx.cluster)
    then false
    else is_percona_image uctx.options uctx.cluster

unfoldable pub step_source_version : UpgradeStep → UpgradeContext → Version
unfolding strategy_source_version
step_source_version s uctx = elim s.strategy [
  | none ↦ zero_version
  | some strategy ↦ strategy_source_version strategy uctx
]

unfoldable pub source_version_for_step : UpgradeContext → Text → Version
unfolding step_by_id step_source_version
source_version_for_step uctx id = elim (step_by_id id) [
  | none ↦ zero_version
  | some s ↦ step_source_version s uctx
]

abbrev is_hop : Profile → Profile → Bool
is_hop percona80 percona84 = true
is_hop _ _ = false

is_hop_self : (p : Profile) → is_hop p p ≡ false
is_hop_self percona80 = refl
is_hop_self _ = refl

-- The only path with steps leads from 8.0 to 8.4.
hop_path :
    (p q : Profile)
    → any
        (λ i. text_eq i step_datadir_chown)
        (if text_eq (name p) (name q) then [] else steps_at (name p) (name q) upgrade_path_steps)
      ≡ is_hop p q
unfolding text_eq name steps_at
hop_path percona57 percona57 = refl
hop_path percona57 percona80 = refl
hop_path percona57 percona84 = refl
hop_path percona57 fallback = refl
hop_path percona80 percona57 = refl
hop_path percona80 percona80 = refl
hop_path percona80 percona84 = refl
hop_path percona80 fallback = refl
hop_path percona84 percona57 = refl
hop_path percona84 percona80 = refl
hop_path percona84 percona84 = refl
hop_path percona84 fallback = refl
hop_path fallback percona57 = refl
hop_path fallback percona80 = refl
hop_path fallback percona84 = refl
hop_path fallback fallback = refl

hop_iff :
    (p q : Profile) (unset same has_volume percona : Bool)
    → (same ≡ true → is_hop p q ≡ false)
    → ((if not (
            (if unset then false else is_hop p q)
            && (if unset || same then false else if not has_volume then false else percona))
          then false
          else true)
        ≡ true)
      ↔ ((unset ≡ false)
          × (p ≡ percona80)
          × (q ≡ percona84)
          × (has_volume ≡ true)
          × (percona ≡ true))
hop_iff p q unset same has_volume percona apart = (λ h. ground arith, λ h. ground arith)

module _ ⦃blang : Blang⦄ where
  unfoldable pub step_scheduled : UpgradeContext → Text → Bool
  unfolding source_version_for_step step_ids_on_path text_eq
  step_scheduled uctx id =
      let from = source_version_for_step uctx id in
      if is_zero from then false else any (λ i. text_eq i id) (step_ids_on_path from uctx.target)

  unfoldable pub step_applicable : UpgradeContext → Text → Bool
  unfolding step_by_id strategy_applicable
  step_applicable uctx id = elim (step_by_id id) [
    | none ↦ false
    | some s ↦ elim s.strategy [ none ↦ false | some strategy ↦ strategy_applicable strategy uctx ]
  ]

  unfoldable pub step_required : UpgradeContext → Text → Bool
  unfolding step_scheduled step_applicable
  step_required uctx id = step_scheduled uctx id && step_applicable uctx id

  unfoldable pub rollout_init_step_required : UpgradeContext → Text → Bool
  unfolding step_by_id step_required
  rollout_init_step_required uctx id = elim (step_by_id id) [
    | none ↦ false
    | some s ↦ elim s.init [
      | none ↦ false
      | some container ↦ if not (step_required uctx id) then false else true
    ]
  ]

  abbrev new_upgrade_context : Options → MysqlCluster → UpgradeContext
  new_upgrade_context opt c = record {
    cluster = c;
    options = opt;
    source = source_version_for_upgrade c;
    target = desired_version c;
  }

  unfoldable pub needs_rollout_init : Options → MysqlCluster → Text → Bool
  unfolding rollout_init_step_required
  needs_rollout_init opt c id = rollout_init_step_required (new_upgrade_context opt c) id

  unfoldable pub needs_datadir_chown_init : Options → MysqlCluster → Bool
  unfolding needs_rollout_init
  needs_datadir_chown_init opt c = needs_rollout_init opt c step_datadir_chown

  -- The init container that changes the owner of the data directory is added exactly when a version
  -- is applied, it is of the line 8.0, the wanted version is of the line 8.4, the data is on a
  -- claim, and the server image is Percona's.
  pub needs_datadir_chown_init_iff :
      BlangLaws blang
      → (opt : Options) (c : MysqlCluster)
      → (needs_datadir_chown_init opt c ≡ true) ↔ (
          (is_zero (source_version_for_upgrade c) ≡ false)
          × (profile_for (source_version_for_upgrade c) ≡ percona80)
          × (profile_for (desired_version c) ≡ percona84)
          × (has_persistent_data_volume c ≡ true)
          × (is_percona_image opt c ≡ true))
  unfolding needs_datadir_chown_init
  needs_datadir_chown_init_iff laws opt c =
      let source = source_version_for_upgrade c in
      let target = desired_version c in
      let path = hop_path (profile_for source) (profile_for target) in
      let apart : eq source target ≡ true
          → is_hop (profile_for source) (profile_for target) ≡ false =
        (λ h.
          let e : source ≡ target =
            same_version→≡ source target (sym (laws.eq_lem source target) ∙ h) in
          rw e (is_hop_self (profile_for target))) in
      (rw path (
        hop_iff (profile_for source) (profile_for target) (is_zero source) (eq source target)
          (has_persistent_data_volume c) (is_percona_image opt c) apart))
