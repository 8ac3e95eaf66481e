-- ===== src/Upgrade/Pods/Complete.antt =====
-- rollout_complete.go: what a complete rollout is.
use mysql_operator.Base.{
  ℕ, suc, ◌^◌, ◌<◌, ◌≤◌, ap, inl, inr, Option-cases, ◌≡◌, ◌∙◌, ◌↔◌, refl, Bool, true, false, ◌&&◌,
  not, Option, none, some, List, [], ◌∷◌, arith, Text, text_eq, any, all, count_if, length, find,
  ◌==◌, pos, leb_ℤ, if◌then◌else◌, to_int32, to_int32-pos, count_if-le_length,
}
use mysql_operator.Semver.{Blang, eq}
use mysql_operator.Versioning.Resolution.{Container, semver_from_stateful_set}
use mysql_operator.Cluster.{MysqlCluster}
use mysql_operator.Cluster.Versions.{StatefulSet, template_of, desired_version}
use mysql_operator.Upgrade.Pods.{
  Pod, InitContainerStatus, init_status_succeeded, init_container_succeeded,
  pod_has_template_init_containers, all_init_containers_succeeded, ran_template,
  pod_template_init_containers_succeeded, rollout_complete_on_version, rollout_complete,
}

abbrev pub ended_with_zero : Option InitContainerStatus → Bool
ended_with_zero none = false
ended_with_zero (some s) = elim s.terminated [ none ↦ false | some exit_code ↦ exit_code == 0 ]

-- The first status of the name is that of a container that ended with the exit code 0.
abbrev pub ended_well : List InitContainerStatus → Text → Bool
ended_well statuses name =
    ended_with_zero (find (λ (s : InitContainerStatus). text_eq s.name name) statuses)

-- Each init container of the template is one of the pod and ended well there.
abbrev pub has_run : List Container → Pod → Bool
has_run template pod =
    all
      (λ (want : Container).
        any (λ (have : Container). text_eq have.name want.name) pod.init_containers
        && ended_well pod.init_container_statuses want.name)
      template

-- The spec wants a positive number of replicas; that many are ready, the template is on the wanted
-- version, and that many pods have run the init containers of the template.
abbrev pub IsComplete : ⦃blang : Blang⦄ → MysqlCluster → StatefulSet → List Pod → Type 0
IsComplete ⦃blang⦄ c sts pods =
    (n : ℕ) × (c.spec.replicas ≡ some n)
    × (1 ≤ n)
    × (n ≤ sts.ready_replicas)
    × (eq (semver_from_stateful_set (template_of (some sts))) (desired_version c) ≡ true)
    × (n ≤ count_if (has_run sts.init_containers) pods)

decided :
    (b : Bool) (s : InitContainerStatus) (rest : Bool) (found : Option InitContainerStatus)
    → rest ≡ ended_with_zero found
    → (if not b
        then rest
        else elim s.terminated as (λ _. Bool) [ some exit_code ↦ exit_code == 0 | none ↦ false ])
      ≡ ended_with_zero (if b then some s else found)
decided true s rest found h = elim (Option-cases s.terminated) [
  | inl e ↦ rw e refl
  | inr (exit_code, e) ↦ rw e refl
]
decided false s rest found h = h

init_status_succeeded-eq :
    (statuses : List InitContainerStatus) (name : Text)
    → init_status_succeeded statuses name ≡ ended_well statuses name
unfolding init_status_succeeded
init_status_succeeded-eq [] name = refl
init_status_succeeded-eq (s ∷ statuses) name =
    decided (text_eq s.name name) s _ _ (init_status_succeeded-eq statuses name)

all-both :
    (p q r : Container → Bool)
    → ((i : Container) → q i ≡ r i)
    → (template : List Container)
    → (all p template && all q template) ≡ all (λ (i : Container). p i && r i) template
all-both p q r same [] = refl
all-both p q r same (i ∷ template) = ground (arith, same i, all-both p q r same template)

guards : (a b : Bool) → (if not a then false else if not b then false else true) ≡ (a && b)
guards a b = ground arith

ran_template-eq :
    (template : List Container) (pod : Pod) → ran_template template pod ≡ has_run template pod
unfolding pod_has_template_init_containers all_init_containers_succeeded init_container_succeeded
ran_template-eq template pod =
    guards (pod_has_template_init_containers pod template)
      (all_init_containers_succeeded pod template)
    ∙ all-both
        (λ (want : Container).
          any (λ (have : Container). text_eq have.name want.name) pod.init_containers)
        (λ (want : Container). init_status_succeeded pod.init_container_statuses want.name)
        (λ (want : Container). ended_well pod.init_container_statuses want.name)
        (λ want. init_status_succeeded-eq pod.init_container_statuses want.name) template

count_if-eq :
    (template : List Container) (pods : List Pod)
    → count_if (ran_template template) pods ≡ count_if (has_run template) pods
count_if-eq template [] = refl
count_if-eq template (p ∷ pods) = rw (ran_template-eq template p, count_if-eq template pods) refl

-- Every pod has run a template without init containers.
count_if-none : (pods : List Pod) → count_if (has_run []) pods ≡ length pods
count_if-none [] = refl
count_if-none (p ∷ pods) = ap suc (count_if-none pods)

not_empty : (n : ℕ) (a b : Bool) → (if suc n == 0 then a else b) ≡ b
not_empty n a b = ground arith

-- What the program compares with the number of replicas.
counted :
    (sts : StatefulSet) (pods : List Pod) (n : ℕ)
    → pod_template_init_containers_succeeded sts pods n
      ≡ leb_ℤ (pos n) (to_int32 (pos (count_if (has_run sts.init_containers) pods)))
unfolding pod_template_init_containers_succeeded
counted sts pods n = counted_of sts.init_containers
  where
    counted_of :
        (template : List Container)
        → (if length template == 0
            then leb_ℤ (pos n) (to_int32 (pos (length pods)))
            else leb_ℤ (pos n) (to_int32 (pos (count_if (ran_template template) pods))))
          ≡ leb_ℤ (pos n) (to_int32 (pos (count_if (has_run template) pods)))
    counted_of [] = rw (count_if-none pods) refl
    counted_of (i ∷ template) =
        not_empty (length template) _ _
        ∙ ap (λ (m : ℕ). leb_ℤ (pos n) (to_int32 (pos m))) (count_if-eq (i ∷ template) pods)

to_int32_at_most : (n m : ℕ) → leb_ℤ (pos n) (to_int32 (pos m)) ≡ true → n ≤ m
unfolding to_int32
to_int32_at_most n m h = ground arith

module _ ⦃blang : Blang⦄ (c : MysqlCluster) (sts : StatefulSet) (pods : List Pod) where
  pub rollout_complete_sound : rollout_complete c (some sts) pods ≡ true → IsComplete c sts pods
  unfolding rollout_complete rollout_complete_on_version
  rollout_complete_sound h = elim (Option-cases c.spec.replicas) [
    | inl e ↦ ground arith
    | inr (n, e) ↦
        let count = counted sts pods n in
        let bound = to_int32_at_most n (count_if (has_run sts.init_containers) pods) in
        (n, e, ground arith, ground arith, ground arith, bound (ground arith))
  ]

  -- With fewer than 2 ^ 31 pods, the rollout is complete exactly if the spec wants a positive number
  -- of replicas, that many are ready, the template of the StatefulSet is on the wanted version, and
  -- that many pods have each init container of the template, whose first status of that name is that
  -- of a container that ended with the exit code 0.
  pub rollout_complete_iff :
      length pods < 2 ^ 31 → (rollout_complete c (some sts) pods ≡ true) ↔ IsComplete c sts pods
  unfolding rollout_complete rollout_complete_on_version
  rollout_complete_iff few = (
    rollout_complete_sound,
    λ (n, e, positive, ready, on_version, ran).
        let count = counted sts pods n in
        let whole =
          to_int32-pos (count_if (has_run sts.init_containers) pods)
            (omega (arith, few, count_if-le_length (has_run sts.init_containers) pods)) in
        ground arith,
  )
