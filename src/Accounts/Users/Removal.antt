-- ===== src/Accounts/Users/Removal.antt =====
-- The deletion of a MysqlUser: when its finalizer is given up.
use mysql_operator.Base.{
  Option-cases, ℕ, ◌≡◌, ◌⊎◌, inl, inr, refl, sym, ap, ◌∙◌, subst, true, false, none, some, List, [],
  ◌∷◌, ◌++◌, map, All, All→Memᴰ, Bool-cases, if◌then◌else◌,
}
use mathlib.Core.List.{Memᴰ}
use mathlib.Core.List.Memᴰ
use mysql_operator.Accounts.{
  ◌>>◌, ApiError, is_cluster_gone, deletion_policy_retain, Request, update, done, failed, stop,
  send, change, with_object,
}
use mysql_operator.Accounts.Passes.{Succeeded, >>-done, >>-failed, IsExec}
use mysql_operator.Accounts.Users.{MysqlUser, Env, user_finalizer, connect, drop_hosts}
use mysql_operator.Accounts.Users.Reconcile.{
  released, drop_user_from_db, drop_unless_retained, remove_user, crosses_namespaces,
  reconcile_allowed, reconcile,
}
use mysql_operator.Accounts.Users.Drops.{drop_request, drop_hosts_cases, drops_IsExec}

module _ (env : Env) (user : MysqlUser) where
  abbrev drops : List (Request MysqlUser)
  drops = map (drop_request user.spec.user) user.status.allowed_hosts

  -- Why the finalizer may be given up: the policy retains the user, the cluster is gone, or the user
  -- was dropped for every host.
  abbrev pub MayRelease : List (Request MysqlUser) → Type 0
  MayRelease log =
      (deletion_policy_retain user.annotations ≡ true)
      ⊎ (((e : ApiError) × (connect env user ≡ some e) × (is_cluster_gone e ≡ true))
          ⊎ ((connect env user ≡ none)
              × Succeeded env.answer [] drops
              × (log ≡ drops ++ update (released env user) ∷ [])))

  module _ (log : List (Request MysqlUser)) where
    drop_retained :
        deletion_policy_retain user.annotations ≡ true
        → drop_unless_retained env user log ≡ stop done user log
    unfolding drop_unless_retained
    drop_retained r = rw r refl

    module _ (r : deletion_policy_retain user.annotations ≡ false) where
      drop_unconnected :
          (e : ApiError)
          → connect env user ≡ some e
          → drop_unless_retained env user log
            ≡ (if is_cluster_gone e then stop done user log else stop (failed e) user log)
      unfolding drop_unless_retained drop_user_from_db
      drop_unconnected e c = rw r (rw (c, drop_user_from_db) refl)

      drop_connected :
          connect env user ≡ none
          → drop_unless_retained env user log
            ≡ drop_hosts env user.spec.user user.status.allowed_hosts user log
      unfolding drop_unless_retained drop_user_from_db
      drop_connected c = rw r (rw (c, drop_user_from_db) refl)

-- Behind statements only, an update is the last request.
last_update :
    (log : List (Request MysqlUser)) (r u : MysqlUser)
    → All IsExec log
    → Memᴰ (update r) (log ++ update u ∷ [])
    → r ≡ u
last_update [] r u only m = elim (Memᴰ.cases_cons m) [ inl e ↦ cc | inr n ↦ elim n [ ] ]
last_update (x ∷ log) r u only m = elim (Memᴰ.cases_cons m) [
  | inl e ↦ absurd (subst IsExec (sym e) only.0)
  | inr n ↦ last_update log r u only.1 n
]

module _ (env : Env) (user r : MysqlUser) where
  finish :
      (log : List (Request MysqlUser))
      → env.finalizers.has user_finalizer user.finalizers ≡ true
      → drop_unless_retained env user [] ≡ stop done user log
      → remove_user env user []
        ≡ send env.answer (update (released env user)) (released env user) log
  unfolding remove_user
  finish log h e =
      rw (h, if◌then◌else◌)
        (>>-done (drop_unless_retained env)
          (change (released env) >> with_object λ u. send env.answer (update u)) user [] user log e)

  abandon :
      (e : ApiError)
      → env.finalizers.has user_finalizer user.finalizers ≡ true
      → (drop_unless_retained env user []).ending ≡ failed e
      → remove_user env user [] ≡ drop_unless_retained env user []
  unfolding remove_user
  abandon e h failure =
      rw (h, if◌then◌else◌)
        (>>-failed (drop_unless_retained env)
          (change (released env) >> with_object λ u. send env.answer (update u)) user [] e failure)

  finish_cases :
      (log : List (Request MysqlUser))
      → env.finalizers.has user_finalizer user.finalizers ≡ true
      → drop_unless_retained env user [] ≡ stop done user log
      → All IsExec log
      → Memᴰ (update r) (remove_user env user []).log
      → (r ≡ released env user)
        × ((remove_user env user []).log ≡ log ++ update (released env user) ∷ [])
  finish_cases log h e only m =
      let same : (remove_user env user []).log ≡ log ++ update (released env user) ∷ [] =
        ap (λ p. p.log) (finish log h e) in
      (last_update log r (released env user) only (subst (Memᴰ (update r)) same m), same)

  connected_cases :
      env.finalizers.has user_finalizer user.finalizers ≡ true
      → deletion_policy_retain user.annotations ≡ false
      → connect env user ≡ none
      → Memᴰ (update r) (remove_user env user []).log
      → (r ≡ released env user) × MayRelease env user (remove_user env user []).log
  connected_cases h deleted c m =
      let e = drop_connected env user [] deleted c in
      elim (drop_hosts_cases env user.spec.user user.status.allowed_hosts user []) [
        | inl (all_granted, f) ↦
            let (same, shape) =
              finish_cases (drops env user) h (e ∙ f)
                (drops_IsExec user.spec.user user.status.allowed_hosts) m in
            (same, inr (inr (c, all_granted, shape)))
        | inr (only, _, (x, f)) ↦
            let g = abandon x h (ap (λ p. p.ending) e ∙ f) ∙ e in
            absurd (All→Memᴰ IsExec (only tt) (subst (Memᴰ (update r)) (ap (λ p. p.log) g) m))
      ]

  untouched :
      env.finalizers.has user_finalizer user.finalizers ≡ false
      → remove_user env user [] ≡ stop done user []
  unfolding remove_user
  untouched absent = rw (absent, if◌then◌else◌) refl

  unconnected_cases :
      (e : ApiError)
      → env.finalizers.has user_finalizer user.finalizers ≡ true
      → deletion_policy_retain user.annotations ≡ false
      → connect env user ≡ some e
      → Memᴰ (update r) (remove_user env user []).log
      → (r ≡ released env user) × MayRelease env user (remove_user env user []).log
  unconnected_cases e h deleted c m =
      let run = drop_unconnected env user [] deleted e c in
      elim (Bool-cases (is_cluster_gone e)) [
        | inl gone ↦
            let run' : drop_unless_retained env user [] ≡ stop done user [] = rw gone at run in
            ((finish_cases [] h run' tt m).0, inr (inl (e, c, gone)))
        | inr other ↦
            let run' : drop_unless_retained env user [] ≡ stop (failed e) user [] =
              rw other at run in
            let failure = abandon e h (ap (λ p. p.ending) run') ∙ run' in
            elim (subst (Memᴰ (update r)) (ap (λ p. p.log) failure) m) [ ]
      ]

  remove_user_cases :
      Memᴰ (update r) (remove_user env user []).log
      → (r ≡ released env user) × MayRelease env user (remove_user env user []).log
  remove_user_cases m = elim (Bool-cases (env.finalizers.has user_finalizer user.finalizers)) [
    | inr absent ↦ elim (subst (Memᴰ (update r)) (ap (λ p. p.log) (untouched absent)) m) [ ]
    | inl h ↦ elim (Bool-cases (deletion_policy_retain user.annotations)) [
      | inl retained ↦
          ((finish_cases [] h (drop_retained env user [] retained) tt m).0, inl retained)
      | inr deleted ↦ elim (Option-cases (connect env user)) [
        | inl c ↦ connected_cases h deleted c m
        | inr (e, c) ↦ unconnected_cases e h deleted c m
      ]
    ]
  ]

  -- The only update that a pass over a user that is being deleted sends takes the finalizer of this
  -- controller away, and it is sent only if the annotations ask to retain the user, if there is no
  -- connection because the cluster is gone, or after statements that dropped the user, each of them
  -- with success, for every host that the status records.
  pub reconcile-MayRelease_user :
      (t : ℕ)
      → user.deletion_timestamp ≡ some t
      → Memᴰ (update r) (reconcile env user).pass.log
      → (r ≡ released env user) × MayRelease env user (reconcile env user).pass.log
  unfolding reconcile
  reconcile-MayRelease_user t d m = elim (Bool-cases (crosses_namespaces env user)) [
    | inl crosses ↦
        let same : (reconcile env user).pass.log ≡ [] = rw (crosses, if◌then◌else◌) refl in
        elim (subst (Memᴰ (update r)) same m) [ ]
    | inr allowed ↦
        let removal : (reconcile env user).pass.log ≡ (remove_user env user []).log =
          rw (allowed, if◌then◌else◌) (ap (λ t. (reconcile_allowed env user t).pass.log) d) in
        let (same, why) = remove_user_cases (subst (Memᴰ (update r)) removal m) in
        (same, subst (MayRelease env user) (sym removal) why)
  ]
