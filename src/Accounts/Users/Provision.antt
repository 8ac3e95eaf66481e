-- ===== src/Accounts/Users/Provision.antt =====
-- The provisioning of a MysqlUser, piece by piece.
use mysql_operator.Base.{
  Option-cases, Result, Result-cases, err, ok, ◌≡◌, ◌⊎◌, inl, inr, refl, sym, ap, ◌∙◌, true, Option,
  none, some, List, [], ◌∷◌, ◌++◌, append-nil, arith, Text, codes, map, Bool-cases, if◌then◌else◌,
}
use mysql_operator.Sql.{Query, create_user_query}
use mysql_operator.Accounts.{
  ApiError, Request, exec, update, done, failed, panicked, Pass, ◌>>◌, stop, change, FinalizersLaws,
  provision_succeeded_reason,
}
use mysql_operator.Accounts.Passes.{
  Untouched, exec_query_cases, Succeeded, Succeeded-append, >>-done, >>-failed, >>-panicked,
}
use mysql_operator.Accounts.Users.{
  MysqlUser, Env, user_finalizer, connect, string_diff_in, create_user_if_not_exists, drop_hosts,
  password_of, write_user, write_with, reconcile_user_in_db,
}
use mysql_operator.Accounts.Users.Reconcile.{
  ensure_finalizer, set_condition, record_hosts, provision,
}
use mysql_operator.Accounts.Users.Drops.{drop_request, drop_hosts_cases}

module _ (env : Env) (user : MysqlUser) where
  abbrev pub query_of : Text → Option Query
  query_of password =
      create_user_query user.spec.user password user.spec.allowed_hosts user.spec.permissions
        user.spec.resource_limits

  -- The user is dropped for the hosts that the status records and the spec does not.
  abbrev pub stale_drops : List (Request MysqlUser)
  stale_drops =
      map (drop_request user.spec.user)
        (string_diff_in user.status.allowed_hosts user.spec.allowed_hosts)

  create_cases :
      (password : Text) (hosts : List Text) (log : List (Request MysqlUser))
      → ((query : Query) × (create_user_query user.spec.user password hosts user.spec.permissions
              user.spec.resource_limits
            ≡ some query)
          × (env.answer log (exec query) ≡ none)
          × (create_user_if_not_exists env user.spec.user password hosts user log
              ≡ stop done user (log ++ exec query ∷ [])))
        ⊎ Untouched user (create_user_if_not_exists env user.spec.user password hosts user log)
  unfolding create_user_if_not_exists
  create_cases password [] log = inr (refl, inl (_, refl))
  create_cases password (host ∷ hosts) log =
      exec_query_cases env.answer (codes "failed to configure user (user/pass/access), err: ")
        (create_user_query user.spec.user password (host ∷ hosts) user.spec.permissions
          user.spec.resource_limits)
        user log

  -- The user was written: with the password of the secret, and every statement with success.
  abbrev pub Written : Text → Query → Pass MysqlUser → Type 0
  Written password query pass =
      (query_of password ≡ some query)
      × Succeeded env.answer [] (exec query ∷ stale_drops)
      × (pass ≡ stop done user (exec query ∷ stale_drops))

  write_cases :
      (password : Text)
      → ((query : Query) × Written password query (write_user env password user []))
        ⊎ Untouched user (write_user env password user [])
  unfolding write_user
  write_cases password =
      let create = create_user_if_not_exists env user.spec.user password user.spec.allowed_hosts in
      let hosts = string_diff_in user.status.allowed_hosts user.spec.allowed_hosts in
      let drop = drop_hosts env user.spec.user hosts in
      elim (create_cases password user.spec.allowed_hosts []) [
        | inl (query, q, granted, run) ↦
            let step = >>-done create drop user [] user (exec query ∷ []) run in
            elim (drop_hosts_cases env user.spec.user hosts user (exec query ∷ [])) [
              | inl (dropped, rest) ↦ inl (query, (q, (granted, dropped), step ∙ rest))
              | inr (only, kept, (x, e)) ↦
                  inr (ap (λ p. p.object) step ∙ kept, inl (x, ap (λ p. p.ending) step ∙ e))
            ]
        | inr (same, inl (x, e)) ↦
            let stopped = >>-failed create drop user [] x e in
            inr (ap (λ p. p.object) stopped ∙ same, inl (x, ap (λ p. p.ending) stopped ∙ e))
        | inr (same, inr e) ↦
            let stopped = >>-panicked create drop user [] e in
            inr (ap (λ p. p.object) stopped ∙ same, inr (ap (λ p. p.ending) stopped ∙ e))
      ]

  pub db_connected :
      (log : List (Request MysqlUser))
      → connect env user ≡ none
      → (password : Result ApiError Text) → password_of env user ≡ password
      → reconcile_user_in_db env user log ≡ write_with env password user log
  unfolding reconcile_user_in_db
  db_connected log c password p =
      rw (c, reconcile_user_in_db) (ap (λ q. write_with env q user log) p)

  db_unconnected :
      (e : ApiError)
      → connect env user ≡ some e
      → reconcile_user_in_db env user [] ≡ stop (failed e) user []
  unfolding reconcile_user_in_db
  db_unconnected e c = rw (c, reconcile_user_in_db) refl

  -- The connection is there, the password is not empty, and the user was written.
  abbrev pub Committed : Text → Query → Pass MysqlUser → Type 0
  Committed password query pass =
      (connect env user ≡ none) × (password_of env user ≡ ok password) × Written password query pass

  db_cases :
      ((password : Text) × (query : Query) × Committed password query
          (reconcile_user_in_db env user []))
      ⊎ Untouched user (reconcile_user_in_db env user [])
  db_cases = elim (Option-cases (connect env user)) [
    | inr (e, c) ↦ rw (db_unconnected e c) (inr (refl, inl (e, refl)))
    | inl c ↦ elim (Result-cases (password_of env user)) [
      | inl (e, p) ↦ rw (db_connected [] c (err e) p) (inr (refl, inl (e, refl)))
      | inr (password, p) ↦
          let run = db_connected [] c (ok password) p in
          elim (write_cases password) [
            | inl (query, (q, granted, w)) ↦ inl (password, query, (c, p, (q, granted, run ∙ w)))
            | inr (same, stopped) ↦ rw run (inr (same, stopped))
          ]
    ]
  ]

  abbrev pub with_finalizer : MysqlUser
  with_finalizer =
      if env.finalizers.has user_finalizer user.finalizers
      then user
      else record user { finalizers = env.finalizers.add user_finalizer user.finalizers }

  -- The object is sent once more if it has no finalizer yet.
  abbrev pub finalizing : List (Request MysqlUser)
  finalizing =
      if env.finalizers.has user_finalizer user.finalizers
      then []
      else update (record user { finalizers = env.finalizers.add user_finalizer user.finalizers })
        ∷ []

  ensure_cases :
      (log : List (Request MysqlUser))
      → (Succeeded env.answer log finalizing
          × (ensure_finalizer env user log ≡ stop done with_finalizer (log ++ finalizing)))
        ⊎ (((ensure_finalizer env user log).object.status ≡ user.status)
            × ((e : ApiError) × ((ensure_finalizer env user log).ending ≡ failed e)))
  unfolding ensure_finalizer
  ensure_cases log = elim (Bool-cases (env.finalizers.has user_finalizer user.finalizers)) [
    | inl has ↦ rw (has, if◌then◌else◌) (inl (tt, ap (stop done user) (sym (append-nil log))))
    | inr lacks ↦
        let u : MysqlUser = record user {
          finalizers = env.finalizers.add user_finalizer user.finalizers;
        } in
        elim (Option-cases (env.answer log (update u))) [
          | inl granted ↦ rw (lacks, if◌then◌else◌) (inl ((granted, tt), rw granted refl))
          | inr (e, refused) ↦ rw (lacks, if◌then◌else◌) (inr (refl, (e, rw refused refl)))
        ]
  ]

  with_finalizer-status : with_finalizer.status ≡ user.status
  with_finalizer-status = ground arith

  pub with_finalizer-spec : with_finalizer.spec ≡ user.spec
  with_finalizer-spec = ground arith

  pub with_finalizer-has :
      FinalizersLaws env.finalizers
      → env.finalizers.has user_finalizer with_finalizer.finalizers ≡ true
  with_finalizer-has laws = elim (Bool-cases (env.finalizers.has user_finalizer user.finalizers)) [
    | inl has ↦ rw (has, if◌then◌else◌) has
    | inr lacks ↦ rw (lacks, if◌then◌else◌) (laws.has-add user_finalizer user.finalizers)
  ]

  abbrev pub success : MysqlUser → MysqlUser
  success u =
      set_condition env.now true provision_succeeded_reason
        (codes "The user provisioning has succeeded.") (record_hosts u)

  -- All requests of a pass that provisions the user.
  abbrev pub all_requests : Query → List (Request MysqlUser)
  all_requests query = exec query ∷ stale_drops ++ finalizing

  pub provision_cases :
      ((password : Text) × (query : Query) × (connect env user ≡ none)
        × (password_of env user ≡ ok password)
        × (query_of password ≡ some query)
        × Succeeded env.answer [] (all_requests query)
        × (provision env user [] ≡ stop done (success with_finalizer) (all_requests query)))
      ⊎ ((((provision env user []).object.status ≡ user.status)
            × ((e : ApiError) × ((provision env user []).ending ≡ failed e)))
          ⊎ (((provision env user []).object ≡ user) × ((provision env user []).ending ≡ panicked)))
  unfolding provision
  provision_cases =
      let db = reconcile_user_in_db env in
      let end =
        change record_hosts
        >> change (
            set_condition env.now true provision_succeeded_reason
              (codes "The user provisioning has succeeded.")) in
      elim db_cases [
        | inr (same, inl (e, f)) ↦
            let stopped = >>-failed db (ensure_finalizer env >> end) user [] e f in
            inr (
              inl (
                ap (λ p. p.object.status) stopped ∙ ap (λ u. u.status) same,
                (e, ap (λ p. p.ending) stopped ∙ f),
              ))
        | inr (same, inr f) ↦
            let stopped = >>-panicked db (ensure_finalizer env >> end) user [] f in
            inr (inr (ap (λ p. p.object) stopped ∙ same, ap (λ p. p.ending) stopped ∙ f))
        | inl (password, query, (c, p, (q, granted, w))) ↦
            let log = exec query ∷ stale_drops in
            let step = >>-done db (ensure_finalizer env >> end) user [] user log w in
            elim (ensure_cases log) [
              | inl (added, f) ↦ inl (
                password,
                query,
                c,
                p,
                q,
                Succeeded-append env.answer [] log finalizing granted added,
                step
                    ∙ >>-done (ensure_finalizer env) end user log with_finalizer (log ++ finalizing)
                        f,
              )
              | inr (kept, (e, f)) ↦
                  let stopped = step ∙ >>-failed (ensure_finalizer env) end user log e f in
                  inr (
                    inl (
                      ap (λ p. p.object.status) stopped ∙ kept,
                      (e, ap (λ p. p.ending) stopped ∙ f),
                    ))
            ]
      ]
