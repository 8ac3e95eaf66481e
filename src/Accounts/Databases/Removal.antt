-- ===== src/Accounts/Databases/Removal.antt =====
-- The deletion of a MysqlDatabase: when its finalizer is given up.
use mysql_operator.Base.{
  Option-cases, ℕ, ◌≡◌, ◌⊎◌, inl, inr, refl, sym, ap, ◌∙◌, subst, true, false, Option, none, some,
  List, [], ◌∷◌, codes, All→Memᴰ, Bool-cases, if◌then◌else◌,
}
use mathlib.Core.List.{Memᴰ}
use mathlib.Core.List.Memᴰ
use mysql_operator.Sql.{Query, drop_database_query}
use mysql_operator.Accounts.{
  ApiError, is_cluster_gone, deletion_policy_retain, Request, exec, update, update_status, done,
  failed, panicked, Pass, ◌>>◌, stop, send, change, with_object, plain_error, conditions_same,
}
use mysql_operator.Accounts.Passes.{
  exec_query_cases, exec_query-IsExec, IsExec, >>-done, >>-failed, >>-panicked,
}
use mysql_operator.Accounts.Databases.{
  MysqlDatabase, Env, connect, drop_database, delete_database, update_condition, send_status,
  update_ready_condition, released, remove_database, crosses_namespaces, reconcile_allowed,
  reconcile,
}

abbrev Stopped : Pass MysqlDatabase → Type 0
Stopped pass = ((x : ApiError) × (pass.ending ≡ failed x)) ⊎ (pass.ending ≡ panicked)

module _ (env : Env) (db r : MysqlDatabase) where
  -- Why the finalizer may be given up: the policy retains the database, the cluster is gone, or the
  -- statement that drops it was answered with success.
  abbrev pub MayRelease : List (Request MysqlDatabase) → Type 0
  MayRelease log =
      (deletion_policy_retain db.annotations ≡ true)
      ⊎ (((e : ApiError) × (connect env db ≡ some e) × (is_cluster_gone e ≡ true))
          ⊎ ((query : Query) × (drop_database_query db.spec.database ≡ some query)
              × (env.answer [] (exec query) ≡ none)
              × (log ≡ exec query ∷ update (released env db) ∷ [])))

  delete_retained :
      deletion_policy_retain db.annotations ≡ true → delete_database env db [] ≡ stop done db []
  unfolding delete_database
  delete_retained retained = rw (retained, if◌then◌else◌) refl

  module _ (deleted : deletion_policy_retain db.annotations ≡ false) where
    delete_unconnected :
        (e : ApiError)
        → connect env db ≡ some e
        → delete_database env db []
          ≡ (if is_cluster_gone e then stop done db [] else stop (failed e) db [])
    unfolding delete_database
    delete_unconnected e c = rw (deleted, if◌then◌else◌) (rw c refl)

    delete_connected : connect env db ≡ none → delete_database env db [] ≡ drop_database env db []
    unfolding delete_database
    delete_connected c = rw (deleted, if◌then◌else◌) (rw c refl)

  -- Behind a deletion that succeeds, the update is the last request.
  finish :
      (log : List (Request MysqlDatabase))
      → delete_database env db [] ≡ stop done db log
      → remove_database env db [] ≡ send env.answer (update (released env db)) (released env db) log
  unfolding remove_database
  finish log e =
      >>-done (delete_database env)
        (change (released env) >> with_object λ d. send env.answer (update d)) db [] db log e

  abandon :
      Stopped (delete_database env db []) → remove_database env db [] ≡ delete_database env db []
  unfolding remove_database
  abandon (inl (x, e)) =
      >>-failed (delete_database env)
        (change (released env) >> with_object λ d. send env.answer (update d)) db [] x e
  abandon (inr e) =
      >>-panicked (delete_database env)
        (change (released env) >> with_object λ d. send env.answer (update d)) db [] e

  only_update : Memᴰ (update r) (update (released env db) ∷ []) → r ≡ released env db
  only_update m = elim (Memᴰ.cases_cons m) [ inl e ↦ cc | inr n ↦ elim n [ ] ]

  behind_exec :
      (query : Query)
      → Memᴰ (update r) (exec query ∷ update (released env db) ∷ [])
      → r ≡ released env db
  behind_exec query m = elim (Memᴰ.cases_cons m) [ inl e ↦ cc | inr n ↦ only_update n ]

  finished_at_once :
      delete_database env db [] ≡ stop done db []
      → Memᴰ (update r) (remove_database env db []).log
      → r ≡ released env db
  finished_at_once e m = only_update (subst (Memᴰ (update r)) (ap (λ p. p.log) (finish [] e)) m)

  connected_cases :
      delete_database env db [] ≡ drop_database env db []
      → Memᴰ (update r) (remove_database env db []).log
      → (r ≡ released env db) × MayRelease (remove_database env db []).log
  unfolding drop_database
  connected_cases e m =
      elim (exec_query_cases env.answer (codes "failed to remove database, err: ")
        (drop_database_query db.spec.database) db []) [
          | inl (query, q, granted, run) ↦
              let log : (remove_database env db []).log
                  ≡ exec query ∷ update (released env db) ∷ [] =
                ap (λ p. p.log) (finish (exec query ∷ []) (e ∙ run)) in
              (
                behind_exec query (subst (Memᴰ (update r)) log m),
                inr (inr (query, q, granted, log)),
              )
          | inr (same, stopped) ↦
              let failure = abandon (subst (λ p. Stopped p) (sym e) stopped) ∙ e in
              absurd (
                All→Memᴰ IsExec
                  (exec_query-IsExec env.answer (codes "failed to remove database, err: ")
                    (drop_database_query db.spec.database) db [] tt)
                  (subst (Memᴰ (update r)) (ap (λ p. p.log) failure) m))
        ]

  unconnected_cases :
      deletion_policy_retain db.annotations ≡ false
      → (e : ApiError) → connect env db ≡ some e
      → Memᴰ (update r) (remove_database env db []).log
      → (r ≡ released env db) × MayRelease (remove_database env db []).log
  unconnected_cases deleted e c m =
      let run = delete_unconnected deleted e c in
      elim (Bool-cases (is_cluster_gone e)) [
        | inl gone ↦
            let run' : delete_database env db [] ≡ stop done db [] = rw gone at run in
            (finished_at_once run' m, inr (inl (e, c, gone)))
        | inr other ↦
            let run' : delete_database env db [] ≡ stop (failed e) db [] = rw other at run in
            let failure = abandon (inl (e, ap (λ p. p.ending) run')) ∙ run' in
            elim (subst (Memᴰ (update r)) (ap (λ p. p.log) failure) m) [ ]
      ]

  remove_database_cases :
      Memᴰ (update r) (remove_database env db []).log
      → (r ≡ released env db) × MayRelease (remove_database env db []).log
  remove_database_cases m = elim (Bool-cases (deletion_policy_retain db.annotations)) [
    | inl retained ↦ (finished_at_once (delete_retained retained) m, inl retained)
    | inr deleted ↦ elim (Option-cases (connect env db)) [
      | inl c ↦ connected_cases (delete_connected deleted c) m
      | inr (e, c) ↦ unconnected_cases deleted e c m
    ]
  ]

  -- At most the status is sent.
  send_status_log :
      (result : Option ApiError) (marked : MysqlDatabase)
      → ((send_status env db.status result marked []).log ≡ [])
        ⊎ ((send_status env db.status result marked []).log ≡ update_status marked ∷ [])
  unfolding send_status
  send_status_log result marked =
      elim (Bool-cases (conditions_same db.status.conditions marked.status.conditions)) [
        | inl same ↦ inl (rw (same, if◌then◌else◌) refl)
        | inr changed ↦ elim (Option-cases (env.answer [] (update_status marked))) [
          | inl granted ↦ inr (rw (changed, if◌then◌else◌) (rw granted refl))
          | inr (e, failure) ↦ inr (rw (changed, if◌then◌else◌) (rw failure refl))
        ]
      ]

  refused_lem :
      (result : Option ApiError)
      → Memᴰ (update r) (update_ready_condition env db.status result db []).log
      → ⊥
  unfolding update_ready_condition
  refused_lem result m = elim (send_status_log result (update_condition env.now result db)) [
    | inl e ↦ elim (subst (Memᴰ (update r)) e m) [ ]
    | inr e ↦ elim (Memᴰ.cases_cons (subst (Memᴰ (update r)) e m)) [
      | inl bad ↦ cc
      | inr n ↦ elim n [ ]
    ]
  ]

  -- The only update that a pass over a database that is being deleted sends takes the finalizer of this
  -- controller away, and it is sent only if the annotations ask to retain the database, if there is
  -- no connection because the cluster is gone, or right after a statement that dropped the database
  -- with success.
  pub reconcile-MayRelease_database :
      (t : ℕ)
      → db.deletion_timestamp ≡ some t
      → Memᴰ (update r) (reconcile env db).pass.log
      → (r ≡ released env db) × MayRelease (reconcile env db).pass.log
  unfolding reconcile
  reconcile-MayRelease_database t d m = elim (Bool-cases (crosses_namespaces env db)) [
    | inl crosses ↦
        let same : (reconcile env db).pass.log
            ≡ (update_ready_condition env db.status
                (some (plain_error (codes "cross namespace database creation is disabled"))) db
                []).log =
          rw (crosses, if◌then◌else◌) refl in
        absurd (
          refused_lem (some (plain_error (codes "cross namespace database creation is disabled")))
            (subst (Memᴰ (update r)) same m))
    | inr allowed ↦
        let removal : (reconcile env db).pass.log ≡ (remove_database env db []).log =
          rw (allowed, if◌then◌else◌) (ap (λ x. (reconcile_allowed env db x).pass.log) d) in
        let (same, why) = remove_database_cases (subst (Memᴰ (update r)) removal m) in
        (same, subst MayRelease (sym removal) why)
  ]
