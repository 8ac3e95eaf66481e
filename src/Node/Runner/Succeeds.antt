-- ===== src/Node/Runner/Succeeds.antt =====
-- What a success of an operation on a server says of the statements that were sent.
use mysql_operator.Base.{
  ◌≡◌, ◌⊎◌, inl, inr, refl, sym, ap, ◌∙◌, subst, append_assoc, arith, Bool, true, Option, none,
  some, List, [], ◌∷◌, ◌++◌, Text, codes, text_eq, text_eq→≡, Result, ok, err, Result-cases,
}
use mysql_operator.Node.Requests.{
  Statement, change_source, start_replication, fallback_start, write_status, exec, read, Request,
  Env, Exec, statement_text, statement_args, with_log_off, ◌>>=◌, attempt, lift, pure, answered,
  continue, RowError, no_rows, row_failed,
}
use mysql_operator.Node.Runner.{
  prefixed, start, with_prefix, NodeSqlRunner, configured_key, done_value, status_query, if_open,
  exec_context, query_row, run_query, read_status_value, is_configured, start_again,
  change_master_to, value_or_empty,
}
use mysql_operator.Node.Runner.Keeps.{Grows, start-Keeps}

pub >>=-eq-ok :
    {A B : Type 0} (m : Exec A) (k : A → Exec B) (log : List Request) (b : B)
    → ((m >>= k) log).0 ≡ ok b
    → (a : A) × ((m log).0 ≡ ok a) × ((m >>= k) log ≡ k a (m log).1)
unfolding ◌>>=◌
>>=-eq-ok m k log b h = elim (Result-cases (m log).0) [
  | inl (e, f) ↦ let bad : err e ≡ ok b = sym (ap (λ r. (continue k r (m log).1).0) f) ∙ h in cc
  | inr (a, f) ↦ (a, f, ap (λ r. continue k r (m log).1) f)
]

module _ (env : Env) (r : NodeSqlRunner) where
  -- The statement was sent, and MySQL answered it with success.
  abbrev pub Succeeded : Statement → List Request → Type 0
  Succeeded s log =
      (before : List Request) × (after : List Request) × (log ≡ before ++ exec s ∷ after)
      × (env.exec_context before (with_log_off (statement_text r.rep s)) (statement_args s) ≡ none)

  -- MySQL reported that it is configured.
  abbrev pub ReportedConfigured : List Request → Type 0
  ReportedConfigured log =
      (before : List Request) × (after : List Request) × (log
        ≡ before ++ read configured_key ∷ after)
      × (env.query_row before (status_query configured_key) ≡ ok done_value)

  pub Succeeded-append :
      (s : Statement) (x : Request) (log : List Request)
      → Succeeded s log
      → Succeeded s (log ++ x ∷ [])
  Succeeded-append s x log (before, after, e, h) = (
    before,
    after ++ x ∷ [],
    ap (λ l. l ++ x ∷ []) e ∙ append_assoc before (exec s ∷ after) (x ∷ []),
    h,
  )

  ReportedConfigured-append :
      (x : Request) (log : List Request)
      → ReportedConfigured log
      → ReportedConfigured (log ++ x ∷ [])
  ReportedConfigured-append x log (before, after, e, h) = (
    before,
    after ++ x ∷ [],
    ap (λ l. l ++ x ∷ []) e ∙ append_assoc before (read configured_key ∷ after) (x ∷ []),
    h,
  )

  pub Succeeded-Grows : (s : Statement) → Grows (Succeeded s)
  Succeeded-Grows s = record {
    exec = λ log t. Succeeded-append s (exec t) log;
    read = λ log key. Succeeded-append s (read key) log;
  }

  ReportedConfigured-Grows : Grows ReportedConfigured
  ReportedConfigured-Grows = record {
    exec = λ log t. ReportedConfigured-append (exec t) log;
    read = λ log key. ReportedConfigured-append (read key) log;
  }

  answered-eq-ok : (o : Option Text) → answered o ≡ ok tt → o ≡ none
  answered-eq-ok none h = refl
  answered-eq-ok (some e) h = cc

  pub if_open-eq-ok :
      {A : Type 0} (o : Option Text) (m : Exec A) (log : List Request) (a : A)
      → (if_open o m log).0 ≡ ok a
      → ((m log).0 ≡ ok a) × (if_open o m log ≡ m log)
  unfolding mysql_operator.Node.Requests.raise
  if_open-eq-ok (some e) m log a h = cc
  if_open-eq-ok none m log a h = (h, refl)

  pub run_query-Succeeded :
      (s : Statement) (log : List Request)
      → (run_query env r s log).0 ≡ ok tt
      → Succeeded s (run_query env r s log).1
  unfolding run_query
  run_query-Succeeded s log h =
      let (sent, same) = if_open-eq-ok (env.sql_open r.dsn) (exec_context env r s) log tt h in
      (log, [], ap (λ p. p.1) same, answered-eq-ok _ sent)

  value-done :
      (x : Result RowError Text) (v : Text)
      → value_or_empty x ≡ ok v
      → v ≡ done_value
      → x ≡ ok done_value
  value-done (ok w) v h e = ground arith
  value-done (err no_rows) v h e = ground arith
  value-done (err (row_failed f)) v h e = cc

  ok_injective : (b c : Bool) → Path (Result Text Bool) (ok b) (ok c) → b ≡ c
  ok_injective b c e = cc

  is_done :
      (value : Text) (log : List Request)
      → is_configured env r log
        ≡ pure (text_eq value done_value) (read_status_value env r configured_key log).1
      → (is_configured env r log).0 ≡ ok true
      → text_eq value done_value ≡ true
  unfolding pure
  is_done value log next h = ok_injective _ _ (sym (ap (λ p. p.0) next) ∙ h)

  pub is_configured-Reported :
      (log : List Request)
      → (is_configured env r log).0 ≡ ok true
      → ReportedConfigured (is_configured env r log).1
  unfolding is_configured read_status_value pure
  is_configured-Reported log h =
      let (value, found, next) =
        >>=-eq-ok (read_status_value env r configured_key) (λ v. pure (text_eq v done_value)) log
          true h in
      let (sent, same) =
        if_open-eq-ok (env.sql_open r.dsn) (query_row env r configured_key) log value found in
      let done : text_eq value done_value ≡ true = is_done value log next h in
      (
        log,
        [],
        ap (λ p. p.1) next ∙ ap (λ p. p.1) same,
        value-done _ value sent (text_eq→≡ value done_value done),
      )

  -- A source was set and replication started, at once or by the second method.
  abbrev pub ReplicatesFrom : Text → Text → Text → List Request → Type 0
  ReplicatesFrom host user password log =
      Succeeded (change_source host user password) log
      × (Succeeded start_replication log ⊎ Succeeded fallback_start log)

  with_prefix-eq-ok :
      (text : Text) (x : Result Text (Unit {0})) → with_prefix text x ≡ ok tt → x ≡ ok tt
  with_prefix-eq-ok text (ok _) h = refl
  with_prefix-eq-ok text (err e) h = cc

  prefixed-eq-ok :
      (text : Text) (m : Exec (Unit {0})) (log : List Request)
      → (prefixed text m log).0 ≡ ok tt
      → (m log).0 ≡ ok tt
  unfolding prefixed
  prefixed-eq-ok text m log h = with_prefix-eq-ok text (m log).0 h

  start_again-Succeeded :
      (result : Result Text (Unit {0})) (log : List Request)
      → (result ≡ ok tt → Succeeded start_replication log)
      → (start_again env r result log).0 ≡ ok tt
      → Succeeded start_replication (start_again env r result log).1
        ⊎ Succeeded fallback_start (start_again env r result log).1
  unfolding pure prefixed
  start_again-Succeeded (ok _) log s h = inl (s refl)
  start_again-Succeeded (err e) log s h = inr (
      run_query-Succeeded fallback_start log (
        prefixed-eq-ok (codes "failed to start slave node, err: ") (run_query env r fallback_start)
          log h))

  start-Succeeded :
      (log : List Request)
      → (start env r log).0 ≡ ok tt
      → Succeeded start_replication (start env r log).1
        ⊎ Succeeded fallback_start (start env r log).1
  unfolding start ◌>>=◌
  start-Succeeded log h =
      start_again-Succeeded (run_query env r start_replication log).0
        (run_query env r start_replication log).1 (λ e. run_query-Succeeded start_replication log e)
        h

  pub change_master_to-ReplicatesFrom :
      (host user password : Text) (log : List Request)
      → (change_master_to env r host user password log).0 ≡ ok tt
      → ReplicatesFrom host user password (change_master_to env r host user password log).1
  unfolding change_master_to prefixed
  change_master_to-ReplicatesFrom host user password log h =
      let s = change_source host user password in
      let text = codes "failed to configure slave node, err: " in
      let (u, changed, next) =
        >>=-eq-ok (prefixed text (run_query env r s)) (λ _. start env r) log tt h in
      let sent : Succeeded s (run_query env r s log).1 =
        run_query-Succeeded s log (prefixed-eq-ok text (run_query env r s) log changed) in
      let kept = (start-Keeps (Succeeded-Grows s) env r).at (run_query env r s log).1 sent in
      let begun = start-Succeeded (run_query env r s log).1 (sym (ap (λ p. p.0) next) ∙ h) in
      subst (λ l. ReplicatesFrom host user password l) (sym (ap (λ p. p.1) next)) (kept, begun)
