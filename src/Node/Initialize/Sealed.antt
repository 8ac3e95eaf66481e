-- ===== src/Node/Initialize/Sealed.antt =====
-- How the initialisation ends: with what evidence, and with the server sealed again.
use mysql_operator.Base.{
  ◌≡◌, ◌⊎◌, inl, inr, refl, sym, ap, ◌∙◌, subst, Bool, true, false, none, List, [], ◌∷◌, ◌++◌, Text,
  text_eq, ok, if◌then◌else◌,
}
use mysql_operator.Cluster.{MysqlCluster}
use mysql_operator.Node.{Credentials}
use mysql_operator.Node.Requests.{
  enable_super_read_only, disable_super_read_only, Statement, Request, Env, Exec, pure, ◌>>=◌, ◌>>◌,
  exec, read, statement_text, statement_args, with_log_off, answered, continue,
}
use mysql_operator.Node.Runner.{
  NodeSqlRunner, if_open, exec_context, query_row, configured_key, done_value, run_query,
  is_configured, read_status_value, status_query, value_or_empty,
}
use mysql_operator.Node.Runner.Keeps.{run_query-Keeps}
use mysql_operator.Node.Runner.Succeeds.{
  >>=-eq-ok, Succeeded, Succeeded-Grows, ReportedConfigured, run_query-Succeeded,
  is_configured-Reported,
}
use mysql_operator.Node.Initialize.{deferred, configure, initialize_mysql}
use mysql_operator.Node.Initialize.Evidence.{
  WasConfigured, WasConfigured-Grows, configure-WasConfigured, configure-Keeps,
}

module _ (env : Env) (r : NodeSqlRunner) (c : MysqlCluster) (creds : Credentials) where
  abbrev set_up : Exec (Unit {0})
  set_up = do
    run_query env r disable_super_read_only
    deferred (configure env r c creds) (run_query env r enable_super_read_only)

  -- MySQL reported that it was configured before, or it was configured out of its super-read-only
  -- mode.
  abbrev pub IsConfigured : List Request → Type 0
  IsConfigured log =
      ReportedConfigured env r log
      ⊎ (Succeeded env r disable_super_read_only log × WasConfigured env r c creds log)

  set_up-WasConfigured :
      (log : List Request)
      → (set_up log).0 ≡ ok tt
      → Succeeded env r disable_super_read_only (set_up log).1
        × WasConfigured env r c creds (set_up log).1
  set_up-WasConfigured log h =
      let (u, opened, e) = >>=-eq-ok (run_query env r disable_super_read_only) _ log tt h in
      let log1 = (run_query env r disable_super_read_only log).1 in
      let last = run_query env r enable_super_read_only in
      let log2 = (configure env r c creds log1).1 in
      let done = configure-WasConfigured env r c creds log1 (sym (ap (λ p. p.0) e) ∙ h) in
      let grown = Succeeded-Grows env r disable_super_read_only in
      let before =
        (configure-Keeps env r c creds grown).at log1
          (run_query-Succeeded env r disable_super_read_only log opened) in
      subst (λ p. Succeeded env r disable_super_read_only p.1 × WasConfigured env r c creds p.1)
        (sym e)
        (
          (run_query-Keeps grown env r enable_super_read_only).at log2 before,
          (run_query-Keeps (WasConfigured-Grows env r c creds) env r enable_super_read_only).at log2
              done,
        )

  by_report :
      (configured : Bool) (log : List Request)
      → (configured ≡ true → ReportedConfigured env r log)
      → ((if configured then pure tt else set_up) log).0 ≡ ok tt
      → IsConfigured ((if configured then pure tt else set_up) log).1
  unfolding pure
  by_report true log told h = inl (told refl)
  by_report false log told h = inr (set_up-WasConfigured log h)

  pub initialize_mysql-IsConfigured :
      (log : List Request)
      → (initialize_mysql env r c creds log).0 ≡ ok tt
      → IsConfigured (initialize_mysql env r c creds log).1
  unfolding initialize_mysql
  initialize_mysql-IsConfigured log h =
      let (configured, told, e) =
        >>=-eq-ok (is_configured env r) (λ b. if b then pure tt else set_up) log tt h in
      let log1 = (is_configured env r log).1 in
      let report : configured ≡ true → ReportedConfigured env r log1 =
        λ t. is_configured-Reported env r log (told ∙ ap (λ (b : Bool). ok b) t) in
      subst (λ p. IsConfigured p.1) (sym e)
        (by_report configured log1 report (sym (ap (λ p. p.0) e) ∙ h))

  module _ (opened : env.sql_open r.dsn ≡ none) where
    run_query-open :
        (s : Statement) (log : List Request)
        → run_query env r s log ≡ (
          answered
              (env.exec_context log (with_log_off (statement_text r.rep s)) (statement_args s)),
          log ++ exec s ∷ [],
        )
    unfolding run_query exec_context
    run_query-open s log = ap (λ o. if_open o (exec_context env r s) log) opened

    read-open :
        (key : Text) (log : List Request)
        → read_status_value env r key log
          ≡ (value_or_empty (env.query_row log (status_query key)), log ++ read key ∷ [])
    unfolding read_status_value query_row
    read-open key log = ap (λ o. if_open o (query_row env r key) log) opened

    is_configured-open :
        (log : List Request) (value : Text)
        → value_or_empty (env.query_row log (status_query configured_key)) ≡ ok value
        → is_configured env r log ≡ (ok (text_eq value done_value), log ++ read configured_key ∷ [])
    unfolding is_configured ◌>>=◌
    is_configured-open log value told =
        ap (λ p. continue (λ v. pure (text_eq v done_value)) p.0 p.1) (read-open configured_key log)
        ∙ ap (λ x. continue (λ v. pure (text_eq v done_value)) x (log ++ read configured_key ∷ []))
            told

    initialize_mysql-open :
        (log : List Request) (value : Text)
        → value_or_empty (env.query_row log (status_query configured_key)) ≡ ok value
        → text_eq value done_value ≡ false
        → initialize_mysql env r c creds log ≡ set_up (log ++ read configured_key ∷ [])
    unfolding initialize_mysql ◌>>=◌
    initialize_mysql-open log value told new =
        ap (λ p. continue (λ b. if b then pure tt else set_up) p.0 p.1)
          (is_configured-open log value told)
        ∙ ap (λ (b : Bool). (if b then pure tt else set_up) (log ++ read configured_key ∷ [])) new

    set_up-open :
        (log : List Request)
        → env.exec_context log (with_log_off (statement_text r.rep disable_super_read_only)) []
          ≡ none
        → set_up log
          ≡ deferred
              (configure env r c creds)
              (run_query env r enable_super_read_only)
              (log ++ exec disable_super_read_only ∷ [])
    unfolding ◌>>=◌
    set_up-open log taken =
        let rest = deferred (configure env r c creds) (run_query env r enable_super_read_only) in
        ap (λ p. continue (λ _. rest) p.0 p.1) (run_query-open disable_super_read_only log)
        ∙ ap (λ o. continue (λ _. rest) (answered o) (log ++ exec disable_super_read_only ∷ []))
            taken

  -- What the initialisation sends ends with the statement that seals the server again, whichever of its
  -- steps fails, if the connection can be opened, MySQL did not report that it is configured, and it
  -- took the statement that unseals it.
  pub initialize_mysql_sealed :
      (log : List Request) (value : Text)
      → env.sql_open r.dsn ≡ none
      → value_or_empty (env.query_row log (status_query configured_key)) ≡ ok value
      → text_eq value done_value ≡ false
      → env.exec_context
          (log ++ read configured_key ∷ [])
          (with_log_off (statement_text r.rep disable_super_read_only))
          []
        ≡ none
      → (sent : List Request) × ((initialize_mysql env r c creds log).1
          ≡ sent ++ exec enable_super_read_only ∷ [])
  initialize_mysql_sealed log value opened told new taken =
      let log1 = log ++ read configured_key ∷ [] in
      let log2 = log1 ++ exec disable_super_read_only ∷ [] in
      let sent = (configure env r c creds log2).1 in
      (
        sent,
        ap (λ p. p.1) (initialize_mysql-open opened log value told new)
            ∙ ap (λ p. p.1) (set_up-open opened log1 taken)
            ∙ ap (λ p. p.1) (run_query-open opened enable_super_read_only sent),
      )
