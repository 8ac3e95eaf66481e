-- ===== src/Node/Runner/Works.antt =====
-- The actions on a server that takes every statement from some time on.
use mysql_operator.Base.{
  ℕ, zero, suc, ◌+◌, ◌<◌, ◌≤◌, ◌≡◌, inl, inr, refl, sym, ap, ◌∙◌, subst, arith, true, Option, none,
  some, List, [], ◌∷◌, ◌++◌, Text, codes, text_eq, length, length-append, ltb, Result, ok, err,
  if◌then◌else◌, Bool-cases,
}
use mysql_operator.Sql.{Arg}
use mysql_operator.Node.Requests.{
  Statement, select_one, write_status, Request, exec, read, Env, Exec, pure, attempt, answered,
  ◌>>=◌, statement_text, statement_args, with_log_off,
}
use mysql_operator.Node.Requests.Works.{Works, Works-pure, bind-ok, works_rules}
use mysql_operator.Node.Runner.{
  NodeSqlRunner, if_open, exec_context, query_row, run_query, read_status_value, write_status_value,
  status_query, value_or_empty, retry, wait, is_init_file_complete, init_file_complete_key,
  done_value, configured_key, set_gtid_purged_key, retry_unless_complete,
  wait_for_operator_status_table, start_again, start, change_master_to, mark_configuration_done,
  is_configured, mark_set_gtid_purged, set_purged_gtid, with_prefix, prefixed,
}

-- The server opens connections, and its status table can be read, with the row that the init file
-- writes last. It refuses statements until `awake` requests were sent to it, and takes each one then.
pub record Wakes (env : Env) (awake : ℕ) : Type 0 where
  pub opens : (dsn : Text) → env.sql_open dsn ≡ none
  pub refuses :
      (log : List Request) (text : Text) (args : List Arg)
      → length log < awake
      → (e : Text) × (env.exec_context log text args ≡ some e)
  pub takes :
      (log : List Request) (text : Text) (args : List Arg)
      → awake ≤ length log
      → env.exec_context log text args ≡ none
  pub reads :
      (log : List Request) (query : Text)
      → (v : Text) × (value_or_empty (env.query_row log query) ≡ ok v)
  pub complete :
      (log : List Request) → env.query_row log (status_query init_file_complete_key) ≡ ok done_value

abbrev pub IsAwake : ℕ → List Request → Type 0
IsAwake awake log = awake ≤ length log

module _ (env : Env) (awake : ℕ) (w : Wakes env awake) (r : NodeSqlRunner) where
  longer : (log : List Request) (x : Request) → IsAwake awake log → IsAwake awake (log ++ x ∷ [])
  longer log x h = omega (arith, length-append log (x ∷ []))

  run_query-eq :
      (s : Statement) (log : List Request)
      → run_query env r s log ≡ (
        answered (env.exec_context log (with_log_off (statement_text r.rep s)) (statement_args s)),
        log ++ exec s ∷ [],
      )
  unfolding run_query exec_context
  run_query-eq s log = ap (λ o. if_open o (exec_context env r s) log) (w.opens r.dsn)

  read-eq :
      (key : Text) (log : List Request)
      → read_status_value env r key log
        ≡ (value_or_empty (env.query_row log (status_query key)), log ++ read key ∷ [])
  unfolding read_status_value query_row
  read-eq key log = ap (λ o. if_open o (query_row env r key) log) (w.opens r.dsn)

  pub run_query-Works : (s : Statement) → Works (IsAwake awake) (run_query env r s)
  run_query-Works s = record {
    at = λ log h.
        subst
          (λ (p : Result Text (Unit {0}) × List Request).
            (a : Unit {0}) × (p.0 ≡ ok a) × IsAwake awake p.1)
          (sym (run_query-eq s log))
          (
            tt,
            ap answered (w.takes log (with_log_off (statement_text r.rep s)) (statement_args s) h),
            longer log (exec s) h,
          );
  }

  read_status_value-Works : (key : Text) → Works (IsAwake awake) (read_status_value env r key)
  read_status_value-Works key = record {
    at = λ log h.
        let (v, told) = w.reads log (status_query key) in
        subst
          (λ (p : Result Text Text × List Request). (a : Text) × (p.0 ≡ ok a) × IsAwake awake p.1)
          (sym (read-eq key log)) (v, told, longer log (read key) h);
  }

  prefixed-Works :
      {A : Type 0} (text : Text) (m : Exec A)
      → Works (IsAwake awake) m
      → Works (IsAwake awake) (prefixed text m)
  unfolding prefixed
  prefixed-Works text m k = record {
    at = λ log h. let (a, done, next) = k.at log h in (a, ap (with_prefix text) done, next);
  }

  start_again-Works :
      (result : Result Text (Unit {0})) → Works (IsAwake awake) (start_again env r result)
  start_again-Works (ok _) = Works-pure tt
  start_again-Works (err e) = prefixed-Works _ _ (run_query-Works _)

  pub change_master_to-Works :
      (host user password : Text)
      → Works (IsAwake awake) (change_master_to env r host user password)
  unfolding change_master_to start
  change_master_to-Works host user password =
      search (works_rules, prefixed-Works, run_query-Works, start_again-Works)

  pub mark_configuration_done-Works : Works (IsAwake awake) (mark_configuration_done env r)
  unfolding mark_configuration_done write_status_value
  mark_configuration_done-Works = run_query-Works (write_status configured_key done_value)

  pub is_configured-Works : Works (IsAwake awake) (is_configured env r)
  unfolding is_configured
  is_configured-Works = search (works_rules, read_status_value-Works)

  pub mark_set_gtid_purged-Works : Works (IsAwake awake) (mark_set_gtid_purged env r)
  unfolding mark_set_gtid_purged write_status_value
  mark_set_gtid_purged-Works = run_query-Works (write_status set_gtid_purged_key (codes "skipped"))

  pub set_purged_gtid-Works : Works (IsAwake awake) (set_purged_gtid env r)
  unfolding set_purged_gtid
  set_purged_gtid-Works = search (works_rules, run_query-Works, read_status_value-Works)

  select-eq :
      (log : List Request) (o : Option Text)
      → env.exec_context log (with_log_off (statement_text r.rep select_one)) [] ≡ o
      → attempt (run_query env r select_one) log ≡ (ok (answered o), log ++ exec select_one ∷ [])
  unfolding attempt
  select-eq log o told =
      ap (λ p. (ok p.0, p.1))
        (run_query-eq select_one log ∙ ap (λ x. (answered x, log ++ exec select_one ∷ [])) told)

  wait-eq :
      (ticks : ℕ) (log : List Request) (o : Option Text)
      → env.exec_context log (with_log_off (statement_text r.rep select_one)) [] ≡ o
      → wait env r (suc ticks) log
        ≡ retry env r (wait env r ticks) (answered o) (log ++ exec select_one ∷ [])
  unfolding wait
  wait-eq ticks log o told =
      let e = select-eq log o told in
      bind-ok (attempt (run_query env r select_one))
        (λ result. retry env r (wait env r ticks) result) log (answered o) (ap (λ p. p.0) e)
      ∙ ap (λ p. retry env r (wait env r ticks) (answered o) p.1) e

  -- It answers in time if there are rounds enough for the requests until it is awake.
  pub wait-Works :
      (ticks : ℕ) (log : List Request)
      → length log ≤ awake
      → awake < ticks + length log
      → ((wait env r ticks log).0 ≡ ok tt) × IsAwake awake (wait env r ticks log).1
  unfolding pure
  wait-Works zero log asleep h = let bad : ⊥ = omega (arith, asleep, h) in elim bad [ ]
  wait-Works (suc ticks) log asleep h =
      let size = length-append log (exec select_one ∷ []) in
      let text = with_log_off (statement_text r.rep select_one) in
      elim (Bool-cases (ltb (length log) awake)) [
        | inl early ↦
            let (e, told) = w.refuses log text [] (ground arith) in
            subst (λ (p : Result Text (Unit {0}) × List Request). (p.0 ≡ ok tt) × IsAwake awake p.1)
              (sym (wait-eq ticks log (some e) told))
              (wait-Works ticks (log ++ exec select_one ∷ []) (ground arith) (omega (arith, size)))
        | inr late ↦
            let told = w.takes log text [] (ground arith) in
            let next : awake ≤ length (log ++ exec select_one ∷ []) = ground arith in
            subst (λ (p : Result Text (Unit {0}) × List Request). (p.0 ≡ ok tt) × IsAwake awake p.1)
              (sym (wait-eq ticks log none told)) (refl, next)
      ]

  is_init_file_complete-eq :
      (log : List Request)
      → is_init_file_complete env r log ≡ (ok true, log ++ read init_file_complete_key ∷ [])
  unfolding is_init_file_complete pure text_eq
  is_init_file_complete-eq log =
      let e = read-eq init_file_complete_key log in
      bind-ok (read_status_value env r init_file_complete_key)
        (λ complete.
          if text_eq complete done_value
          then pure true
          else (read_status_value env r configured_key >>= λ configured.
              pure (text_eq configured done_value)))
        log done_value (ap (λ p. p.0) e ∙ ap value_or_empty (w.complete log))
      ∙ ap (λ p. (ok true, p.1)) e

  pub wait_for_operator_status_table-Works :
      (ticks : ℕ) → 0 < ticks → Works (IsAwake awake) (wait_for_operator_status_table env r ticks)
  unfolding wait_for_operator_status_table attempt pure
  wait_for_operator_status_table-Works zero h = let bad : ⊥ = omega (arith, h) in elim bad [ ]
  wait_for_operator_status_table-Works (suc ticks) h = record {
    at = λ log awoken.
        let e = is_init_file_complete-eq log in
        let next =
          bind-ok (attempt (is_init_file_complete env r))
            (retry_unless_complete env r (wait_for_operator_status_table env r ticks)) log (ok true)
            (ap (λ p. ok p.0) e) in
        subst
          (λ (p : Result Text (Unit {0}) × List Request).
            (a : Unit {0}) × (p.0 ≡ ok a) × IsAwake awake p.1)
          (sym (next ∙ ap (λ p. (ok tt, p.1)) e))
          (tt, refl, longer log (read init_file_complete_key) awoken);
  }
