-- ===== src/Node/Initialize/Evidence.antt =====
-- What a success of the initialisation says, and how it leaves the server.
use mysql_operator.Base.{
  ◌≡◌, ◌⊎◌, inl, inr, refl, sym, ap, ◌∙◌, subst, false, Option, none, some, List, [], ◌∷◌, ◌++◌,
  Text, codes, text_eq, text_eq→≡, ok, Bool-cases, lookup,
}
use mysql_operator.Cluster.{MysqlCluster}
use mysql_operator.Node.{Credentials}
use mysql_operator.Node.Requests.{
  write_status, enable_super_read_only, disable_super_read_only, Request, Env, Exec, exec, read,
}
use mysql_operator.Node.Requests.Keeps.{Keeps, Keeps-pure, Keeps-if, Keeps-bind}
use mysql_operator.Node.Runner.{
  NodeSqlRunner, configured_key, done_value, run_query, is_configured, change_master_to,
  mark_configuration_done, set_purged_gtid, set_gtid_purged_key, mark_set_gtid_purged,
}
use mysql_operator.Node.Runner.Keeps.{
  Grows, run_query-Keeps, change_master_to-Keeps, mark_configuration_done-Keeps,
  is_configured-Keeps, mark_set_gtid_purged-Keeps, set_purged_gtid-Keeps,
}
use mysql_operator.Node.Runner.Succeeds.{
  >>=-eq-ok, Succeeded, Succeeded-Grows, ReplicatesFrom, run_query-Succeeded,
  change_master_to-ReplicatesFrom, Succeeded-append,
}
use mysql_operator.Node.Runner.Gtid.{
  GtidIsSettled, GtidIsSettled-Grows, set_purged_gtid-GtidIsSettled,
}
use mysql_operator.Node.Initialize.{
  get_master_host, deferred, skip_if, skip_gtid, replicate, configure, initialize_mysql,
  skip_gtid_purged,
}

deferred-Keeps :
    {P : List Request → Type 0} {A : Type 0} (m : Exec A) (last : Exec (Unit {0}))
    → Keeps P m
    → Keeps P last
    → Keeps P (deferred m last)
deferred-Keeps m last km kl = record { at = λ log h. kl.at (m log).1 (km.at log h) }

module _ (env : Env) (r : NodeSqlRunner) (c : MysqlCluster) (creds : Credentials) where
  module _ {P : List Request → Type 0} (grows : Grows P) where
    skip_if-Keeps : (o : Option Text) → Keeps P (skip_if env r c creds o)
    skip_if-Keeps none = Keeps-pure tt
    skip_if-Keeps (some _) = mark_set_gtid_purged-Keeps grows env r

    skip_gtid-Keeps : Keeps P (skip_gtid env r c creds)
    unfolding skip_gtid
    skip_gtid-Keeps = skip_if-Keeps (lookup skip_gtid_purged c.annotations)

    replicate-Keeps : Keeps P (replicate env r c creds)
    unfolding replicate
    replicate-Keeps = Keeps-if (text_eq (get_master_host c) r.host) _ _ (Keeps-pure tt) (
        change_master_to-Keeps grows env r (get_master_host c) creds.replication_user
          creds.replication_password)

    pub configure-Keeps : Keeps P (configure env r c creds)
    unfolding configure
    configure-Keeps = Keeps-bind (skip_gtid env r c creds) _ skip_gtid-Keeps λ _.
        Keeps-bind (set_purged_gtid env r) _ (set_purged_gtid-Keeps grows env r) λ _.
          Keeps-bind (replicate env r c creds) _ replicate-Keeps
            λ _. mark_configuration_done-Keeps grows env r

    pub initialize_mysql-Keeps : Keeps P (initialize_mysql env r c creds)
    unfolding initialize_mysql
    initialize_mysql-Keeps =
        Keeps-bind (is_configured env r) _ (is_configured-Keeps grows env r) λ configured.
          Keeps-if configured _ _ (Keeps-pure tt) (
            Keeps-bind (run_query env r disable_super_read_only) _
              (run_query-Keeps grows env r disable_super_read_only)
              (λ _.
                deferred-Keeps (configure env r c creds) _ configure-Keeps
                  (run_query-Keeps grows env r enable_super_read_only)))

  -- The node is that of the master, or it replicates from it.
  abbrev pub FollowsMaster : List Request → Type 0
  FollowsMaster log =
      (get_master_host c ≡ r.host)
      ⊎ ReplicatesFrom env r (get_master_host c) creds.replication_user creds.replication_password
          log

  FollowsMaster-append :
      (x : Request) (log : List Request) → FollowsMaster log → FollowsMaster (log ++ x ∷ [])
  FollowsMaster-append x log (inl e) = inl e
  FollowsMaster-append x log (inr (s, inl t)) =
      inr (Succeeded-append env r _ x log s, inl (Succeeded-append env r _ x log t))
  FollowsMaster-append x log (inr (s, inr t)) =
      inr (Succeeded-append env r _ x log s, inr (Succeeded-append env r _ x log t))

  FollowsMaster-Grows : Grows FollowsMaster
  FollowsMaster-Grows = record {
    exec = λ log s h. FollowsMaster-append (exec s) log h;
    read = λ log key h. FollowsMaster-append (read key) log h;
  }

  replicate-other :
      (log : List Request)
      → text_eq (get_master_host c) r.host ≡ false
      → replicate env r c creds log
        ≡ change_master_to env r
            (get_master_host c)
            creds.replication_user
            creds.replication_password
            log
  unfolding replicate
  replicate-other log other = rw (replicate, other) refl

  replicate-FollowsMaster :
      (log : List Request)
      → (replicate env r c creds log).0 ≡ ok tt
      → FollowsMaster (replicate env r c creds log).1
  replicate-FollowsMaster log h = elim (Bool-cases (text_eq (get_master_host c) r.host)) [
    | inl same ↦ inl (text_eq→≡ (get_master_host c) r.host same)
    | inr other ↦
        let e = replicate-other log other in
        subst (λ p. FollowsMaster p.1) (sym e)
          (inr (change_master_to-ReplicatesFrom env r _ _ _ log (sym (ap (λ p. p.0) e) ∙ h)))
  ]

  -- The cluster does not ask to skip the GTID, or the status table took the mark that it is skipped.
  abbrev pub SkipIsMarked : List Request → Type 0
  SkipIsMarked log =
      (lookup skip_gtid_purged c.annotations ≡ none)
      ⊎ Succeeded env r (write_status set_gtid_purged_key (codes "skipped")) log

  skip_if-Succeeded :
      (o : Option Text) (log : List Request)
      → (skip_if env r c creds o log).0 ≡ ok tt
      → (o ≡ none)
        ⊎ Succeeded env r
            (write_status set_gtid_purged_key (codes "skipped"))
            (skip_if env r c creds o log).1
  unfolding mark_set_gtid_purged
  skip_if-Succeeded none log h = inl refl
  skip_if-Succeeded (some _) log h =
      inr (run_query-Succeeded env r (write_status set_gtid_purged_key (codes "skipped")) log h)

  skip_gtid-SkipIsMarked :
      (log : List Request)
      → (skip_gtid env r c creds log).0 ≡ ok tt
      → SkipIsMarked (skip_gtid env r c creds log).1
  unfolding skip_gtid
  skip_gtid-SkipIsMarked log h = skip_if-Succeeded (lookup skip_gtid_purged c.annotations) log h

  SkipIsMarked-append :
      (x : Request) (log : List Request) → SkipIsMarked log → SkipIsMarked (log ++ x ∷ [])
  SkipIsMarked-append x log (inl e) = inl e
  SkipIsMarked-append x log (inr s) = inr (Succeeded-append env r _ x log s)

  SkipIsMarked-Grows : Grows SkipIsMarked
  SkipIsMarked-Grows = record {
    exec = λ log s h. SkipIsMarked-append (exec s) log h;
    read = λ log key h. SkipIsMarked-append (read key) log h;
  }

  -- The node was marked as configured, a GTID to skip was marked, the GTID of a backup was settled,
  -- and the node follows the master.
  abbrev pub WasConfigured : List Request → Type 0
  WasConfigured log =
      Succeeded env r (write_status configured_key done_value) log
      × SkipIsMarked log
      × GtidIsSettled env r log
      × FollowsMaster log

  marked :
      (log : List Request)
      → (mark_configuration_done env r log).0 ≡ ok tt
      → Succeeded env r
          (write_status configured_key done_value)
          (mark_configuration_done env r log).1
  unfolding mark_configuration_done
  marked log h = run_query-Succeeded env r (write_status configured_key done_value) log h

  pub configure-WasConfigured :
      (log : List Request)
      → (configure env r c creds log).0 ≡ ok tt
      → WasConfigured (configure env r c creds log).1
  unfolding configure
  configure-WasConfigured log h =
      let (u1, h1, e1) = >>=-eq-ok (skip_gtid env r c creds) _ log tt h in
      let log1 = (skip_gtid env r c creds log).1 in
      let (u2, h2, e2) = >>=-eq-ok (set_purged_gtid env r) _ log1 tt (sym (ap (λ p. p.0) e1) ∙ h) in
      let log2 = (set_purged_gtid env r log1).1 in
      let e12 = e1 ∙ e2 in
      let (u3, h3, e3) =
        >>=-eq-ok (replicate env r c creds) _ log2 tt (sym (ap (λ p. p.0) e12) ∙ h) in
      let log3 = (replicate env r c creds log2).1 in
      let e : configure env r c creds log ≡ mark_configuration_done env r log3 = e12 ∙ e3 in
      subst (λ p. WasConfigured p.1) (sym e)
        (
          marked log3 (sym (ap (λ p. p.0) e) ∙ h),
          (mark_configuration_done-Keeps SkipIsMarked-Grows env r).at log3 (
              (replicate-Keeps SkipIsMarked-Grows).at log2 (
                (set_purged_gtid-Keeps SkipIsMarked-Grows env r).at log1
                  (skip_gtid-SkipIsMarked log h1))),
          (mark_configuration_done-Keeps (GtidIsSettled-Grows env r) env r).at log3 (
              (replicate-Keeps (GtidIsSettled-Grows env r)).at log2
                (set_purged_gtid-GtidIsSettled env r log1 h2)),
          (mark_configuration_done-Keeps FollowsMaster-Grows env r).at log3
              (replicate-FollowsMaster log2 h3),
        )

  pub WasConfigured-Grows : Grows WasConfigured
  WasConfigured-Grows = record {
    exec = λ log s (done, skip, gtid, follows). (
      (Succeeded-Grows env r _).exec log s done,
      SkipIsMarked-Grows.exec log s skip,
      (GtidIsSettled-Grows env r).exec log s gtid,
      FollowsMaster-Grows.exec log s follows,
    );
    read = λ log key (done, skip, gtid, follows). (
      (Succeeded-Grows env r _).read log key done,
      SkipIsMarked-Grows.read log key skip,
      (GtidIsSettled-Grows env r).read log key gtid,
      FollowsMaster-Grows.read log key follows,
    );
  }
