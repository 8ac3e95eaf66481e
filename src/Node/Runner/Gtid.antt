-- ===== src/Node/Runner/Gtid.antt =====
-- What a success of `SetPurgedGTID` says of what MySQL answered.
use mysql_operator.Base.{
  ◌≡◌, ◌≢◌, ◌⊎◌, inl, inr, refl, sym, ap, ◌∙◌, subst, append_assoc, List, [], ◌∷◌, ◌++◌, Text,
  text_eq, Result, ok, err, if◌then◌else◌,
}
use mysql_operator.Node.Requests.{
  exec, read, Request, Env, Exec, set_gtid_purged, pure, RowError, no_rows, row_failed, ◌>>=◌,
}
use mysql_operator.Node.Runner.{
  NodeSqlRunner, status_query, set_gtid_purged_key, backup_gtid_purged_key, query_row, run_query,
  read_status_value, set_purged_gtid, value_or_empty,
}
use mysql_operator.Node.Runner.Keeps.{Grows}
use mysql_operator.Node.Runner.Succeeds.{
  >>=-eq-ok, if_open-eq-ok, Succeeded, Succeeded-append, run_query-Succeeded,
}

-- The row has the value, or there is no row and the value is empty.
abbrev pub HasValue : Result RowError Text → Text → Type 0
HasValue answer value = (answer ≡ ok value) ⊎ ((answer ≡ err no_rows) × (value ≡ []))

value_or_empty-HasValue :
    (answer : Result RowError Text) (value : Text)
    → value_or_empty answer ≡ ok value
    → HasValue answer value
value_or_empty-HasValue (ok v) value h = inl cc
value_or_empty-HasValue (err no_rows) value h = inr (refl, cc)
value_or_empty-HasValue (err (row_failed e)) value h = cc

module _ (env : Env) (r : NodeSqlRunner) where
  -- MySQL answered that the status table has this value under the key.
  abbrev pub Reported : Text → Text → List Request → Type 0
  Reported key value log =
      (before : List Request) × (after : List Request) × (log ≡ before ++ read key ∷ after)
      × HasValue (env.query_row before (status_query key)) value

  Reported-append :
      (key value : Text) (x : Request) (log : List Request)
      → Reported key value log
      → Reported key value (log ++ x ∷ [])
  Reported-append key value x log (before, after, e, h) = (
    before,
    after ++ x ∷ [],
    ap (λ l. l ++ x ∷ []) e ∙ append_assoc before (read key ∷ after) (x ∷ []),
    h,
  )

  Reported-Grows : (key value : Text) → Grows (Reported key value)
  Reported-Grows key value = record {
    exec = λ log t. Reported-append key value (exec t) log;
    read = λ log k. Reported-append key value (read k) log;
  }

  read_status_value-Reported :
      (key value : Text) (log : List Request)
      → (read_status_value env r key log).0 ≡ ok value
      → Reported key value (read_status_value env r key log).1
  unfolding read_status_value
  read_status_value-Reported key value log h =
      let (sent, same) =
        if_open-eq-ok env r (env.sql_open r.dsn) (query_row env r key) log value h in
      (log, [], ap (λ p. p.1) same, value_or_empty-HasValue _ value sent)

  -- The GTID was set before, or there is none from a backup, or MySQL took the statement that sets it.
  abbrev pub GtidIsSettled : List Request → Type 0
  GtidIsSettled log =
      ((value : Text) × (value ≢ []) × Reported set_gtid_purged_key value log)
      ⊎ Reported backup_gtid_purged_key [] log
      ⊎ Succeeded env r set_gtid_purged log

  GtidIsSettled-append :
      (x : Request) (log : List Request) → GtidIsSettled log → GtidIsSettled (log ++ x ∷ [])
  GtidIsSettled-append x log (inl (value, set, told)) =
      inl (value, set, Reported-append set_gtid_purged_key value x log told)
  GtidIsSettled-append x log (inr (inl told)) =
      inr (inl (Reported-append backup_gtid_purged_key [] x log told))
  GtidIsSettled-append x log (inr (inr taken)) =
      inr (inr (Succeeded-append env r set_gtid_purged x log taken))

  pub GtidIsSettled-Grows : Grows GtidIsSettled
  GtidIsSettled-Grows = record {
    exec = λ log s. GtidIsSettled-append (exec s) log;
    read = λ log key. GtidIsSettled-append (read key) log;
  }

  abbrev by_backup : Text → Exec (Unit {0})
  by_backup backup = if text_eq backup [] then pure tt else run_query env r set_gtid_purged

  abbrev by_set : Text → Exec (Unit {0})
  by_set set =
      if text_eq set []
      then read_status_value env r backup_gtid_purged_key >>= by_backup
      else pure tt

  by_backup-GtidIsSettled :
      (backup : Text) (log : List Request)
      → Reported backup_gtid_purged_key backup log
      → (by_backup backup log).0 ≡ ok tt
      → GtidIsSettled (by_backup backup log).1
  unfolding text_eq pure
  by_backup-GtidIsSettled [] log told h = inr (inl told)
  by_backup-GtidIsSettled (b ∷ backup) log told h =
      inr (inr (run_query-Succeeded env r set_gtid_purged log h))

  by_set-GtidIsSettled :
      (set : Text) (log : List Request)
      → Reported set_gtid_purged_key set log
      → (by_set set log).0 ≡ ok tt
      → GtidIsSettled (by_set set log).1
  unfolding text_eq pure
  by_set-GtidIsSettled [] log told h =
      let (backup, found, e) =
        >>=-eq-ok (read_status_value env r backup_gtid_purged_key) by_backup log tt h in
      let log1 = (read_status_value env r backup_gtid_purged_key log).1 in
      subst (λ p. GtidIsSettled p.1) (sym e)
        (by_backup-GtidIsSettled backup log1
          (read_status_value-Reported backup_gtid_purged_key backup log found)
          (sym (ap (λ p. p.0) e) ∙ h))
  by_set-GtidIsSettled (b ∷ set) log told h = inl (b ∷ set, (λ e. cc), told)

  pub set_purged_gtid-GtidIsSettled :
      (log : List Request)
      → (set_purged_gtid env r log).0 ≡ ok tt
      → GtidIsSettled (set_purged_gtid env r log).1
  unfolding set_purged_gtid
  set_purged_gtid-GtidIsSettled log h =
      let (set, found, e) =
        >>=-eq-ok (read_status_value env r set_gtid_purged_key) by_set log tt h in
      let log1 = (read_status_value env r set_gtid_purged_key log).1 in
      subst (λ p. GtidIsSettled p.1) (sym e)
        (by_set-GtidIsSettled set log1
          (read_status_value-Reported set_gtid_purged_key set log found)
          (sym (ap (λ p. p.0) e) ∙ h))
