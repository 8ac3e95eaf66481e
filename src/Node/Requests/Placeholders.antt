-- ===== src/Node/Requests/Placeholders.antt =====
-- The placeholders of the statements, for the dialect of each profile.
use mysql_operator.Base.{◌≡◌, refl, arith, codes, length, ◌++◌}
use mysql_operator.Versioning.Profiles.{Profile, percona57, percona80, percona84, fallback}
use mysql_operator.Versioning.Replication.{replication, reset_binary_logs_statement}
use mysql_operator.Sql.Placeholders.{placeholders, placeholders-append}
use mysql_operator.Node.Requests.{
  Statement, write_status, statement_text, statement_args, with_log_off,
}

-- What is put into the text of a statement holds no question mark.
abbrev pub IsPlain : Statement → Type 0
IsPlain (write_status key value) = (placeholders key ≡ 0) × (placeholders value ≡ 0)
IsPlain _ = Unit {0}

-- The arguments of a statement are as many as its placeholders.
statement_args-length :
    (p : Profile) (s : Statement)
    → IsPlain s
    → placeholders (with_log_off (statement_text (replication p) s)) ≡ length (statement_args s)
unfolding statement_text with_log_off replication reset_binary_logs_statement
statement_args-length p (write_status key value) h = omega (
  arith,
  placeholders-append key (codes "', '" ++ (value ++ codes "');")),
  placeholders-append value (codes "');"),
)
statement_args-length percona57 _ h = refl
statement_args-length percona80 _ h = refl
statement_args-length percona84 _ h = refl
statement_args-length fallback _ h = refl
