-- ===== src/Tests/Statements.antt =====
-- The theorems on SQL statements at concrete inputs.
use mysql_operator.Base.{
  ◌≡◌, ◌≢◌, ◌↔◌, refl, none, some, List, [], ◌∷◌, ◌++◌, Text, codes, length, pos, All, false,
}
use mysql_operator.Sql.{
  Query, text_arg, int_arg, MysqlPermission, escape, quote, newline, create_user_query,
  create_database_query, drop_database_query, ◌>>=◌,
}
use mysql_operator.Sql.Literals.{read_literal, read_literal-escape, backticks}
use mysql_operator.Sql.Placeholders.{placeholders}
use mysql_operator.Sql.Placeholders.Configured.{create_user_query-IsMatched}
use mysql_operator.Sql.Panics.{create_user_query-none_iff}
use mysql_operator.Sql.Database.{named, IsPlain, database_query-named}

read_literal-escape_example :
    read_literal false (escape (codes "it's") ++ quote ∷ codes ";") ≡ some (codes "it's", codes ";")
read_literal-escape_example = read_literal-escape (codes "it's") (codes ";")

abbrev pub select_all : MysqlPermission
select_all = record {
  schema = codes "shop";
  tables = codes "*" ∷ [];
  permissions = codes "SELECT" ∷ codes "INSERT" ∷ [];
}

abbrev lines : List Text → Text
lines [] = []
lines (l ∷ []) = l
lines (l ∷ m ∷ ls) = l ++ newline ∷ lines (m ∷ ls)

-- What is sent for the user `app` with one host.
abbrev pub configured : Query
configured = record {
  escaped_query = lines (
      codes "BEGIN;"
      ∷ codes "CREATE USER IF NOT EXISTS ?@? IDENTIFIED BY ?;"
      ∷ codes "ALTER USER ?@? IDENTIFIED BY ? WITH MAX_USER_CONNECTIONS ?;"
      ∷ codes "GRANT SELECT, INSERT ON `shop`.* TO ?@?;"
      ∷ codes "COMMIT;"
      ∷ []);
  args =
      text_arg (codes "app")
      ∷ text_arg (codes "%")
      ∷ text_arg (codes "secret")
      ∷ text_arg (codes "app")
      ∷ text_arg (codes "%")
      ∷ text_arg (codes "secret")
      ∷ int_arg (pos 10)
      ∷ text_arg (codes "app")
      ∷ text_arg (codes "%")
      ∷ [];
}

pub configured_lem :
    create_user_query
      (codes "app")
      (codes "secret")
      (codes "%" ∷ [])
      (select_all ∷ [])
      ((codes "MAX_USER_CONNECTIONS", pos 10) ∷ [])
    ≡ some configured
unfolding create_user_query
configured_lem = refl

create_user_query-IsMatched_example : placeholders configured.escaped_query ≡ length configured.args
create_user_query-IsMatched_example =
    create_user_query-IsMatched (codes "app") (codes "secret") (codes "%" ∷ []) (select_all ∷ [])
      ((codes "MAX_USER_CONNECTIONS", pos 10) ∷ []) configured
      (
        record {
          schema_clean = refl;
          tables_clean = (refl, tt);
          permissions_clean = (refl, (refl, tt));
        },
        tt,
      )
      (refl, tt) configured_lem

-- A permission without a table.
abbrev no_tables : MysqlPermission
no_tables = record { schema = codes "shop"; tables = []; permissions = codes "SELECT" ∷ [] }

create_user_query-none_iff_example :
    (create_user_query (codes "app") (codes "secret") (codes "%" ∷ []) (no_tables ∷ []) [] ≡ none)
    ↔ ((no_tables ∷ [] ≢ []) × All (λ p. p.tables ≡ []) (no_tables ∷ []))
create_user_query-none_iff_example =
    create_user_query-none_iff (codes "app") (codes "secret") (codes "%" ∷ []) (no_tables ∷ []) []

-- The condition of the theorem holds there, and the code panics.
panics :
    create_user_query (codes "app") (codes "secret") (codes "%" ∷ []) (no_tables ∷ []) [] ≡ none
unfolding create_user_query
panics = refl

database_query-named_example :
    (((create_database_query (codes "it's") [] (codes "utf8mb4_bin") >>= named)
        ≡ some (codes "it's"))
      ↔ IsPlain (codes "it's"))
    × (((drop_database_query (codes "it's") >>= named) ≡ some (codes "it's"))
        ↔ (backticks (codes "it's") ≡ 0))
database_query-named_example =
    database_query-named (codes "it's") [] (codes "utf8mb4_bin") (λ e. cc)

-- The database that is created has a backslash in its name, and the one that is dropped has not.
created_name : (create_database_query (codes "it's") [] [] >>= named) ≡ some (codes "it\\'s")
unfolding create_database_query named
created_name = refl
