-- ===== src/Sql/Placeholders/Configured.antt =====
-- The placeholders of the statement that configures a user (pkg/internal/mysql/user.go).
use mysql_operator.Base.{
  length-append, ◌≡◌, refl, true, Option, none, some, List, [], ◌∷◌, ◌++◌, arith, Text, codes,
  length, some-injective, subst, All, All-append, ℤ,
}
use mysql_operator.Sql.{
  Query, escape_id, concatenate_queries, build_atomic_query, get_users_identification,
  resource_clauses, get_alter_user_query, get_create_user_query, MysqlPermission, join_escaped,
  grant_query, grant_tables, grant_all, permissions_to_query, grants, create_user_query, ◌>>=◌,
}
use mysql_operator.Sql.Placeholders.{
  placeholders, IsMatched, placeholders-append, placeholders-escape_id, >>=-eq-some,
  new_query-IsMatched, concatenate_from-IsMatched, build_atomic_query-IsMatched,
  placeholders-identify_from, placeholders-resource_clauses, placeholders-join_escaped,
}

-- The names of a permission, which become part of the text, hold no question mark.
pub record IsClean (perm : MysqlPermission) : Type 0 where
  pub schema_clean : placeholders perm.schema ≡ 0
  pub tables_clean : All (λ t. placeholders t ≡ 0) perm.tables
  pub permissions_clean : All (λ p. placeholders p ≡ 0) perm.permissions

grant_query-IsMatched :
    (perm : MysqlPermission) (user : Text) (hosts : List Text) (table : Text) {query : Query}
    → IsClean perm
    → placeholders table ≡ 0
    → grant_query perm user hosts table ≡ some query
    → IsMatched query
unfolding grant_query get_users_identification
grant_query-IsMatched perm user hosts table clean t e =
    new_query-IsMatched
      (codes "GRANT "
        ++ join_escaped perm.permissions
        ++ codes " ON "
        ++ escape_id perm.schema
        ++ codes "."
        ++ escape_id table
        ++ codes " TO"
        ++ (get_users_identification user none hosts).0)
      (get_users_identification user none hosts).1
      (omega (
        arith,
        placeholders-append,
        placeholders-escape_id,
        placeholders-identify_from true user none hosts,
        clean.schema_clean,
        t,
        placeholders-join_escaped perm.permissions clean.permissions_clean,
      ))
      e

of_some : {xs ys : List Query} → some xs ≡ some ys → All IsMatched xs → All IsMatched ys
of_some e h = subst (All IsMatched) (some-injective _ _ e) h

cons-IsMatched :
    (first : Option Query) (rest : Option (List Query)) {queries : List Query}
    → ((q : Query) → first ≡ some q → IsMatched q)
    → ((qs : List Query) → rest ≡ some qs → All IsMatched qs)
    → (first >>= λ q. rest >>= λ qs. some (q ∷ qs)) ≡ some queries
    → All IsMatched queries
cons-IsMatched none rest f r e = cc
cons-IsMatched (some q) none f r e = cc
cons-IsMatched (some q) (some qs) f r e = of_some {xs = q ∷ qs} e (f q refl, r qs refl)

grant_tables-IsMatched :
    (perm : MysqlPermission) (user : Text) (hosts tables : List Text) {queries : List Query}
    → IsClean perm
    → All (λ t. placeholders t ≡ 0) tables
    → grant_tables perm user hosts tables ≡ some queries
    → All IsMatched queries
unfolding grant_tables
grant_tables-IsMatched perm user hosts [] clean t e = of_some e tt
grant_tables-IsMatched perm user hosts (table ∷ tables) clean t e =
    cons-IsMatched (grant_query perm user hosts table) (grant_tables perm user hosts tables)
      (λ q. grant_query-IsMatched perm user hosts table clean t.0)
      (λ qs. grant_tables-IsMatched perm user hosts tables clean t.1) e

grant_all-IsMatched :
    (permissions : List MysqlPermission) (user : Text) (hosts : List Text) {queries : List Query}
    → All IsClean permissions
    → grant_all permissions user hosts ≡ some queries
    → All IsMatched queries
unfolding grant_all
grant_all-IsMatched [] user hosts clean e = of_some e tt
grant_all-IsMatched (perm ∷ permissions) user hosts clean e =
    let (first, q, e') = >>=-eq-some (grant_tables perm user hosts perm.tables) _ e in
    let (rest, r, e'') = >>=-eq-some (grant_all permissions user hosts) _ e' in
    of_some e'' (
      All-append IsMatched first rest
        (grant_tables-IsMatched perm user hosts perm.tables clean.0 clean.0.tables_clean q)
        (grant_all-IsMatched permissions user hosts clean.1 r))

get_alter_user_query-IsMatched :
    (user pwd : Text) (hosts : List Text) (options : List (Text × ℤ)) {query : Query}
    → All (λ option. placeholders option.0 ≡ 0) options
    → get_alter_user_query user pwd hosts options ≡ some query
    → IsMatched query
unfolding get_alter_user_query get_users_identification
get_alter_user_query-IsMatched user pwd hosts options clean e =
    let keyword : Text = elim options as (λ _. Text) [ [] ↦ [] | _ ∷ _ ↦ codes " WITH" ] in
    let keyword_clean : placeholders keyword ≡ 0 = ground arith in
    new_query-IsMatched
      (codes "ALTER USER"
        ++ (get_users_identification user (some pwd) hosts).0
        ++ keyword
        ++ (resource_clauses options).0)
      ((get_users_identification user (some pwd) hosts).1 ++ (resource_clauses options).1)
      (omega (
        arith,
        placeholders-append,
        length-append {0},
        keyword_clean,
        placeholders-identify_from true user (some pwd) hosts,
        placeholders-resource_clauses options clean,
      ))
      e

get_create_user_query-IsMatched :
    (user pwd : Text) (hosts : List Text) {query : Query}
    → get_create_user_query user pwd hosts ≡ some query
    → IsMatched query
unfolding get_create_user_query get_users_identification
get_create_user_query-IsMatched user pwd hosts e =
    new_query-IsMatched
      (codes "CREATE USER IF NOT EXISTS" ++ (get_users_identification user (some pwd) hosts).0)
      (get_users_identification user (some pwd) hosts).1
      (omega (arith, placeholders-append, placeholders-identify_from true user (some pwd) hosts)) e

grants-IsMatched :
    (permissions : List MysqlPermission) (user : Text) (hosts : List Text) {granted : List Query}
    → All IsClean permissions
    → grants permissions user hosts ≡ some granted
    → All IsMatched granted
unfolding grants permissions_to_query concatenate_queries
grants-IsMatched [] user hosts clean e = of_some e tt
grants-IsMatched (perm ∷ permissions) user hosts clean e =
    let (query, q, e') = >>=-eq-some (permissions_to_query (perm ∷ permissions) user hosts) _ e in
    let (queries, r, e'') = >>=-eq-some (grant_all (perm ∷ permissions) user hosts) _ q in
    of_some {xs = query ∷ []} e' (
      concatenate_from-IsMatched [] [] queries refl
          (grant_all-IsMatched (perm ∷ permissions) user hosts clean r) e'',
      tt,
    )

atomic-IsMatched :
    (created altered : Option Query) (granted : Option (List Query)) {query : Query}
    → ((q : Query) → created ≡ some q → IsMatched q)
    → ((q : Query) → altered ≡ some q → IsMatched q)
    → ((qs : List Query) → granted ≡ some qs → All IsMatched qs)
    → (created >>= λ c. altered >>= λ a. granted >>= λ g. build_atomic_query (c ∷ a ∷ g))
      ≡ some query
    → IsMatched query
atomic-IsMatched none altered granted c a g e = cc
atomic-IsMatched (some x) none granted c a g e = cc
atomic-IsMatched (some x) (some y) none c a g e = cc
atomic-IsMatched (some x) (some y) (some zs) c a g e =
    build_atomic_query-IsMatched (x ∷ y ∷ zs) (c x refl, (a y refl, g zs refl)) e

-- The statement that configures a user has as many placeholders as arguments, if the names of the
-- permissions and of the resource options hold no question mark; the name, the password and the
-- hosts may, since they are arguments.
pub create_user_query-IsMatched :
    (user pass : Text) (hosts : List Text) (permissions : List MysqlPermission)
    (options : List (Text × ℤ)) (query : Query)
    → All IsClean permissions
    → All (λ option. placeholders option.0 ≡ 0) options
    → create_user_query user pass hosts permissions options ≡ some query
    → placeholders query.escaped_query ≡ length query.args
unfolding create_user_query
create_user_query-IsMatched user pass hosts permissions options query clean named e =
    atomic-IsMatched (get_create_user_query user pass hosts)
      (get_alter_user_query user pass hosts options) (grants permissions user hosts)
      (λ q. get_create_user_query-IsMatched user pass hosts)
      (λ q. get_alter_user_query-IsMatched user pass hosts options named)
      (λ qs. grants-IsMatched permissions user hosts clean) e
