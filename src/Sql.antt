-- ===== src/Sql.antt =====
-- The statements that the operator sends to MySQL (pkg/internal/mysql: query.go, escape.go, user.go
-- and database.go). `none` stands for a panic of `NewQuery`.
pub mod Literals
pub mod Panics
pub mod Placeholders
pub mod Database
use mysql_operator.Base.{
  ℕ, Bool, true, false, Option, none, some, List, [], ◌∷◌, ◌++◌, Text, codes, text_eq, has_suffix,
  ◌==◌, if◌then◌else◌, ℤ,
}

-- A positional argument.
pub data Arg : Type 0 where
  text_arg : Text → Arg
  int_arg : ℤ → Arg

pub record Query : Type 0 where
  pub escaped_query : Text
  pub args : List Arg

abbrev pub null_byte : ℕ
null_byte = 0

abbrev pub newline : ℕ
newline = 10

abbrev pub carriage_return : ℕ
carriage_return = 13

abbrev pub backslash : ℕ
backslash = b'\\'

abbrev pub quote : ℕ
quote = 39

abbrev pub double_quote : ℕ
double_quote = 34

abbrev pub substitute : ℕ
substitute = 26

abbrev pub backtick : ℕ
backtick = 96

-- A chain of calls that may panic.
infixl 5 ◌>>=◌
abbrev pub ◌>>=◌ {ℓ κ} : {A : Type ℓ} {B : Type κ} → Option A → (A → Option B) → Option B
none >>= f = none
some a >>= f = f a

unfoldable pub new_query : Text → List Arg → Option Query
unfolding has_suffix text_eq
new_query [] args = none
new_query (c ∷ q) args =
    let terminated : Text = if has_suffix (c ∷ q) (codes ";") then c ∷ q else c ∷ q ++ codes ";" in
    some (record { escaped_query = terminated; args = args })

-- What stands between the text so far and the next query.
unfoldable pub separator : Text → Text
unfolding has_suffix text_eq
separator [] = []
separator (c ∷ query) = if has_suffix (c ∷ query) (newline ∷ []) then [] else newline ∷ []

unfoldable pub concatenate_from : Text → List Arg → List Query → Option Query
unfolding new_query separator
concatenate_from query args [] = new_query query args
concatenate_from query args (pq ∷ queries) =
    concatenate_from (query ++ separator query ++ pq.escaped_query) (args ++ pq.args) queries

unfoldable pub concatenate_queries : List Query → Option Query
unfolding concatenate_from
concatenate_queries queries = concatenate_from [] [] queries

unfoldable pub build_atomic_query : List Query → Option Query
unfolding new_query concatenate_queries
build_atomic_query queries = do
  begin ← new_query (codes "BEGIN") []
  commit ← new_query (codes "COMMIT") []
  concatenate_queries (begin ∷ queries ++ commit ∷ [])

-- The byte behind the backslash, 0 for a byte that stays as it is.
unfoldable pub escape_byte : ℕ → ℕ
escape_byte c =
    if c == null_byte
    then b'0'
    else if c == newline
    then b'n'
    else if c == carriage_return
    then b'r'
    else if c == backslash
    then backslash
    else if c == quote
    then quote
    else if c == double_quote
    then double_quote
    else if c == substitute
    then b'Z'
    else 0

unfoldable pub escape : Text → Text
unfolding escape_byte
escape [] = []
escape (c ∷ s) =
    let rest = escape s in if escape_byte c == 0 then c ∷ rest else backslash ∷ escape_byte c ∷ rest

-- `strings.ReplaceAll(id, "`", "")`.
unfoldable pub without_backticks : Text → Text
without_backticks [] = []
without_backticks (c ∷ s) =
    let rest = without_backticks s in if c == backtick then rest else c ∷ rest

unfoldable pub escape_id : Text → Text
unfolding text_eq without_backticks
escape_id id =
    if text_eq id (codes "*") then id else backtick ∷ without_backticks id ++ backtick ∷ []

-- Each pair of a user and a host is led by a comma, the first one excepted.
unfoldable pub identify_from : Bool → Text → Option Text → List Text → Text × List Arg
identify_from is_first user pwd [] = ([], [])
identify_from is_first user pwd (host ∷ hosts) =
    let (ids, args) = identify_from false user pwd hosts in
    let comma : Text = if is_first then [] else codes "," in
    elim pwd as (λ _. Text × List Arg) [
      | some password ↦ (
        comma ++ codes " ?@? IDENTIFIED BY ?" ++ ids,
        text_arg user ∷ text_arg host ∷ text_arg password ∷ args,
      )
      | none ↦ (comma ++ codes " ?@?" ++ ids, text_arg user ∷ text_arg host ∷ args)
    ]

unfoldable pub get_users_identification : Text → Option Text → List Text → Text × List Arg
unfolding identify_from
get_users_identification user pwd allowed_hosts = identify_from true user pwd allowed_hosts

-- The options in the order in which the map yields them, with the numbers that `AsInt64` reads.
unfoldable pub resource_clauses : List (Text × ℤ) → Text × List Arg
unfolding escape
resource_clauses [] = ([], [])
resource_clauses ((key, value) ∷ options) =
    let (clauses, args) = resource_clauses options in
    (codes " " ++ escape key ++ codes " ?" ++ clauses, int_arg value ∷ args)

unfoldable pub get_alter_user_query : Text → Text → List Text → List (Text × ℤ) → Option Query
unfolding get_users_identification resource_clauses new_query
get_alter_user_query user pwd allowed_hosts resource_options =
    let (ids, ids_args) = get_users_identification user (some pwd) allowed_hosts in
    let (clauses, args) = resource_clauses resource_options in
    let keyword : Text = elim resource_options as (λ _. Text) [ [] ↦ [] | _ ∷ _ ↦ codes " WITH" ] in
    new_query (codes "ALTER USER" ++ ids ++ keyword ++ clauses) (ids_args ++ args)

unfoldable pub get_create_user_query : Text → Text → List Text → Option Query
unfolding get_users_identification new_query
get_create_user_query user pwd allowed_hosts =
    let (ids, ids_args) = get_users_identification user (some pwd) allowed_hosts in
    new_query (codes "CREATE USER IF NOT EXISTS" ++ ids) ids_args

pub record MysqlPermission : Type 0 where
  pub schema : Text
  pub tables : List Text
  pub permissions : List Text

-- `strings.Join(escPerms, ", ")` of the escaped permissions.
unfoldable pub join_escaped : List Text → Text
unfolding escape
join_escaped [] = []
join_escaped (p ∷ []) = escape p
join_escaped (p ∷ q ∷ ps) = escape p ++ codes ", " ++ join_escaped (q ∷ ps)

unfoldable pub grant_query : MysqlPermission → Text → List Text → Text → Option Query
unfolding join_escaped escape_id get_users_identification new_query
grant_query perm user allowed_hosts table =
    let (ids, ids_args) = get_users_identification user none allowed_hosts in
    new_query
      (codes "GRANT "
        ++ join_escaped perm.permissions
        ++ codes " ON "
        ++ escape_id perm.schema
        ++ codes "."
        ++ escape_id table
        ++ codes " TO"
        ++ ids)
      ids_args

unfoldable pub grant_tables : MysqlPermission → Text → List Text → List Text → Option (List Query)
unfolding grant_query
grant_tables perm user allowed_hosts [] = some []
grant_tables perm user allowed_hosts (table ∷ tables) = do
  query ← grant_query perm user allowed_hosts table
  queries ← grant_tables perm user allowed_hosts tables
  some (query ∷ queries)

unfoldable pub grant_all : List MysqlPermission → Text → List Text → Option (List Query)
unfolding grant_tables
grant_all [] user allowed_hosts = some []
grant_all (perm ∷ permissions) user allowed_hosts = do
  first ← grant_tables perm user allowed_hosts perm.tables
  rest ← grant_all permissions user allowed_hosts
  some (first ++ rest)

unfoldable pub permissions_to_query : List MysqlPermission → Text → List Text → Option Query
unfolding grant_all concatenate_queries
permissions_to_query permissions user allowed_hosts =
    grant_all permissions user allowed_hosts >>= concatenate_queries

-- The grants are left out if there is no permission.
unfoldable pub grants : List MysqlPermission → Text → List Text → Option (List Query)
unfolding permissions_to_query
grants [] user allowed_hosts = some []
grants (perm ∷ permissions) user allowed_hosts = do
  query ← permissions_to_query (perm ∷ permissions) user allowed_hosts
  some (query ∷ [])

-- The statement of `CreateUserIfNotExists`, for at least one host.
unfoldable pub create_user_query :
    Text → Text → List Text → List MysqlPermission → List (Text × ℤ) → Option Query
unfolding get_create_user_query get_alter_user_query grants build_atomic_query
create_user_query user pass allowed_hosts permissions resource_options = do
  created ← get_create_user_query user pass allowed_hosts
  altered ← get_alter_user_query user pass allowed_hosts resource_options
  granted ← grants permissions user allowed_hosts
  build_atomic_query (created ∷ altered ∷ granted)

unfoldable pub drop_user_query : Text → Text → Option Query
unfolding new_query
drop_user_query user host =
    new_query (codes "DROP USER IF EXISTS ?@?;") (text_arg user ∷ text_arg host ∷ [])

unfoldable pub create_database_query : Text → Text → Text → Option Query
unfolding escape new_query
create_database_query database charset collate =
    let optional = λ (value keyword : Text). elim value as (λ _. Text × List Arg) [
      | [] ↦ ([], [])
      | _ ∷ _ ↦ (keyword, text_arg value ∷ [])
    ] in
    let (with_charset, charset_args) = optional charset (codes " CHARACTER SET ?") in
    let (with_collate, collate_args) = optional collate (codes " COLLATE ?") in
    new_query
      (codes "CREATE DATABASE IF NOT EXISTS `"
        ++ escape database
        ++ backtick ∷ (with_charset ++ with_collate))
      (charset_args ++ collate_args)

unfoldable pub drop_database_query : Text → Option Query
unfolding escape_id new_query
drop_database_query database = new_query (codes "DROP DATABASE IF EXISTS " ++ escape_id database) []
