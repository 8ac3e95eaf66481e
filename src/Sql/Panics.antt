-- ===== src/Sql/Panics.antt =====
-- When `NewQuery` panics on an empty text while a user is configured
-- (pkg/internal/mysql/query.go and user.go).
use mysql_operator.Base.{
  ◌≡◌, ◌≢◌, ◌↔◌, refl, ◌∙◌, sym, subst, some-injective, codes, Option, none, some, List, [], ◌∷◌,
  ◌++◌, arith, Text, All, All-append, ℤ,
}
use mysql_operator.Sql.{
  Query, Arg, new_query, separator, concatenate_from, concatenate_queries, build_atomic_query,
  get_alter_user_query, get_create_user_query, MysqlPermission, grant_query, grant_tables,
  grant_all, get_users_identification, join_escaped, escape_id, resource_clauses,
  permissions_to_query, grants, create_user_query, ◌>>=◌,
}

IsFilled : Query → Type 0
IsFilled query = query.escaped_query ≢ []

-- A result that is there, and filled.
abbrev Filled : Option Query → Type 0
Filled result = (query : Query) × (result ≡ some query) × IsFilled query

new_query-Filled : (text : Text) (args : List Arg) → text ≢ [] → Filled (new_query text args)
unfolding new_query IsFilled
new_query-Filled [] args h = absurd (h refl)
new_query-Filled (c ∷ text) args h = (_, refl, λ e. ground arith)

concatenate_from-Filled :
    (text : Text) (args : List Arg) (queries : List Query)
    → text ≢ []
    → Filled (concatenate_from text args queries)
unfolding concatenate_from
concatenate_from-Filled text args [] h = new_query-Filled text args h
concatenate_from-Filled [] args (pq ∷ queries) h = absurd (h refl)
concatenate_from-Filled (c ∷ text) args (pq ∷ queries) h =
    concatenate_from-Filled (c ∷ text ++ separator (c ∷ text) ++ pq.escaped_query) (args ++ pq.args)
      queries (λ e. cc)

grant_query-Filled :
    (perm : MysqlPermission) (user : Text) (hosts : List Text) (table : Text)
    → Filled (grant_query perm user hosts table)
unfolding grant_query
grant_query-Filled perm user hosts table =
    let (ids, args) = get_users_identification user none hosts in
    new_query-Filled
      (codes "GRANT "
        ++ join_escaped perm.permissions
        ++ codes " ON "
        ++ escape_id perm.schema
        ++ codes "."
        ++ escape_id table
        ++ codes " TO"
        ++ ids)
      args (λ e. cc)

abbrev Listed : Option (List Query) → Type 0 → Type 0
Listed result Empty =
    (queries : List Query) × (result ≡ some queries)
    × All IsFilled queries
    × ((queries ≡ []) ↔ Empty)

cons-Listed :
    {Empty Never : Type 0} (first : Option Query) (rest : Option (List Query))
    → Filled first
    → Listed rest Empty
    → ¬ Never
    → Listed (first >>= λ q. rest >>= λ qs. some (q ∷ qs)) Never
cons-Listed none rest (q, e, f) r never = absurd (let bad : none ≡ some q = e in cc)
cons-Listed (some x) none f (q, e, _, _) never = absurd (let bad : none ≡ some q = e in cc)
cons-Listed (some x) (some xs) (q, e, f) (qs, e', fs, _) never = (
  x ∷ xs,
  refl,
  (
    subst IsFilled (sym (some-injective _ _ e)) f,
    subst (All IsFilled) (sym (some-injective _ _ e')) fs,
  ),
  (λ h. cc, λ h. absurd (never h)),
)

-- The grants of a permission are there, each of them filled, and there is none exactly if there is
-- no table.
grant_tables_lem :
    (perm : MysqlPermission) (user : Text) (hosts tables : List Text)
    → Listed (grant_tables perm user hosts tables) (tables ≡ [])
unfolding grant_tables
grant_tables_lem perm user hosts [] = ([], refl, tt, (λ _. refl, λ _. refl))
grant_tables_lem perm user hosts (table ∷ tables) =
    cons-Listed (grant_query perm user hosts table) (grant_tables perm user hosts tables)
      (grant_query-Filled perm user hosts table) (grant_tables_lem perm user hosts tables) (λ e. cc)

append-nil_iff {ℓ} : {A : Type ℓ} (xs ys : List A) → (xs ++ ys ≡ []) ↔ ((xs ≡ []) × (ys ≡ []))
append-nil_iff [] ys = (λ e. (refl, e), λ e. e.1)
append-nil_iff (x ∷ xs) ys = (λ e. cc, λ e. cc)

grant_all_lem :
    (permissions : List MysqlPermission) (user : Text) (hosts : List Text)
    → Listed (grant_all permissions user hosts) (All (λ p. p.tables ≡ []) permissions)
unfolding grant_all
grant_all_lem [] user hosts = ([], refl, tt, (λ _. tt, λ _. refl))
grant_all_lem (perm ∷ permissions) user hosts =
    let (first, q, f, none_first) = grant_tables_lem perm user hosts perm.tables in
    let (rest, r, g, none_rest) = grant_all_lem permissions user hosts in
    let both = append-nil_iff first rest in
    (
      first ++ rest,
      rw (q, r) refl,
      All-append IsFilled first rest f g,
      (
        λ e. (none_first.0 (both.0 e).0, none_rest.0 (both.0 e).1),
        λ e. both.1 (none_first.1 e.0, none_rest.1 e.1),
      ),
    )

concatenate_queries-Filled :
    (query : Query) (queries : List Query)
    → IsFilled query
    → Filled (concatenate_queries (query ∷ queries))
unfolding concatenate_queries concatenate_from separator IsFilled
concatenate_queries-Filled query queries h =
    concatenate_from-Filled query.escaped_query query.args queries h

concatenated :
    (queries : List Query)
    → All IsFilled queries
    → (concatenate_queries queries ≡ none) ↔ (queries ≡ [])
unfolding concatenate_queries concatenate_from new_query
concatenated [] filled = (λ _. refl, λ _. refl)
concatenated (query ∷ queries) filled =
    let (q, e, _) = concatenate_queries-Filled query queries filled.0 in
    (λ h. let bad : some q ≡ none = sym e ∙ h in cc, λ h. cc)

permissions_to_query-none_iff :
    (permissions : List MysqlPermission) (user : Text) (hosts : List Text)
    → (permissions_to_query permissions user hosts ≡ none) ↔ All (λ p. p.tables ≡ []) permissions
unfolding permissions_to_query concatenate_queries concatenate_from new_query
permissions_to_query-none_iff permissions user hosts =
    let (queries, e, filled, empty) = grant_all_lem permissions user hosts in
    let (a, b) = concatenated queries filled in
    (λ h. empty.0 (a (rw e at h)), λ h. rw e (b (empty.1 h)))

grants-none_iff :
    (permissions : List MysqlPermission) (user : Text) (hosts : List Text)
    → (grants permissions user hosts ≡ none)
      ↔ ((permissions ≢ []) × All (λ p. p.tables ≡ []) permissions)
unfolding grants
grants-none_iff [] user hosts = (λ h. cc, λ h. absurd (h.0 refl))
grants-none_iff (perm ∷ permissions) user hosts =
    let (a, b) = permissions_to_query-none_iff (perm ∷ permissions) user hosts in
    split (permissions_to_query (perm ∷ permissions) user hosts) a b
  where
    split :
        (granted : Option Query)
        → (granted ≡ none → All (λ p. p.tables ≡ []) (perm ∷ permissions))
        → (All (λ p. p.tables ≡ []) (perm ∷ permissions) → granted ≡ none)
        → ((granted >>= λ q. some (q ∷ [])) ≡ none)
          ↔ ((perm ∷ permissions ≢ []) × All (λ p. p.tables ≡ []) (perm ∷ permissions))
    split none a b = (λ h. (λ e. cc, a refl), λ h. refl)
    split (some q) a b = (λ h. cc, λ h. let bad : some q ≡ none = b h.1 in cc)

build_atomic_query-Filled : (queries : List Query) → Filled (build_atomic_query queries)
unfolding build_atomic_query IsFilled
build_atomic_query-Filled queries =
    let begin : Query = record { escaped_query = codes "BEGIN;"; args = [] } in
    let commit : Query = record { escaped_query = codes "COMMIT;"; args = [] } in
    concatenate_queries-Filled begin (queries ++ commit ∷ []) (λ e. cc)

atomic-none_iff :
    (created altered : Option Query) (granted : Option (List Query))
    → Filled created
    → Filled altered
    → ((created >>= λ c. altered >>= λ a. granted >>= λ g. build_atomic_query (c ∷ a ∷ g)) ≡ none)
      ↔ (granted ≡ none)
atomic-none_iff none altered granted (q, e, f) a = absurd (let bad : none ≡ some q = e in cc)
atomic-none_iff (some x) none granted c (q, e, f) = absurd (let bad : none ≡ some q = e in cc)
atomic-none_iff (some x) (some y) none c a = (λ h. refl, λ h. refl)
atomic-none_iff (some x) (some y) (some zs) c a =
    let (query, e, _) = build_atomic_query-Filled (x ∷ y ∷ zs) in
    (λ h. let bad : some query ≡ none = sym e ∙ h in cc, λ h. cc)

-- To configure a user panics exactly if permissions are given and none of them names a table.
pub create_user_query-none_iff :
    (user pass : Text) (hosts : List Text) (permissions : List MysqlPermission)
    (options : List (Text × ℤ))
    → (create_user_query user pass hosts permissions options ≡ none)
      ↔ ((permissions ≢ []) × All (λ p. p.tables ≡ []) permissions)
unfolding create_user_query get_create_user_query get_alter_user_query
create_user_query-none_iff user pass hosts permissions options =
    let (a, b) = grants-none_iff permissions user hosts in
    let (ids, args) = get_users_identification user (some pass) hosts in
    let keyword : Text = elim options as (λ _. Text) [ [] ↦ [] | _ ∷ _ ↦ codes " WITH" ] in
    let (clauses, limits) = resource_clauses options in
    let (c, d) =
      atomic-none_iff (get_create_user_query user pass hosts)
        (get_alter_user_query user pass hosts options) (grants permissions user hosts)
        (new_query-Filled (codes "CREATE USER IF NOT EXISTS" ++ ids) args (λ e. cc))
        (new_query-Filled (codes "ALTER USER" ++ ids ++ keyword ++ clauses) (args ++ limits)
          (λ e. cc)) in
    (λ h. a (c h), λ h. d (b h))
