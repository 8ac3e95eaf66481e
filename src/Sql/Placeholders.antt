-- ===== src/Sql/Placeholders.antt =====
-- The placeholders and the arguments of the statements (pkg/internal/mysql/query.go and user.go).
pub mod Configured
use mysql_operator.Base.{
  length-append, ℕ, ◌+◌, ◌≡◌, refl, Bool, true, false, Option, none, some, List, [], ◌∷◌, ◌++◌,
  arith, Text, codes, ◌==◌, length, count_if, All, All-append, ℤ,
}
use mysql_operator.Sql.{
  Query, Arg, escape, escape_byte, escape_id, without_backticks, backtick, new_query, separator,
  concatenate_from, build_atomic_query, identify_from, resource_clauses, join_escaped, ◌>>=◌,
}

abbrev pub placeholders : Text → ℕ
placeholders s = count_if (λ c. c == b'?') s

abbrev pub IsMatched : Query → Type 0
IsMatched query = placeholders query.escaped_query ≡ length query.args

pub placeholders-append : (s t : Text) → placeholders (s ++ t) ≡ placeholders s + placeholders t
placeholders-append [] t = omega arith
placeholders-append (c ∷ s) t = ground (arith, placeholders-append s t)

pub >>=-eq-some {ℓ κ} :
    {A : Type ℓ} {B : Type κ} (m : Option A) (f : A → Option B) {b : B}
    → (m >>= f) ≡ some b
    → (a : A) × (m ≡ some a) × (f a ≡ some b)
>>=-eq-some none f e = cc
>>=-eq-some (some a) f e = (a, refl, e)

escape_byte-placeholder :
    (c : ℕ)
    → (escape_byte c == 0) ≡ false
    → ((c == b'?') ≡ false) × ((escape_byte c == b'?') ≡ false)
unfolding escape_byte
escape_byte-placeholder c h = ground arith

placeholders-escape : (s : Text) → placeholders (escape s) ≡ placeholders s
unfolding escape
placeholders-escape [] = refl
placeholders-escape (c ∷ s) = ground (arith, escape_byte-placeholder c, placeholders-escape s)

placeholders-without_backticks : (s : Text) → placeholders (without_backticks s) ≡ placeholders s
unfolding without_backticks
placeholders-without_backticks [] = refl
placeholders-without_backticks (c ∷ s) = ground (arith, placeholders-without_backticks s)

pub placeholders-escape_id : (s : Text) → placeholders (escape_id s) ≡ placeholders s
unfolding escape_id
placeholders-escape_id s = ground (
  arith,
  placeholders-append (without_backticks s) (backtick ∷ []),
  placeholders-without_backticks s,
)

pub new_query-IsMatched :
    (text : Text) (args : List Arg) {query : Query}
    → placeholders text ≡ length args
    → new_query text args ≡ some query
    → IsMatched query
unfolding new_query
new_query-IsMatched [] args h e = cc
new_query-IsMatched (c ∷ text) args h e = ground (arith, placeholders-append text (codes ";"))

placeholders-separator : (text : Text) → placeholders (separator text) ≡ 0
unfolding separator
placeholders-separator [] = refl
placeholders-separator (c ∷ text) = ground arith

pub concatenate_from-IsMatched :
    (text : Text) (args : List Arg) (queries : List Query) {query : Query}
    → placeholders text ≡ length args
    → All IsMatched queries
    → concatenate_from text args queries ≡ some query
    → IsMatched query
unfolding concatenate_from
concatenate_from-IsMatched text args [] h each e = new_query-IsMatched text args h e
concatenate_from-IsMatched text args (pq ∷ queries) h each e =
    concatenate_from-IsMatched (text ++ separator text ++ pq.escaped_query) (args ++ pq.args)
      queries
      (omega
        (arith, placeholders-append, placeholders-separator, length-append args pq.args, each.0))
      each.1 e

pub build_atomic_query-IsMatched :
    (queries : List Query) {query : Query}
    → All IsMatched queries
    → build_atomic_query queries ≡ some query
    → IsMatched query
unfolding build_atomic_query
build_atomic_query-IsMatched queries each e =
    let begin : Query = record { escaped_query = codes "BEGIN;"; args = [] } in
    let commit : Query = record { escaped_query = codes "COMMIT;"; args = [] } in
    let ends : All IsMatched (commit ∷ []) = (refl, tt) in
    concatenate_from-IsMatched [] [] (begin ∷ queries ++ commit ∷ []) refl
      (refl, All-append IsMatched queries (commit ∷ []) each ends) e

-- The identification of the users holds the placeholders of its arguments and no name.
pub placeholders-identify_from :
    (is_first : Bool) (user : Text) (pwd : Option Text) (hosts : List Text)
    → placeholders (identify_from is_first user pwd hosts).0
      ≡ length (identify_from is_first user pwd hosts).1
unfolding identify_from
placeholders-identify_from is_first user pwd [] = refl
placeholders-identify_from true user (some p) (host ∷ hosts) =
    omega (arith, placeholders-identify_from false user (some p) hosts)
placeholders-identify_from true user none (host ∷ hosts) =
    omega (arith, placeholders-identify_from false user none hosts)
placeholders-identify_from false user (some p) (host ∷ hosts) =
    omega (arith, placeholders-identify_from false user (some p) hosts)
placeholders-identify_from false user none (host ∷ hosts) =
    omega (arith, placeholders-identify_from false user none hosts)

pub placeholders-resource_clauses :
    (options : List (Text × ℤ))
    → All (λ option. placeholders option.0 ≡ 0) options
    → placeholders (resource_clauses options).0 ≡ length (resource_clauses options).1
unfolding resource_clauses
placeholders-resource_clauses [] h = refl
placeholders-resource_clauses ((key, value) ∷ options) h = omega (
  arith,
  placeholders-append,
  placeholders-escape,
  h.0,
  placeholders-resource_clauses options h.1,
)

pub placeholders-join_escaped :
    (permissions : List Text)
    → All (λ p. placeholders p ≡ 0) permissions
    → placeholders (join_escaped permissions) ≡ 0
unfolding join_escaped
placeholders-join_escaped [] h = refl
placeholders-join_escaped (p ∷ []) h = ground (arith, placeholders-escape p)
placeholders-join_escaped (p ∷ q ∷ ps) h =
    omega
      (arith, placeholders-append, placeholders-escape, h.0, placeholders-join_escaped (q ∷ ps) h.1)
