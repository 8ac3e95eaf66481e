-- ===== src/Sql/Database.antt =====
-- Which database the statements of pkg/internal/mysql/database.go name.
use mysql_operator.Base.{
  ℕ, ◌+◌, ◌≡◌, ◌≢◌, ◌↔◌, ◌⊎◌, append-nil, refl, ap, ◌∙◌, sym, true, false, Option, none, some,
  some-injective, List, [], ◌∷◌, ◌++◌, arith, Text, codes, text_eq, text_eq_iff, ◌==◌,
  if◌then◌else◌, has_suffix, length, count_if, cut, append_assoc, Bool-cases, inl, inr,
}
use mysql_operator.Sql.{
  Query, Arg, text_arg, escape, escape_byte, escape_id, without_backticks, backtick, new_query,
  create_database_query, drop_database_query, ◌>>=◌,
}
use mysql_operator.Sql.Literals.{
  read_identifier, EndsIdentifier, backticks, read_identifier-append, read_identifier-backticks,
  backticks-without_backticks,
}

unfoldable pub read_name : Text → Option Text
unfolding read_identifier
read_name behind = elim (read_identifier false behind) [ none ↦ none | some (name, _) ↦ some name ]

-- The name that MySQL reads from the first quoted identifier of a statement.
unfoldable pub named : Query → Option Text
unfolding cut read_name
named query = elim (cut backtick query.escaped_query) [
  | none ↦ none
  | some (_, behind) ↦ read_name behind
]

-- The number of bytes that `Escape` writes a backslash for.
abbrev escaped_bytes : Text → ℕ
escaped_bytes s = count_if (λ c. if escape_byte c == 0 then false else true) s

-- No byte of the name is escaped, and none is a backtick.
abbrev pub IsPlain : Text → Type 0
IsPlain name = (escaped_bytes name ≡ 0) × (backticks name ≡ 0)

length-escape : (s : Text) → length (escape s) ≡ length s + escaped_bytes s
unfolding escape
length-escape [] = refl
length-escape (c ∷ s) = ground (arith, length-escape s)

escape-plain : (s : Text) → escaped_bytes s ≡ 0 → escape s ≡ s
unfolding escape
escape-plain [] h = refl
escape-plain (c ∷ s) h = ground (arith, escape-plain s)

escape_byte-backtick :
    (c : ℕ)
    → (escape_byte c == 0) ≡ false
    → ((c == backtick) ≡ false) × ((escape_byte c == backtick) ≡ false)
unfolding escape_byte
escape_byte-backtick c h = ground arith

backticks-escape : (s : Text) → backticks (escape s) ≡ backticks s
unfolding escape
backticks-escape [] = refl
backticks-escape (c ∷ s) = ground (arith, escape_byte-backtick c, backticks-escape s)

backticks-append : (s t : Text) → backticks (s ++ t) ≡ backticks s + backticks t
backticks-append [] t = omega arith
backticks-append (c ∷ s) t = ground (arith, backticks-append s t)

read_name-eq-some :
    (t name : Text)
    → read_name t ≡ some name
    → (rest : Text) × (read_identifier false t ≡ some (name, rest))
unfolding read_name
read_name-eq-some t name h = go (read_identifier false t) h
  where
    go :
        (read : Option (Text × Text))
        → elim read as (λ _. Option Text) [ none ↦ none | some (n, _) ↦ some n ] ≡ some name
        → (rest : Text) × (read ≡ some (name, rest))
    go none e = cc
    go (some (n, rest)) e = (rest, ground arith)

-- The escaped name in backticks is read as the name itself exactly for a plain one.
read_name-escape :
    (name rest : Text)
    → backticks rest ≡ 0
    → EndsIdentifier rest
    → (read_name (escape name ++ backtick ∷ rest) ≡ some name) ↔ IsPlain name
unfolding read_name
read_name-escape name rest none_behind e = (
  λ h.
      let (rest', r) = read_name-eq-some (escape name ++ backtick ∷ rest) name h in
      let bound = read_identifier-backticks false (escape name ++ backtick ∷ rest) name rest' r in
      let split = backticks-append (escape name) (backtick ∷ rest) in
      let no_backtick : backticks name ≡ 0 = ground (arith, backticks-escape name) in
      let no_backtick' : backticks (escape name) ≡ 0 = backticks-escape name ∙ no_backtick in
      let read = read_identifier-append (escape name) rest no_backtick' e in
      let same : escape name ≡ name = ground arith in
      (omega (arith, length-escape name, ap length same), no_backtick),
  λ (plain, no_backtick).
      rw (escape-plain name plain)
        (rw (read_name, read_identifier-append name rest no_backtick e) refl),
)

terminated_text :
    (text : Text) (args : List Arg)
    → text ≢ []
    → (end : Text) × (new_query text args
        ≡ some (record { escaped_query = text ++ end; args = args }))
      × ((end ≡ []) ⊎ (end ≡ codes ";"))
unfolding new_query
terminated_text [] args h = absurd (h refl)
terminated_text (c ∷ text) args h = elim (Bool-cases (has_suffix (c ∷ text) (codes ";"))) [
  | inl ended ↦ ([], rw (ended, append-nil text) refl, inl refl)
  | inr open_end ↦ (codes ";", rw open_end refl, inr refl)
]

EndsIdentifier-append :
    (options end : Text)
    → EndsIdentifier options
    → (end ≡ []) ⊎ (end ≡ codes ";")
    → EndsIdentifier (options ++ end)
EndsIdentifier-append [] end h (inl e) = rw e tt
EndsIdentifier-append [] end h (inr e) = rw e refl
EndsIdentifier-append (c ∷ options) end h kind = h

-- A statement that starts with the given text and goes on with an escaped name in backticks.
created-named :
    (database options : Text) (args : List Arg)
    → backticks options ≡ 0
    → EndsIdentifier options
    → ((new_query
            (codes "CREATE DATABASE IF NOT EXISTS `" ++ escape database ++ backtick ∷ options)
            args
          >>= named)
        ≡ some database)
      ↔ IsPlain database
unfolding named
created-named database options args clean ends =
    let text : Text =
      codes "CREATE DATABASE IF NOT EXISTS `" ++ escape database ++ backtick ∷ options in
    let (end, e, kind) = terminated_text text args (λ h. cc) in
    let tail : backticks end ≡ 0 = elim kind [
      | inl none_left ↦ rw none_left
      | inr mark ↦ rw mark
    ] in
    let clean' : backticks (options ++ end) ≡ 0 =
      omega (arith, backticks-append options end, clean, tail) in
    let (a, b) =
      read_name-escape database (options ++ end) clean'
        (EndsIdentifier-append options end ends kind) in
    let same : (new_query text args >>= named)
        ≡ read_name (escape database ++ backtick ∷ (options ++ end)) =
      rw e (ap read_name (append_assoc (escape database) (backtick ∷ options) end)) in
    (λ h. a (sym same ∙ h), λ h. same ∙ b h)

create_database_query-named :
    (database charset collate : Text)
    → ((create_database_query database charset collate >>= named) ≡ some database)
      ↔ IsPlain database
unfolding create_database_query
create_database_query-named d [] [] = created-named d [] [] refl tt
create_database_query-named d (c ∷ charset) [] =
    created-named d (codes " CHARACTER SET ?") (text_arg (c ∷ charset) ∷ []) refl refl
create_database_query-named d [] (c ∷ collate) =
    created-named d (codes " COLLATE ?") (text_arg (c ∷ collate) ∷ []) refl refl
create_database_query-named d (c ∷ charset) (e ∷ collate) =
    created-named d (codes " CHARACTER SET ? COLLATE ?")
      (text_arg (c ∷ charset) ∷ text_arg (e ∷ collate) ∷ []) refl refl

without_backticks-plain : (s : Text) → backticks s ≡ 0 → without_backticks s ≡ s
unfolding without_backticks
without_backticks-plain [] h = refl
without_backticks-plain (c ∷ s) h = ground (arith, without_backticks-plain s)

escape_id-other :
    (id : Text) → id ≢ codes "*" → escape_id id ≡ backtick ∷ (without_backticks id ++ backtick ∷ [])
unfolding escape_id
escape_id-other id other = elim (Bool-cases (text_eq id (codes "*"))) [
  | inl star ↦ absurd (other ((text_eq_iff id (codes "*")).0 star))
  | inr name ↦ rw name refl
]

dropped-named :
    (name : Text)
    → backticks name ≡ 0
    → (new_query (codes "DROP DATABASE IF EXISTS `" ++ (name ++ backtick ∷ [])) [] >>= named)
      ≡ some name
unfolding named
dropped-named name clean =
    let text : Text = codes "DROP DATABASE IF EXISTS `" ++ (name ++ backtick ∷ []) in
    let (end, e, kind) = terminated_text text [] (λ h. cc) in
    let read : read_name (name ++ backtick ∷ end) ≡ some name =
      rw (read_name, read_identifier-append name end clean (EndsIdentifier-append [] end tt kind))
        refl in
    rw e (ap read_name (append_assoc name (backtick ∷ []) end) ∙ read)

drop_database_query-named :
    (database : Text)
    → database ≢ codes "*"
    → (drop_database_query database >>= named) ≡ some (without_backticks database)
unfolding drop_database_query
drop_database_query-named database other =
    rw (escape_id-other database other)
      (dropped-named (without_backticks database) (backticks-without_backticks database))

-- The statement that creates a database names exactly the database of the resource if no byte of the
-- name is one that `Escape` puts a backslash before and none is a backtick, and only then; the one
-- that drops it does so, but for the name `*`, exactly if no byte is a backtick.
pub database_query-named :
    (database charset collate : Text)
    → database ≢ codes "*"
    → (((create_database_query database charset collate >>= named) ≡ some database)
        ↔ IsPlain database)
      × (((drop_database_query database >>= named) ≡ some database) ↔ (backticks database ≡ 0))
database_query-named database charset collate other =
    let dropped = drop_database_query-named database other in
    (
      create_database_query-named database charset collate,
      (
        λ h.
            let same : without_backticks database ≡ database =
              some-injective _ _ (sym dropped ∙ h) in
            ap (λ s. backticks s) (sym same) ∙ backticks-without_backticks database,
        λ h. dropped ∙ ap some (without_backticks-plain database h),
      ),
    )
