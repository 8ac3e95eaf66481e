-- ===== src/Sql/Literals.antt =====
-- How MySQL reads what `Escape` and `escapeID` write: a string literal up to its closing quote, and
-- a quoted identifier up to its closing backtick.
use mysql_operator.Base.{
  ℕ, ◌+◌, ◌*◌, ◌≤◌, ◌≡◌, refl, Bool, true, false, Option, none, some, [], ◌∷◌, ◌++◌, arith, Text,
  ◌==◌, if◌then◌else◌, count_if, Bool-cases, inl, inr,
}
use mysql_operator.Sql.{
  escape, escape_byte, without_backticks, backslash, quote, backtick, null_byte, newline,
  carriage_return, substitute,
}

abbrev prepend : ℕ → Option (Text × Text) → Option (Text × Text)
prepend c none = none
prepend c (some (name, rest)) = some (c ∷ name, rest)

-- What a backslash and the given byte stand for.
unescape_byte : ℕ → ℕ
unescape_byte c =
    if c == b'0'
    then null_byte
    else if c == b'n'
    then newline
    else if c == b'r'
    then carriage_return
    else if c == b'Z'
    then substitute
    else if c == b'b'
    then 8
    else if c == b't'
    then 9
    else c

-- The value of a literal and the text behind its closing quote. The flag: a backslash came before.
unfoldable pub read_literal : Bool → Text → Option (Text × Text)
unfolding unescape_byte
read_literal escaped [] = none
read_literal true (c ∷ s) = prepend (unescape_byte c) (read_literal false s)
read_literal false (c ∷ s) =
    let rest = read_literal (c == backslash) s in
    if c == quote then some ([], s) else if c == backslash then rest else prepend c rest

-- A byte that is escaped reads back, and one that is not stands for itself.
escape_byte_lem :
    (c : ℕ) → (escape_byte c == 0) ≡ true → ((c == quote) ≡ false) × ((c == backslash) ≡ false)
unfolding escape_byte
escape_byte_lem c h = ground arith

unescape_byte-escape_byte :
    (c : ℕ) → (escape_byte c == 0) ≡ false → unescape_byte (escape_byte c) ≡ c
unfolding escape_byte unescape_byte
unescape_byte-escape_byte c h = ground arith

-- An escaped text between single quotes is read back as the text itself, and the literal ends at the
-- quote that was put behind it.
pub read_literal-escape :
    (s rest : Text) → read_literal false (escape s ++ quote ∷ rest) ≡ some (s, rest)
unfolding read_literal escape
read_literal-escape [] rest = refl
read_literal-escape (c ∷ s) rest = elim (Bool-cases (escape_byte c == 0)) [
  | inl plain ↦
      let (a, b) = escape_byte_lem c plain in
      rw plain (rw (a, b) (rw (read_literal-escape s rest) refl))
  | inr special ↦
      rw special (rw (read_literal-escape s rest, unescape_byte-escape_byte c special) refl)
]

-- A quoted identifier from behind its opening backtick. The flag: a backtick came before, which ends
-- the identifier unless it is doubled.
unfoldable pub read_identifier : Bool → Text → Option (Text × Text)
read_identifier true [] = some ([], [])
read_identifier false [] = none
read_identifier true (c ∷ s) =
    let rest = read_identifier false s in
    if c == backtick then prepend backtick rest else some ([], c ∷ s)
read_identifier false (c ∷ s) =
    let rest = read_identifier (c == backtick) s in if c == backtick then rest else prepend c rest

-- The text does not go on with a backtick.
abbrev pub EndsIdentifier : Text → Type 0
EndsIdentifier [] = Unit {0}
EndsIdentifier (c ∷ s) = (c == backtick) ≡ false

read_identifier-EndsIdentifier :
    (rest : Text) → EndsIdentifier rest → read_identifier true rest ≡ some ([], rest)
unfolding read_identifier
read_identifier-EndsIdentifier [] h = refl
read_identifier-EndsIdentifier (c ∷ s) h = ground arith

abbrev pub backticks : Text → ℕ
backticks s = count_if (λ c. c == backtick) s

-- A name without backticks is read as it stands.
pub read_identifier-append :
    (name rest : Text)
    → backticks name ≡ 0
    → EndsIdentifier rest
    → read_identifier false (name ++ backtick ∷ rest) ≡ some (name, rest)
unfolding read_identifier
read_identifier-append [] rest h e = read_identifier-EndsIdentifier rest e
read_identifier-append (c ∷ name) rest h e = elim (Bool-cases (c == backtick)) [
  | inl b ↦ absurd (ground arith)
  | inr b ↦
      let h' : backticks name ≡ 0 = ground arith in
      rw b (rw (read_identifier-append name rest h' e) refl)
]

prepend-eq-some :
    (c : ℕ) (read : Option (Text × Text)) (name rest : Text)
    → prepend c read ≡ some (name, rest)
    → (name' : Text) × (read ≡ some (name', rest)) × (name ≡ c ∷ name')
prepend-eq-some c none name rest h = cc
prepend-eq-some c (some (name', r)) name rest h = (name', ground arith, ground arith)

abbrev pending : Bool → ℕ
pending true = 1
pending false = 0

-- Each backtick of a name takes two of the text, and the end of the identifier one more.
pub read_identifier-backticks :
    (seen : Bool) (s name rest : Text)
    → read_identifier seen s ≡ some (name, rest)
    → 2 * backticks name + 1 ≤ backticks s + pending seen
unfolding read_identifier
read_identifier-backticks true [] name rest h = ground arith
read_identifier-backticks false [] name rest h = cc
read_identifier-backticks true (c ∷ s) name rest h = elim (Bool-cases (c == backtick)) [
  | inl b ↦
      let (name', e, split) =
        prepend-eq-some backtick (read_identifier false s) name rest (rw b at h) in
      rw split (rw b (omega (arith, read_identifier-backticks false s name' rest e)))
  | inr b ↦ let e : [] ≡ name = ground arith in rw (← e) (omega arith)
]
read_identifier-backticks false (c ∷ s) name rest h = elim (Bool-cases (c == backtick)) [
  | inl b ↦
      let h' : read_identifier true s ≡ some (name, rest) = rw b at h in
      rw b (omega (arith, read_identifier-backticks true s name rest h'))
  | inr b ↦
      let h' : prepend c (read_identifier false s) ≡ some (name, rest) = rw b at h in
      let (name', e, split) = prepend-eq-some c (read_identifier false s) name rest h' in
      rw split (rw b (omega (arith, read_identifier-backticks false s name' rest e)))
]

pub backticks-without_backticks : (s : Text) → backticks (without_backticks s) ≡ 0
unfolding without_backticks
backticks-without_backticks [] = refl
backticks-without_backticks (c ∷ s) = ground (arith, backticks-without_backticks s)
