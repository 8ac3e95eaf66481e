-- ===== src/Base/Texts.antt =====
-- Text as the list of its bytes, with the functions of Go's `strings` package that the program calls.
use Prim.Native.Nat.{ℕ}
use Prim.Native.Char.{code}
use Prim.Native.String.{String}
use mathlib.Core.Path.{◌≡◌, refl}
use mathlib.Core.Logic.{◌↔◌}
use mathlib.Core.Bool.{Bool, true, false, ◌&&◌, ◌||◌}
use mathlib.Core.List.{List, [], ◌∷◌, ◌++◌}
use mathlib.Core.Option.{Option, none, some}
use native.Mathlib.Omega.{arith}
use mysql_operator.Base.Tests.{◌==◌, leb, if◌then◌else◌, ==_iff}

abbrev pub Text : Type 0
Text = List ℕ

-- The bytes of an ASCII literal. `String` has its own `[]` and `∷`.
abbrev pub codes : String → Text
codes String.[] = []
codes (String.◌∷◌ c s) = code c ∷ codes s

-- `a == b` on Go strings.
unfoldable pub text_eq : Text → Text → Bool
text_eq [] [] = true
text_eq [] (d ∷ t) = false
text_eq (c ∷ s) [] = false
text_eq (c ∷ s) (d ∷ t) = c == d && text_eq s t

pub text_eq→≡ : (s t : Text) → text_eq s t ≡ true → s ≡ t
unfolding text_eq
text_eq→≡ [] [] h = refl
text_eq→≡ [] (d ∷ t) h = cc
text_eq→≡ (c ∷ s) [] h = cc
text_eq→≡ (c ∷ s) (d ∷ t) h = ground (arith, text_eq→≡ s t)

pub text_eq_refl : (s : Text) → text_eq s s ≡ true
unfolding text_eq
text_eq_refl [] = refl
text_eq_refl (c ∷ s) = ground (arith, text_eq_refl s)

pub text_eq_iff : (s t : Text) → (text_eq s t ≡ true) ↔ (s ≡ t)
text_eq_iff s t = (text_eq→≡ s t, λ e. rw e (text_eq_refl t))

-- `strings.HasPrefix(s, prefix)`.
unfoldable pub has_prefix : Text → Text → Bool
has_prefix s [] = true
has_prefix [] (d ∷ t) = false
has_prefix (c ∷ s) (d ∷ t) = c == d && has_prefix s t

-- `strings.Contains(s, part)`.
unfoldable pub contains : Text → Text → Bool
contains [] part = has_prefix [] part
contains (c ∷ s) part = has_prefix (c ∷ s) part || contains s part

has_prefix-append : (p s : Text) → has_prefix (p ++ s) p ≡ true
unfolding has_prefix
has_prefix-append [] [] = refl
has_prefix-append [] (c ∷ s) = refl
has_prefix-append (c ∷ p) s = ground (arith, has_prefix-append p s)

-- The text behind the last occurrence of a byte, as `s[strings.LastIndex(s, c)+1:]`.
unfoldable pub after_last : ℕ → Text → Option Text
after_last c [] = none
after_last c (d ∷ s) =
    let here = if c == d then some s else none in
    elim (after_last c s) [ some t ↦ some t | none ↦ here ]

-- The text before the first occurrence of a byte and the text behind it.
unfoldable pub cut : ℕ → Text → Option (Text × Text)
cut c [] = none
cut c (d ∷ s) =
    if c == d
    then some ([], s)
    else elim (cut c s) [ none ↦ none | some (before, after) ↦ some (d ∷ before, after) ]

-- Byte `c` does not occur.
abbrev pub Absent : ℕ → Text → Type 0
Absent c [] = Unit
Absent c (d ∷ s) = ((c == d) ≡ false) × Absent c s

pub Absent-append : (c : ℕ) (s t : Text) → Absent c s → Absent c t → Absent c (s ++ t)
Absent-append c [] t h k = k
Absent-append c (d ∷ s) t h k = (h.0, Absent-append c s t h.1 k)

after_last-Absent : (c : ℕ) (s : Text) → Absent c s → after_last c s ≡ none
unfolding after_last
after_last-Absent c [] h = refl
after_last-Absent c (d ∷ s) h = rw (after_last-Absent c s h.1, h.0)

pub after_last-append : (c : ℕ) (p s : Text) → Absent c s → after_last c (p ++ c ∷ s) ≡ some s
unfolding after_last
after_last-append c [] s h = rw (after_last-Absent c s h) (rw ((==_iff c c).1 refl))
after_last-append c (d ∷ p) s h = rw (after_last-append c p s h)

-- White space as `strings.TrimSpace` has it in ASCII.
abbrev is_space : ℕ → Bool
is_space c = leb 9 c && leb c 13 || c == b' '

trim_left : Text → Text
trim_left [] = []
trim_left (c ∷ s) = let rest = trim_left s in if is_space c then rest else c ∷ s

trim_right : Text → Text
trim_right [] = []
trim_right (c ∷ s) = elim (trim_right s) [
  | [] ↦ if is_space c then [] else c ∷ []
  | d ∷ t ↦ c ∷ d ∷ t
]

unfoldable pub trim_space : Text → Text
unfolding trim_left trim_right
trim_space s = trim_right (trim_left s)

-- The value of a key of a map, as an association list.
unfoldable pub lookup {ℓ} : {V : Type ℓ} → Text → List (Text × V) → Option V
unfolding text_eq
lookup k [] = none
lookup k ((j, v) ∷ m) = if text_eq j k then some v else lookup k m

-- `m[k] = v`.
unfoldable pub insert {ℓ} : {V : Type ℓ} → Text → V → List (Text × V) → List (Text × V)
unfolding text_eq
insert k v [] = (k, v) ∷ []
insert k v ((j, w) ∷ m) = if text_eq j k then (k, v) ∷ m else (j, w) ∷ insert k v m

pub lookup-insert {ℓ} :
    {V : Type ℓ} (k j : Text) (v : V) (m : List (Text × V))
    → lookup j (insert k v m) ≡ (if text_eq k j then some v else lookup j m)
unfolding lookup insert
lookup-insert k j v [] = refl
lookup-insert k j v ((i, w) ∷ m) =
    ground (arith, text_eq_iff k j, text_eq_iff i k, text_eq_iff i j, lookup-insert k j v m)

pub cut-append : (c : ℕ) (p s : Text) → Absent c p → cut c (p ++ c ∷ s) ≡ some (p, s)
unfolding cut
cut-append c [] s h = rw ((==_iff c c).1 refl) refl
cut-append c (d ∷ p) s h = ground (arith, cut-append c p s h.1)

pub cut-Absent : (c : ℕ) (s : Text) → Absent c s → cut c s ≡ none
unfolding cut
cut-Absent c [] h = refl
cut-Absent c (d ∷ s) h = ground (arith, cut-Absent c s h.1)

-- The text before the last occurrence of a byte and the text behind it.
unfoldable pub cut_last : ℕ → Text → Option (Text × Text)
cut_last c [] = none
cut_last c (d ∷ s) = elim (cut_last c s) [
  | some (before, after) ↦ some (d ∷ before, after)
  | none ↦ if c == d then some ([], s) else none
]

cut_last-Absent : (c : ℕ) (s : Text) → Absent c s → cut_last c s ≡ none
unfolding cut_last
cut_last-Absent c [] h = refl
cut_last-Absent c (d ∷ s) h = rw (cut_last-Absent c s h.1, h.0) refl

pub cut_last-append : (c : ℕ) (p s : Text) → Absent c s → cut_last c (p ++ c ∷ s) ≡ some (p, s)
unfolding cut_last
cut_last-append c [] s h = rw (cut_last-Absent c s h) (rw ((==_iff c c).1 refl) refl)
cut_last-append c (d ∷ p) s h = rw (cut_last-append c p s h) refl

-- `strings.HasSuffix(s, suffix)`.
unfoldable pub has_suffix : Text → Text → Bool
has_suffix [] suffix = text_eq [] suffix
has_suffix (c ∷ s) suffix = text_eq (c ∷ s) suffix || has_suffix s suffix

pub has_suffix-append : (p s : Text) → has_suffix (p ++ s) s ≡ true
unfolding has_suffix text_eq
has_suffix-append [] [] = refl
has_suffix-append [] (c ∷ s) = rw (text_eq_refl (c ∷ s)) refl
has_suffix-append (c ∷ p) s = ground (arith, has_suffix-append p s)
