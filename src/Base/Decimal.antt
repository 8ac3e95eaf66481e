-- ===== src/Base/Decimal.antt =====
-- `fmt`'s %d on a count and `strconv.Atoi`, with the round trip between them.
use Prim.Native.Nat.{ℕ, zero, suc, ◌+◌, ◌-◌, ◌*◌, ◌/◌, ◌%◌, ◌^◌, ◌≤◌, ◌<◌}
use mathlib.Core.Path.{◌≡◌, refl, ◌∙◌}
use mathlib.Core.Logic.{inl, inr}
use mathlib.Core.Bool.{true, ◌&&◌}
use mathlib.Core.List.{[], ◌∷◌}
use mathlib.Core.Option.{Option, none, some}
use native.Mathlib.Omega.{arith}
use mysql_operator.Base.Tests.{ltb, leb, ◌==◌, if◌then◌else◌, Bool-cases}
use mysql_operator.Base.Texts.{Text, Absent}
use mysql_operator.Base.Lists.{all}
use mysql_operator.Base.Int.{ℤ, pos, negsuc}

-- The digits of `n`, most significant first, with fuel for their number.
decimal_from : ℕ → ℕ → Text → Text
decimal_from zero n out = out
decimal_from (suc f) n out =
    let more = decimal_from f (n / 10) ((b'0' + n % 10) ∷ out) in
    if ltb n 10 then (b'0' + n) ∷ out else more

unfoldable pub decimal : ℕ → Text
unfolding decimal_from
decimal n = decimal_from (suc n) n []

-- The value of a run of digits that continues the value `acc`; `none` at any other byte.
digits_value : ℕ → Text → Option ℕ
digits_value acc [] = some acc
digits_value acc (c ∷ s) =
    let rest = digits_value (acc * 10 + (c - b'0')) s in
    if leb b'0' c && leb c b'9' then rest else none

-- An unsigned part has at least one digit, and the result fits in `int64`.
unsigned : Text → Option ℕ
unsigned [] = none
unsigned (c ∷ s) = digits_value 0 (c ∷ s)

in_int64 : ℕ → Option ℤ
in_int64 n = if ltb n (2 ^ 63) then some (pos n) else none

in_int64_neg : ℕ → Option ℤ
in_int64_neg zero = some (pos 0)
in_int64_neg (suc n) = if ltb n (2 ^ 63) then some (negsuc n) else none

bound_by : (ℕ → Option ℤ) → Option ℕ → Option ℤ
bound_by f none = none
bound_by f (some n) = f n

-- `strconv.Atoi(s)`, with `none` for its errors.
unfoldable pub atoi : Text → Option ℤ
unfolding bound_by unsigned digits_value in_int64 in_int64_neg
atoi [] = none
atoi (c ∷ s) =
    if c == b'-'
    then bound_by in_int64_neg (unsigned s)
    else if c == b'+'
    then bound_by in_int64 (unsigned s)
    else bound_by in_int64 (unsigned (c ∷ s))

digits_value-decimal_from :
    (f n : ℕ) (out : Text) → n < f → digits_value 0 (decimal_from f n out) ≡ digits_value n out
unfolding decimal_from digits_value
digits_value-decimal_from zero n out h = absurd (omega arith)
digits_value-decimal_from (suc f) n out h = elim (Bool-cases (ltb n 10)) [
  | inl one ↦ ground arith
  | inr more ↦ ground (arith, digits_value-decimal_from f (n / 10) ((b'0' + n % 10) ∷ out))
]

decimal_from-Absent :
    (c f n : ℕ) (out : Text) → c < b'0' → Absent c out → Absent c (decimal_from f n out)
unfolding decimal_from
decimal_from-Absent c zero n out h a = a
decimal_from-Absent c (suc f) n out h a =
    ground (arith, decimal_from-Absent c f (n / 10) ((b'0' + n % 10) ∷ out))

-- A decimal number holds no byte below the digits, so neither a dash nor a dot.
pub decimal-Absent : (c n : ℕ) → c < b'0' → Absent c (decimal n)
unfolding decimal
decimal-Absent c n h = decimal_from-Absent c (suc n) n [] h tt

decimal_from-digits :
    (f n : ℕ) (out : Text)
    → all (λ c. leb b'0' c && leb c b'9') out ≡ true
    → all (λ c. leb b'0' c && leb c b'9') (decimal_from f n out) ≡ true
unfolding decimal_from
decimal_from-digits zero n out h = h
decimal_from-digits (suc f) n out h =
    ground (arith, decimal_from-digits f (n / 10) ((b'0' + n % 10) ∷ out))

-- A decimal number is made of digits.
pub decimal-digits : (n : ℕ) → all (λ c. leb b'0' c && leb c b'9') (decimal n) ≡ true
unfolding decimal
decimal-digits n = decimal_from-digits (suc n) n [] refl

-- The first byte of a decimal number is a digit.
decimal_from-head :
    (f n : ℕ) (out : Text)
    → n < f
    → (c : ℕ) × (s : Text) × (decimal_from f n out ≡ c ∷ s) × (b'0' ≤ c)
unfolding decimal_from
decimal_from-head zero n out h = absurd (omega arith)
decimal_from-head (suc f) n out h = elim (Bool-cases (ltb n 10)) [
  | inl one ↦ (b'0' + n, out, rw one, omega arith)
  | inr more ↦ rw more (decimal_from-head f (n / 10) ((b'0' + n % 10) ∷ out) (ground arith))
]

atoi_digits : (c : ℕ) (s : Text) → b'0' ≤ c → atoi (c ∷ s) ≡ bound_by in_int64 (unsigned (c ∷ s))
unfolding atoi
atoi_digits c s h = ground arith

unsigned-decimal : (n : ℕ) → unsigned (decimal n) ≡ some n
unfolding unsigned decimal digits_value
unsigned-decimal n =
    let (c, s, e, h) = decimal_from-head (suc n) n [] (omega arith) in
    let v = digits_value-decimal_from (suc n) n [] (omega arith) in rw e (rw e at v)

-- Reading back a printed count of an `int64` gives the count.
pub atoi-decimal : (n : ℕ) → n < 2 ^ 63 → atoi (decimal n) ≡ some (pos n)
unfolding decimal bound_by in_int64
atoi-decimal n h =
    let (c, s, e, d) = decimal_from-head (suc n) n [] (omega arith) in
    let v = unsigned-decimal n in rw e (atoi_digits c s d ∙ rw (rw e at v) (ground arith))
