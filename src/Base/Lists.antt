-- ===== src/Base/Lists.antt =====
-- Lists measured and indexed by native numbers, the loops that the components share, and their laws.
use Prim.Native.Nat.{ℕ, zero, suc, ◌+◌, ◌≤◌, ◌<◌}
use mathlib.Core.Path.{◌≡◌, refl, sym, subst}
use mathlib.Core.Logic.{inl, inr}
use mathlib.Core.Bool.{Bool, true, false, ◌||◌, ◌&&◌}
use mathlib.Core.List.{List, [], ◌∷◌, ◌++◌, map, Memᴰ}
use mathlib.Core.List.Memᴰ
use mathlib.Core.Option.{Option, none, some, some-injective}
use native.Mathlib.Omega.{arith}
use mysql_operator.Base.Tests.{if◌then◌else◌, Bool-cases}

module _ {ℓ} {A : Type ℓ} where
  abbrev pub length : List A → ℕ
  length [] = 0
  length (x ∷ xs) = suc (length xs)

  abbrev pub get_elem? : List A → ℕ → Option A
  get_elem? [] i = none
  get_elem? (x ∷ xs) zero = some x
  get_elem? (x ∷ xs) (suc i) = get_elem? xs i

  -- `xs[i] = f(xs[i])`.
  abbrev pub modify : List A → ℕ → (A → A) → List A
  modify [] i f = []
  modify (x ∷ xs) zero f = f x ∷ xs
  modify (x ∷ xs) (suc i) f = x ∷ modify xs i f

  abbrev pub any : (A → Bool) → List A → Bool
  any p [] = false
  any p (x ∷ xs) = p x || any p xs

  abbrev pub all : (A → Bool) → List A → Bool
  all p [] = true
  all p (x ∷ xs) = p x && all p xs

  -- The loop `for _, x := range xs { if p(x) { out = append(out, x) } }`.
  abbrev pub keep : (A → Bool) → List A → List A
  keep p [] = []
  keep p (x ∷ xs) = let rest = keep p xs in if p x then x ∷ rest else rest

  -- The first element that passes the test.
  abbrev pub find : (A → Bool) → List A → Option A
  find p [] = none
  find p (x ∷ xs) = if p x then some x else find p xs

  -- The index of the first element that passes the test.
  abbrev pub index_of : (A → Bool) → List A → Option ℕ
  index_of p [] = none
  index_of p (x ∷ xs) =
      if p x then some 0 else elim (index_of p xs) [ none ↦ none | some i ↦ some (suc i) ]

  abbrev pub count_if : (A → Bool) → List A → ℕ
  count_if p [] = 0
  count_if p (x ∷ xs) = let rest = count_if p xs in if p x then suc rest else rest

-- A predicate of every element, and of some element.
abbrev pub All {ℓ κ} : {A : Type ℓ} → (A → Type κ) → List A → Type κ
All P [] = Unit
All P (x ∷ xs) = P x × All P xs

pub All→Memᴰ {ℓ κ} :
    {A : Type ℓ} (P : A → Type κ) {a : A} {xs : List A} → All P xs → Memᴰ a xs → P a
All→Memᴰ P h (Memᴰ.head e) = subst P (sym e) h.0
All→Memᴰ P h (Memᴰ.tail m) = All→Memᴰ P h.1 m

Memᴰ→All {ℓ κ} :
    {A : Type ℓ} (P : A → Type κ) (xs : List A) → ((a : A) → Memᴰ a xs → P a) → All P xs
Memᴰ→All P [] h = tt
Memᴰ→All P (x ∷ xs) h = (h x (Memᴰ.head refl), Memᴰ→All P xs (λ a m. h a (Memᴰ.tail m)))

pub All-append {ℓ κ} :
    {A : Type ℓ} (P : A → Type κ) (xs ys : List A) → All P xs → All P ys → All P (xs ++ ys)
All-append P [] ys hx hy = hy
All-append P (x ∷ xs) ys hx hy = (hx.0, All-append P xs ys hx.1 hy)

All-map {ℓ κ μ} :
    {A : Type ℓ} {B : Type κ} (P : B → Type μ) (f : A → B) (xs : List A)
    → All (λ a. P (f a)) xs
    → All P (map f xs)
All-map P f [] h = tt
All-map P f (x ∷ xs) h = (h.0, All-map P f xs h.1)

module _ {ℓ} {A : Type ℓ} (p : A → Bool) where
  pub keep_sound : (xs : List A) {a : A} → Memᴰ a (keep p xs) → Memᴰ a xs × (p a ≡ true)
  keep_sound [] m = elim m [ ]
  keep_sound (x ∷ xs) {a} m = elim (Bool-cases (p x)) [
    | inl passes ↦
        let m' : Memᴰ a (x ∷ keep p xs) = rw passes at m in
        elim (Memᴰ.cases_cons m') [
          | inl e ↦ (Memᴰ.head e, rw e passes)
          | inr n ↦ let (o, q) = keep_sound xs n in (Memᴰ.tail o, q)
        ]
    | inr fails ↦ let (n, q) = keep_sound xs (rw fails at m) in (Memᴰ.tail n, q)
  ]

  keep_complete : (xs : List A) {a : A} → Memᴰ a xs → p a ≡ true → Memᴰ a (keep p xs)
  keep_complete [] m h = elim m [ ]
  keep_complete (x ∷ xs) {a} m h = elim (Memᴰ.cases_cons m) [
    | inl e ↦ let h' : p x ≡ true = rw e at h in rw h' (Memᴰ.head e)
    | inr n ↦ elim (Bool-cases (p x)) [
      | inl passes ↦ rw passes (Memᴰ.tail (keep_complete xs n h))
      | inr fails ↦ rw fails (keep_complete xs n h)
    ]
  ]

  pub any_Memᴰ : (xs : List A) {a : A} → Memᴰ a xs → p a ≡ true → any p xs ≡ true
  any_Memᴰ [] m h = elim m [ ]
  any_Memᴰ (x ∷ xs) m h = elim (Memᴰ.cases_cons m) [
    | inl e ↦ let h' : p x ≡ true = rw e at h in rw h'
    | inr n ↦ ground (arith, any_Memᴰ xs n h)
  ]

  any_witness : (xs : List A) → any p xs ≡ true → (a : A) × Memᴰ a xs × (p a ≡ true)
  any_witness [] h = cc
  any_witness (x ∷ xs) h = elim (Bool-cases (p x)) [
    | inl passes ↦ (x, Memᴰ.head refl, passes)
    | inr fails ↦ let (a, m, q) = any_witness xs (rw fails at h) in (a, Memᴰ.tail m, q)
  ]

  pub find_sound : (xs : List A) (a : A) → find p xs ≡ some a → Memᴰ a xs × (p a ≡ true)
  find_sound [] a h = cc
  find_sound (x ∷ xs) a h = elim (Bool-cases (p x)) [
    | inl passes ↦
        let e : x ≡ a = some-injective x a (rw passes at h) in (Memᴰ.head (sym e), rw e at passes)
    | inr fails ↦ let (m, q) = find_sound xs a (rw fails at h) in (Memᴰ.tail m, q)
  ]

  -- Nothing is found exactly when no element passes.
  pub find-none : (xs : List A) → find p xs ≡ none → any p xs ≡ false
  find-none [] h = refl
  find-none (x ∷ xs) h = ground (arith, find-none xs)

  -- Writing at the first index that passes is a walk that writes at the first element that passes.
  abbrev pub upsert : (A → A) → A → List A → List A
  upsert f new [] = new ∷ []
  upsert f new (x ∷ xs) = if p x then f x ∷ xs else x ∷ upsert f new xs

  abbrev pub write_at_index : (A → A) → A → List A → List A
  write_at_index f new xs = elim (index_of p xs) [ some i ↦ modify xs i f | none ↦ xs ++ new ∷ [] ]

  pub write_at_index-eq-upsert :
      (f : A → A) (new : A) (xs : List A) → write_at_index f new xs ≡ upsert f new xs
  write_at_index-eq-upsert f new [] = refl
  write_at_index-eq-upsert f new (x ∷ xs) = ground (arith, write_at_index-eq-upsert f new xs)

  -- The element at the first index that passes is the first element that passes.
  pub get_elem?-index_of :
      (xs : List A)
      → elim (index_of p xs) as (λ _. Option A) [ some i ↦ get_elem? xs i | none ↦ none ]
        ≡ find p xs
  get_elem?-index_of [] = refl
  get_elem?-index_of (x ∷ xs) = ground (arith, get_elem?-index_of xs)

-- What a reader finds after a write: for the predicate of the write itself, and for one that the
-- written elements do not pass.
module _ {ℓ} {A : Type ℓ} (p : A → Bool) (f : A → A) (new : A) where
  pub find-upsert_self :
      p new ≡ true
      → ((x : A) → p x ≡ true → p (f x) ≡ true)
      → (xs : List A)
      → find p (upsert p f new xs)
        ≡ elim (find p xs) as (λ _. Option A) [ some x ↦ some (f x) | none ↦ some new ]
  find-upsert_self h k [] = ground arith
  find-upsert_self h k (x ∷ xs) = ground (arith, k x, find-upsert_self h k xs)

  pub count_if-upsert_self :
      p new ≡ true
      → ((x : A) → p x ≡ true → p (f x) ≡ true)
      → (xs : List A) → count_if p xs ≤ 1
      → count_if p (upsert p f new xs) ≡ 1
  count_if-upsert_self h k [] c = ground arith
  count_if-upsert_self h k (x ∷ xs) c = ground (arith, k x, count_if-upsert_self h k xs)

  module _ (q : A → Bool) (qnew : q new ≡ false) (qf : (x : A) → p x ≡ true → q (f x) ≡ false)
      (apart : (x : A) → p x ≡ true → q x ≡ false) where
    pub find-upsert_other : (xs : List A) → find q (upsert p f new xs) ≡ find q xs
    find-upsert_other [] = ground arith
    find-upsert_other (x ∷ xs) = ground (arith, qf x, apart x, find-upsert_other xs)

    pub count_if-upsert_other : (xs : List A) → count_if q (upsert p f new xs) ≡ count_if q xs
    count_if-upsert_other [] = ground arith
    count_if-upsert_other (x ∷ xs) = ground (arith, qf x, apart x, count_if-upsert_other xs)

pub any-append_one {ℓ} :
    {A : Type ℓ} (p : A → Bool) (xs : List A) (y : A) → any p (xs ++ y ∷ []) ≡ (any p xs || p y)
any-append_one p [] y = ground arith
any-append_one p (x ∷ xs) y = ground (arith, any-append_one p xs y)

-- A stricter test passes fewer elements, and strictly fewer if it refuses one that passed.
module _ {ℓ} {A : Type ℓ} (p q : A → Bool) (weaker : (x : A) → q x ≡ true → p x ≡ true) where
  count_if_mono : (xs : List A) → count_if q xs ≤ count_if p xs
  count_if_mono [] = omega arith
  count_if_mono (x ∷ xs) = ground (arith, weaker x, count_if_mono xs)

  pub count_if_strict :
      (xs : List A) {a : A} → Memᴰ a xs → p a ≡ true → q a ≡ false → count_if q xs < count_if p xs
  count_if_strict [] m h k = elim m [ ]
  count_if_strict (x ∷ xs) m h k = elim (Memᴰ.cases_cons m) [
    | inl e ↦
        let hx : p x ≡ true = rw e at h in
        let kx : q x ≡ false = rw e at k in ground (arith, count_if_mono xs)
    | inr n ↦ ground (arith, weaker x, count_if_strict xs n h k)
  ]

pub count_if-le_length {ℓ} : {A : Type ℓ} (p : A → Bool) (xs : List A) → count_if p xs ≤ length xs
count_if-le_length p [] = omega arith
count_if-le_length p (x ∷ xs) = ground (arith, count_if-le_length p xs)

-- `start, start + 1, …`, `left` numbers.
abbrev pub range_from : ℕ → ℕ → List ℕ
range_from start zero = []
range_from start (suc left) = start ∷ range_from (suc start) left

abbrev pub filter_map {ℓ κ} : {A : Type ℓ} {B : Type κ} → (A → Option B) → List A → List B
filter_map f [] = []
filter_map f (x ∷ xs) = let rest = filter_map f xs in elim (f x) [ none ↦ rest | some y ↦ y ∷ rest ]

pub keep_congr {ℓ} :
    {A : Type ℓ} (p q : A → Bool) (xs : List A)
    → ((a : A) → Memᴰ a xs → p a ≡ q a)
    → keep p xs ≡ keep q xs
keep_congr p q [] h = refl
keep_congr p q (x ∷ xs) h =
    ground (arith, h x (Memᴰ.head refl), keep_congr p q xs (λ a m. h a (Memᴰ.tail m)))

module _ {ℓ κ} {A : Type ℓ} {B : Type κ} (f : A → Option B) (x : A) (xs : List A) where
  pub filter_map-cons_none : f x ≡ none → filter_map f (x ∷ xs) ≡ filter_map f xs
  filter_map-cons_none h = ground arith

  pub filter_map-cons_some : (y : B) → f x ≡ some y → filter_map f (x ∷ xs) ≡ y ∷ filter_map f xs
  filter_map-cons_some y h = ground arith

pub length-append {ℓ} : {A : Type ℓ} (xs ys : List A) → length (xs ++ ys) ≡ length xs + length ys
length-append [] ys = omega arith
length-append (x ∷ xs) ys = omega (arith, length-append xs ys)
