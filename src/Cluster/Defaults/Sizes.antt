-- ===== src/Cluster/Defaults/Sizes.antt =====
-- The sizes that are computed, and how MySQL reads them.
use mysql_operator.Base.{
  ℕ, ◌+◌, ◌*◌, ◌/◌, ◌%◌, ◌^◌, ◌≤◌, ◌<◌, ◌≡◌, all, ◌==◌, inl, inr, refl, ap, subst, ◌∙◌, arith, true,
  false, ◌&&◌, Option, none, some, [], ◌∷◌, ◌++◌, Text, Absent, Absent-append, cut, cut-append,
  cut-Absent, Option-cases, ℤ, pos, negsuc, leb,
}
use mysql_operator.Base.Decimal.{decimal, atoi, atoi-decimal, decimal-digits}
use mysql_operator.Cluster.Defaults.{
  kb, mb, gb, try_unit, humanize_size, compute_innodb_buffer_pool_size, binlog_sizes,
}

abbrev natural : ℕ → Option ℤ → Option ℕ
natural scale none = none
natural scale (some (pos n)) = some (n * scale)
natural scale (some (negsuc n)) = none

-- Behind the unit there is nothing.
abbrev sized : ℕ → Text × Text → Option ℕ
sized scale (digits, []) = natural scale (atoi digits)
sized scale (digits, c ∷ rest) = none

-- How MySQL reads a size: a number with a unit behind it, or none.
pub read_size : Text → Option ℕ
read_size s = elim (cut b'G' s) [
  | some parts ↦ sized gb parts
  | none ↦ elim (cut b'M' s) [
    | some parts ↦ sized mb parts
    | none ↦ elim (cut b'K' s) [ some parts ↦ sized kb parts | none ↦ natural 1 (atoi s) ]
  ]
]

-- A size that is read as at most `value`, and less by no more than a thousandth.
abbrev IsNear : ℕ → Text → Type 0
IsNear value text = (v : ℕ) × (read_size text ≡ some v) × (v ≤ value) × (value ≤ v + value / 1000)

digits-Absent :
    (c : ℕ) (s : Text)
    → (leb b'0' c && leb c b'9') ≡ false
    → all (λ d. leb b'0' d && leb d b'9') s ≡ true
    → Absent c s
digits-Absent c [] h d = tt
digits-Absent c (x ∷ s) h d = ground (arith, digits-Absent c s h)

no_unit : (c : ℕ) (n : ℕ) → (leb b'0' c && leb c b'9') ≡ false → Absent c (decimal n)
no_unit c n h = digits-Absent c (decimal n) h (decimal-digits n)

-- A unit behind a number stands there only once, and no other unit before it.
module _ (n : ℕ) (h : n < 2 ^ 63) where
  cut_own :
      (c : ℕ)
      → (leb b'0' c && leb c b'9') ≡ false
      → cut c (decimal n ++ c ∷ []) ≡ some (decimal n, [])
  cut_own c d = cut-append c (decimal n) [] (no_unit c n d)

  cut_other :
      (c u : ℕ)
      → (leb b'0' c && leb c b'9') ≡ false
      → (c == u) ≡ false
      → cut c (decimal n ++ u ∷ []) ≡ none
  cut_other c u d e =
      cut-Absent c (decimal n ++ u ∷ [])
        (Absent-append c (decimal n) (u ∷ []) (no_unit c n d) (e, tt))

  reads_gb : read_size (decimal n ++ b'G' ∷ []) ≡ some (n * gb)
  unfolding read_size
  reads_gb = rw (read_size, cut_own b'G' refl, atoi-decimal n h) refl

  reads_mb : read_size (decimal n ++ b'M' ∷ []) ≡ some (n * mb)
  unfolding read_size
  reads_mb = rw (read_size, cut_other b'G' b'M' refl refl, cut_own b'M' refl, atoi-decimal n h) refl

  reads_kb : read_size (decimal n ++ b'K' ∷ []) ≡ some (n * kb)
  unfolding read_size
  reads_kb =
      rw
        (
          read_size,
          cut_other b'G' b'K' refl refl,
          cut_other b'M' b'K' refl refl,
          cut_own b'K' refl,
          atoi-decimal n h,
        )
        refl

  reads_bytes : read_size (decimal n) ≡ some (n * 1)
  unfolding read_size
  reads_bytes =
      rw
        (
          read_size,
          cut-Absent b'G' (decimal n) (no_unit b'G' n refl),
          cut-Absent b'M' (decimal n) (no_unit b'M' n refl),
          cut-Absent b'K' (decimal n) (no_unit b'K' n refl),
          atoi-decimal n h,
        )
        refl

scaled_bounds :
    (value scale : ℕ)
    → 0 < scale
    → value % scale ≤ value / 1000
    → (value / scale * scale ≤ value) × (value ≤ value / scale * scale + value / 1000)
scaled_bounds value scale p h = grind arith

div_bound : (value scale bound : ℕ) → 0 < scale → value < bound → value / scale < bound
div_bound value scale bound p h = grind arith

try_unit-eq-some :
    (value scale unit : ℕ) (r : Text)
    → try_unit value scale unit ≡ some r
    → (decimal (value / scale) ++ unit ∷ [] ≡ r) × (value % scale ≤ value / 1000)
unfolding try_unit
try_unit-eq-some value scale unit r e = ground arith

module _ (value : ℕ) (h : value < 2 ^ 63) where
  try_unit-IsNear :
      (scale unit : ℕ) (r : Text)
      → ((n : ℕ) → n < 2 ^ 63 → read_size (decimal n ++ unit ∷ []) ≡ some (n * scale))
      → 0 < scale
      → try_unit value scale unit ≡ some r
      → IsNear value r
  try_unit-IsNear scale unit r reads p e =
      let n = value / scale in
      let (text, small) = try_unit-eq-some value scale unit r e in
      let (low, high) = scaled_bounds value scale p small in
      (
        n * scale,
        subst (λ t. read_size t ≡ some (n * scale)) text
            (reads n (div_bound value scale (2 ^ 63) p h)),
        low,
        high,
      )

  -- MySQL reads the text of a size as a number that is at most the size, and less by no more than a
  -- thousandth of it, for a size below 2 ^ 63.
  pub humanize_size_bounds :
      (v : ℕ) × (read_size (humanize_size value) ≡ some v)
      × (v ≤ value)
      × (value ≤ v + value / 1000)
  unfolding humanize_size
  humanize_size_bounds = elim (Option-cases (try_unit value gb b'G')) [
    | inr (r, e) ↦ rw (humanize_size, e) (try_unit-IsNear gb b'G' r reads_gb (omega arith) e)
    | inl no_gb ↦ elim (Option-cases (try_unit value mb b'M')) [
      | inr (r, e) ↦
          rw (humanize_size, no_gb, e) (try_unit-IsNear mb b'M' r reads_mb (omega arith) e)
      | inl no_mb ↦ elim (Option-cases (try_unit value kb b'K')) [
        | inr (r, e) ↦
            rw (humanize_size, no_gb, no_mb, e) (try_unit-IsNear kb b'K' r reads_kb (omega arith) e)
        | inl no_kb ↦
            rw (humanize_size, no_gb, no_mb, no_kb)
              (
                value,
                reads_bytes value h ∙ ap (λ (n : ℕ). some n) (omega arith),
                omega arith,
                omega arith,
              )
      ]
    ]
  ]

-- Half, three quarters or four fifths of what is left of the memory: at least the 128 MB that MySQL
-- takes without the option, and at most four fifths of the memory.
compute_innodb_buffer_pool_size_bounds :
    (memory size : ℕ)
    → compute_innodb_buffer_pool_size memory ≡ some size
    → (128 * mb ≤ size) × (size * 5 ≤ memory * 4)
unfolding compute_innodb_buffer_pool_size
compute_innodb_buffer_pool_size_bounds memory size h = ground arith

-- The space of the binary logs is at most half of the storage, and takes three of them or more, each of
-- at most 1 GB.
binlog_sizes_bounds :
    (space : ℕ)
    → ((binlog_sizes space).0 * 2 ≤ space)
      × ((binlog_sizes space).1 * 3 ≤ (binlog_sizes space).0)
      × ((binlog_sizes space).1 ≤ gb)
unfolding binlog_sizes
binlog_sizes_bounds space = ground arith
