-- ===== src/BackupCron/History.antt =====
-- Which backups the collector keeps.
use mysql_operator.Base.{
  ℕ, zero, suc, ◌+◌, ◌≡◌, ◌≤◌, refl, sym, ap, ◌∙◌, ◌⊎◌, inl, inr, some, List, [], ◌∷◌, ◌++◌, arith,
  map, length, All, subst, ℤ, pos, negsuc, leb_ℤ, leb, pos_part, false, true, Bool,
}
use mathlib.Core.List.{Perm}
use mysql_operator.BackupCron.{Backup, Request, delete, less, World, delete_from, backup_gc}

-- What the documentation of `sort.Interface` asks of `Less`: a transitive ordering.
pub record TransitiveOrder (less_than : Backup → Backup → Bool) : Type 0 where
  pub asymmetric : (a b : Backup) → less_than a b ≡ true → less_than b a ≡ false
  pub transitive :
      (a b c : Backup) → less_than a b ≡ true → less_than b c ≡ true → less_than a c ≡ true
  pub negatively_transitive :
      (a b c : Backup) → less_than a b ≡ false → less_than b c ≡ false → less_than a c ≡ false

-- No element is less than one before it.
abbrev pub Ascending : (Backup → Backup → Bool) → List Backup → Type 0
Ascending less_than [] = Unit
Ascending less_than (b ∷ backups) =
    All (λ (c : Backup). less_than c b ≡ false) backups × Ascending less_than backups

-- What the documentation of `sort.Sort` promises for each such ordering.
pub record SortLaws (sort : (Backup → Backup → Bool) → List Backup → List Backup) : Type 0 where
  pub permutes :
      (less_than : Backup → Backup → Bool) (backups : List Backup)
      → TransitiveOrder less_than
      → Perm (sort less_than backups) backups
  pub sorts :
      (less_than : Backup → Backup → Bool) (backups : List Backup)
      → TransitiveOrder less_than
      → Ascending less_than (sort less_than backups)

less-TransitiveOrder : TransitiveOrder less
less-TransitiveOrder = record {
  asymmetric = λ a b h. ground arith;
  transitive = λ a b c h k. ground arith;
  negatively_transitive = λ a b c h k. ground arith;
}

-- Each backup is at least as new as those behind it.
abbrev NewestFirst : List Backup → Type 0
NewestFirst [] = Unit
NewestFirst (b ∷ backups) =
    All (λ (c : Backup). c.creation_timestamp ≤ b.creation_timestamp) backups × NewestFirst backups

abbrev pub take : ℕ → List Backup → List Backup
take zero backups = []
take (suc n) [] = []
take (suc n) (b ∷ backups) = b ∷ take n backups

abbrev pub drop : ℕ → List Backup → List Backup
drop zero backups = backups
drop (suc n) [] = []
drop (suc n) (b ∷ backups) = drop n backups

abbrev pub delete_all : List Backup → List Request
delete_all backups = map (λ (b : Backup). delete b.name) backups

deleted_index : (limit : ℤ) (i : ℕ) → leb_ℤ limit (pos i) ≡ leb (pos_part limit) i
deleted_index (pos n) i = ground arith
deleted_index (negsuc n) i = ground arith

delete_from-past :
    (limit : ℤ) (i : ℕ) (backups : List Backup)
    → pos_part limit ≤ i
    → delete_from limit i backups ≡ delete_all backups
unfolding delete_from
delete_from-past limit i [] h = refl
delete_from-past limit i (b ∷ backups) h =
    rw (deleted_index limit i, delete_from-past limit (suc i) backups (omega (arith, h)))
      (ground (arith, h))

delete_from-drop :
    (n : ℕ) (limit : ℤ) (i : ℕ) (backups : List Backup)
    → n + i ≡ pos_part limit
    → delete_from limit i backups ≡ delete_all (drop n backups)
unfolding delete_from
delete_from-drop zero limit i backups h = delete_from-past limit i backups (omega arith)
delete_from-drop (suc n) limit i [] h = refl
delete_from-drop (suc n) limit i (b ∷ backups) h =
    rw (deleted_index limit i, delete_from-drop n limit (suc i) backups (omega (arith, h)))
      (ground (arith, h))

take-drop : (n : ℕ) (backups : List Backup) → take n backups ++ drop n backups ≡ backups
take-drop zero backups = refl
take-drop (suc n) [] = refl
take-drop (suc n) (b ∷ backups) = ap (λ t. b ∷ t) (take-drop n backups)

take-length :
    (n : ℕ) (backups : List Backup)
    → (length (take n backups) ≤ n) × ((length (take n backups) ≡ n) ⊎ (drop n backups ≡ []))
take-length zero backups = (omega arith, inl refl)
take-length (suc n) [] = (omega arith, inr refl)
take-length (suc n) (b ∷ backups) =
    let (bound, full) = take-length n backups in
    (ground arith, elim full [ inl e ↦ inl (ap suc e) | inr e ↦ inr e ])

All-drop :
    (P : Backup → Type 0) (n : ℕ) (backups : List Backup) → All P backups → All P (drop n backups)
All-drop P zero backups h = h
All-drop P (suc n) [] h = tt
All-drop P (suc n) (b ∷ backups) h = All-drop P n backups h.1

-- Each of the backups behind the first `n` is at least as old as each of these.
abbrev pub OlderThan : List Backup → List Backup → Type 0
OlderThan kept deleted =
    All (λ (k : Backup). All (λ (d : Backup). d.creation_timestamp ≤ k.creation_timestamp) deleted)
      kept

drop-OlderThan :
    (n : ℕ) (backups : List Backup)
    → NewestFirst backups
    → OlderThan (take n backups) (drop n backups)
drop-OlderThan zero backups h = tt
drop-OlderThan (suc n) [] h = tt
drop-OlderThan (suc n) (b ∷ backups) h = (All-drop _ n backups h.0, drop-OlderThan n backups h.1)

Ascending-NewestFirst : (backups : List Backup) → Ascending less backups → NewestFirst backups
Ascending-NewestFirst [] h = tt
Ascending-NewestFirst (b ∷ backups) h = (at_most backups h.0, Ascending-NewestFirst backups h.1)
  where
    at_most :
        (older : List Backup)
        → All (λ (c : Backup). less c b ≡ false) older
        → All (λ (c : Backup). c.creation_timestamp ≤ b.creation_timestamp) older
    at_most [] k = tt
    at_most (c ∷ older) k = let first : less c b ≡ false = k.0 in (ground arith, at_most older k.1)

module _ (sort : (Backup → Backup → Bool) → List Backup → List Backup) (laws : SortLaws sort) where
  -- Where `sort` permutes a list and puts it in the order of each transitive ordering that it is
  -- given, as `sort.Sort` does, the collector divides the backups of the cluster into those it keeps
  -- and those it asks to delete: it keeps no more than the limit, none if the limit is negative,
  -- deletes nothing if there are fewer, and each kept one is at least as new as each deleted.
  pub backup_gc_lem :
      (limit : ℤ) (world : World) (backups : List Backup)
      → world.listed ≡ some backups
      → (kept : List Backup) × (deleted : List Backup) × (backup_gc sort limit world
          ≡ delete_all deleted)
        × Perm (kept ++ deleted) backups
        × ((length kept ≤ pos_part limit) × ((length kept ≡ pos_part limit) ⊎ (deleted ≡ [])))
        × OlderThan kept deleted
  unfolding backup_gc
  backup_gc_lem limit world backups answered =
      let s = sort less backups in
      let n = pos_part limit in
      (
        take n s,
        drop n s,
        gc_case ∙ delete_from-drop n limit 0 s (omega arith),
        subst (λ l. Perm l backups) (sym (take-drop n s))
            (laws.permutes less backups less-TransitiveOrder),
        take-length n s,
        drop-OlderThan n s (Ascending-NewestFirst s (laws.sorts less backups less-TransitiveOrder)),
      )
    where
      gc_case : backup_gc sort limit world ≡ delete_from limit 0 (sort less backups)
      gc_case = rw (backup_gc, answered) refl
