-- ===== src/Tests/Storage.antt =====
-- The theorems on claims and on backups at concrete inputs.
use mysql_operator.Base.{
  ℕ, ◌<◌, ◌≤◌, ◌≡◌, ◌≢◌, ◌⊎◌, refl, Bool, true, false, Option, none, some, List, [], ◌∷◌, ◌++◌,
  arith, Text, codes, text_eq, length, ℤ, pos, if◌then◌else◌, Bool-cases, inl, inr, All, keep, map,
  ok,
}
use mathlib.Core.List.{Memᴰ, Perm}
use mathlib.Core.List.Perm
use mysql_operator.Cluster.{MysqlCluster, data_pvc_name, data_pvc_name_prefix}
use mysql_operator.Pvc.{Claim, get_ordinal, run, list_owned_cluster_pvcs}
use mysql_operator.Pvc.Resize.{Client, resize}
use mysql_operator.Pvc.Resize.Expansion.{grown, is_expandable, resize_lem}
use mysql_operator.Pvc.Cleanup.{run_lem, run-keeps_claims}
use mysql_operator.BackupCron.{Backup, World, backup_gc}
use mysql_operator.BackupCron.History.{
  TransitiveOrder, SortLaws, Ascending, OlderThan, delete_all, backup_gc_lem,
}
use mysql_operator.Tests.{current}

-- The claim of pod `i`, owned by the StatefulSet.
abbrev claim : ℕ → Claim
claim i = record {
  name = data_pvc_name current i;
  namespace = codes "prod";
  owner_references = record { kind = codes "StatefulSet"; name = codes "db-mysql" } ∷ [];
  deletion_timestamp = none;
  storage = some 800;
  storage_class_name = some (codes "fast");
}

run_lem_example : (run (some (claim 1 ∷ claim 2 ∷ [])) (λ name. false) current).0 ≡ claim 2 ∷ []
unfolding data_pvc_name mysql_operator.Pvc.is_cluster_managed_pvc text_eq
    mysql_operator.Cluster.name_for_resource mysql_operator.Base.has_prefix
    mysql_operator.Cluster.data_pvc_name_prefix get_ordinal mysql_operator.Base.after_last
    mysql_operator.Base.Decimal.decimal mysql_operator.Base.Decimal.atoi
    mysql_operator.Base.to_int32
run_lem_example = run_lem (claim 1 ∷ claim 2 ∷ []) (λ name. false) current refl

deleted : Memᴰ (claim 2) (run (some (claim 1 ∷ claim 2 ∷ [])) (λ name. false) current).0
unfolding run text_eq mysql_operator.Cluster.name_for_resource mysql_operator.Base.has_prefix
    mysql_operator.Cluster.data_pvc_name_prefix data_pvc_name mysql_operator.Base.after_last
    mysql_operator.Base.Decimal.decimal mysql_operator.Base.Decimal.atoi
    mysql_operator.Base.to_int32
deleted = Memᴰ.head refl

run-keeps_claims_example : (claim 2).name ≢ data_pvc_name current 1
run-keeps_claims_example =
    run-keeps_claims (claim 1 ∷ claim 2 ∷ []) (λ name. false) current 1 (claim 2) refl (omega arith)
      (omega arith) deleted

-- Insertion behind the backups that come first.
insert : (Backup → Backup → Bool) → Backup → List Backup → List Backup
insert comes_first b [] = b ∷ []
insert comes_first b (c ∷ backups) =
    let rest = insert comes_first b backups in if comes_first c b then c ∷ rest else b ∷ c ∷ backups

insertion_sort : (Backup → Backup → Bool) → List Backup → List Backup
insertion_sort comes_first [] = []
insertion_sort comes_first (b ∷ backups) = insert comes_first b (insertion_sort comes_first backups)

module _ (comes_first : Backup → Backup → Bool) where
  insert-Perm :
      (b : Backup) (backups : List Backup) → Perm (insert comes_first b backups) (b ∷ backups)
  unfolding insert
  insert-Perm b [] = Perm.refl (b ∷ [])
  insert-Perm b (c ∷ backups) = elim (Bool-cases (comes_first c b)) [
    | inl first ↦
        rw first (Perm.trans (Perm.cons c (insert-Perm b backups)) (Perm.swap b c backups))
    | inr last ↦ rw last (Perm.refl (b ∷ c ∷ backups))
  ]

  insertion_sort-Perm : (backups : List Backup) → Perm (insertion_sort comes_first backups) backups
  unfolding insertion_sort
  insertion_sort-Perm [] = Perm.refl []
  insertion_sort-Perm (b ∷ backups) =
      Perm.trans (insert-Perm b (insertion_sort comes_first backups))
        (Perm.cons b (insertion_sort-Perm backups))

  -- None of the backups comes before `a`.
  abbrev NoneBefore : Backup → List Backup → Type 0
  NoneBefore a backups = All (λ (c : Backup). comes_first c a ≡ false) backups

  insert-NoneBefore :
      (a b : Backup) (backups : List Backup)
      → comes_first b a ≡ false
      → NoneBefore a backups
      → NoneBefore a (insert comes_first b backups)
  unfolding insert
  insert-NoneBefore a b [] h k = (h, tt)
  insert-NoneBefore a b (c ∷ backups) h k = elim (Bool-cases (comes_first c b)) [
    | inl first ↦ rw first (k.0, insert-NoneBefore a b backups h k.1)
    | inr last ↦ rw last (h, k)
  ]

  module _ (order : TransitiveOrder comes_first) where
    NoneBefore-trans :
        (a b : Backup) (backups : List Backup)
        → comes_first b a ≡ false
        → NoneBefore b backups
        → NoneBefore a backups
    NoneBefore-trans a b [] h k = tt
    NoneBefore-trans a b (c ∷ backups) h k =
        (order.negatively_transitive c b a k.0 h, NoneBefore-trans a b backups h k.1)

    insert-Ascending :
        (b : Backup) (backups : List Backup)
        → Ascending comes_first backups
        → Ascending comes_first (insert comes_first b backups)
    unfolding insert
    insert-Ascending b [] h = (tt, tt)
    insert-Ascending b (c ∷ backups) h = elim (Bool-cases (comes_first c b)) [
      | inl first ↦ rw first (
        insert-NoneBefore c b backups (order.asymmetric c b first) h.0,
        insert-Ascending b backups h.1,
      )
      | inr last ↦ rw last ((last, NoneBefore-trans b c backups last h.0), h)
    ]

    insertion_sort-Ascending :
        (backups : List Backup) → Ascending comes_first (insertion_sort comes_first backups)
    unfolding insertion_sort
    insertion_sort-Ascending [] = tt
    insertion_sort-Ascending (b ∷ backups) =
        insert-Ascending b (insertion_sort comes_first backups) (insertion_sort-Ascending backups)

abbrev insertion_sort_laws : SortLaws insertion_sort
insertion_sort_laws = record {
  permutes = λ less_than backups order. insertion_sort-Perm less_than backups;
  sorts = λ less_than backups order. insertion_sort-Ascending less_than order backups;
}

abbrev backups : List Backup
backups =
    record { name = codes "old"; creation_timestamp = 1 }
    ∷ record { name = codes "new"; creation_timestamp = 2 }
    ∷ []

abbrev world : World
world = record { running = some []; listed = some backups; now = codes "noon" }

backup_gc_lem_example :
    (kept : List Backup) × (deleted : List Backup) × (backup_gc insertion_sort (pos 1) world
      ≡ delete_all deleted)
    × Perm (kept ++ deleted) backups
    × ((length kept ≤ 1) × ((length kept ≡ 1) ⊎ (deleted ≡ [])))
    × OlderThan kept deleted
backup_gc_lem_example = backup_gc_lem insertion_sort insertion_sort_laws (pos 1) world backups refl

-- Each class allows the expansion, and each patch succeeds.
abbrev expanding : Client
expanding = record {
  list_claims = ok (claim 0 ∷ claim 1 ∷ []);
  list_classes = ok [];
  get_class =
      λ name. ok (record { name = name; is_default = []; allow_volume_expansion = some true });
  patch = λ sent updated. none;
}

resize_lem_example :
    (rest : List Claim) × ((resize expanding current).0 ++ rest
      ≡ map (grown 1000) (
          keep
            (is_expandable expanding 1000 (data_pvc_name_prefix current))
            (list_owned_cluster_pvcs current (claim 0 ∷ claim 1 ∷ []))))
    × ((resize expanding current).1 ≡ none → rest ≡ [])
resize_lem_example = resize_lem expanding current 1000 (claim 0 ∷ claim 1 ∷ []) refl refl refl
