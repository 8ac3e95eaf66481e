-- ===== src/Backups/Defaults.antt =====
-- The defaults of a backup: its place is settled by the first time that they are set.
use mysql_operator.Base.{
  ◌≡◌, ◌⊎◌, inl, inr, refl, sym, ap, ◌∙◌, true, [], ◌∷◌, ◌++◌, append_assoc, Text, text_eq,
  text_eq→≡, has_suffix, has_suffix-append, Bool-cases,
}
use mysql_operator.Cluster.{MysqlCluster}
use mysql_operator.Backups.{
  MysqlBackup, backup_suffix, without_slash, compose_backup_url, get_backup_url,
}

compose_backup_url-suffix :
    (b : MysqlBackup) (base : Text) → has_suffix (compose_backup_url b base) backup_suffix ≡ true
unfolding compose_backup_url
compose_backup_url-suffix b base =
    let front = without_slash base ++ (b'/' ∷ (b.name ++ b'.' ∷ [])) in
    let shape : front ++ backup_suffix
        ≡ without_slash base ++ (b'/' ∷ (b.name ++ b'.' ∷ backup_suffix)) =
      append_assoc (without_slash base) (b'/' ∷ (b.name ++ b'.' ∷ [])) backup_suffix
      ∙ ap (λ (s : Text). without_slash base ++ (b'/' ∷ s))
          (append_assoc b.name (b'.' ∷ []) backup_suffix) in
    sym (ap (λ s. has_suffix s backup_suffix) shape) ∙ has_suffix-append front backup_suffix

-- Where a backup goes is a file of backups, or nowhere: then neither it nor the cluster says where.
get_backup_url_cases :
    (b : MysqlBackup) (c : MysqlCluster)
    → (has_suffix (get_backup_url b c) backup_suffix ≡ true)
      ⊎ ((get_backup_url b c ≡ []) × (b.backup_url ≡ []) × (c.spec.backup_url ≡ []))
unfolding get_backup_url
get_backup_url_cases b c = elim (Bool-cases (has_suffix b.backup_url backup_suffix)) [
  | inl whole ↦ inl (rw (get_backup_url, whole) whole)
  | inr part ↦ elim (Bool-cases (text_eq b.backup_url [])) [
    | inr own ↦ inl (rw (get_backup_url, part, own) (compose_backup_url-suffix b b.backup_url))
    | inl unset ↦ elim (Bool-cases (text_eq c.spec.backup_url [])) [
      | inr given ↦
          inl (
            rw (get_backup_url, part, unset, given) (compose_backup_url-suffix b c.spec.backup_url))
      | inl neither ↦ inr (
        rw (get_backup_url, part, unset, neither) refl,
        text_eq→≡ b.backup_url [] unset,
        text_eq→≡ c.spec.backup_url [] neither,
      )
    ]
  ]
]
