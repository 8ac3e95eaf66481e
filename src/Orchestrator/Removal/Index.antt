-- ===== src/Orchestrator/Removal/Index.antt =====
-- The index that `indexInSts` reads from the host name of a pod.
use mysql_operator.Base.{
  length-append, ℕ, ◌^◌, ◌<◌, ◌≡◌, refl, ap, sym, ◌∙◌, true, some, [], ◌∷◌, ◌++◌, append_assoc,
  arith, all, all-append, length, Text, codes, Absent, cut, has_suffix, cut-append, cut_last-append,
  has_suffix-append, ltb, text_eq, pos, to_int32-pos,
}
use mysql_operator.Base.Decimal.{decimal, atoi-decimal, decimal-Absent, decimal-digits}
use mysql_operator.Cluster.{MysqlCluster, pod_hostname, name_for_resource}
use mysql_operator.Orchestrator.Removal.{
  is_digit, is_word, is_nonempty_word, match_pod, match_service, match_host, index_in_sts,
}

-- A word holds no dot.
word-Absent : (s : Text) → all is_word s ≡ true → Absent b'.' s
word-Absent [] h = tt
word-Absent (c ∷ s) h = ground (arith, word-Absent s)

digit-word : (s : Text) → all is_digit s ≡ true → all is_word s ≡ true
digit-word [] h = refl
digit-word (c ∷ s) h = ground (arith, digit-word s)

-- A stateful set's name and the index of a pod, as the expression has them.
match_pod_lem :
    (name digits : Text)
    → is_nonempty_word name ≡ true
    → all is_digit digits ≡ true
    → Absent b'-' digits
    → match_pod ((name ++ codes "-mysql") ++ b'-' ∷ digits) ≡ some digits
match_pod_lem name digits h d a =
    let before = name ++ codes "-mysql" in
    let is_long : ltb 6 (length before) ≡ true =
      ground (arith, length-append name (codes "-mysql")) in
    let word : all is_word before ≡ true =
      ground (arith, all-append is_word name (codes "-mysql")) in
    let last = cut_last-append b'-' before digits a in
    let suffix = has_suffix-append name (codes "-mysql") in ground arith

match_host_parts :
    (name pod rest service namespace : Text)
    → cut b'.' name ≡ some (pod, rest)
    → cut b'.' rest ≡ some (service, namespace)
    → match_service service ≡ true
    → is_nonempty_word namespace ≡ true
    → match_host name ≡ match_pod pod
unfolding match_host
match_host_parts name pod rest service namespace e f h k = ground arith

module _ (c : MysqlCluster) (i : ℕ) where
  abbrev pod_part : Text
  pod_part = (c.name ++ codes "-mysql") ++ b'-' ∷ decimal i

  pod_hostname_parts : pod_hostname c i ≡ pod_part ++ b'.' ∷ (codes "mysql" ++ b'.' ∷ c.namespace)
  unfolding pod_hostname name_for_resource
  pod_hostname_parts = sym (append_assoc (c.name ++ codes "-mysql") (b'-' ∷ decimal i) _)

  match_host-pod_hostname :
      is_nonempty_word c.name ≡ true
      → is_nonempty_word c.namespace ≡ true
      → match_host (pod_hostname c i) ≡ some (decimal i)
  unfolding has_suffix text_eq
  match_host-pod_hostname named spaced =
      let pod_free : Absent b'.' pod_part = word-Absent pod_part (
        ground (
          arith,
          all-append is_word (c.name ++ codes "-mysql") (b'-' ∷ decimal i),
          all-append is_word c.name (codes "-mysql"),
          digit-word (decimal i) (decimal-digits i),
        )) in
      let first = cut-append b'.' pod_part (codes "mysql" ++ b'.' ∷ c.namespace) pod_free in
      let second = cut-append b'.' (codes "mysql") c.namespace (word-Absent (codes "mysql") refl) in
      let pod =
        match_pod_lem c.name (decimal i) named (decimal-digits i)
          (decimal-Absent b'-' i (omega arith)) in
      match_host_parts (pod_hostname c i) pod_part (codes "mysql" ++ b'.' ∷ c.namespace)
        (codes "mysql") c.namespace (ap (cut b'.') pod_hostname_parts ∙ first) second refl spaced
      ∙ pod

  -- For a cluster whose name and namespace are made of letters, digits, underscores and dashes, the
  -- index that is read from the host name of its pod `i` is `i`, as long as that fits in 31 bits.
  pub index_in_sts-pod_hostname :
      is_nonempty_word c.name ≡ true
      → is_nonempty_word c.namespace ≡ true
      → i < 2 ^ 31
      → index_in_sts (pod_hostname c i) ≡ some (pos i)
  unfolding index_in_sts
  index_in_sts-pod_hostname named spaced small =
      let digits = match_host-pod_hostname named spaced in
      let value = atoi-decimal i (omega arith) in let kept = to_int32-pos i small in ground arith
