-- ===== src/Pvc/Resize/Expansion.antt =====
-- Which claims are expanded.
use mysql_operator.Base.{
  ℕ, ◌≡◌, ◌⊎◌, inl, inr, refl, sym, ◌∙◌, subst, arith, Bool, true, false, ◌&&◌, Option, none, some,
  List, [], ◌∷◌, ◌++◌, Text, has_prefix, leb, keep, map, ltb, append_assoc, Bool-cases,
  Option-cases, Result, ok, err, if◌then◌else◌,
}
use mysql_operator.Cluster.{MysqlCluster, data_pvc_name_prefix, desired_data_volume_storage}
use mysql_operator.Pvc.{Claim, list_owned_cluster_pvcs}
use mysql_operator.Pvc.Resize.{
  Client, Decision, leave, give_up, expand, by_support, decide, after_patch, then_rest, resize_from,
  resize_supported, resize,
}

abbrev pub grown : ℕ → Claim → Claim
grown desired claim = record claim { storage = some desired }

abbrev pub is_yes : Result Text Bool → Bool
is_yes (err e) = false
is_yes (ok b) = b

-- The claim has the prefix and requests less than is wanted, and its class allows it to be expanded.
abbrev pub is_expandable : Client → ℕ → Text → Claim → Bool
is_expandable client desired prefix claim =
    has_prefix claim.name prefix
    && (elim claim.storage as (λ _. Bool) [ none ↦ false | some current ↦ ltb current desired ]
        && is_yes (resize_supported client claim))

by_support-expand :
    (updated u : Claim) (s : Result Text Bool)
    → by_support updated s ≡ expand u
    → (s ≡ ok true) × (updated ≡ u)
by_support-expand updated u (err e) h = cc
by_support-expand updated u (ok true) h = (refl, cc)
by_support-expand updated u (ok false) h = cc

by_support-leave :
    (updated : Claim) (s : Result Text Bool) → by_support updated s ≡ leave → is_yes s ≡ false
by_support-leave updated (err e) h = cc
by_support-leave updated (ok true) h = cc
by_support-leave updated (ok false) h = refl

&&-false : (b : Bool) → b && false ≡ false
&&-false true = refl
&&-false false = refl

module _ (client : Client) (desired : ℕ) where
  decide-some :
      (claim : Claim) (current : ℕ)
      → claim.storage ≡ some current
      → decide client desired claim ≡ (
          if leb desired current
          then leave
          else by_support (grown desired claim) (resize_supported client claim))
  unfolding decide
  decide-some claim current h = rw (decide, h) refl

  decide-none : (claim : Claim) → claim.storage ≡ none → decide client desired claim ≡ leave
  unfolding decide
  decide-none claim h = rw (decide, h) refl

  decide-expand :
      (prefix : Text) (claim u : Claim)
      → has_prefix claim.name prefix ≡ true
      → decide client desired claim ≡ expand u
      → (is_expandable client desired prefix claim ≡ true) × (grown desired claim ≡ u)
  decide-expand prefix claim u own h = elim (Option-cases claim.storage) [
    | inl e ↦ let none_left = decide-none claim e in cc
    | inr (current, e) ↦ elim (Bool-cases (leb desired current)) [
      | inl large ↦
          let d = decide-some claim current e in
          let bad : leave ≡ expand u = sym (d ∙ rw large refl) ∙ h in cc
      | inr small ↦
          let d : by_support (grown desired claim) (resize_supported client claim) ≡ expand u =
            sym (decide-some claim current e ∙ rw small refl) ∙ h in
          let (supported, same) =
            by_support-expand (grown desired claim) u (resize_supported client claim) d in
          let less : ltb current desired ≡ true = ground arith in
          (rw (own, supported, e, less) refl, same)
    ]
  ]

  decide-leave :
      (prefix : Text) (claim : Claim)
      → decide client desired claim ≡ leave
      → is_expandable client desired prefix claim ≡ false
  decide-leave prefix claim h = elim (Option-cases claim.storage) [
    | inl e ↦ rw e (&&-false (has_prefix claim.name prefix))
    | inr (current, e) ↦ elim (Bool-cases (leb desired current)) [
      | inl large ↦
          let less : ltb current desired ≡ false = ground arith in
          rw (e, less) (&&-false (has_prefix claim.name prefix))
      | inr small ↦
          let d : by_support (grown desired claim) (resize_supported client claim) ≡ leave =
            sym (decide-some claim current e ∙ rw small refl) ∙ h in
          let no = by_support-leave (grown desired claim) (resize_supported client claim) d in
          let less : ltb current desired ≡ true = ground arith in
          rw (no, e, less) (&&-false (has_prefix claim.name prefix))
    ]
  ]

Decision-cases :
    (d : Decision) → (d ≡ leave) ⊎ (((e : Text) × (d ≡ give_up e)) ⊎ ((u : Claim) × (d ≡ expand u)))
Decision-cases leave = inl refl
Decision-cases (give_up e) = inr (inl (e, refl))
Decision-cases (expand u) = inr (inr (u, refl))

-- The ways in which one round of the loop goes.
module _ (client : Client) (desired : ℕ) (prefix : Text) (sent : List Claim) (claim : Claim)
    (claims : List Claim) where
  round_other :
      has_prefix claim.name prefix ≡ false
      → resize_from client desired prefix sent (claim ∷ claims)
        ≡ resize_from client desired prefix sent claims
  unfolding resize_from
  round_other h = rw (resize_from, h) refl

  round_leave :
      has_prefix claim.name prefix ≡ true
      → decide client desired claim ≡ leave
      → resize_from client desired prefix sent (claim ∷ claims)
        ≡ resize_from client desired prefix sent claims
  unfolding resize_from
  round_leave h d = rw (resize_from, h, d) refl

  round_give_up :
      (e : Text)
      → has_prefix claim.name prefix ≡ true
      → decide client desired claim ≡ give_up e
      → resize_from client desired prefix sent (claim ∷ claims) ≡ (sent, some e)
  unfolding resize_from
  round_give_up e h d = rw (resize_from, h, d) refl

  round_expand :
      (u : Claim)
      → has_prefix claim.name prefix ≡ true
      → decide client desired claim ≡ expand u
      → resize_from client desired prefix sent (claim ∷ claims)
        ≡ then_rest
            (after_patch (client.patch sent u))
            (sent ++ u ∷ [])
            (resize_from client desired prefix (sent ++ u ∷ []) claims)
  unfolding resize_from
  round_expand u h d = rw (resize_from, h, d) refl

-- The claims that were patched, and those of the rest that would be: none if there is no error.
record Progress (expected : List Claim) (result : List Claim × Option Text) : Type 0 where
  pub rest : List Claim
  pub split : result.0 ++ rest ≡ expected
  pub finished : result.1 ≡ none → rest ≡ []

Progress-then_rest :
    (expected before : List Claim) (o : Option Text) (remaining : List Claim)
    (r : List Claim × Option Text)
    → before ++ remaining ≡ expected
    → Progress expected r
    → Progress expected (then_rest o before r)
Progress-then_rest expected before none remaining r h p = p
Progress-then_rest expected before (some e) remaining r h p = record {
  rest = remaining;
  split = h;
  finished = λ none_left. cc;
}

module _ (client : Client) (desired : ℕ) (prefix : Text) where
  abbrev wanted : List Claim → List Claim
  wanted claims = map (grown desired) (keep (is_expandable client desired prefix) claims)

  resize_from-Progress :
      (claims sent : List Claim)
      → Progress (sent ++ wanted claims) (resize_from client desired prefix sent claims)
  unfolding resize_from
  resize_from-Progress [] sent = record { rest = []; split = refl; finished = λ e. refl }
  resize_from-Progress (claim ∷ claims) sent =
      let rest = resize_from-Progress claims sent in
      elim (Bool-cases (has_prefix claim.name prefix)) [
        | inr other ↦ rw (round_other client desired prefix sent claim claims other, other) rest
        | inl own ↦ elim (Decision-cases (decide client desired claim)) [
          | inl d ↦
              rw
                (
                  round_leave client desired prefix sent claim claims own d,
                  decide-leave client desired prefix claim d,
                )
                rest
          | inr (inl (e, d)) ↦
              rw (round_give_up client desired prefix sent claim claims e own d) (record {
                rest = wanted (claim ∷ claims);
                split = refl;
                finished = λ none_left. cc;
              })
          | inr (inr (u, d)) ↦
              let (wanted_one, same) = decide-expand client desired prefix claim u own d in
              let next = resize_from-Progress claims (sent ++ u ∷ []) in
              let shape : (sent ++ u ∷ []) ++ wanted claims ≡ sent ++ wanted (claim ∷ claims) =
                append_assoc sent (u ∷ []) (wanted claims) ∙ rw (wanted_one, same) refl in
              rw (round_expand client desired prefix sent claim claims u own d) (
                Progress-then_rest (sent ++ wanted (claim ∷ claims)) (sent ++ u ∷ [])
                  (after_patch (client.patch sent u)) (wanted claims)
                  (resize_from client desired prefix (sent ++ u ∷ []) claims) shape
                  (subst
                    (λ x. Progress x (resize_from client desired prefix (sent ++ u ∷ []) claims))
                    shape next))
        ]
      ]

-- In a cluster that is not being deleted and wants `desired` bytes for its data, and whose claims can be
-- listed, the claims to expand are the live claims that the cluster manages which have a name of its
-- data claims, request less, and are of a class that allows expansion; each gets the request `desired`.
-- The patches are sent, in order, for a first part of these claims, and for all of them if the resizer
-- returns no error.
pub resize_lem :
    (client : Client) (c : MysqlCluster) (desired : ℕ) (claims : List Claim)
    → c.deletion_timestamp ≡ none
    → desired_data_volume_storage c ≡ some desired
    → client.list_claims ≡ ok claims
    → (rest : List Claim) × ((resize client c).0 ++ rest
        ≡ map (grown desired) (
            keep
              (is_expandable client desired (data_pvc_name_prefix c))
              (list_owned_cluster_pvcs c claims)))
      × ((resize client c).1 ≡ none → rest ≡ [])
unfolding resize
resize_lem client c desired claims alive wants listed =
    let p =
      resize_from-Progress client desired (data_pvc_name_prefix c)
        (list_owned_cluster_pvcs c claims) [] in
    rw (resize, alive, wants, listed) (p.rest, p.split, p.finished)
