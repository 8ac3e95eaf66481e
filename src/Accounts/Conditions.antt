-- ===== src/Accounts/Conditions.antt =====
-- The conditions of an account behind an update, and the comparisons of `reflect.DeepEqual`.
use mysql_operator.Base.{
  ℕ, ◌≡◌, inl, inr, refl, ap, true, some, List, [], ◌∷◌, arith, Text, text_eq, text_eq_refl,
  text_eq_iff, find, Bool-cases, if◌then◌else◌,
}
use mysql_operator.Cluster.{
  ConditionStatus, condition_true, condition_false, condition_unknown, status_eq,
}
use mysql_operator.Accounts.{
  Condition, renewed, new_condition, updated_conditions, conditions_same, texts_same,
}

-- The first condition of the type has the given status, reason and message.
pub record Reads (type : Text) (status : ConditionStatus) (reason message : Text)
    (conditions : List Condition) : Type 0 where
  pub condition : Condition
  pub found : find (λ c. text_eq c.type type) conditions ≡ some condition
  pub has_status : condition.status ≡ status
  pub has_reason : condition.reason ≡ reason
  pub has_message : condition.message ≡ message

status_eq_refl : (s : ConditionStatus) → status_eq s s ≡ true
status_eq_refl condition_true = refl
status_eq_refl condition_false = refl
status_eq_refl condition_unknown = refl

module _ (now : ℕ) (type : Text) (status : ConditionStatus) (reason message : Text) where
  pub updated_conditions-Reads :
      (conditions : List Condition)
      → Reads type status reason message
          (updated_conditions now type status reason message conditions)
  unfolding updated_conditions renewed
  updated_conditions-Reads [] = record {
    condition = new_condition now type status reason message;
    found = rw (text_eq_refl type) refl;
    has_status = refl;
    has_reason = refl;
    has_message = refl;
  }
  updated_conditions-Reads (c ∷ conditions) = elim (Bool-cases (text_eq c.type type)) [
    | inl same ↦ record {
      condition = renewed now type status reason message c;
      found = simp (same, if◌then◌else◌) refl;
      has_status = refl;
      has_reason = refl;
      has_message = refl;
    }
    | inr other ↦
        let rest = updated_conditions-Reads conditions in
        record {
          condition = rest.condition;
          found = simp (other, if◌then◌else◌) rest.found;
          has_status = rest.has_status;
          has_reason = rest.has_reason;
          has_message = rest.has_message;
        }
  ]

  renewed_type : (c : Condition) → (renewed now type status reason message c).type ≡ c.type
  unfolding renewed
  renewed_type c = refl

  renewed_twice :
      (later : ℕ) (c : Condition)
      → renewed later type status reason message (renewed now type status reason message c)
        ≡ renewed now type status reason message c
  unfolding renewed
  renewed_twice later c = rw (text_eq_refl message, text_eq_refl reason, status_eq_refl status) refl

  renewed_new :
      (later : ℕ)
      → renewed later type status reason message (new_condition now type status reason message)
        ≡ new_condition now type status reason message
  unfolding renewed
  renewed_new later = rw (text_eq_refl message, text_eq_refl reason, status_eq_refl status) refl

  -- A second update with the same values changes nothing, whatever the time is.
  pub updated_conditions_twice :
      (later : ℕ) (conditions : List Condition)
      → updated_conditions later type status reason message
          (updated_conditions now type status reason message conditions)
        ≡ updated_conditions now type status reason message conditions
  unfolding updated_conditions
  updated_conditions_twice later [] = rw (text_eq_refl type) (ap (λ c. c ∷ []) (renewed_new later))
  updated_conditions_twice later (c ∷ conditions) = elim (Bool-cases (text_eq c.type type)) [
    | inl same ↦
        simp (same, if◌then◌else◌, renewed_type) (ap (λ d. d ∷ conditions) (renewed_twice later c))
    | inr other ↦
        simp (other, if◌then◌else◌) (ap (λ l. c ∷ l) (updated_conditions_twice later conditions))
  ]

pub texts_same_refl : (ss : List Text) → texts_same ss ss ≡ true
unfolding texts_same
texts_same_refl [] = refl
texts_same_refl (s ∷ ss) = rw (text_eq_refl s, texts_same_refl ss) refl

pub texts_same→≡ : (ss ts : List Text) → texts_same ss ts ≡ true → ss ≡ ts
unfolding texts_same
texts_same→≡ [] [] h = refl
texts_same→≡ [] (t ∷ ts) h = cc
texts_same→≡ (s ∷ ss) [] h = cc
texts_same→≡ (s ∷ ss) (t ∷ ts) h = ground (arith, text_eq_iff s t, texts_same→≡ ss ts)

pub conditions_same_refl : (cs : List Condition) → conditions_same cs cs ≡ true
unfolding conditions_same
conditions_same_refl [] = refl
conditions_same_refl (c ∷ cs) = ground (
  arith,
  text_eq_refl c.type,
  text_eq_refl c.reason,
  text_eq_refl c.message,
  status_eq_refl c.status,
  conditions_same_refl cs,
)
