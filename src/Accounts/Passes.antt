-- ===== src/Accounts/Passes.antt =====
-- How the pieces of a pass follow on each other.
use mysql_operator.Base.{
  Option-cases, ◌≡◌, ◌⊎◌, inl, inr, refl, ap, sym, subst, ◌∙◌, append-nil, append_assoc, arith,
  Text, All, All-append, Option, none, some, List, [], ◌∷◌, ◌++◌,
}
use mysql_operator.Sql.{Query}
use mysql_operator.Accounts.{
  ApiError, Request, exec, update, update_status, Ending, done, failed, panicked, Pass, Answer,
  Action, continue, ◌>>◌, stop, send, plain_error, exec_query,
}

-- Requests that are sent one after the other, each of them with success.
abbrev pub Succeeded : {O : Type 0} → Answer O → List (Request O) → List (Request O) → Type 0
Succeeded answer log [] = Unit {0}
Succeeded answer log (r ∷ rs) = (answer log r ≡ none) × Succeeded answer (log ++ r ∷ []) rs

module _ {O : Type 0} (m k : Action O) (object : O) (log : List (Request O)) where
  pub >>-done :
      (object' : O) (log' : List (Request O))
      → m object log ≡ stop done object' log'
      → (m >> k) object log ≡ k object' log'
  >>-done object' log' e = ap (continue k) e

  pub >>-failed :
      (e : ApiError) → (m object log).ending ≡ failed e → (m >> k) object log ≡ m object log
  >>-failed e h = ground arith

  pub >>-panicked : (m object log).ending ≡ panicked → (m >> k) object log ≡ m object log
  >>-panicked h = ground arith

send-done :
    {O : Type 0} (answer : Answer O) (request : Request O) (object : O) (log : List (Request O))
    → answer log request ≡ none
    → send answer request object log ≡ stop done object (log ++ request ∷ [])
send-done answer request object log h = rw h refl

-- Only statements were sent.
abbrev pub IsExec : {O : Type 0} → Request O → Type 0
IsExec (exec q) = Unit {0}
IsExec (update u) = ⊥
IsExec (update_status u) = ⊥

pub Ending-cases : (e : Ending) → (e ≡ done) ⊎ (((x : ApiError) × (e ≡ failed x)) ⊎ (e ≡ panicked))
Ending-cases done = inl refl
Ending-cases (failed x) = inr (inl (x, refl))
Ending-cases panicked = inr (inr refl)

-- A chain succeeds only if both of its actions do.
>>-eq-done :
    {O : Type 0} (m k : Action O) (object : O) (log : List (Request O))
    → ((m >> k) object log).ending ≡ done
    → ((m object log).ending ≡ done)
      × ((m >> k) object log ≡ k (m object log).object (m object log).log)
>>-eq-done m k object log e = elim (Ending-cases (m object log).ending) [
  | inl h ↦ (h, ground arith)
  | inr (inl (x, h)) ↦
      let bad : failed x ≡ done = sym (ap (λ p. p.ending) (>>-failed m k object log x h) ∙ h) ∙ e in
      cc
  | inr (inr h) ↦
      let bad : panicked ≡ done = sym (ap (λ p. p.ending) (>>-panicked m k object log h) ∙ h) ∙ e in
      cc
]

-- What every action of a chain leaves alone.
>>-keeps :
    {O A : Type 0} (view : O → A) (m k : Action O) (object : O) (log : List (Request O))
    → view (m object log).object ≡ view object
    → ((o : O) (l : List (Request O)) → view (k o l).object ≡ view o)
    → view ((m >> k) object log).object ≡ view object
>>-keeps view m k object log first rest = elim (Ending-cases (m object log).ending) [
  | inl h ↦
      let run : (m >> k) object log ≡ k (m object log).object (m object log).log = ground arith in
      ap (λ p. view p.object) run ∙ rest (m object log).object (m object log).log ∙ first
  | inr (inl (x, h)) ↦ ap (λ p. view p.object) (>>-failed m k object log x h) ∙ first
  | inr (inr h) ↦ ap (λ p. view p.object) (>>-panicked m k object log h) ∙ first
]

pub Succeeded-append :
    {O : Type 0} (answer : Answer O) (log xs ys : List (Request O))
    → Succeeded answer log xs
    → Succeeded answer (log ++ xs) ys
    → Succeeded answer log (xs ++ ys)
Succeeded-append answer log [] ys a b = subst (λ l. Succeeded answer l ys) (append-nil log) b
Succeeded-append answer log (x ∷ xs) ys a b = (
  a.0,
  Succeeded-append answer (log ++ x ∷ []) xs ys a.1
      (subst (λ l. Succeeded answer l ys) (sym (append_assoc log (x ∷ []) xs)) b),
)

-- The object as it was, behind an error or a panic.
abbrev pub Untouched : {O : Type 0} → O → Pass O → Type 0
Untouched object pass =
    (pass.object ≡ object)
    × (((x : ApiError) × (pass.ending ≡ failed x)) ⊎ (pass.ending ≡ panicked))

pub exec_query_cases :
    {O : Type 0} (answer : Answer O) (text : Text) (statement : Option Query) (object : O)
    (log : List (Request O))
    → ((query : Query) × (statement ≡ some query)
        × (answer log (exec query) ≡ none)
        × (exec_query answer text statement object log ≡ stop done object (log ++ exec query ∷ [])))
      ⊎ Untouched object (exec_query answer text statement object log)
unfolding exec_query
exec_query_cases answer text none object log = inr (refl, inr refl)
exec_query_cases answer text (some query) object log =
    elim (Option-cases (answer log (exec query))) [
      | inl granted ↦ inl (query, refl, granted, rw granted refl)
      | inr (e, refused) ↦ inr (refl, inl (plain_error (text ++ e.message), rw refused refl))
    ]

pub exec_query-done :
    {O : Type 0} (answer : Answer O) (text : Text) (query : Query) (object : O)
    (log : List (Request O))
    → answer log (exec query) ≡ none
    → exec_query answer text (some query) object log ≡ stop done object (log ++ exec query ∷ [])
unfolding exec_query
exec_query-done answer text query object log h = rw h refl

pub exec_query-IsExec :
    {O : Type 0} (answer : Answer O) (text : Text) (statement : Option Query) (object : O)
    (log : List (Request O))
    → All IsExec log
    → All IsExec (exec_query answer text statement object log).log
unfolding exec_query
exec_query-IsExec answer text none object log h = h
exec_query-IsExec answer text (some query) object log h =
    All-append IsExec log (exec query ∷ []) h (tt, tt)
