-- ===== src/Accounts/Users/Drops.antt =====
-- The loop that drops a user for a list of hosts.
use mysql_operator.Base.{
  Option-cases, ◌≡◌, ◌⊎◌, inl, inr, refl, sym, ap, ◌∙◌, none, List, [], ◌∷◌, ◌++◌, append-nil,
  append_assoc, Text, codes, map, All, All-append,
}
use mysql_operator.Sql.{text_arg}
use mysql_operator.Accounts.{◌>>◌, ApiError, Request, exec, done, failed, Pass, stop}
use mysql_operator.Accounts.Passes.{Succeeded, >>-done, >>-failed, IsExec}
use mysql_operator.Accounts.Users.{MysqlUser, Env, drop_user, drop_hosts}

abbrev pub drop_request : Text → Text → Request MysqlUser
drop_request user host = exec (record {
  escaped_query = codes "DROP USER IF EXISTS ?@?;";
  args = text_arg user ∷ text_arg host ∷ [];
})

-- All hosts are dropped, or the loop ends with the error of a statement.
abbrev pub DropsAll :
    Env → List (Request MysqlUser) → MysqlUser → List (Request MysqlUser) → Pass MysqlUser → Type 0
DropsAll env requests user log pass =
    (Succeeded env.answer log requests × (pass ≡ stop done user (log ++ requests)))
    ⊎ ((All IsExec log → All IsExec pass.log)
        × (pass.object ≡ user)
        × ((e : ApiError) × (pass.ending ≡ failed e)))

drop_user_cases :
    (env : Env) (name host : Text) (user : MysqlUser) (log : List (Request MysqlUser))
    → DropsAll env (drop_request name host ∷ []) user log (drop_user env name host user log)
unfolding drop_user
drop_user_cases env name host user log =
    elim (Option-cases (env.answer log (drop_request name host))) [
      | inl granted ↦ inl ((granted, tt), rw granted refl)
      | inr (e, refused) ↦
          rw refused (inr (λ h. All-append IsExec log _ h (tt, tt), refl, (_, refl)))
    ]

-- A request that succeeds before such a loop.
first_DropsAll :
    (env : Env) (request : Request MysqlUser) (requests : List (Request MysqlUser))
    (user : MysqlUser) (log : List (Request MysqlUser)) (pass : Pass MysqlUser)
    → env.answer log request ≡ none
    → {rest : Pass MysqlUser} → pass ≡ rest
    → DropsAll env requests user (log ++ request ∷ []) rest
    → IsExec request
    → DropsAll env (request ∷ requests) user log pass
first_DropsAll env request requests user log pass granted {rest} same cases is_exec = elim cases [
  | inl (all_granted, e) ↦ inl (
    (granted, all_granted),
    same ∙ e ∙ ap (stop done user) (append_assoc log (request ∷ []) requests),
  )
  | inr (only, kept, (x, e)) ↦ inr (
    λ h. rw same (only (All-append IsExec log (request ∷ []) h (is_exec, tt))),
    ap (λ p. p.object) same ∙ kept,
    (x, ap (λ p. p.ending) same ∙ e),
  )
]

pub drop_hosts_cases :
    (env : Env) (name : Text) (hosts : List Text) (user : MysqlUser)
    (log : List (Request MysqlUser))
    → DropsAll env (map (drop_request name) hosts) user log (drop_hosts env name hosts user log)
unfolding drop_hosts
drop_hosts_cases env name [] user log = inl (tt, ap (stop done user) (sym (append-nil log)))
drop_hosts_cases env name (host ∷ hosts) user log =
    let run = drop_user env name host in
    let rest = drop_hosts env name hosts in
    elim (drop_user_cases env name host user log) [
      | inl ((granted, _), e) ↦
          first_DropsAll env (drop_request name host) (map (drop_request name) hosts) user log
            ((run >> rest) user log) granted
            (>>-done run rest user log user (log ++ drop_request name host ∷ []) e)
            (drop_hosts_cases env name hosts user (log ++ drop_request name host ∷ [])) tt
      | inr (only, kept, (x, e)) ↦
          let same = >>-failed run rest user log x e in
          inr (rw same only, ap (λ p. p.object) same ∙ kept, (x, ap (λ p. p.ending) same ∙ e))
    ]

pub drops_IsExec : (name : Text) (hosts : List Text) → All IsExec (map (drop_request name) hosts)
drops_IsExec name [] = tt
drops_IsExec name (host ∷ hosts) = (tt, drops_IsExec name hosts)
