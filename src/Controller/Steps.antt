-- ===== src/Controller/Steps.antt =====
-- What a sequence of steps adds to the log, and how it ends.
use mysql_operator.Base.{
  ℕ, ◌≡◌, ◌≢◌, ◌⊎◌, inl, inr, refl, sym, subst, Bool, true, false, Option, List, [], ◌∷◌, arith,
  Text, All, All-append, Bool-cases, if◌then◌else◌,
}
use mysql_operator.Cluster.{MysqlCluster}
use mysql_operator.Controller.{
  Syncer, Step, sync, update_cluster, Ending, going, returned, Pass, Env, Action, ◌>>◌, send,
  run_syncer, persist_cluster_annotations, pairs_same, Failure,
}

pub Ending-cases :
    (e : Ending) → (e ≡ going) ⊎ ((x : Option Failure) × (n : ℕ) × (e ≡ returned x n))
Ending-cases going = inl refl
Ending-cases (returned x n) = inr (x, n, refl)

module _ (m k : Action) (c : MysqlCluster) (log : List Step) where
  pub >>-going : (m c log).ending ≡ going → (m >> k) c log ≡ k (m c log).cluster (m c log).log
  >>-going e = ground arith

  pub >>-returned :
      (x : Option Failure) (n : ℕ) → (m c log).ending ≡ returned x n → (m >> k) c log ≡ m c log
  >>-returned x n e = ground arith

-- The action adds steps of a kind only.
abbrev pub Adds : (Step → Type 0) → Action → Type 0
Adds P m = (c : MysqlCluster) (log : List Step) → All P log → All P (m c log).log

pub >>-Adds : (P : Step → Type 0) (m k : Action) → Adds P m → Adds P k → Adds P (m >> k)
>>-Adds P m k hm hk c log h = elim (Ending-cases (m c log).ending) [
  | inl e ↦
      subst (λ p. All P p.log) (sym (>>-going m k c log e))
        (hk (m c log).cluster (m c log).log (hm c log h))
  | inr (x, n, e) ↦ subst (λ p. All P p.log) (sym (>>-returned m k c log x n e)) (hm c log h)
]

pub send-Adds : (P : Step → Type 0) (env : Env) (s : Step) → P s → Adds P (send env s)
send-Adds P env s p c log h = All-append P log (s ∷ []) h (p, tt)

pub run_syncer-Adds :
    (P : Step → Type 0) (env : Env) (s : Syncer) → P (sync s) → Adds P (run_syncer env s)
unfolding run_syncer
run_syncer-Adds P env s p c log h = All-append P log (sync s ∷ []) h (p, tt)

pub persist-Adds :
    (P : Step → Type 0) (env : Env) (before : List (Text × Text))
    → ((d : MysqlCluster) → P (update_cluster d))
    → Adds P (persist_cluster_annotations env before)
unfolding persist_cluster_annotations
persist-Adds P env before p c log h = elim (Bool-cases (pairs_same before c.annotations)) [
  | inl same ↦ rw (same, if◌then◌else◌) h
  | inr other ↦ rw (other, if◌then◌else◌) (All-append P log (update_cluster c ∷ []) h (p c, tt))
]

pub if-Adds :
    (P : Step → Type 0) (b : Bool) (m k : Action)
    → Adds P m
    → Adds P k
    → Adds P (if b then m else k)
if-Adds P true m k hm hk = hm
if-Adds P false m k hm hk = hk

pub if-All :
    (P : Step → Type 0) (b : Bool) (p q : Pass)
    → All P p.log
    → All P q.log
    → All P (if b then p else q).log
if-All P true p q hp hq = hp
if-All P false p q hp hq = hq

pub returned-going :
    (p : Pass) (x : Option Failure) (n : ℕ) → p.ending ≡ returned x n → p.ending ≢ going
returned-going p x n e g = ground arith

pub >>-ended :
    (m k : Action) (c : MysqlCluster) (log : List Step)
    → (k (m c log).cluster (m c log).log).ending ≢ going
    → ((m >> k) c log).ending ≢ going
>>-ended m k c log h = elim (Ending-cases (m c log).ending) [
  | inl e ↦ subst (λ p. p.ending ≢ going) (sym (>>-going m k c log e)) h
  | inr (x, n, e) ↦
      subst (λ p. p.ending ≢ going) (sym (>>-returned m k c log x n e))
        (returned-going (m c log) x n e)
]
