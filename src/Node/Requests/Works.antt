-- ===== src/Node/Requests/Works.antt =====
-- Actions that return, with what holds of the requests then, one rule for each way to build an action.
use mysql_operator.Base.{
  ◌≡◌, refl, sym, ap, subst, Bool, true, false, Result, ok, List, Text, if◌then◌else◌,
}
use mysql_operator.Node.Requests.{Exec, Request, pure, continue, ◌>>=◌, attempt}

-- After requests of which `P` holds the action raises nothing, and `P` holds again.
pub record Works {A : Type 0} (P : List Request → Type 0) (m : Exec A) : Type 0 where
  pub at : (log : List Request) → P log → (a : A) × ((m log).0 ≡ ok a) × P (m log).1

pub bind-ok :
    {A B : Type 0} (m : Exec A) (k : A → Exec B) (log : List Request) (a : A)
    → (m log).0 ≡ ok a
    → (m >>= k) log ≡ k a (m log).1
unfolding ◌>>=◌
bind-ok m k log a h = ap (λ r. continue k r (m log).1) h

module _ {P : List Request → Type 0} {A : Type 0} where
  pub Works-pure : (a : A) → Works P (pure a)
  unfolding pure
  Works-pure a = record { at = λ log h. (a, refl, h) }

  pub Works-attempt : (m : Exec A) → Works P m → Works P (attempt m)
  unfolding attempt
  Works-attempt m w = record { at = λ log h. ((m log).0, refl, (w.at log h).2) }

  pub Works-if : (b : Bool) (m n : Exec A) → Works P m → Works P n → Works P (if b then m else n)
  Works-if true m n wm wn = wm
  Works-if false m n wm wn = wn

pub Works-bind :
    {P : List Request → Type 0} {A B : Type 0} (m : Exec A) (k : A → Exec B)
    → Works P m
    → ((a : A) → Works P (k a))
    → Works P (m >>= k)
Works-bind {P} {A} {B} m k wm wk = record {
  at = λ log h.
      let (a, done, next) = wm.at log h in
      subst (λ (p : Result Text B × List Request). (b : B) × (p.0 ≡ ok b) × P p.1)
        (sym (bind-ok m k log a done)) ((wk a).at (m log).1 next);
}

pub ruleset works_rules = (Works-pure, Works-attempt, Works-if, Works-bind)
