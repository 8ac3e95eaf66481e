-- ===== src/Node/Requests/Keeps.antt =====
-- Invariants of the requests that were sent, one rule for each way to build an action.
use mysql_operator.Base.{◌≡◌, refl, Bool, true, false, Result, ok, err, List, Text, if◌then◌else◌}
use mysql_operator.Node.Requests.{Exec, Request, pure, raise, lift, continue, ◌>>=◌, attempt}

-- The action keeps `P`, whether it returns or raises.
pub record Keeps {A : Type 0} (P : List Request → Type 0) (m : Exec A) : Type 0 where
  pub at : (log : List Request) → P log → P (m log).1

module _ {P : List Request → Type 0} {A : Type 0} where
  pub Keeps-pure : (a : A) → Keeps P (pure a)
  unfolding pure
  Keeps-pure a = record { at = λ log h. h }

  pub Keeps-raise : (e : Text) → Keeps P (raise {A = A} e)
  unfolding raise
  Keeps-raise e = record { at = λ log h. h }

  pub Keeps-lift : (r : Result Text A) → Keeps P (lift r)
  unfolding lift
  Keeps-lift r = record { at = λ log h. h }

  pub Keeps-attempt : (m : Exec A) → Keeps P m → Keeps P (attempt m)
  unfolding attempt
  Keeps-attempt m k = record { at = k.at }

  pub Keeps-if : (b : Bool) (m n : Exec A) → Keeps P m → Keeps P n → Keeps P (if b then m else n)
  Keeps-if true m n km kn = km
  Keeps-if false m n km kn = kn

module _ {P : List Request → Type 0} {A B : Type 0} where
  -- What runs behind a result may use that it is no error.
  Keeps-continue :
      (k : A → Exec B) (r : Result Text A)
      → ((a : A) → r ≡ ok a → Keeps P (k a))
      → Keeps P (continue k r)
  Keeps-continue k (ok a) h = record { at = (h a refl).at }
  Keeps-continue k (err e) h = record { at = λ log p. p }

  pub Keeps-bind :
      (m : Exec A) (k : A → Exec B) → Keeps P m → ((a : A) → Keeps P (k a)) → Keeps P (m >>= k)
  unfolding ◌>>=◌
  Keeps-bind m k km kk = record {
    at = λ log h. (Keeps-continue k (m log).0 (λ a _. kk a)).at (m log).1 (km.at log h);
  }

pub ruleset keeps_rules = (Keeps-pure, Keeps-raise, Keeps-lift, Keeps-attempt, Keeps-if, Keeps-bind)
