-- ===== src/Cluster/Defaults/Fill.antt =====
-- Options of MySQL that are set one after the other where they are not there.
use mysql_operator.Base.{
  ◌≡◌, ◌∙◌, refl, ap, arith, Bool, true, false, Option, none, some, [], ◌∷◌, ◌++◌, Text, text_eq,
  text_eq_iff, lookup, insert, lookup-insert, Option-cases, inl, inr, if◌then◌else◌,
}
use mysql_operator.Cluster.Defaults.{Conf, set_config_if_not_set}
use mysql_operator.Cluster.Defaults.Wanted.{or_else}

-- Each option of the list is set if it is not there, from the first on.
unfoldable pub set_all : Conf → Conf → Conf
set_all [] conf = conf
set_all ((option, value) ∷ wanted) conf = set_all wanted (set_config_if_not_set option value conf)

set_config_if_not_set-absent :
    (option value : Text) (conf : Conf)
    → lookup option conf ≡ none
    → set_config_if_not_set option value conf ≡ insert option value conf
unfolding set_config_if_not_set
set_config_if_not_set-absent option value conf h = rw (set_config_if_not_set, h) refl

set_config_if_not_set-present :
    (option value old : Text) (conf : Conf)
    → lookup option conf ≡ some old
    → set_config_if_not_set option value conf ≡ conf
unfolding set_config_if_not_set
set_config_if_not_set-present option value old conf h = rw (set_config_if_not_set, h) refl

lookup-set_config_if_not_set :
    (key option value : Text) (conf : Conf)
    → lookup key (set_config_if_not_set option value conf)
      ≡ or_else (lookup key conf) (if text_eq option key then some value else none)
lookup-set_config_if_not_set key option value conf = elim (Option-cases (lookup option conf)) [
  | inl e ↦
      rw (set_config_if_not_set-absent option value conf e, lookup-insert option key value conf)
        (ground (arith, text_eq_iff option key))
  | inr (old, e) ↦
      rw (set_config_if_not_set-present option value old conf e)
        (ground (arith, text_eq_iff option key))
]

or_else-none : (o : Option Text) → o ≡ or_else o none
or_else-none none = refl
or_else-none (some v) = refl

first_of :
    (o : Option Text) (here : Bool) (value : Text) (rest : Option Text)
    → or_else (or_else o (if here then some value else none)) rest
      ≡ or_else o (if here then some value else rest)
first_of (some v) here value rest = refl
first_of none true value rest = refl
first_of none false value rest = refl

pub lookup-set_all :
    (key : Text) (wanted conf : Conf)
    → lookup key (set_all wanted conf) ≡ or_else (lookup key conf) (lookup key wanted)
unfolding set_all lookup
lookup-set_all key [] conf = or_else-none (lookup key conf)
lookup-set_all key ((option, value) ∷ wanted) conf =
    lookup-set_all key wanted (set_config_if_not_set option value conf)
    ∙ ap (λ o. or_else o (lookup key wanted)) (lookup-set_config_if_not_set key option value conf)
    ∙ first_of (lookup key conf) (text_eq option key) value (lookup key wanted)

pub set_all-append :
    (first next conf : Conf) → set_all (first ++ next) conf ≡ set_all next (set_all first conf)
unfolding set_all
set_all-append [] next conf = refl
set_all-append ((option, value) ∷ first) next conf =
    set_all-append first next (set_config_if_not_set option value conf)
