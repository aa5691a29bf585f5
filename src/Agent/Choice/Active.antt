-- ===== src/Agent/Choice/Active.antt =====
-- Which integrations a run has.
use henry.Prelude.{
  ◌≡◌, refl, inl, inr, true, Option, none, some, List, [], ◌∷◌, ◌++◌, map, keep_if, All, arith,
  Bool-cases, Option-cases,
}
use henry.Text.{Text, codes, ===_iff, join}
use henry.Result.{ok, err, value_error, Ensures, Ensures-ok}
use henry.Contracts.{Enabled, every, listed}
use henry.Agent.Choice.{
  Integration, is_configured, by_name, is_missing, found, chosen, active_integrations,
}

by_name-name :
    (is : List Integration) (name : Text) (j : Integration)
    → by_name is name ≡ some j
    → j.name ≡ name
unfolding by_name
by_name-name [] name j h = absurd (cc)
by_name-name (i ∷ is) name j h = elim (Option-cases (by_name is name)) [
  | inr (k, e) ↦ by_name-name is name j (ground (arith, e, h))
  | inl e ↦ ground (arith, e, h, ===_iff i.name name)
]

chosen-names :
    (is : List Integration) (names : List Text)
    → keep_if (is_missing is) names ≡ []
    → map (λ i. i.name) (chosen is names) ≡ names
unfolding chosen is_missing found
chosen-names is [] h = refl
chosen-names is (name ∷ names) h = elim (Option-cases (by_name is name)) [
  | inl e ↦ absurd (ground (arith, e, h))
  | inr (j, e) ↦ rw e (cc (by_name-name is name j e, chosen-names is names (ground (arith, e, h))))
]

kept-configured :
    (is : List Integration) → All (λ i. is_configured i ≡ true) (keep_if is_configured is)
kept-configured [] = tt
kept-configured (i ∷ is) = elim (Bool-cases (is_configured i)) [
  | inl e ↦ rw e (e, kept-configured is)
  | inr e ↦ rw e (kept-configured is)
]

-- What a choice of integrations may lead to.
abbrev pub Fits : Option Enabled → List Integration → Type 0
Fits none is = All (λ i. is_configured i ≡ true) is
Fits (some every) is = All (λ i. is_configured i ≡ true) is
Fits (some (listed names)) is = map (λ i. i.name) is ≡ names

-- Without a list, or with the wildcard, a run has configured integrations only; with a list it has
-- exactly those that are named, in the order of the list, or the run fails.
pub active_integrations-Fits :
    (sorted : List Text → List Text) (is : List Integration) (enabled : Option Enabled)
    (active : List Integration)
    → active_integrations sorted is enabled ≡ ok active
    → Fits enabled active
unfolding active_integrations
active_integrations-Fits sorted is none =
    Ensures-ok (Fits none) (keep_if is_configured is) (kept-configured is)
active_integrations-Fits sorted is (some every) =
    Ensures-ok (Fits (some every)) (keep_if is_configured is) (kept-configured is)
active_integrations-Fits sorted is (some (listed names)) =
    of_unknown (keep_if (is_missing is) names) refl
  where
    of_unknown :
        (unknown : List Text)
        → keep_if (is_missing is) names ≡ unknown
        → Ensures (Fits (some (listed names))) (elim unknown [
          | [] ↦ ok (chosen is names)
          | n ∷ others ↦ err (
              value_error (
                codes "unknown integrations configured for agent runner: "
                ++ join (codes ", ") (sorted (n ∷ others))))
        ])
    of_unknown [] e =
        Ensures-ok (Fits (some (listed names))) (chosen is names) (chosen-names is names e)
    of_unknown (n ∷ others) e = λ a h. absurd (cc)
