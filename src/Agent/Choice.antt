-- ===== src/Agent/Choice.antt =====
-- _active_integrations and _is_configured of henry/agent/runner.py.
pub mod Active
use henry.Prelude.{
  ℕ, Bool, true, false, not, Option, none, some, List, [], ◌∷◌, ◌++◌, map, keep_if, if◌then◌else◌,
}
use henry.Text.{Text, codes, ◌===◌, join}
use henry.Result.{Result, ok, err, value_error, ◌>>=◌}
use henry.Contracts.{Enabled, every, listed}

-- An integration; `checker` is what `is_configured` answers for the settings, if there is one, and
-- `is_provider` whether it has a toolset.
pub record Integration : Type 0 where
  pub name : Text
  pub checker : Option Bool
  pub is_provider : Bool
  pub fragment : Text

unfoldable pub is_configured : Integration → Bool
is_configured i = elim i.checker [ none ↦ true | some b ↦ b ]

-- `by_name`: of two integrations with one name the later counts.
unfoldable pub by_name : List Integration → Text → Option Integration
by_name [] name = none
by_name (i ∷ is) name = elim (by_name is name) [
  | some j ↦ some j
  | none ↦ if i.name === name then some i else none
]

is_missing : List Integration → Text → Bool
is_missing is name = elim (by_name is name) [ none ↦ true | some i ↦ false ]

found : Option Integration → List Integration → List Integration
found none is = is
found (some i) is = i ∷ is

chosen : List Integration → List Text → List Integration
unfolding found
chosen is [] = []
chosen is (name ∷ names) = found (by_name is name) (chosen is names)

-- `sorted(unknown)` is a parameter, since only the message shows it.
unfoldable pub active_integrations :
    (List Text → List Text) → List Integration → Option Enabled → Result (List Integration)
unfolding is_missing chosen
active_integrations sorted is none = ok (keep_if is_configured is)
active_integrations sorted is (some every) = ok (keep_if is_configured is)
active_integrations sorted is (some (listed names)) = elim (keep_if (is_missing is) names) [
  | [] ↦ ok (chosen is names)
  | n ∷ unknown ↦ err (
      value_error (
        codes "unknown integrations configured for agent runner: "
        ++ join (codes ", ") (sorted (n ∷ unknown))))
]
