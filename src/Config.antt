-- ===== src/Config.antt =====
-- _deep_merge, _row_to_overrides and load_channel_config of henry/config/registry.py. The row of a
-- channel is a dictionary of its columns; the validation by pydantic is a parameter.
pub mod Merge
pub mod Known
mod Tests
use henry.Prelude.{
  ℕ, Bool, true, false, not, ◌&&◌, ◌||◌, Option, none, some, List, [], ◌∷◌, ◌++◌, keep_if,
  if◌then◌else◌,
}
use henry.Text.{Text, codes, ◌===◌, join}
use henry.Json.{Json, Fields, null, str, arr, obj, done, field, get, put, equals_text}
use henry.Result.{Result, ok, err, value_error, ◌>>=◌, ◌>>◌, raise_if}
use henry.Contracts.{ResolvedConfig, Enabled, every, listed}

-- A value of the override goes over one of the base: dictionaries are merged, all else is replaced.
unfoldable mutual
  pub merged : Json → Json → Json
  merged (obj base) (obj override) = obj (deep_merge base override)
  merged v w = w

  pub deep_merge : Fields → Fields → Fields
  deep_merge base done = base
  deep_merge base (field key value override) =
      deep_merge (put key (merged (get key base) value) base) override

-- `value not in (None, "")`
unfoldable pub is_given : Json → Bool
is_given null = false
is_given (str []) = false
is_given v = true

-- A row without `channel_id`, and without what is not given.
given_fields : Fields → Fields
given_fields done = done
given_fields (field key value row) =
    let rest = given_fields row in
    if key === codes "channel_id"
    then rest
    else if is_given value
    then field key value rest
    else rest

unfoldable pub row_to_overrides : Option Fields → Result Fields
unfolding given_fields
row_to_overrides none = ok done
row_to_overrides (some row) = do
  raise_if (equals_text (get (codes "enabled_integrations") row) (codes "*")) (
      value_error (
        codes
          "channel_config.enabled_integrations must be an explicit list; '*' is only supported as the built-in default"))
  ok (given_fields row)

unfoldable pub is_known : Text → List Text → Bool
is_known name [] = false
is_known name (k ∷ known) = k === name || is_known name known

-- The names that are not known; `sorted(set(...))` is a parameter, since only the message shows it.
unknown_names : List Text → List Text → List Text
unfolding is_known
unknown_names known names = keep_if (λ n. not (is_known n known)) names

check_known : (List Text → List Text) → Text → Option (List Text) → Enabled → Result (Unit {0})
unfolding unknown_names
check_known sorted channel_id none enabled = ok tt
check_known sorted channel_id (some known) every = ok tt
check_known sorted channel_id (some known) (listed names) = elim (unknown_names known names) [
  | [] ↦ ok tt
  | n ∷ unknown ↦ err (
      value_error (
        codes "unknown integrations enabled for "
        ++ (channel_id ++ (codes ": " ++ join (codes ", ") (sorted (n ∷ unknown))))))
]

unfoldable pub load_channel_config :
    (List Text → List Text)
    → (Fields → Result ResolvedConfig)
    → Fields
    → Option Fields
    → Text
    → Option (List Text)
    → Result ResolvedConfig
unfolding check_known
load_channel_config sorted validate defaults row channel_id known = do
  overrides ← row_to_overrides row
  resolved ← validate (deep_merge defaults overrides)
  check_known sorted channel_id known resolved.enabled_integrations
  ok resolved
