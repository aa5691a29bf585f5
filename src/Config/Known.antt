-- ===== src/Config/Known.antt =====
-- The integrations of an accepted configuration.
use henry.Prelude.{
  ◌≡◌, refl, inl, inr, true, Option, some, List, [], ◌∷◌, All, arith, Bool-cases, subst, ◌++◌,
}
use henry.Text.{Text, codes, join}
use henry.Json.{Fields}
use henry.Result.{
  Result, ok, err, value_error, Ensures, Ensures-bind, Ensures-bind-with, Ensures-ok,
}
use henry.Contracts.{ResolvedConfig, Enabled, every, listed}
use henry.Config.{
  is_known, unknown_names, check_known, row_to_overrides, deep_merge, load_channel_config,
}

unknown_names-none :
    (known names : List Text)
    → unknown_names known names ≡ []
    → All (λ n. is_known n known ≡ true) names
unfolding unknown_names
unknown_names-none known [] h = tt
unknown_names-none known (n ∷ names) h = elim (Bool-cases (is_known n known)) [
  | inl e ↦ (e, unknown_names-none known names (ground (arith, e, h)))
  | inr e ↦ absurd (ground (arith, e, h))
]

abbrev Known : List Text → Enabled → Type 0
Known known every = Unit
Known known (listed names) = All (λ n. is_known n known ≡ true) names

check_known-Known :
    (sorted : List Text → List Text) (channel_id : Text) (known : List Text) (enabled : Enabled)
    → Ensures
        (λ (u : Unit {0}). Known known enabled)
        (check_known sorted channel_id (some known) enabled)
unfolding check_known
check_known-Known sorted channel_id known every = λ u h. tt
check_known-Known sorted channel_id known (listed names) =
    of_unknown (unknown_names known names) refl
  where
    of_unknown :
        (unknown : List Text)
        → unknown_names known names ≡ unknown
        → Ensures
            (λ (u : Unit {0}). Known known (listed names))
            (elim unknown [
              | [] ↦ ok tt
              | n ∷ others ↦ err (
                  value_error (
                    codes "unknown integrations enabled for "
                    ++ (channel_id ++ (codes ": " ++ join (codes ", ") (sorted (n ∷ others))))))
            ])
    of_unknown [] e = λ u h. unknown_names-none known names e
    of_unknown (n ∷ others) e = λ u h. absurd (cc)

-- A configuration that lists integrations is accepted only if every one that it lists is known, so
-- that no channel runs with a name that stands for nothing.
pub load_channel_config-known :
    (sorted : List Text → List Text) (validate : Fields → Result ResolvedConfig) (defaults : Fields)
    (row : Option Fields) (channel_id : Text) (known names : List Text) (resolved : ResolvedConfig)
    → load_channel_config sorted validate defaults row channel_id (some known) ≡ ok resolved
    → resolved.enabled_integrations ≡ listed names
    → All (λ n. is_known n known ≡ true) names
unfolding load_channel_config
load_channel_config-known sorted validate defaults row channel_id known names resolved h e =
    subst (Known known) e (
      Ensures-bind (row_to_overrides row) _
        (λ overrides. Ensures-bind (validate (deep_merge defaults overrides)) _ (λ config.
          Ensures-bind-with (check_known sorted channel_id (some known) config.enabled_integrations)
            _ (check_known-Known sorted channel_id known config.enabled_integrations)
            (λ u v. Ensures-ok (λ c. Known known c.enabled_integrations) config v)))
        resolved h)
