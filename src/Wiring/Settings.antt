-- ===== src/Wiring/Settings.antt =====
-- RunSettings of henry/wiring.py over Settings of henry/settings.py, and validate_startup_settings of
-- henry/app.py. A float is kept by the text of the number; `to_float` is `float(value)` of a JSON value.
pub mod Overrides
use henry.Prelude.{
  ℕ, Bool, true, false, Option, none, some, List, [], ◌∷◌, ◌++◌, if◌then◌else◌, keep_if, map,
}
use henry.Text.{Text, codes, ◌===◌, join}
use henry.Text.Words.{strip}
use henry.Json.{Json, Fields, done, field, float}
use henry.Result.{Result, ok, err, runtime_error}
use henry.Contracts.{ResolvedConfig, Enabled}

pub record Settings : Type 0 where
  pub database_url : Text
  pub slack_bot_token : Text
  pub slack_app_token : Text
  pub default_model : Text
  pub github_token : Text
  pub github_default_repo : Text
  pub web_search_provider : Text
  pub web_search_api_key : Text
  pub litellm_base_url : Text
  pub litellm_api_key : Text
  pub max_run_usd : Text
  pub sandbox_image : Text
  pub mcp_config_path : Text

pub record RunSettings : Type 0 where
  pub base : Settings
  pub config : ResolvedConfig

-- `a or b`
or_text : Text → Text → Text
or_text [] other = other
or_text (c ∷ t) other = c ∷ t

unfoldable pub default_model : RunSettings → Text
unfolding or_text
default_model s = or_text s.config.model s.base.default_model

unfoldable pub system_prompt : RunSettings → Text
system_prompt s = s.config.system_prompt

unfoldable pub enabled_integrations : RunSettings → Enabled
enabled_integrations s = s.config.enabled_integrations

-- `d.get(key, default)`
get_or : Text → Json → Fields → Json
get_or key default done = default
get_or key default (field k v fs) =
    let rest = get_or key default fs in if k === key then v else rest

unfoldable pub max_run_usd : (to_float : Json → Result Text) → RunSettings → Result Text
unfolding get_or
max_run_usd to_float s =
    to_float (get_or (codes "max_run_usd") (float s.base.max_run_usd) s.config.budget_caps)

-- What a variable of the environment for a missing setting is called, with the setting.
slack_settings : Settings → List (Text × Text)
slack_settings s =
    (codes "HENRY_SLACK_BOT_TOKEN", s.slack_bot_token)
    ∷ (codes "HENRY_SLACK_APP_TOKEN", s.slack_app_token)
    ∷ []

missing_settings : Settings → List Text
unfolding slack_settings
missing_settings s =
    map (λ (p : Text × Text). p.0) (keep_if (λ p. strip p.1 === []) (slack_settings s))

refuse_missing : List Text → Result (Unit {0})
refuse_missing [] = ok tt
refuse_missing (n ∷ names) =
    err
      (runtime_error (codes "Missing required Slack setting(s): " ++ join (codes ", ") (n ∷ names)))

unfoldable pub validate_startup_settings : Settings → Result (Unit {0})
unfolding missing_settings refuse_missing
validate_startup_settings s = refuse_missing (missing_settings s)
