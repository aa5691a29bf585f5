-- ===== src/Wiring/Settings/Overrides.antt =====
-- Which settings a program can start with, and where a run's settings come from.
use henry.Prelude.{◌≡◌, ◌≢◌, ◌↔◌, [], arith}
use henry.Text.{===_iff}
use henry.Text.Words.{strip}
use henry.Result.{ok}
use henry.Wiring.Settings.{
  Settings, slack_settings, missing_settings, refuse_missing, validate_startup_settings,
}

-- The program starts exactly if both tokens hold more than white space.
pub validate_startup_settings_lem :
    (s : Settings)
    → (validate_startup_settings s ≡ ok tt)
      ↔ ((strip s.slack_bot_token ≢ []) × (strip s.slack_app_token ≢ []))
unfolding validate_startup_settings missing_settings slack_settings refuse_missing
validate_startup_settings_lem s = (
  λ e. (
    λ b. ground (arith, ===_iff (strip s.slack_bot_token) [], ===_iff (strip s.slack_app_token) []),
    λ a. ground (arith, ===_iff (strip s.slack_bot_token) [], ===_iff (strip s.slack_app_token) []),
  ),
  λ h. ground (arith, ===_iff (strip s.slack_bot_token) [], ===_iff (strip s.slack_app_token) []),
)
