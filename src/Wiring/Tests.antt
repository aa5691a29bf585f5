-- ===== src/Wiring/Tests.antt =====
-- Runs of the models of henry/wiring.py and henry/app.py.
use henry.Prelude.{refl, ◌≡◌, ◌≢◌, none, some, List, [], ◌∷◌, ◌++◌}
use henry.Text.{Text, codes, text_ops}
use henry.Text.Words.{strip, is_space}
use henry.Result.{Result, ok, err, Ensures, runtime_error}
use henry.Mcp.Definition.{
  ServerDef, Validated, retry, build_toolset, CloseOutcome, timed_out, cancelled,
}
use henry.Wiring.Discover.{Integration, builtin, mcp}
use henry.Wiring.Runtime.{build_registry, close, http_closed, engine_disposed}
use henry.Wiring.Runtime.Closed.{toolsets_of, close_lem}
use henry.Wiring.Runtime.Registry.{HoldsAll, build_registry-HoldsAll}
use henry.Wiring.Settings.{Settings, validate_startup_settings}

abbrev settings : Settings
settings = record {
  database_url = [];
  slack_bot_token = codes "xoxb";
  slack_app_token = codes " ";
  default_model = codes "m";
  github_token = [];
  github_default_repo = [];
  web_search_provider = codes "tavily";
  web_search_api_key = [];
  litellm_base_url = [];
  litellm_api_key = [];
  max_run_usd = codes "1.0";
  sandbox_image = codes "henry-sandbox:base";
  mcp_config_path = codes "mcp.json";
}

no_app_token :
    validate_startup_settings settings
    ≡ err (runtime_error (codes "Missing required Slack setting(s): HENRY_SLACK_APP_TOKEN"))
unfolding validate_startup_settings strip text_ops is_space
no_app_token = refl

abbrev local : ServerDef
local = record {
  command = some (codes "srv");
  args = [];
  env = [];
  cwd = none;
  url = none;
  headers = [];
  description = [];
  tools = none;
  on_tool_error = retry;
  init_timeout_milli = 5000;
  read_timeout_milli = 60000;
}

abbrev integrations : List Integration
integrations =
    builtin (codes "web")
    ∷ mcp (codes "files") local (some (build_toolset (codes "files") local))
    ∷ mcp (codes "mail") local none
    ∷ []

never_cancelled : (name : Text) → ◌≢◌ {A = CloseOutcome} timed_out cancelled
never_cancelled name e = cc

-- The server's closing times out, and the HTTP client raises.
close_lem_example :
    close (λ name. timed_out) (err (runtime_error [])) (ok tt) integrations
    ≡ (toolsets_of integrations ++ http_closed ∷ engine_disposed ∷ [], err (runtime_error []))
close_lem_example =
    close_lem (λ name. timed_out) (err (runtime_error [])) (ok tt) never_cancelled integrations

abbrev configured : List (Text × Validated)
configured = (codes "files", record { fields_set = codes "command" ∷ []; definition = local }) ∷ []

build_registry-HoldsAll_example :
    Ensures
      (λ d.
        (servers : List (Text × Validated)) × (◌≡◌ {A = Result (List (Text × Validated))}
          (ok configured)
          (ok servers))
        × HoldsAll (codes "web" ∷ codes "github" ∷ []) servers d)
      (build_registry (λ names. names) none (codes "web" ∷ codes "github" ∷ []) (ok configured))
build_registry-HoldsAll_example =
    build_registry-HoldsAll (λ names. names) (codes "web" ∷ codes "github" ∷ []) (ok configured)
