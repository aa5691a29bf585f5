-- ===== src/Agent/Tests.antt =====
-- Runs of the models of henry/agent/runner.py.
use henry.Prelude.{refl, true, false, none, some, List, [], ◌∷◌}
use henry.Text.{Text, codes, text_ops}
use henry.Json.{Json}
use henry.Result.{ok, err, runtime_error}
use henry.Contracts.{ConversationTranscript, RunResult, no_usage, listed}
use henry.Agent.Choice.{Integration, by_name, active_integrations}
use henry.Agent.Choice.Active.{Fits, active_integrations-Fits}
use henry.Agent.Run.{AgentServices, run}

abbrev web : Integration
web = record { name = codes "web"; checker = none; is_provider = false; fragment = codes "Web." }

abbrev server : Integration
server = record { name = codes "mcp"; checker = none; is_provider = true; fragment = codes "MCP." }

abbrev same : List Text → List Text
same names = names

abbrev names : List Text
names = codes "mcp" ∷ codes "web" ∷ []

active_integrations-Fits_example : Fits (some (listed names)) (server ∷ web ∷ [])
unfolding active_integrations by_name text_ops
active_integrations-Fits_example =
    active_integrations-Fits same (web ∷ server ∷ []) (some (listed names)) (server ∷ web ∷ []) refl

-- The server is out of reach, and the agent answers.
abbrev services : AgentServices
services = record {
  snapshot =
      ok
        (record { channel_id = codes "C1"; rolling_summary = []; open_tasks = []; key_facts = [] });
  attach = λ i. err (runtime_error (codes "refused"));
  answer = λ instructions toolsets. ok (record { output = codes "hi"; usage = no_usage });
}

abbrev show : Json → Text
show v = []

abbrev answered : RunResult
answered = run show same (web ∷ server ∷ []) (some (listed names)) services (codes "Be kind.")

abbrev thread : ConversationTranscript
thread = record { channel_id = codes "C1"; thread_ts = codes "1.0"; messages = [] }
