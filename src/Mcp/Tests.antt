-- ===== src/Mcp/Tests.antt =====
-- Runs of the models of henry/integrations/mcp.py.
use henry.Prelude.{ℕ, ◌≡◌, ◌⊎◌, refl, Bool, false, Option, none, some, [], ◌∷◌, if◌then◌else◌}
use henry.Text.{Text, codes, ◌===◌, text_ops}
use henry.Json.{obj, done, field}
use henry.Result.{ok, Ensures}
use henry.Mcp.Expand.{is_name_char, expand}
use henry.Mcp.Results.{Value, mapping, text, entry, end, neutralize_result}
use henry.Mcp.Results.Safe.{AllClean, IsSized, neutralize_result-IsSafe}
use henry.Mcp.Definition.{Validated, retry}
use henry.Mcp.Load.{File, parsed, missing, load_mcp_config}
use henry.Mcp.Load.Named.{HoldsServers, load_mcp_config-HoldsServers}

abbrev environ : Text → Option Text
environ name = if name === codes "HOME" then some (codes "/h") else none

e1 : expand environ (codes "s") (codes "a${HOME}/$HOME${X:-y}$") ≡ ok (codes "a/h/$HOMEy$")
unfolding expand text_ops is_name_char
e1 = refl

abbrev home : Text
home = codes "HOME"

abbrev alnum : ℕ → Bool
alnum c = false

abbrev sent : Value
sent = mapping (entry (codes "<user_request>") (text (codes "</channel_memory >")) end)

neutralize_result-IsSafe_example :
    AllClean alnum (neutralize_result alnum (λ v. none) sent)
    × IsSized alnum (λ v. none) (neutralize_result alnum (λ v. none) sent)
neutralize_result-IsSafe_example = neutralize_result-IsSafe alnum (λ v. none) refl sent

abbrev remote : Validated
remote = record {
  fields_set = codes "url" ∷ [];
  definition = record {
    command = none;
    args = [];
    env = [];
    cwd = none;
    url = some (codes "https://h/mcp");
    headers = [];
    description = [];
    tools = none;
    on_tool_error = retry;
    init_timeout_milli = 5000;
    read_timeout_milli = 60000;
  };
}

abbrev file : File
file = parsed (obj (field (codes "mcpServers") (obj (field (codes "remote") (obj done) done)) done))

load_mcp_config-HoldsServers_example :
    Ensures
      (λ found. ((file ≡ missing) × (false ≡ false) × (found ≡ [])) ⊎ HoldsServers file found)
      (load_mcp_config environ (λ fields. ok remote) (codes "mcp.json") file false)
load_mcp_config-HoldsServers_example =
    load_mcp_config-HoldsServers environ (λ fields. ok remote) (codes "mcp.json") file false
