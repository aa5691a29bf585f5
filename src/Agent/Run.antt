-- ===== src/Agent/Run.antt =====
-- PydanticAgentRunner.run of henry/agent/runner.py with _error_result, and build_instructions of
-- henry/agent/prompt.py. The agent of pydantic_ai is a parameter: a function of its instructions and
-- of the toolsets that it is given.
pub mod Ends
use henry.Prelude.{
  ℕ, Bool, true, false, not, ◌&&◌, ◌||◌, Option, none, some, List, [], ◌∷◌, ◌++◌, map, keep_if,
  if◌then◌else◌,
}
use henry.Text.{Text, codes, ◌===◌, join}
use henry.Text.Words.{strip}
use henry.Json.{Json, Fields, done, field, py_str}
use henry.Result.{
  Result, ok, err, Error, message, value_error, runtime_error, type_error, key_error,
  file_not_found, integrity_error, sandbox_error, session_not_found, session_destroyed, path_error,
  archive_error, usage_limit_exceeded, model_retry, other_error, ◌>>=◌,
}
use henry.Contracts.{
  RunUsage, no_usage, RunResult, succeeded, budget_exceeded, failed, ChannelState, Enabled,
}
use henry.Agent.Choice.{Integration, active_integrations}

-- `f"{key}: {value}"`
item_parts : (Json → Text) → Fields → List Text
item_parts show done = []
item_parts show (field k v fs) = (k ++ (codes ": " ++ py_str show v)) ∷ item_parts show fs

item_line : List Text → Text
item_line [] = codes "- (empty)"
item_line (p ∷ parts) = codes "- " ++ join (codes ", ") (p ∷ parts)

render_items : (Json → Text) → List Fields → Text
unfolding item_parts item_line
render_items show items = join (codes "\n") (map (λ item. item_line (item_parts show item)) items)

-- A section that is there only with something to say.
titled : Text → Text → List Text
titled title [] = []
titled title (c ∷ t) = (title ++ c ∷ t) ∷ []

items_section : (Json → Text) → Text → List Fields → List Text
unfolding render_items
items_section show title [] = []
items_section show title (item ∷ items) = (title ++ render_items show (item ∷ items)) ∷ []

fragments_section : List Text → List Text
fragments_section [] = []
fragments_section (f ∷ fragments) =
    (codes "<integrations>\n" ++ (join (codes "\n\n") (f ∷ fragments) ++ codes "\n</integrations>"))
    ∷ []

is_text : Text → Bool
is_text t = not (t === [])

unfoldable pub build_instructions : (Json → Text) → Text → ChannelState → List Text → Text
unfolding titled items_section fragments_section is_text
build_instructions show base snapshot fragments =
    let memory_lines =
      (codes "channel_id: " ++ snapshot.channel_id)
      ∷ (titled (codes "rolling_summary: ") snapshot.rolling_summary
          ++ (items_section show (codes "key_facts:\n") snapshot.key_facts
              ++ items_section show (codes "open_tasks:\n") snapshot.open_tasks)) in
    join (codes "\n\n") (
      keep_if is_text (
        strip base
        ∷ (fragments_section (keep_if is_text (map strip fragments))
            ++ (codes "<channel_memory>\n"
                ++ (join (codes "\n") memory_lines ++ codes "\n</channel_memory>"))
              ∷ [])))

-- `type(exc).__name__`; another error is shown by the class that all have.
error_name : Error → Text
error_name (value_error m) = codes "ValueError"
error_name (runtime_error m) = codes "RuntimeError"
error_name (type_error m) = codes "TypeError"
error_name (key_error m) = codes "KeyError"
error_name (file_not_found m) = codes "FileNotFoundError"
error_name (integrity_error m) = codes "IntegrityError"
error_name (sandbox_error m) = codes "SandboxError"
error_name (session_not_found m) = codes "SandboxSessionNotFound"
error_name (session_destroyed m) = codes "SandboxSessionDestroyed"
error_name (path_error m) = codes "SandboxPathError"
error_name (archive_error m) = codes "SandboxArchiveError"
error_name (usage_limit_exceeded m) = codes "UsageLimitExceeded"
error_name (model_retry m) = codes "ModelRetry"
error_name (other_error m) = codes "Exception"

with_toolsets : List Text → Text
with_toolsets [] = []
with_toolsets (n ∷ names) =
    codes " (external toolsets active: " ++ (join (codes ", ") (n ∷ names) ++ codes ")")

-- The two except clauses; `names` are the toolsets that were active by then.
failed_run : List Text → Error → RunResult
unfolding error_name with_toolsets
failed_run names (usage_limit_exceeded m) = record {
  output = codes "Henry stopped because the configured run budget was exceeded.";
  usage = no_usage;
  status = budget_exceeded;
  error = some m;
}
failed_run names e = record {
  output = codes "Henry could not complete the request because the agent run failed.";
  usage = no_usage;
  status = failed;
  error = some (error_name e ++ (codes ": " ++ (message e ++ with_toolsets names)));
}

pub record Answer : Type 0 where
  pub output : Text
  pub usage : RunUsage

-- What a run is given. `attach` enters the toolset of a provider; `answer` builds the model, makes
-- the agent and runs it.
pub record AgentServices : Type 0 where
  pub snapshot : Result ChannelState
  pub attach : Integration → Result (Unit {0})
  pub answer : Text → List Integration → Result Answer

is_attached : Result (Unit {0}) → Bool
is_attached (ok u) = true
is_attached (err e) = false

unfoldable pub is_available : AgentServices → Integration → Bool
unfolding is_attached
is_available s i = is_attached (s.attach i)

has_name : Text → List Integration → Bool
has_name name [] = false
has_name name (i ∷ is) = i.name === name || has_name name is

-- The providers that could not be attached.
unfoldable pub unavailable : AgentServices → List Integration → List Integration
unavailable s is = keep_if (λ i. i.is_provider && not (is_available s i)) is

-- The providers whose toolsets the agent gets.
unfoldable pub attached : AgentServices → List Integration → List Integration
attached s is = keep_if (λ i. i.is_provider && is_available s i) is

-- The names of the active toolsets, for the message of a failure.
unfoldable pub toolset_names : AgentServices → List Integration → List Text
unfolding has_name
toolset_names s is =
    map (λ (i : Integration). i.name)
      (keep_if (λ i. i.is_provider && not (has_name i.name (unavailable s is))) is)

fragment_of : List Integration → Integration → Text
unfolding has_name
fragment_of missing i =
    if has_name i.name missing
    then codes "The " ++ (i.name ++ codes " integration is temporarily unavailable.")
    else i.fragment

finished : List Text → Result Answer → RunResult
unfolding failed_run
finished names (ok a) = record {
  output = a.output;
  usage = a.usage;
  status = succeeded;
  error = none;
}
finished names (err e) = failed_run names e

with_active :
    (Json → Text) → AgentServices → Text → ChannelState → Result (List Integration) → RunResult
unfolding failed_run fragment_of finished
with_active show s base state (err e) = failed_run [] e
with_active show s base state (ok is) =
    let instructions =
      build_instructions show base state (map (fragment_of (unavailable s is)) is) in
    finished (toolset_names s is) (s.answer instructions (attached s is))

with_snapshot :
    (Json → Text)
    → AgentServices
    → Text
    → Result (List Integration)
    → Result ChannelState
    → RunResult
unfolding failed_run with_active
with_snapshot show s base active (err e) = failed_run [] e
with_snapshot show s base active (ok state) = with_active show s base state active

-- `base` is the system prompt of the settings, or the default one.
unfoldable pub run :
    (Json → Text)
    → (List Text → List Text)
    → List Integration
    → Option Enabled
    → AgentServices
    → Text
    → RunResult
unfolding with_snapshot
run show sorted integrations enabled s base =
    with_snapshot show s base (active_integrations sorted integrations enabled) s.snapshot
