-- ===== src/Orchestrator/Handle.antt =====
-- handle_request of henry/orchestrator/runner.py with _error_result and _display_output. What it
-- calls is a parameter each of which may raise; the calls with effects are kept in order.
pub mod Tried
pub mod Laws
use henry.Prelude.{
  ℕ, zero, Bool, true, false, ◌≡◌, Option, none, some, List, [], ◌∷◌, ◌++◌, if◌then◌else◌,
}
use mathlib.Core.Option
use henry.Text.{Text, codes, ◌===◌}
use henry.Result.{Result, ok, err, Error, ◌>>=◌, ◌>>◌, message}
use henry.Contracts.{
  RunUsage, no_usage, RunStatus, succeeded, budget_exceeded, failed, RunResult, SlackEvent,
  ChannelContext, ConversationTranscript, ResolvedConfig,
}
use henry.Slack.Split.{split_for_slack, default_slack_chunk_limit}

pub record AuditRecord : Type 0 where
  pub run_id : Text
  pub channel_id : Text
  pub thread_ts : Text
  pub actor : Text
  pub action : Text
  pub model : Text
  pub input_tokens : ℕ
  pub output_tokens : ℕ
  pub cost_usd : Option Text
  pub latency_ms : ℕ
  pub status : RunStatus
  pub error : Option Text
  pub integration : Text

pub error_result : Error → RunResult
error_result exc = record {
  output = codes "I hit an internal error while handling that request.";
  usage = no_usage;
  status = failed;
  error = some (message exc);
}

status_output : RunStatus → Text
status_output budget_exceeded = codes "I stopped because this request hit its budget limit."
status_output failed = codes "I hit an internal error while handling that request."
status_output succeeded = []

unfoldable pub display_output : RunResult → Text
unfolding status_output
display_output result = if result.output === [] then status_output result.status else result.output

-- The calls of a request that have effects.
pub data Call (Deps : Type 0) : Type 0 where
  run_agent : Deps → Call Deps
  refresh : Text → Call Deps
  clean_up : Deps → Call Deps
  audited : AuditRecord → Call Deps

-- What the orchestrator is given.
pub record Services (Deps : Type 0) : Type 0 where
  pub config_loader : SlackEvent → Result ResolvedConfig
  pub transcript_fetcher : SlackEvent → Result ConversationTranscript
  pub deps_factory : ChannelContext → ResolvedConfig → Result Deps
  pub run : Deps → Text → ConversationTranscript → Result RunResult
  pub refresh_snapshot : Text → ConversationTranscript → Result (Unit {0})
  pub cleanup : Option (Deps → Result (Unit {0}))
  pub audit_sink : AuditRecord → Result (Unit {0})

-- The state of the variables after the try block, with the calls so far.
pub record Attempt (Deps : Type 0) : Type 0 where
  pub config : Option ResolvedConfig
  pub deps : Option Deps
  pub result : RunResult
  pub calls : List (Call Deps)

pub record Handled (Deps : Type 0) : Type 0 where
  pub calls : List (Call Deps)
  pub reply : Result (List Text)

config_model : Option ResolvedConfig → Text
config_model none = []
config_model (some config) = config.model

-- `event.user or None`
text_or_none : Text → Option Text
text_or_none [] = none
text_or_none (c ∷ t) = some (c ∷ t)

module _ {Deps : Type 0} where
  -- The except clause.
  excepted : Option ResolvedConfig → Option Deps → List (Call Deps) → Error → Attempt Deps
  excepted config deps calls exc = record {
    config = config;
    deps = deps;
    result = error_result exc;
    calls = calls;
  }

  after_refresh :
      ResolvedConfig → Deps → RunResult → List (Call Deps) → Result (Unit {0}) → Attempt Deps
  unfolding excepted
  after_refresh config deps result calls (err e) = excepted (some config) (some deps) calls e
  after_refresh config deps result calls (ok u) = record {
    config = some config;
    deps = some deps;
    result = result;
    calls = calls;
  }

  -- `if result.status == "ok"`
  after_status :
      Services Deps
      → SlackEvent
      → ResolvedConfig
      → ConversationTranscript
      → Deps
      → RunResult
      → RunStatus
      → Attempt Deps
  unfolding after_refresh
  after_status s event config transcript deps result succeeded =
      after_refresh config deps result (run_agent deps ∷ refresh event.channel_id ∷ [])
        (s.refresh_snapshot event.channel_id transcript)
  after_status s event config transcript deps result status = record {
    config = some config;
    deps = some deps;
    result = result;
    calls = run_agent deps ∷ [];
  }

  after_run :
      Services Deps
      → SlackEvent
      → ResolvedConfig
      → ConversationTranscript
      → Deps
      → Result RunResult
      → Attempt Deps
  unfolding excepted after_status
  after_run s event config transcript deps (err e) =
      excepted (some config) (some deps) (run_agent deps ∷ []) e
  after_run s event config transcript deps (ok result) =
      after_status s event config transcript deps result result.status

  after_deps :
      Services Deps
      → SlackEvent
      → ResolvedConfig
      → ConversationTranscript
      → Result Deps
      → Attempt Deps
  unfolding excepted after_run
  after_deps s event config transcript (err e) = excepted (some config) none [] e
  after_deps s event config transcript (ok deps) =
      after_run s event config transcript deps (s.run deps event.text transcript)

  after_transcript :
      Services Deps
      → ChannelContext
      → SlackEvent
      → ResolvedConfig
      → Result ConversationTranscript
      → Attempt Deps
  unfolding excepted after_deps
  after_transcript s ctx event config (err e) = excepted (some config) none [] e
  after_transcript s ctx event config (ok transcript) =
      after_deps s event config transcript (s.deps_factory ctx config)

  after_config : Services Deps → ChannelContext → SlackEvent → Result ResolvedConfig → Attempt Deps
  unfolding excepted after_transcript
  after_config s ctx event (err e) = excepted none none [] e
  after_config s ctx event (ok config) =
      after_transcript s ctx event config (s.transcript_fetcher event)

  -- The finally clause: the calls of it, and whether it raises.
  cleaned : Option (Deps → Result (Unit {0})) → Option Deps → List (Call Deps) × Result (Unit {0})
  cleaned none deps = ([], ok tt)
  cleaned (some hook) none = ([], ok tt)
  cleaned (some hook) (some deps) = (clean_up deps ∷ [], hook deps)

  pub audit_record : Text → SlackEvent → ℕ → Attempt Deps → AuditRecord
  unfolding config_model
  audit_record run_id event latency_ms a = record {
    run_id = run_id;
    channel_id = event.channel_id;
    thread_ts = event.thread_ts;
    actor = event.user;
    action = codes "agent.run";
    model = config_model a.config;
    input_tokens = a.result.usage.input_tokens;
    output_tokens = a.result.usage.output_tokens;
    cost_usd = a.result.usage.cost_usd;
    latency_ms = latency_ms;
    status = a.result.status;
    error = a.result.error;
    integration = [];
  }

  -- What follows the try statement.
  after_finally :
      Services Deps
      → AuditRecord
      → Attempt Deps
      → List (Call Deps) × Result (Unit {0})
      → Handled Deps
  after_finally s entry a (cleans, err e) = record { calls = a.calls ++ cleans; reply = err e }
  after_finally s entry a (cleans, ok u) = record {
    calls = a.calls ++ (cleans ++ audited entry ∷ []);
    reply =
        s.audit_sink entry >> split_for_slack default_slack_chunk_limit (display_output a.result);
  }

  pub attempt : Services Deps → Text → SlackEvent → Attempt Deps
  unfolding after_config text_or_none
  attempt s run_id event =
      let ctx : ChannelContext = record {
        channel_id = event.channel_id;
        thread_ts = event.thread_ts;
        actor_user_id = text_or_none event.user;
        run_id = run_id;
      } in
      after_config s ctx event (s.config_loader event)

  -- The request, inside the lock of its thread.
  unfoldable pub handle_request : Services Deps → Text → ℕ → SlackEvent → Handled Deps
  unfolding attempt cleaned audit_record after_finally
  handle_request s run_id latency_ms event =
      let a = attempt s run_id event in
      after_finally s (audit_record run_id event latency_ms a) a (cleaned s.cleanup a.deps)
