-- ===== src/Orchestrator/Tests.antt =====
-- Runs of the models of henry/orchestrator.
use henry.Prelude.{ℕ, ◌≡◌, refl, subst, true, false, none, some, List, [], ◌∷◌, concat}
use henry.Text.{Text, codes, text_ops}
use henry.Json.{done}
use henry.Result.{Result, ok, err, value_error}
use henry.Contracts.{RunResult, no_usage, succeeded, SlackEvent, ResolvedConfig, every}
use henry.Orchestrator.Handle.{Services, AuditRecord, handle_request, display_output}
use henry.Orchestrator.Handle.Laws.{handle_request_lem, handle_request-cleans}
use henry.Orchestrator.Handle.Tried.{audits, cleans, runs, Succeeded}
use henry.Dict.{lookup, insert}
use henry.Orchestrator.Locks.{ThreadLocks, no_locks, ask, enter, get_lock}
use henry.Orchestrator.Locks.Exclusive.{here, next, asks, enters, Inside, mutual_exclusion}

abbrev event : SlackEvent
event = record {
  channel_id = codes "C1";
  thread_ts = codes "1.0";
  user = codes "U1";
  text = codes "hello";
  event_id = codes "E1";
  event_ts = codes "1.0";
  is_mention = true;
}

abbrev config : ResolvedConfig
config = record {
  model = codes "m";
  enabled_integrations = every;
  system_prompt = [];
  ambient_on = false;
  budget_caps = done;
}

abbrev answered : RunResult
answered = record { output = codes "hi"; usage = no_usage; status = succeeded; error = none }

-- The agent answers and the memory cannot be refreshed.
abbrev services : Services Text
services = record {
  config_loader = λ e. ok config;
  transcript_fetcher =
      λ e. ok (record { channel_id = codes "C1"; thread_ts = codes "1.0"; messages = [] });
  deps_factory = λ ctx c. ok ctx.run_id;
  run = λ deps text transcript. ok answered;
  refresh_snapshot = λ c transcript. err (value_error (codes "no database"));
  cleanup = some (λ deps. ok tt);
  audit_sink = λ r. ok tt;
}

hook_fine :
    (hook : Text → Result (Unit {0})) (deps : Text)
    → services.cleanup ≡ some hook
    → hook deps ≡ ok tt
hook_fine hook deps e =
    let same : ◌≡◌ {A = Text → Result (Unit {0})} (λ d. ok tt) hook = cc e in
    subst (λ h. h deps ≡ ok tt) same refl

handle_request_lem_example :
    let h = handle_request services (codes "r1") 5 event in
    (entry : AuditRecord) × (result : RunResult) × (audits h.calls ≡ entry ∷ [])
    × (entry.run_id ≡ codes "r1")
    × (entry.channel_id ≡ event.channel_id)
    × (entry.thread_ts ≡ event.thread_ts)
    × (entry.actor ≡ event.user)
    × (entry.status ≡ result.status)
    × (entry.status ≡ succeeded → Succeeded services event result)
    × (services.audit_sink entry ≡ ok tt
        → (chunks : List Text) × (h.reply ≡ ok chunks) × (concat chunks ≡ display_output result))
handle_request_lem_example = handle_request_lem services (codes "r1") 5 event hook_fine

handle_request-cleans_example :
    let h = handle_request services (codes "r1") 5 event in cleans h.calls ≡ runs h.calls
handle_request-cleans_example =
    handle_request-cleans services (codes "r1") 5 event (λ deps. ok tt) refl

-- A table whose key is the event's id.
-- Two tasks ask for one thread, and the second gets in.
abbrev thread : Text
thread = 2 ∷ codes "C11.0"

abbrev both_asked : ThreadLocks
both_asked = ask (ask no_locks 1 thread) 2 thread

abbrev second_inside : ThreadLocks
second_inside = enter both_asked 2 0

second-Inside : Inside second_inside 2 thread
unfolding ask get_lock enter lookup insert text_ops
second-Inside = record { lock = 0; got = refl; holds = refl }

mutual_exclusion_example : ◌≡◌ {A = ℕ} 2 2
unfolding ask get_lock enter lookup insert text_ops
mutual_exclusion_example =
    mutual_exclusion second_inside 2 2 thread
      (next (next (next here (asks 1 thread refl)) (asks 2 thread refl))
        (enters 2 thread 0 refl refl))
      second-Inside second-Inside
