-- ===== src/Orchestrator/Handle/Tried.antt =====
-- What the try block of a request leaves: the calls that it made, and when it says that all went well.
use henry.Prelude.{◌≡◌, refl, Option, none, some, List, [], ◌∷◌, ◌++◌}
use henry.Text.{Text}
use henry.Result.{Result, ok, err, Error}
use henry.Contracts.{
  RunStatus, succeeded, budget_exceeded, failed, RunResult, SlackEvent, ChannelContext,
  ConversationTranscript, ResolvedConfig,
}
use henry.Orchestrator.Handle.{
  AuditRecord, Call, run_agent, refresh, clean_up, audited, Services, Attempt, excepted,
  after_refresh, after_status, after_run, after_deps, after_transcript, after_config, attempt,
  error_result,
}

module _ {Deps : Type 0} where
  -- The calls of one kind.
  abbrev pub audits : List (Call Deps) → List AuditRecord
  audits [] = []
  audits (audited r ∷ calls) = r ∷ audits calls
  audits (run_agent d ∷ calls) = audits calls
  audits (refresh c ∷ calls) = audits calls
  audits (clean_up d ∷ calls) = audits calls

  abbrev pub runs : List (Call Deps) → List Deps
  runs [] = []
  runs (run_agent d ∷ calls) = d ∷ runs calls
  runs (audited r ∷ calls) = runs calls
  runs (refresh c ∷ calls) = runs calls
  runs (clean_up d ∷ calls) = runs calls

  abbrev pub cleans : List (Call Deps) → List Deps
  cleans [] = []
  cleans (clean_up d ∷ calls) = d ∷ cleans calls
  cleans (audited r ∷ calls) = cleans calls
  cleans (refresh c ∷ calls) = cleans calls
  cleans (run_agent d ∷ calls) = cleans calls

  abbrev pub option_list : Option Deps → List Deps
  option_list none = []
  option_list (some d) = d ∷ []

  -- What a success stands on.
  pub record Succeeded (s : Services Deps) (event : SlackEvent) (result : RunResult) : Type 0 where
    pub transcript : ConversationTranscript
    pub deps : Deps
    pub ran : s.run deps event.text transcript ≡ ok result
    pub refreshed : s.refresh_snapshot event.channel_id transcript ≡ ok tt

  -- After the try statement nothing is cleaned or audited yet, and the agent ran if and only if its
  -- dependencies were built.
  pub record Sound (s : Services Deps) (event : SlackEvent) (a : Attempt Deps) : Type 0 where
    pub audit_free : (tail : List (Call Deps)) → audits (a.calls ++ tail) ≡ audits tail
    pub clean_free : (tail : List (Call Deps)) → cleans (a.calls ++ tail) ≡ cleans tail
    pub run_once :
        (tail : List (Call Deps)) → runs (a.calls ++ tail) ≡ option_list a.deps ++ runs tail
    pub success : a.result.status ≡ succeeded → Succeeded s event a.result

  quiet :
      (s : Services Deps) (event : SlackEvent) (config : Option ResolvedConfig) (e : Error)
      → Sound s event (excepted config none [] e)
  unfolding excepted error_result
  quiet s event config e = record {
    audit_free = λ tail. refl;
    clean_free = λ tail. refl;
    run_once = λ tail. refl;
    success = λ h. absurd (cc);
  }

  after_refresh-Sound :
      (s : Services Deps) (event : SlackEvent) (config : ResolvedConfig) (deps : Deps)
      (transcript : ConversationTranscript) (result : RunResult) (m : Result (Unit {0}))
      → s.run deps event.text transcript ≡ ok result
      → s.refresh_snapshot event.channel_id transcript ≡ m
      → Sound s event
          (after_refresh config deps result (run_agent deps ∷ refresh event.channel_id ∷ []) m)
  unfolding after_refresh excepted error_result
  after_refresh-Sound s event config deps transcript result (err e) r f = record {
    audit_free = λ tail. refl;
    clean_free = λ tail. refl;
    run_once = λ tail. refl;
    success = λ h. absurd (cc);
  }
  after_refresh-Sound s event config deps transcript result (ok u) r f = record {
    audit_free = λ tail. refl;
    clean_free = λ tail. refl;
    run_once = λ tail. refl;
    success = λ h. record { transcript = transcript; deps = deps; ran = r; refreshed = f };
  }

  ended-Sound :
      (s : Services Deps) (event : SlackEvent) (config : ResolvedConfig) (deps : Deps)
      (result : RunResult)
      → (result.status ≡ succeeded → Succeeded s event result)
      → Sound s event (record {
        config = some config;
        deps = some deps;
        result = result;
        calls = run_agent deps ∷ [];
      })
  ended-Sound s event config deps result h = record {
    audit_free = λ tail. refl;
    clean_free = λ tail. refl;
    run_once = λ tail. refl;
    success = h;
  }

  after_status-Sound :
      (s : Services Deps) (event : SlackEvent) (config : ResolvedConfig)
      (transcript : ConversationTranscript) (deps : Deps) (result : RunResult)
      → s.run deps event.text transcript ≡ ok result
      → (status : RunStatus) → result.status ≡ status
      → Sound s event (after_status s event config transcript deps result status)
  unfolding after_status
  after_status-Sound s event config transcript deps result r succeeded e =
      after_refresh-Sound s event config deps transcript result _ r refl
  after_status-Sound s event config transcript deps result r budget_exceeded e =
      ended-Sound s event config deps result (λ h. absurd (cc))
  after_status-Sound s event config transcript deps result r failed e =
      ended-Sound s event config deps result (λ h. absurd (cc))

  after_run-Sound :
      (s : Services Deps) (event : SlackEvent) (config : ResolvedConfig)
      (transcript : ConversationTranscript) (deps : Deps) (m : Result RunResult)
      → s.run deps event.text transcript ≡ m
      → Sound s event (after_run s event config transcript deps m)
  unfolding after_run excepted error_result
  after_run-Sound s event config transcript deps (err e) r = record {
    audit_free = λ tail. refl;
    clean_free = λ tail. refl;
    run_once = λ tail. refl;
    success = λ h. absurd (cc);
  }
  after_run-Sound s event config transcript deps (ok result) r =
      after_status-Sound s event config transcript deps result r result.status refl

  after_deps-Sound :
      (s : Services Deps) (event : SlackEvent) (config : ResolvedConfig)
      (transcript : ConversationTranscript) (m : Result Deps)
      → Sound s event (after_deps s event config transcript m)
  unfolding after_deps
  after_deps-Sound s event config transcript (err e) = quiet s event (some config) e
  after_deps-Sound s event config transcript (ok deps) =
      after_run-Sound s event config transcript deps (s.run deps event.text transcript) refl

  after_transcript-Sound :
      (s : Services Deps) (ctx : ChannelContext) (event : SlackEvent) (config : ResolvedConfig)
      (m : Result ConversationTranscript)
      → Sound s event (after_transcript s ctx event config m)
  unfolding after_transcript
  after_transcript-Sound s ctx event config (err e) = quiet s event (some config) e
  after_transcript-Sound s ctx event config (ok transcript) =
      after_deps-Sound s event config transcript (s.deps_factory ctx config)

  after_config-Sound :
      (s : Services Deps) (ctx : ChannelContext) (event : SlackEvent) (m : Result ResolvedConfig)
      → Sound s event (after_config s ctx event m)
  unfolding after_config
  after_config-Sound s ctx event (err e) = quiet s event none e
  after_config-Sound s ctx event (ok config) =
      after_transcript-Sound s ctx event config (s.transcript_fetcher event)

  pub attempt-Sound :
      (s : Services Deps) (run_id : Text) (event : SlackEvent)
      → Sound s event (attempt s run_id event)
  unfolding attempt
  attempt-Sound s run_id event = after_config-Sound s _ event (s.config_loader event)
