-- ===== src/Orchestrator/Handle/Laws.antt =====
-- The course of a request: what it audits, what it cleans up and what it replies.
use henry.Prelude.{ℕ, ◌≡◌, refl, ◌⊎◌, inl, inr, Option, none, some, List, [], ◌∷◌, concat, arith}
use henry.Text.{Text, ◌===◌}
use henry.Result.{Result, ok, err, Error, ◌>>◌}
use henry.Contracts.{succeeded, RunResult, SlackEvent}
use henry.Slack.Split.{split_for_slack, default_slack_chunk_limit}
use henry.Slack.Split.Laws.{split_for_slack_lem}
use henry.Orchestrator.Handle.{
  AuditRecord, clean_up, audited, Services, Attempt, Handled, cleaned, audit_record, after_finally,
  attempt, handle_request, display_output,
}
use henry.Orchestrator.Handle.Tried.{audits, runs, cleans, Succeeded, Sound, attempt-Sound}

split_total :
    (text : Text)
    → (chunks : List Text) × (split_for_slack default_slack_chunk_limit text ≡ ok chunks)
      × (concat chunks ≡ text)
unfolding ◌===◌
split_total [] = ([] ∷ [], unfold split_for_slack in refl, refl)
split_total (c ∷ text) =
    let (chunks, split, same, sizes) =
      split_for_slack_lem default_slack_chunk_limit (c ∷ text) (omega arith) (λ q. cc) in
    (chunks, split, same)

module _ {Deps : Type 0} where
  -- What a request leaves in the audit log and returns.
  abbrev pub Answered : Services Deps → Text → ℕ → SlackEvent → Attempt Deps → Handled Deps → Type 0
  Answered s run_id ms event a h =
      let entry = audit_record run_id event ms a in
      (audits h.calls ≡ entry ∷ [])
      × (h.reply ≡ (
          s.audit_sink entry
          >> split_for_slack default_slack_chunk_limit (display_output a.result)))

  abbrev pub Aborted : Services Deps → Handled Deps → Type 0
  Aborted s h =
      (hook : Deps → Result (Unit {0})) × (deps : Deps) × (e : Error) × (s.cleanup ≡ some hook)
      × (hook deps ≡ err e)
      × (h.reply ≡ err e)
      × (audits h.calls ≡ [])

  finally-course :
      (s : Services Deps) (run_id : Text) (ms : ℕ) (event : SlackEvent) (a : Attempt Deps)
      (hook : Option (Deps → Result (Unit {0}))) (deps : Option Deps)
      → Sound s event a
      → s.cleanup ≡ hook
      → Answered s run_id ms event a
          (after_finally s (audit_record run_id event ms a) a (cleaned hook deps))
        ⊎ Aborted s (after_finally s (audit_record run_id event ms a) a (cleaned hook deps))
  unfolding after_finally cleaned
  finally-course s run_id ms event a none deps v c = inl (v.audit_free _, refl)
  finally-course s run_id ms event a (some hook) none v c = inl (v.audit_free _, refl)
  finally-course s run_id ms event a (some hook) (some deps) v c = hooked (hook deps) refl
    where
      hooked :
          (m : Result (Unit {0}))
          → hook deps ≡ m
          → Answered s run_id ms event a
              (after_finally s (audit_record run_id event ms a) a (clean_up deps ∷ [], m))
            ⊎ Aborted s (after_finally s (audit_record run_id event ms a) a (clean_up deps ∷ [], m))
      hooked (ok u) h = inl (v.audit_free _, refl)
      hooked (err e) h = inr (hook, deps, e, c, h, refl, v.audit_free _)

  finally-cleans :
      (s : Services Deps) (entry : AuditRecord) (event : SlackEvent) (a : Attempt Deps)
      (hook : Deps → Result (Unit {0})) (deps : Option Deps)
      → Sound s event a
      → a.deps ≡ deps
      → let h = after_finally s entry a (cleaned (some hook) deps) in cleans h.calls ≡ runs h.calls
  unfolding after_finally cleaned
  finally-cleans s entry event a hook none v d =
      cc (v.clean_free (audited entry ∷ []), v.run_once (audited entry ∷ []), d)
  finally-cleans s entry event a hook (some deps) v d = hooked (hook deps)
    where
      hooked :
          (m : Result (Unit {0}))
          → let h = after_finally s entry a (clean_up deps ∷ [], m) in cleans h.calls ≡ runs h.calls
      hooked (ok u) = cc (
        v.clean_free (clean_up deps ∷ audited entry ∷ []),
        v.run_once (clean_up deps ∷ audited entry ∷ []),
        d,
      )
      hooked (err e) = cc (v.clean_free (clean_up deps ∷ []), v.run_once (clean_up deps ∷ []), d)

  request-course :
      (s : Services Deps) (run_id : Text) (ms : ℕ) (event : SlackEvent)
      → let h = handle_request s run_id ms event in
        Answered s run_id ms event (attempt s run_id event) h ⊎ Aborted s h
  unfolding handle_request
  request-course s run_id ms event =
      let a = attempt s run_id event in
      finally-course s run_id ms event a s.cleanup a.deps (attempt-Sound s run_id event) refl

  -- With a cleanup hook, the dependencies that are cleaned up are exactly those an agent run was
  -- started with, each once, however the run, the refresh of the memory or the hook itself ends.
  pub handle_request-cleans :
      (s : Services Deps) (run_id : Text) (ms : ℕ) (event : SlackEvent)
      (hook : Deps → Result (Unit {0}))
      → s.cleanup ≡ some hook
      → let h = handle_request s run_id ms event in cleans h.calls ≡ runs h.calls
  handle_request-cleans s run_id ms event hook c =
      let a = attempt s run_id event in
      unfold handle_request in
      simp c (
        finally-cleans s (audit_record run_id event ms a) event a hook a.deps
          (attempt-Sound s run_id event) refl)

  -- Every request whose cleanup does not raise writes exactly one audit record, for its own run,
  -- channel, thread and user; the record says "ok" only if the agent answered and the memory was
  -- refreshed. If the audit log takes the record, the reply is a list of messages that together
  -- are the text to display for a result of the status that was recorded: no exception of the
  -- configuration, the transcript, the dependencies, the run or the memory leaves the request.
  pub handle_request_lem :
      (s : Services Deps) (run_id : Text) (ms : ℕ) (event : SlackEvent)
      → ((hook : Deps → Result (Unit {0})) (deps : Deps)
          → s.cleanup ≡ some hook
          → hook deps ≡ ok tt)
      → let h = handle_request s run_id ms event in
        (entry : AuditRecord) × (result : RunResult) × (audits h.calls ≡ entry ∷ [])
        × (entry.run_id ≡ run_id)
        × (entry.channel_id ≡ event.channel_id)
        × (entry.thread_ts ≡ event.thread_ts)
        × (entry.actor ≡ event.user)
        × (entry.status ≡ result.status)
        × (entry.status ≡ succeeded → Succeeded s event result)
        × (s.audit_sink entry ≡ ok tt
            → (chunks : List Text) × (h.reply ≡ ok chunks)
              × (concat chunks ≡ display_output result))
  unfolding audit_record
  handle_request_lem s run_id ms event fine =
      let a = attempt s run_id event in
      let entry = audit_record run_id event ms a in
      let v = attempt-Sound s run_id event in
      let (chunks, split, same) = split_total (display_output a.result) in
      elim (request-course s run_id ms event) [
        | inl answered ↦ (
          entry,
          a.result,
          answered.0,
          refl,
          refl,
          refl,
          refl,
          refl,
          v.success,
          λ logged. (chunks, cc, same),
        )
        | inr aborted ↦ absurd (
            let (hook, deps, e, c, raised, replied, unlogged) = aborted in
            cc (fine hook deps c, raised))
      ]
