-- ===== src/Slack/Tests.antt =====
-- Runs of the models of henry/slack.
use henry.Prelude.{
  if◌then◌else◌, ◌+◌, ◌≡◌, refl, true, List, [], ◌∷◌, ◌++◌, concat, length, All, arith,
}
use henry.Text.{Text, codes, text_ops}
use henry.Json.{Json, Fields, done, field, str, obj}
use henry.Result.{Result, ok, err, Error, integrity_error}
use henry.Contracts.{SlackEvent}
use henry.Slack.Split.{split_for_slack, newline}
use henry.Slack.Split.Laws.{split_for_slack_lem, Fits}
use henry.Slack.Split.Overlong.{split_for_slack_exceeds}
use henry.Slack.Context.{build_slack_event}
use henry.Slack.Dispatch.Once.{Delivery, event_ids, placeholders, dispatch_app_mention-once}
use henry.Orchestrator.Dedupe.Once.{IsKeyed, is_listed}
use henry.Slack.App.{Client, run_and_update_slack}
use henry.Slack.App.Laws.{run_and_update_slack-Made, Made, reply_calls}

split_for_slack_lem_example :
    (chunks : List Text) × (split_for_slack 4 (codes "abcdefg") ≡ ok chunks)
    × (concat chunks ≡ codes "abcdefg")
    × All (Fits 4) chunks
unfolding codes
split_for_slack_lem_example =
    split_for_slack_lem 4 (codes "abcdefg") (omega arith) (λ e. absurd (cc))

split_for_slack_exceeds_example :
    (chunks : List Text) × (split_for_slack 3 (codes "abc" ++ newline ∷ codes "de")
      ≡ ok ((codes "abc" ++ newline ∷ []) ∷ chunks))
    × (length (codes "abc" ++ newline ∷ []) ≡ 3 + 1)
unfolding codes
split_for_slack_exceeds_example =
    split_for_slack_exceeds 3 (codes "abc") (codes "de") (omega arith) refl (λ e. absurd (cc))

abbrev event : SlackEvent
event = record {
  channel_id = codes "C1";
  thread_ts = codes "1.0";
  user = codes "U1";
  text = codes "hello";
  event_id = codes "E1";
  event_ts = codes "1.0";
  is_mention = true;
}

abbrev client : Client
client calls call = ok done

abbrev two_chunks : SlackEvent → Result (List Text)
two_chunks e = ok (codes "a" ∷ codes "b" ∷ [])

run_and_update_slack-Made_example :
    let t = run_and_update_slack client two_chunks event (codes "2.0") [] in
    ((chunks : List Text)
      → two_chunks event ≡ ok chunks
      → Made client ([] ++ reply_calls event (codes "2.0") chunks) t)
    × ((e : Error)
        → two_chunks event ≡ err e
        → Made client
            ([]
              ++ reply_calls event
                  (codes "2.0")
                  (codes "I hit an internal error while handling that request." ∷ []))
            t)
run_and_update_slack-Made_example =
    run_and_update_slack-Made client two_chunks event (codes "2.0") []

abbrev show : Json → Text
show v = []

-- A table that has event_id as its key, and two deliveries of one mention.
abbrev add_event : Text → List Text → Result (List Text)
add_event id table = if is_listed id table then err (integrity_error []) else ok (id ∷ table)

add_event-IsKeyed : IsKeyed add_event
add_event-IsKeyed id table = (λ h. rw h refl, λ h. ([], rw h refl))

abbrev mention : Fields
mention = field (codes "event_id") (str (codes "E1")) (
    field (codes "event")
      (obj
        (field (codes "channel") (str (codes "C1")) (field (codes "ts") (str (codes "1.0")) done)))
      done)

abbrev twice : List Delivery
twice = record { ack = ok tt; body = mention } ∷ record { ack = ok tt; body = mention } ∷ []

twice_ids : event_ids (λ v. []) twice ≡ codes "E1" ∷ codes "E1" ∷ []
unfolding event_ids build_slack_event henry.Json.get henry.Json.truthy codes henry.Text.◌===◌
    henry.Json.py_str henry.Slack.Context.str_or_empty
twice_ids = refl

dispatch_app_mention-once_example :
    placeholders (λ v. []) client add_event (codes "E1") [] twice ≡ (
      if is_listed (codes "E1") []
      then 0
      else if is_listed (codes "E1") (event_ids (λ v. []) twice)
      then 1
      else 0)
dispatch_app_mention-once_example =
    dispatch_app_mention-once (λ v. []) client add_event add_event-IsKeyed (codes "E1") [] twice

split_at_newlines :
    split_for_slack 4 (codes "ab\ncdefgh\n\ni")
    ≡ ok (codes "ab\n" ∷ codes "cdef" ∷ codes "gh\n\n" ∷ codes "i" ∷ [])
unfolding split_for_slack text_ops
split_at_newlines = refl
