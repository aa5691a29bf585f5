-- ===== src/Slack/Dispatch.antt =====
-- dispatch_app_mention and the handlers of create_slack_app in henry/slack/app.py, and make_transcript_fetcher of
-- henry/slack/context.py. What acknowledging a delivery raises is a parameter.
pub mod Once
use henry.Prelude.{ℕ, Bool, Option, none, some, List, if◌then◌else◌}
use henry.Text.{Text, codes}
use henry.Json.{Json, Fields, arr, nil, get, truthy}
use henry.Result.{Result, ok, err, ◌>>=◌, ◌>>◌}
use henry.Contracts.{SlackEvent, ConversationTranscript}
use henry.Slack.Context.{build_slack_event, build_transcript}
use henry.Slack.App.{SlackCall, Traced, Client, Started, start_run}

module _ (show : Json → Text) where
  module _ {T : Type 0} (client : Client) (reserve : Option (T → Text → Result Bool × T)) where
    started : T → List SlackCall → Result SlackEvent → Traced Started × T
    started table calls (err e) = (record { calls = calls; result = err e }, table)
    started table calls (ok event) = start_run show client reserve table event calls

    -- The delivery is acknowledged first; a body that is no event starts nothing.
    unfoldable pub dispatch_app_mention :
        T → (ack : Result (Unit {0})) (body : Fields) → List SlackCall → Traced Started × T
    unfolding started
    dispatch_app_mention table ack body calls =
        started table calls (ack >> build_slack_event show body)

  -- `replies.get("messages") or ()`
  messages_or_none : Fields → Json
  messages_or_none replies =
      if truthy (get (codes "messages") replies) then get (codes "messages") replies else arr nil

  unfoldable pub fetch :
      (conversations_replies : (channel ts : Text) → (limit : ℕ) → Result Fields)
      → (bot_user_id : Option Text) → (limit : ℕ) → SlackEvent
      → Result ConversationTranscript
  unfolding messages_or_none
  fetch conversations_replies bot_user_id limit event = do
    replies ← conversations_replies event.channel_id event.thread_ts limit
    build_transcript show event.channel_id event.thread_ts (messages_or_none replies) bot_user_id

-- What the handler of other messages does.
pub handle_message : (ack : Result (Unit {0})) → Result (Unit {0})
handle_message ack = ack
