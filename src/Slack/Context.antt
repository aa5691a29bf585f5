-- ===== src/Slack/Context.antt =====
-- build_slack_event, build_transcript, _message_role and _messages_from_replies of
-- henry/slack/context.py. `show` is Python's `str` of a decoded JSON value that is no text.
pub mod Laws
use henry.Prelude.{
  ℕ, Bool, true, false, not, ◌&&◌, ◌||◌, Option, none, some, List, [], ◌∷◌, if◌then◌else◌,
}
use henry.Text.{Text, codes, ◌===◌}
use henry.Json.{Json, Fields, null, str, arr, obj, get, truthy, py_str, of_items}
use henry.Result.{Result, ok, err, value_error, type_error, ◌>>=◌, ◌>>◌, raise_if}
use henry.Contracts.{
  SlackEvent, ConversationTranscript, ThreadMessage, Role, user_role, assistant_role,
}

-- `str(value or "")`
unfoldable pub str_or_empty : (Json → Text) → Json → Text
str_or_empty show v = if truthy v then py_str show v else []

module _ (show : Json → Text) where
  -- The guards and the record, with the fields that were read.
  checked_event : SlackEvent → Result SlackEvent
  checked_event e = do
    raise_if (e.event_id === []) (value_error (codes "Slack body is missing outer event_id"))
    raise_if (e.channel_id === []) (value_error (codes "Slack event is missing channel"))
    raise_if (e.thread_ts === []) (value_error (codes "Slack event is missing thread timestamp"))
    ok e

  -- `event.get("thread_ts") or event_ts`
  thread_of : Json → Text → Text
  thread_of v event_ts = if truthy v then py_str show v else event_ts

  event_of : Fields → Json → Result SlackEvent
  unfolding checked_event thread_of
  event_of body (obj event) =
      let event_ts = str_or_empty show (get (codes "ts") event) in
      checked_event (record {
        channel_id = str_or_empty show (get (codes "channel") event);
        thread_ts = thread_of (get (codes "thread_ts") event) event_ts;
        user = str_or_empty show (get (codes "user") event);
        text = str_or_empty show (get (codes "text") event);
        event_id = str_or_empty show (get (codes "event_id") body);
        event_ts = event_ts;
        is_mention = true;
      })
  event_of body v = err (value_error (codes "Slack body is missing event payload"))

  unfoldable pub build_slack_event : Fields → Result SlackEvent
  unfolding event_of
  build_slack_event body = event_of body (get (codes "event") body)

  is_text : Text → Json → Bool
  is_text t (str s) = s === t
  is_text t v = false

  -- `if bot_user_id`: an empty id counts as none.
  is_own : Option Text → Json → Bool
  unfolding is_text
  is_own none user = false
  is_own (some id) user = not (id === []) && is_text id user

  unfoldable pub message_role : Fields → Option Text → Role
  unfolding is_own is_text
  message_role message bot_user_id =
      if is_own bot_user_id (get (codes "user") message)
      then assistant_role
      else if truthy (get (codes "bot_id") message)
          || is_text (codes "bot_message") (get (codes "subtype") message)
      then assistant_role
      else user_role

  -- A user or a timestamp: a text, or none.
  text_or_none : Json → Option Text
  text_or_none null = none
  text_or_none v = some (py_str show v)

  thread_message : Option Text → Fields → ThreadMessage
  unfolding text_or_none
  thread_message bot_user_id message = record {
    role = message_role message bot_user_id;
    text = str_or_empty show (get (codes "text") message);
    user = text_or_none (get (codes "user") message);
    ts = text_or_none (get (codes "ts") message);
  }

  -- `for message in ...`: a message without a text is passed over.
  transcript_messages : Option Text → List Json → Result (List ThreadMessage)
  unfolding thread_message
  transcript_messages bot_user_id [] = ok []
  transcript_messages bot_user_id (obj message ∷ messages) = do
    others ← transcript_messages bot_user_id messages
    ok (
        if str_or_empty show (get (codes "text") message) === []
        then others
        else thread_message bot_user_id message ∷ others)
  transcript_messages bot_user_id (v ∷ messages) = err (type_error (codes "message has no get"))

  -- A mapping has its messages under a key, and none if what stands there is no sequence.
  messages_of : Json → List Json
  messages_of (arr xs) = of_items xs
  messages_of v = []

  unfoldable pub messages_from_replies : Json → List Json
  unfolding messages_of
  messages_from_replies (obj replies) = messages_of (get (codes "messages") replies)
  messages_from_replies v = messages_of v

  unfoldable pub build_transcript : Text → Text → Json → Option Text → Result ConversationTranscript
  unfolding transcript_messages
  build_transcript channel_id thread_ts replies bot_user_id = do
    messages ← transcript_messages bot_user_id (messages_from_replies replies)
    ok (record { channel_id = channel_id; thread_ts = thread_ts; messages = messages })
