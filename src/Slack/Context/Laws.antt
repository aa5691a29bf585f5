-- ===== src/Slack/Context/Laws.antt =====
-- What an accepted event and a transcript have.
use henry.Prelude.{◌≡◌, ◌≢◌, false, [], arith}
use henry.Text.{Text, codes, ◌===◌, ===_iff}
use henry.Json.{Json, Fields, null, boolean, integer, float, str, arr, obj, get}
use henry.Result.{ok, raise_if, Ensures, Ensures-bind-with, Ensures-ok, Ensures-raise_if}
use henry.Contracts.{SlackEvent}
use henry.Slack.Context.{checked_event, event_of, build_slack_event}

nonempty : (t : Text) → (t === []) ≡ false → t ≢ []
nonempty t h e = absurd (ground (arith, ===_iff t []))

module _ (show : Json → Text) where
  -- The event can be answered and told from others.
  pub record IsComplete (e : SlackEvent) : Type 0 where
    pub has_id : e.event_id ≢ []
    pub has_channel : e.channel_id ≢ []
    pub has_thread : e.thread_ts ≢ []

  checked_event-IsComplete : (e : SlackEvent) → Ensures IsComplete (checked_event show e)
  unfolding checked_event
  checked_event-IsComplete e =
      Ensures-bind-with (raise_if (e.event_id === []) _) _ (Ensures-raise_if (e.event_id === []) _)
        (λ u a.
          Ensures-bind-with (raise_if (e.channel_id === []) _) _
            (Ensures-raise_if (e.channel_id === []) _)
            (λ v b.
              Ensures-bind-with (raise_if (e.thread_ts === []) _) _
                (Ensures-raise_if (e.thread_ts === []) _)
                (λ w c. Ensures-ok IsComplete e (record {
                  has_id = nonempty e.event_id a;
                  has_channel = nonempty e.channel_id b;
                  has_thread = nonempty e.thread_ts c;
                }))))

  event_of-IsComplete : (body : Fields) (v : Json) → Ensures IsComplete (event_of show body v)
  unfolding event_of
  event_of-IsComplete body (obj event) = checked_event-IsComplete _
  event_of-IsComplete body null = λ e h. absurd (cc)
  event_of-IsComplete body (boolean b) = λ e h. absurd (cc)
  event_of-IsComplete body (integer n) = λ e h. absurd (cc)
  event_of-IsComplete body (float t) = λ e h. absurd (cc)
  event_of-IsComplete body (str t) = λ e h. absurd (cc)
  event_of-IsComplete body (arr xs) = λ e h. absurd (cc)

  -- An event is accepted only with an event id, a channel and a thread to answer in: whatever JSON
  -- the body holds, no run starts that could not be deduplicated or replied to.
  pub build_slack_event-IsComplete :
      (body : Fields) (e : SlackEvent) → build_slack_event show body ≡ ok e → IsComplete e
  unfolding build_slack_event
  build_slack_event-IsComplete body = event_of-IsComplete body (get (codes "event") body)
