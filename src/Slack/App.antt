-- ===== src/Slack/App.antt =====
-- _start_run and _run_and_update_slack of henry/slack/app.py. The client is a
-- parameter: what a call returns or raises, given the calls before it.
pub mod Laws
use henry.Prelude.{
  ℕ, Bool, true, false, not, ◌≡◌, Option, none, some, List, [], ◌∷◌, ◌++◌, if◌then◌else◌,
}
use henry.Text.{Text, codes, ◌===◌}
use henry.Json.{Json, Fields, get, truthy, py_str, str}
use henry.Result.{Result, ok, err, Error, ◌>>=◌, ◌>>◌}
use henry.Contracts.{SlackEvent}
use henry.Slack.Context.{str_or_empty}

pub data SlackCall : Type 0 where
  chat_post : Text → Text → Text → SlackCall
  chat_update : Text → Text → Text → SlackCall

-- The calls that were made, the last of which may have raised.
pub record Traced (A : Type 0) : Type 0 where
  pub calls : List SlackCall
  pub result : Result A

abbrev pub Client : Type 0
Client = List SlackCall → SlackCall → Result Fields

internal_error : Text
internal_error = codes "I hit an internal error while handling that request."

-- What follows a call, unless it raised.
after_call : List SlackCall → Result Fields → Traced (Unit {0}) → Traced (Unit {0})
after_call calls (ok response) next = next
after_call calls (err e) next = record { calls = calls; result = err e }

-- `for chunk in rest`
post_all : Client → SlackEvent → List SlackCall → List Text → Traced (Unit {0})
unfolding after_call
post_all client event calls [] = record { calls = calls; result = ok tt }
post_all client event calls (chunk ∷ chunks) =
    let call = chat_post event.channel_id event.thread_ts chunk in
    after_call (calls ++ call ∷ []) (client calls call)
      (post_all client event (calls ++ call ∷ []) chunks)

update_and_post : Client → SlackEvent → Text → List SlackCall → Text → List Text → Traced (Unit {0})
unfolding after_call post_all
update_and_post client event placeholder_ts calls first others =
    let call = chat_update event.channel_id placeholder_ts first in
    after_call (calls ++ call ∷ []) (client calls call)
      (post_all client event (calls ++ call ∷ []) others)

-- `chunks or [""]`
deliver : Client → SlackEvent → Text → List SlackCall → List Text → Traced (Unit {0})
unfolding update_and_post
deliver client event placeholder_ts calls [] =
    update_and_post client event placeholder_ts calls [] []
deliver client event placeholder_ts calls (first ∷ others) =
    update_and_post client event placeholder_ts calls first others

-- What the orchestrator returned, or the text of a failure.
chunks_of : Result (List Text) → List Text
unfolding internal_error
chunks_of (ok chunks) = chunks
chunks_of (err e) = internal_error ∷ []

unfoldable pub run_and_update_slack :
    Client
    → (SlackEvent → Result (List Text))
    → SlackEvent
    → Text
    → List SlackCall
    → Traced (Unit {0})
unfolding deliver chunks_of
run_and_update_slack client orchestrator event placeholder_ts calls =
    deliver client event placeholder_ts calls (chunks_of (orchestrator event))

-- What a start ends in: no run, or a task that updates the placeholder.
pub data Started : Type 0 where
  skipped : Started
  task : SlackEvent → Text → Started

working : Text
working = codes "Working on it..."

post_placeholder : (Json → Text) → Client → SlackEvent → List SlackCall → Traced Started
unfolding working
post_placeholder show client event calls =
    let call = chat_post event.channel_id event.thread_ts working in
    record {
      calls = calls ++ call ∷ [];
      result = client calls call >>= λ r. ok (task event (str_or_empty show (get (codes "ts") r)));
    }

-- The deduper's answer, if there is one.
unfoldable pub after_reserve :
    (Json → Text) → Client → SlackEvent → List SlackCall → Result Bool → Traced Started
unfolding post_placeholder
after_reserve show client event calls (err e) = record { calls = calls; result = err e }
after_reserve show client event calls (ok false) = record { calls = calls; result = ok skipped }
after_reserve show client event calls (ok true) = post_placeholder show client event calls

unfoldable pub start_run :
    {T : Type 0}
    → (Json → Text)
    → Client
    → Option (T → Text → Result Bool × T)
    → T
    → SlackEvent
    → List SlackCall
    → Traced Started × T
unfolding after_reserve post_placeholder
start_run show client none table event calls = (post_placeholder show client event calls, table)
start_run show client (some reserve) table event calls =
    let (answer, next) = reserve table event.event_id in
    (after_reserve show client event calls answer, next)
