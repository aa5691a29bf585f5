-- ===== src/Slack/App/Laws.antt =====
-- What reaches Slack, and that an event is run once.
use henry.Prelude.{◌≡◌, refl, List, [], ◌∷◌, ◌++◌, map, append_assoc, append-nil, sym, subst}
use henry.Text.{Text, codes}
use henry.Json.{Fields}
use henry.Result.{Result, ok, err, Error}
use henry.Contracts.{SlackEvent}
use henry.Slack.App.{
  after_call, SlackCall, chat_post, chat_update, Traced, Client, post_all, update_and_post, deliver,
  chunks_of, run_and_update_slack, internal_error,
}

-- The messages of a reply: the placeholder is replaced by the first, the others are posted.
abbrev pub reply_calls : SlackEvent → Text → List Text → List SlackCall
reply_calls event placeholder_ts [] = chat_update event.channel_id placeholder_ts [] ∷ []
reply_calls event placeholder_ts (first ∷ others) =
    chat_update event.channel_id placeholder_ts first
    ∷ map (λ chunk. chat_post event.channel_id event.thread_ts chunk) others

-- Calls made in order: all of them, or those up to one that raised.
pub record Made {A : Type 0} (client : Client) (wanted : List SlackCall) (t : Traced A)
    : Type 0 where
  pub in_order : (tail : List SlackCall) × (t.calls ++ tail ≡ wanted)
  pub all_if_ok : (u : A) → t.result ≡ ok u → t.calls ≡ wanted
  pub raised :
      (e : Error)
      → t.result ≡ err e
      → (before : List SlackCall) × (call : SlackCall) × (t.calls ≡ before ++ call ∷ [])
        × (client before call ≡ err e)

abbrev posts : SlackEvent → List Text → List SlackCall
posts event chunks = map (λ chunk. chat_post event.channel_id event.thread_ts chunk) chunks

after_call-Made :
    (client : Client) (calls : List SlackCall) (call : SlackCall) (others : List SlackCall)
    (answer : Result Fields) (next : Traced (Unit {0}))
    → client calls call ≡ answer
    → Made client ((calls ++ call ∷ []) ++ others) next
    → Made client (calls ++ call ∷ others) (after_call (calls ++ call ∷ []) answer next)
unfolding after_call
after_call-Made client calls call others (ok r) next h v =
    subst (λ w. Made client w next) (append_assoc calls (call ∷ []) others) v
after_call-Made client calls call others (err e) next h v = record {
  in_order = (others, append_assoc calls (call ∷ []) others);
  all_if_ok = λ u q. absurd (cc);
  raised = λ f q. (calls, call, refl, cc);
}

post_all-Made :
    (client : Client) (event : SlackEvent) (calls : List SlackCall) (chunks : List Text)
    → Made client (calls ++ posts event chunks) (post_all client event calls chunks)
unfolding post_all
post_all-Made client event calls [] = record {
  in_order = ([], refl);
  all_if_ok = λ u q. sym (append-nil calls);
  raised = λ f q. absurd (cc);
}
post_all-Made client event calls (chunk ∷ chunks) =
    let call = chat_post event.channel_id event.thread_ts chunk in
    after_call-Made client calls call (posts event chunks) (client calls call) _ refl
      (post_all-Made client event (calls ++ call ∷ []) chunks)

update_and_post-Made :
    (client : Client) (event : SlackEvent) (ts : Text) (calls : List SlackCall) (first : Text)
    (chunks : List Text)
    → Made client
        (calls ++ chat_update event.channel_id ts first ∷ posts event chunks)
        (update_and_post client event ts calls first chunks)
unfolding update_and_post
update_and_post-Made client event ts calls first chunks =
    let call = chat_update event.channel_id ts first in
    after_call-Made client calls call (posts event chunks) (client calls call) _ refl
      (post_all-Made client event (calls ++ call ∷ []) chunks)

deliver-Made :
    (client : Client) (event : SlackEvent) (ts : Text) (calls : List SlackCall) (chunks : List Text)
    → Made client (calls ++ reply_calls event ts chunks) (deliver client event ts calls chunks)
unfolding deliver
deliver-Made client event ts calls [] = update_and_post-Made client event ts calls [] []
deliver-Made client event ts calls (first ∷ chunks) =
    update_and_post-Made client event ts calls first chunks

-- Whatever the orchestrator does, Slack gets its messages in order, the first in place of the
-- placeholder and the others in the thread, or one message that says it failed. All of them are
-- sent unless a call of the client raises, and then that call is the last.
pub run_and_update_slack-Made :
    (client : Client) (orchestrator : SlackEvent → Result (List Text)) (event : SlackEvent)
    (placeholder_ts : Text) (calls : List SlackCall)
    → let t = run_and_update_slack client orchestrator event placeholder_ts calls in
      ((chunks : List Text)
        → orchestrator event ≡ ok chunks
        → Made client (calls ++ reply_calls event placeholder_ts chunks) t)
      × ((e : Error)
          → orchestrator event ≡ err e
          → Made client
              (calls
                ++ reply_calls event placeholder_ts
                    (codes "I hit an internal error while handling that request." ∷ []))
              t)
unfolding run_and_update_slack chunks_of
run_and_update_slack-Made client orchestrator event ts calls = (
  λ chunks h. rw h (deliver-Made client event ts calls chunks),
  λ e h. rw h (deliver-Made client event ts calls (internal_error ∷ [])),
)
