-- ===== src/Slack/Dispatch/Once.antt =====
-- A mention that Slack delivers several times is answered in one place.
use henry.Prelude.{
  arith, ℕ, ◌+◌, ◌≡◌, refl, ap, ◌∙◌, Bool, true, false, ◌&&◌, some, List, [], ◌∷◌, if◌then◌else◌,
}
use henry.Text.{Text, ◌===◌}
use henry.Json.{Json, Fields}
use henry.Result.{Result, ok, err, ◌>>◌}
use henry.Contracts.{SlackEvent}
use henry.Slack.Context.{build_slack_event}
use henry.Slack.App.{Traced, Client, start_run, after_reserve}
use henry.Slack.Dispatch.{started, dispatch_app_mention}
use henry.Orchestrator.Dedupe.{reserve}
use henry.Orchestrator.Dedupe.Once.{IsKeyed, is_listed, is_reserved, times, reserve-once}

-- A delivery of Slack, and whether it could be acknowledged.
pub record Delivery : Type 0 where
  pub ack : Result (Unit {0})
  pub body : Fields

has_posted : {A : Type 0} → Traced A → Bool
has_posted t = elim t.calls [ [] ↦ false | call ∷ calls ↦ true ]

module _ (show : Json → Text) where
  -- The event of a delivery that was acknowledged.
  abbrev pub event_in : Delivery → Result SlackEvent
  event_in d = d.ack >> build_slack_event show d.body

  is_for : Text → Result SlackEvent → Bool
  is_for id (err e) = false
  is_for id (ok event) = id === event.event_id

  unfoldable pub event_ids : List Delivery → List Text
  event_ids [] = []
  event_ids (d ∷ deliveries) = elim (event_in d) [
    | err e ↦ event_ids deliveries
    | ok event ↦ event.event_id ∷ event_ids deliveries
  ]

  module _ (client : Client) (commit : Text → List Text → Result (List Text)) where
    -- How many of the deliveries, one after the other, have a placeholder posted for an event.
    pub placeholders : Text → List Text → List Delivery → ℕ
    placeholders id table [] = 0
    placeholders id table (d ∷ deliveries) =
        let (t, rows) =
          dispatch_app_mention show client (some (reserve commit)) table d.ack d.body [] in
        (if has_posted t && is_for id (event_in d) then 1 else 0) + placeholders id rows deliveries

    -- A placeholder is posted exactly if the event was let through.
    started-counted :
        (id : Text) (table : List Text) (event : SlackEvent) (deliveries : List Delivery)
        (later : List Text)
        → ((rows : List Text) → placeholders id rows deliveries ≡ times commit id rows later)
        → let (t, rows) = started show client (some (reserve commit)) table [] (ok event) in
          (if has_posted t && is_for id (ok event) then 1 else 0) + placeholders id rows deliveries
          ≡ times commit id table (event.event_id ∷ later)
    unfolding started start_run after_reserve has_posted is_for
    started-counted id table event deliveries later ih =
        by_answer (reserve commit table event.event_id)
      where
        by_answer :
            (a : Result Bool × List Text)
            → (if has_posted (after_reserve show client event [] a.0) && id === event.event_id
                  then 1
                  else 0)
                + placeholders id a.1 deliveries
              ≡ (if is_reserved a.0 && id === event.event_id then 1 else 0)
                + times commit id a.1 later
        by_answer (err e, rows) = omega (arith, ih rows)
        by_answer (ok false, rows) = omega (arith, ih rows)
        by_answer (ok true, rows) = ap (λ n. (if id === event.event_id then 1 else 0) + n) (ih rows)

    placeholders-times :
        (id : Text) (table : List Text) (deliveries : List Delivery)
        → placeholders id table deliveries ≡ times commit id table (event_ids deliveries)
    unfolding placeholders event_ids dispatch_app_mention is_for has_posted
    placeholders-times id table [] = refl
    placeholders-times id table (d ∷ deliveries) =
        by_event (λ rows. placeholders-times id rows deliveries) (event_in d)
      where
        by_event :
            ((rows : List Text)
              → placeholders id rows deliveries ≡ times commit id rows (event_ids deliveries))
            → (r : Result SlackEvent)
            → let (t, rows) = started show client (some (reserve commit)) table [] r in
              (if has_posted t && is_for id r then 1 else 0) + placeholders id rows deliveries
              ≡ times commit id table (elim r [
                | err e ↦ event_ids deliveries
                | ok event ↦ event.event_id ∷ event_ids deliveries
              ])
        by_event ih (err e) = omega (arith, ih table)
        by_event ih (ok event) = started-counted id table event deliveries (event_ids deliveries) ih

    -- However often Slack delivers an event, and whatever the deliveries in between, its placeholder is asked for
    -- exactly once if it was not processed before and some delivery of it could be acknowledged, and else never;
    -- this is for a table whose key is `event_id`.
    pub dispatch_app_mention-once :
        IsKeyed commit
        → (id : Text) (table : List Text) (deliveries : List Delivery)
        → placeholders id table deliveries
          ≡ (if is_listed id table then 0 else if is_listed id (event_ids deliveries) then 1 else 0)
    dispatch_app_mention-once keyed id table deliveries =
        placeholders-times id table deliveries
        ∙ reserve-once commit keyed id table (event_ids deliveries)
