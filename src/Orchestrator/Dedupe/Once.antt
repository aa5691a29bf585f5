-- ===== src/Orchestrator/Dedupe/Once.antt =====
-- An event that Slack delivers several times is run once.
use henry.Prelude.{
  ℕ, ◌+◌, Bool, true, false, ◌&&◌, ◌||◌, ◌≡◌, inl, inr, List, [], ◌∷◌, if◌then◌else◌, arith,
  Bool-cases,
}
use henry.Text.{Text, ◌===◌, ===_iff}
use henry.Result.{Result, ok, err, integrity_error}
use henry.Orchestrator.Dedupe.{after_commit, reserve}

abbrev pub is_listed : Text → List Text → Bool
is_listed id [] = false
is_listed id (j ∷ table) = id === j || is_listed id table

-- The table has `event_id` as its primary key.
abbrev pub IsKeyed : (Text → List Text → Result (List Text)) → Type 0
IsKeyed commit =
    (id : Text) (table : List Text)
    → (is_listed id table ≡ false → commit id table ≡ ok (id ∷ table))
      × (is_listed id table ≡ true → (m : Text) × (commit id table ≡ err (integrity_error m)))

abbrev pub is_reserved : Result Bool → Bool
is_reserved (ok b) = b
is_reserved (err e) = false

-- How often an event is let through while events are reserved one after the other.
abbrev pub times : (Text → List Text → Result (List Text)) → Text → List Text → List Text → ℕ
times commit id table [] = 0
times commit id table (next ∷ events) =
    let (answer, rows) = reserve commit table next in
    (if is_reserved answer && id === next then 1 else 0) + times commit id rows events

-- In any sequence of deliveries every event that was not processed before is let through exactly
-- once, and one that was processed before, never; this is for a table whose key is `event_id`.
pub reserve-once :
    (commit : Text → List Text → Result (List Text))
    → IsKeyed commit
    → (id : Text) (table events : List Text)
    → times commit id table events
      ≡ (if is_listed id table then 0 else if is_listed id events then 1 else 0)
unfolding reserve after_commit
reserve-once commit keyed id table [] = ground arith
reserve-once commit keyed id table (next ∷ events) = elim (Bool-cases (is_listed next table)) [
  | inr h ↦
      rw ((keyed next table).0 h) ground
        (arith, h, ===_iff id next, reserve-once commit keyed id (next ∷ table) events)
  | inl h ↦
      let (m, refused) = (keyed next table).1 h in
      rw refused ground (arith, h, ===_iff id next, reserve-once commit keyed id table events)
]
