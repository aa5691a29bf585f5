-- ===== src/Orchestrator/Dedupe.antt =====
-- ProcessedEventDeduper of henry/orchestrator/runner.py, over the table of processed events.
pub mod Once
use henry.Prelude.{Bool, true, false, List}
use henry.Text.{Text}
use henry.Result.{Result, ok, err, Error, integrity_error}

-- After `commit`: a violated key is rolled back, another error is raised.
after_commit : List Text → Result (List Text) → Result Bool × List Text
after_commit table (ok rows) = (ok true, rows)
after_commit table (err (integrity_error m)) = (ok false, table)
after_commit table (err e) = (err e, table)

-- `reserve`; `commit` adds a row to the table.
unfoldable pub reserve :
    (Text → List Text → Result (List Text)) → List Text → Text → Result Bool × List Text
unfolding after_commit
reserve commit table event_id = after_commit table (commit event_id table)
