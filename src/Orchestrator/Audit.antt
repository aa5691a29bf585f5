-- ===== src/Orchestrator/Audit.antt =====
-- make_db_audit_sink and _default_transcript_fetcher of henry/orchestrator/runner.py. A row is a dictionary of its
-- columns; what the commit adds it to is a parameter.
use henry.Prelude.{◌≡◌, refl, not, ◌||◌, Option, none, some, List, [], ◌∷◌, map, keep_if}
use henry.Prelude.Int.{pos}
use henry.Text.{Text, codes}
use henry.Json.{Json, Fields, null, str, integer, float, done, field, keys}
use henry.Result.{Result}
use henry.Contracts.{
  SlackEvent, ConversationTranscript, user_role, RunStatus, succeeded, budget_exceeded, failed,
}
use henry.Orchestrator.Handle.{AuditRecord}
use henry.Db.Models.{Model, audit_log}

status_text : RunStatus → Text
status_text succeeded = codes "ok"
status_text budget_exceeded = codes "budget_exceeded"
status_text failed = codes "error"

-- `Decimal(str(record.cost_usd))`, or None.
cost_json : Option Text → Json
cost_json none = null
cost_json (some cost) = float cost

error_json : Option Text → Json
error_json none = null
error_json (some error) = str error

-- `AuditLog(...)`
unfoldable pub audit_row : AuditRecord → Fields
unfolding status_text cost_json error_json
audit_row record_of = field (codes "run_id") (str record_of.run_id) (
    field (codes "channel_id") (str record_of.channel_id) (
      field (codes "thread_ts") (str record_of.thread_ts) (
        field (codes "actor") (str record_of.actor) (
          field (codes "action") (str record_of.action) (
            field (codes "integration") (str record_of.integration) (
              field (codes "model") (str record_of.model) (
                field (codes "input_tokens") (integer (pos record_of.input_tokens)) (
                  field (codes "output_tokens") (integer (pos record_of.output_tokens)) (
                    field (codes "cost_usd") (cost_json record_of.cost_usd) (
                      field (codes "latency_ms") (integer (pos record_of.latency_ms)) (
                        field (codes "status") (str (status_text record_of.status))
                          (field (codes "error") (error_json record_of.error) done))))))))))))

-- The sink adds a row to the table, or raises what the commit raises.
unfoldable pub sink : {T : Type 0} → (commit : Fields → T → Result T) → AuditRecord → T → Result T
sink commit record_of table = commit (audit_row record_of) table

-- `_default_transcript_fetcher`: the event is the one message.
unfoldable pub default_transcript_fetcher : SlackEvent → ConversationTranscript
default_transcript_fetcher event = record {
  channel_id = event.channel_id;
  thread_ts = event.thread_ts;
  messages =
      record {
        role = user_role;
        text = event.text;
        user = some event.user;
        ts = some event.event_ts;
      }
      ∷ [];
}

-- The columns of the table that the database does not fill itself.
pub given_columns : Model → List Text
given_columns m =
    map (λ a. a.column_of.name)
      (keep_if (λ a. not (a.primary_key || a.column_of.now_default)) m.attributes)

-- A row gives each column of audit_log, in its order, but the number and the time that the database fills.
pub keys-audit_row :
    (record_of : AuditRecord) → keys (audit_row record_of) ≡ given_columns audit_log
unfolding audit_row keys given_columns audit_log
keys-audit_row record_of = refl
