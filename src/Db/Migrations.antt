-- ===== src/Db/Migrations.antt =====
-- The two migrations of henry/db/migrations/versions: 20260623_0001_foundation.py and the one of 20260713_0002.
use henry.Prelude.{Bool, true, false, none, some, List, [], ◌∷◌}
use henry.Text.{Text, codes}
use henry.Json.{arr, nil}
use henry.Db.Schema.{
  ColumnType, string, unbounded, jsonb, boolean_type, datetime, big_integer, integer_type, numeric,
  Column, Named, Table, Value, Update, Operation, create_table, drop_table, create_index,
  drop_index, alter_column, execute,
}

unfoldable pub column : Text → ColumnType → (nullable : Bool) → Column
column name type nullable = record {
  name = name;
  column_type = type;
  nullable = nullable;
  now_default = false;
  autoincrement = false;
}

-- `sa.Column(name, sa.DateTime(timezone=True), server_default=sa.text("now()"), nullable=False)`
unfoldable pub now_column : Text → Column
now_column name = record {
  name = name;
  column_type = datetime;
  nullable = false;
  now_default = true;
  autoincrement = false;
}

-- `sa.Column(name, sa.BigInteger(), autoincrement=True, nullable=False)`
unfoldable pub serial_column : Text → Column
serial_column name = record {
  name = name;
  column_type = big_integer;
  nullable = false;
  now_default = false;
  autoincrement = true;
}

unfoldable pub named : Text → List Text → Named
named name columns = record { name = name; columns = columns }

channel_config_table : Table
unfolding column now_column serial_column named
channel_config_table = record {
  name = codes "channel_config";
  columns =
      column (codes "channel_id") (string 128) false
      ∷ column (codes "system_prompt") unbounded false
      ∷ column (codes "model") (string 256) false
      ∷ column (codes "enabled_integrations") jsonb false
      ∷ column (codes "ambient_on") boolean_type false
      ∷ column (codes "budget_caps") jsonb false
      ∷ now_column (codes "updated_at")
      ∷ [];
  primary_key = named (codes "pk_channel_config") (codes "channel_id" ∷ []);
  unique = [];
  indexes = [];
}

channel_memory_table : Table
unfolding column now_column serial_column named
channel_memory_table = record {
  name = codes "channel_memory";
  columns =
      column (codes "channel_id") (string 128) false
      ∷ column (codes "path") (string 512) false
      ∷ column (codes "content") unbounded false
      ∷ column (codes "kind") (string 64) false
      ∷ column (codes "metadata") jsonb false
      ∷ now_column (codes "created_at")
      ∷ now_column (codes "updated_at")
      ∷ [];
  primary_key = named (codes "pk_channel_memory") (codes "channel_id" ∷ codes "path" ∷ []);
  unique = [];
  indexes = [];
}

channel_state_table : Table
unfolding column now_column serial_column named
channel_state_table = record {
  name = codes "channel_state";
  columns =
      column (codes "channel_id") (string 128) false
      ∷ column (codes "rolling_summary") unbounded false
      ∷ column (codes "open_tasks") jsonb false
      ∷ column (codes "key_facts") jsonb false
      ∷ now_column (codes "updated_at")
      ∷ [];
  primary_key = named (codes "pk_channel_state") (codes "channel_id" ∷ []);
  unique = [];
  indexes = [];
}

task_table : Table
unfolding column now_column serial_column named
task_table = record {
  name = codes "task";
  columns =
      serial_column (codes "id")
      ∷ column (codes "channel_id") (string 128) false
      ∷ column (codes "thread_ts") (string 64) false
      ∷ column (codes "kind") (string 64) false
      ∷ column (codes "status") (string 32) false
      ∷ column (codes "run_at") datetime false
      ∷ column (codes "payload") jsonb false
      ∷ column (codes "dedup_key") (string 256) false
      ∷ [];
  primary_key = named (codes "pk_task") (codes "id" ∷ []);
  unique = named (codes "uq_task_dedup_key") (codes "dedup_key" ∷ []) ∷ [];
  indexes = [];
}

audit_log_table : Table
unfolding column now_column serial_column named
audit_log_table = record {
  name = codes "audit_log";
  columns =
      serial_column (codes "id")
      ∷ column (codes "run_id") (string 128) false
      ∷ column (codes "channel_id") (string 128) false
      ∷ column (codes "thread_ts") (string 64) false
      ∷ column (codes "actor") (string 128) false
      ∷ column (codes "action") (string 128) false
      ∷ column (codes "integration") (string 128) false
      ∷ column (codes "model") (string 256) false
      ∷ column (codes "input_tokens") integer_type false
      ∷ column (codes "output_tokens") integer_type false
      ∷ column (codes "cost_usd") (numeric 12 6) true
      ∷ column (codes "latency_ms") integer_type false
      ∷ column (codes "status") (string 32) false
      ∷ column (codes "error") unbounded true
      ∷ now_column (codes "ts")
      ∷ [];
  primary_key = named (codes "pk_audit_log") (codes "id" ∷ []);
  unique = [];
  indexes = [];
}

processed_events_table : Table
unfolding column now_column serial_column named
processed_events_table = record {
  name = codes "processed_events";
  columns = column (codes "event_id") (string 128) false ∷ now_column (codes "ts") ∷ [];
  primary_key = named (codes "pk_processed_events") (codes "event_id" ∷ []);
  unique = [];
  indexes = [];
}

-- `upgrade` of 20260623_0001
unfoldable pub upgrade_foundation : List Operation
unfolding channel_config_table channel_memory_table channel_state_table task_table audit_log_table
    processed_events_table named
upgrade_foundation =
    create_table channel_config_table
    ∷ create_table channel_memory_table
    ∷ create_table channel_state_table
    ∷ create_table task_table
    ∷ create_index (named (codes "ix_task_status_run_at") (codes "status" ∷ codes "run_at" ∷ []))
        (codes "task")
    ∷ create_table audit_log_table
    ∷ create_index
        (named (codes "ix_audit_log_channel_id_ts") (codes "channel_id" ∷ codes "ts" ∷ []))
        (codes "audit_log")
    ∷ create_table processed_events_table
    ∷ []

-- `downgrade` of 20260623_0001
unfoldable pub downgrade_foundation : List Operation
downgrade_foundation =
    drop_table (codes "processed_events")
    ∷ drop_index (codes "ix_audit_log_channel_id_ts") (codes "audit_log")
    ∷ drop_table (codes "audit_log")
    ∷ drop_index (codes "ix_task_status_run_at") (codes "task")
    ∷ drop_table (codes "task")
    ∷ drop_table (codes "channel_state")
    ∷ drop_table (codes "channel_memory")
    ∷ drop_table (codes "channel_config")
    ∷ []

-- `enabled_integrations = '[]'::jsonb`
unfoldable pub is_empty_list : Value → Bool
is_empty_list (some (arr nil)) = true
is_empty_list v = false

-- `enabled_integrations IS NULL`
unfoldable pub is_null : Value → Bool
is_null none = true
is_null (some v) = false

unfoldable pub null_for_empty : Update
null_for_empty = record {
  table_name = codes "channel_config";
  column = codes "enabled_integrations";
  value = none;
  selects = is_empty_list;
}

unfoldable pub empty_for_null : Update
empty_for_null = record {
  table_name = codes "channel_config";
  column = codes "enabled_integrations";
  value = some (arr nil);
  selects = is_null;
}

-- `upgrade` of 20260713_0002
unfoldable pub upgrade_overrides : List Operation
unfolding null_for_empty
upgrade_overrides =
    alter_column (codes "channel_config") (codes "enabled_integrations") jsonb true
    ∷ execute null_for_empty
    ∷ []

-- `downgrade` of 20260713_0002
unfoldable pub downgrade_overrides : List Operation
unfolding empty_for_null
downgrade_overrides =
    execute empty_for_null
    ∷ alter_column (codes "channel_config") (codes "enabled_integrations") jsonb false
    ∷ []
