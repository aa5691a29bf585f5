-- ===== src/Db/Models.antt =====
-- The classes of henry/db/models.py, and the tables that Base.metadata describes for them, on PostgreSQL.
use henry.Prelude.{Bool, true, false, Option, none, some, List, [], ◌∷◌, ◌++◌, map, keep_if}
use henry.Prelude.Int.{pos}
use henry.Text.{Text, codes}
use henry.Json.{Json, str, arr, obj, done, boolean, integer, nil}
use henry.Db.Schema.{
  ColumnType, string, unbounded, jsonb, boolean_type, datetime, integer_type, numeric, Column,
  Named, Table,
}
use henry.Db.Migrations.{column, now_column, serial_column, named}

-- `mapped_column`: the column, with what SQLAlchemy writes where no value is given.
pub record Attribute : Type 0 where
  pub column_of : Column
  pub primary_key : Bool
  pub default : Option Json
  pub onupdate_now : Bool

attribute : Text → ColumnType → (nullable : Bool) → (default : Option Json) → Attribute
unfolding column
attribute name type nullable default = record {
  column_of = column name type nullable;
  primary_key = false;
  default = default;
  onupdate_now = false;
}

-- A part of the primary key cannot be NULL.
key : Text → ColumnType → Attribute
unfolding column
key name type = record {
  column_of = column name type false;
  primary_key = true;
  default = none;
  onupdate_now = false;
}

serial_key : Text → Attribute
unfolding serial_column
serial_key name = record {
  column_of = serial_column name;
  primary_key = true;
  default = none;
  onupdate_now = false;
}

-- A time with `server_default=func.now()`, and `onupdate=func.now()` if so.
stamp : Text → (onupdate_now : Bool) → Attribute
unfolding now_column
stamp name onupdate_now = record {
  column_of = now_column name;
  primary_key = false;
  default = none;
  onupdate_now = onupdate_now;
}

pub record Model : Type 0 where
  pub tablename : Text
  pub attributes : List Attribute
  pub unique_columns : List Text
  pub indexes : List Named

channel_config : Model
unfolding attribute key serial_key stamp named
channel_config = record {
  tablename = codes "channel_config";
  attributes =
      key (codes "channel_id") (string 128)
      ∷ attribute (codes "system_prompt") unbounded false (some (str []))
      ∷ attribute (codes "model") (string 256) false (some (str []))
      ∷ attribute (codes "enabled_integrations") jsonb true none
      ∷ attribute (codes "ambient_on") boolean_type false (some (boolean false))
      ∷ attribute (codes "budget_caps") jsonb false (some (obj done))
      ∷ stamp (codes "updated_at") true
      ∷ [];
  unique_columns = [];
  indexes = [];
}

channel_memory : Model
unfolding attribute key serial_key stamp named
channel_memory = record {
  tablename = codes "channel_memory";
  attributes =
      key (codes "channel_id") (string 128)
      ∷ key (codes "path") (string 512)
      ∷ attribute (codes "content") unbounded false none
      ∷ attribute (codes "kind") (string 64) false (some (str (codes "fact")))
      ∷ attribute (codes "metadata") jsonb false (some (obj done))
      ∷ stamp (codes "created_at") false
      ∷ stamp (codes "updated_at") true
      ∷ [];
  unique_columns = [];
  indexes = [];
}

channel_state_row : Model
unfolding attribute key serial_key stamp named
channel_state_row = record {
  tablename = codes "channel_state";
  attributes =
      key (codes "channel_id") (string 128)
      ∷ attribute (codes "rolling_summary") unbounded false (some (str []))
      ∷ attribute (codes "open_tasks") jsonb false (some (arr nil))
      ∷ attribute (codes "key_facts") jsonb false (some (arr nil))
      ∷ stamp (codes "updated_at") true
      ∷ [];
  unique_columns = [];
  indexes = [];
}

task : Model
unfolding attribute key serial_key stamp named
task = record {
  tablename = codes "task";
  attributes =
      serial_key (codes "id")
      ∷ attribute (codes "channel_id") (string 128) false none
      ∷ attribute (codes "thread_ts") (string 64) false none
      ∷ attribute (codes "kind") (string 64) false none
      ∷ attribute (codes "status") (string 32) false none
      ∷ attribute (codes "run_at") datetime false none
      ∷ attribute (codes "payload") jsonb false (some (obj done))
      ∷ attribute (codes "dedup_key") (string 256) false none
      ∷ [];
  unique_columns = codes "dedup_key" ∷ [];
  indexes = named (codes "ix_task_status_run_at") (codes "status" ∷ codes "run_at" ∷ []) ∷ [];
}

unfoldable pub audit_log : Model
unfolding attribute key serial_key stamp named
audit_log = record {
  tablename = codes "audit_log";
  attributes =
      serial_key (codes "id")
      ∷ attribute (codes "run_id") (string 128) false none
      ∷ attribute (codes "channel_id") (string 128) false none
      ∷ attribute (codes "thread_ts") (string 64) false none
      ∷ attribute (codes "actor") (string 128) false none
      ∷ attribute (codes "action") (string 128) false none
      ∷ attribute (codes "integration") (string 128) false (some (str []))
      ∷ attribute (codes "model") (string 256) false (some (str []))
      ∷ attribute (codes "input_tokens") integer_type false (some (integer (pos 0)))
      ∷ attribute (codes "output_tokens") integer_type false (some (integer (pos 0)))
      ∷ attribute (codes "cost_usd") (numeric 12 6) true none
      ∷ attribute (codes "latency_ms") integer_type false (some (integer (pos 0)))
      ∷ attribute (codes "status") (string 32) false none
      ∷ attribute (codes "error") unbounded true none
      ∷ stamp (codes "ts") false
      ∷ [];
  unique_columns = [];
  indexes = named (codes "ix_audit_log_channel_id_ts") (codes "channel_id" ∷ codes "ts" ∷ []) ∷ [];
}

processed_event : Model
unfolding attribute key serial_key stamp named
processed_event = record {
  tablename = codes "processed_events";
  attributes = key (codes "event_id") (string 128) ∷ stamp (codes "ts") false ∷ [];
  unique_columns = [];
  indexes = [];
}

unfoldable pub models : List Model
unfolding channel_config channel_memory channel_state_row task audit_log processed_event
models =
    channel_config ∷ channel_memory ∷ channel_state_row ∷ task ∷ audit_log ∷ processed_event ∷ []

key_columns : List Attribute → List Text
key_columns attributes = map (λ a. a.column_of.name) (keep_if (λ a. a.primary_key) attributes)

-- NAMING_CONVENTION, for a primary key and for a constraint on one column; the two indexes have names.
pk_name : Text → Text
pk_name table_name = codes "pk_" ++ table_name

uq_name : Text → Text → Text
uq_name table_name column_name = codes "uq_" ++ (table_name ++ (codes "_" ++ column_name))

-- The table that the metadata has for a class; what SQLAlchemy writes itself is no part of the table.
unfoldable pub table_of : Model → Table
unfolding key_columns pk_name uq_name named
table_of m = record {
  name = m.tablename;
  columns = map (λ a. a.column_of) m.attributes;
  primary_key = named (pk_name m.tablename) (key_columns m.attributes);
  unique = map (λ c. named (uq_name m.tablename c) (c ∷ [])) m.unique_columns;
  indexes = m.indexes;
}
