-- ===== src/Db/Schema.antt =====
-- What henry/db/models.py and the migrations of henry/db/migrations/versions say of tables to SQLAlchemy and
-- alembic, on PostgreSQL, and the database as a parameter.
pub mod Runs
use henry.Prelude.{
  ℕ, ◌≡◌, Bool, true, false, Option, none, some, List, [], ◌∷◌, ◌++◌, map, if◌then◌else◌,
}
use henry.Text.{Text, codes, ◌===◌}
use henry.Json.{Json}
use henry.Result.{Result, ok, ◌>>=◌}
use mathlib.Core.Option

pub data ColumnType : Type 0 where
  string : (length : ℕ) → ColumnType
  unbounded jsonb boolean_type datetime big_integer integer_type : ColumnType
  numeric : (precision scale : ℕ) → ColumnType

-- `sa.Column`; `now_default` is the server's default now().
pub record Column : Type 0 where
  pub name : Text
  pub column_type : ColumnType
  pub nullable : Bool
  pub now_default : Bool
  pub autoincrement : Bool

-- A named constraint or index over columns.
pub record Named : Type 0 where
  pub name : Text
  pub columns : List Text

pub record Table : Type 0 where
  pub name : Text
  pub columns : List Column
  pub primary_key : Named
  pub unique : List Named
  pub indexes : List Named

-- The values of a JSONB column: none is NULL.
abbrev pub Value : Type 0
Value = Option Json

-- `UPDATE table SET column = value WHERE ...`, for a test of that column.
pub record Update : Type 0 where
  pub table_name : Text
  pub column : Text
  pub value : Value
  pub selects : Value → Bool

-- The calls of `op` in the migrations.
pub data Operation : Type 0 where
  create_table : Table → Operation
  drop_table : Text → Operation
  create_index : Named → (table_name : Text) → Operation
  drop_index : (name table_name : Text) → Operation
  alter_column :
      (table_name column : Text) (existing_type : ColumnType) (nullable : Bool) → Operation
  execute : Update → Operation

-- The database: it runs an operation or raises, and describes the table of a name.
pub record Engine (S : Type 0) : Type 0 where
  pub step : Operation → S → Result S
  pub describe : S → Text → Option Table

-- A migration runs its operations one after the other.
unfoldable pub run : {S : Type 0} → Engine S → List Operation → S → Result S
run engine [] s = ok s
run engine (o ∷ os) s = engine.step o s >>= run engine os

unfoldable pub add_index : Named → Table → Table
add_index index t = record {
  name = t.name;
  columns = t.columns;
  primary_key = t.primary_key;
  unique = t.unique;
  indexes = t.indexes ++ (index ∷ []);
}

set_nullable : Text → Bool → Column → Column
set_nullable name nullable c =
    if c.name === name
    then record {
      name = c.name;
      column_type = c.column_type;
      nullable = nullable;
      now_default = c.now_default;
      autoincrement = c.autoincrement;
    }
    else c

unfoldable pub alter : Text → Bool → Table → Table
unfolding set_nullable
alter column nullable t = record {
  name = t.name;
  columns = map (set_nullable column nullable) t.columns;
  primary_key = t.primary_key;
  unique = t.unique;
  indexes = t.indexes;
}

-- What is documented of the database: a table that was created is as it was described, an index or the change
-- of a column changes the one table that it names, an update changes no table's description, and what was
-- just created can be dropped again, which leaves the database as it was.
pub record Documented {S : Type 0} (engine : Engine S) : Type 0 where
  pub created :
      (t : Table) (s after : S)
      → engine.step (create_table t) s ≡ ok after
      → (n : Text)
      → engine.describe after n ≡ (if t.name === n then some t else engine.describe s n)
  pub indexed :
      (i : Named) (t : Text) (s after : S)
      → engine.step (create_index i t) s ≡ ok after
      → (n : Text)
      → engine.describe after n
        ≡ (if t === n then Option.map (add_index i) (engine.describe s n) else engine.describe s n)
  pub altered :
      (t column : Text) (type : ColumnType) (nullable : Bool) (s after : S)
      → engine.step (alter_column t column type nullable) s ≡ ok after
      → (n : Text)
      → engine.describe after n ≡ (
          if t === n
          then Option.map (alter column nullable) (engine.describe s n)
          else engine.describe s n)
  pub executed :
      (u : Update) (s after : S)
      → engine.step (execute u) s ≡ ok after
      → (n : Text) → engine.describe after n ≡ engine.describe s n
  pub table_dropped :
      (t : Table) (s after : S)
      → engine.step (create_table t) s ≡ ok after
      → engine.step (drop_table t.name) after ≡ ok s
  pub index_dropped :
      (i : Named) (t : Text) (s after : S)
      → engine.step (create_index i t) s ≡ ok after
      → engine.step (drop_index i.name t) after ≡ ok s
