-- ===== src/Memory/Items.antt =====
-- PostgresMemory.remember, get and list_paths of henry/memory/postgres.py with _memory_path. The
-- table is the list of its rows; its key is the channel and the path. `fresh` is the text of a new
-- UUID, and times are left out except for the order of the rows, which is that of the updates.
pub mod Kept
use henry.Prelude.{
  ℕ, Bool, true, false, not, ◌&&◌, Option, none, some, List, [], ◌∷◌, ◌++◌, map, keep_if,
  if◌then◌else◌,
}
use mathlib.Core.Option
use henry.Text.{Text, codes, ◌===◌}
use henry.Text.Words.{strip}
use henry.Json.{Json, Fields, null, boolean, integer, float, str, arr, obj, get, put}

-- A row of `channel_memory`.
pub record MemoryRow : Type 0 where
  pub channel_id : Text
  pub path : Text
  pub content : Text
  pub kind : Text
  pub item_metadata : Fields

pub record MemoryItem : Type 0 where
  pub path : Text
  pub content : Text
  pub kind : Text
  pub metadata : Fields
  pub score : Option ℕ

abbrev pub MemoryTable : Type 0
MemoryTable = List MemoryRow

is_row : Text → Text → MemoryRow → Bool
is_row channel_id path row = row.channel_id === channel_id && row.path === path

-- `session.get(ChannelMemory, ...)`
unfoldable pub get_row : MemoryTable → Text → Text → Option MemoryRow
unfolding is_row
get_row [] channel_id path = none
get_row (row ∷ table) channel_id path =
    let rest = get_row table channel_id path in
    if is_row channel_id path row then some row else rest

-- A row that is there is changed; another is added.
set_row : MemoryTable → MemoryRow → MemoryTable
unfolding is_row
set_row [] new = new ∷ []
set_row (row ∷ table) new =
    let rest = set_row table new in
    if is_row new.channel_id new.path row then new ∷ table else row ∷ rest

-- `raw_path.strip()` if it is a text that is not blank
given_path : Json → Text
given_path (str t) = strip t
given_path v = []

-- The path, and the metadata with it.
path_or_new : Text → Text → Fields → Text → Text × Fields
path_or_new fresh kind metadata (c ∷ path) = (c ∷ path, metadata)
path_or_new fresh kind metadata [] =
    let path = kind ++ (codes "/" ++ fresh) in (path, put (codes "path") (str path) metadata)

unfoldable pub memory_path : Text → Text → Fields → Text × Fields
unfolding given_path path_or_new
memory_path fresh kind metadata =
    path_or_new fresh kind metadata (given_path (get (codes "path") metadata))

unfoldable pub remember : Text → MemoryTable → Text → Text → Text → Fields → MemoryTable
unfolding set_row
remember fresh table channel_id content kind metadata =
    let (path, item_metadata) = memory_path fresh kind metadata in
    set_row table (record {
      channel_id = channel_id;
      path = path;
      content = content;
      kind = kind;
      item_metadata = item_metadata;
    })

unfoldable pub to_memory_item : MemoryRow → Option ℕ → MemoryItem
to_memory_item row score = record {
  path = row.path;
  content = row.content;
  kind = row.kind;
  metadata = row.item_metadata;
  score = score;
}

-- `PostgresMemory.get`
unfoldable pub get_item : MemoryTable → Text → Text → Option MemoryItem
get_item table channel_id path =
    Option.map (λ row. to_memory_item row none) (get_row table channel_id path)

-- `list_paths`, with the database's order of texts.
unfoldable pub list_paths : (List Text → List Text) → MemoryTable → Text → List Text
list_paths order_by table channel_id =
    order_by (map (λ row. row.path) (keep_if (λ row. row.channel_id === channel_id) table))
