-- ===== src/Memory/Items/Kept.antt =====
-- What is remembered can be read, and nothing else changes.
use henry.Prelude.{◌≡◌, refl, Bool, true, false, ◌&&◌, none, some, [], ◌∷◌, if◌then◌else◌, arith}
use mathlib.Core.Option
use henry.Text.{Text, ◌===◌, ===_iff}
use henry.Json.{Fields}
use henry.Memory.Items.{
  MemoryRow, MemoryTable, is_row, get_row, set_row, memory_path, remember, to_memory_item, get_item,
}

get-set_row :
    (table : MemoryTable) (new : MemoryRow) (channel_id path : Text)
    → get_row (set_row table new) channel_id path
      ≡ (if is_row channel_id path new then some new else get_row table channel_id path)
unfolding get_row set_row is_row
get-set_row [] new channel_id path = refl
get-set_row (row ∷ table) new channel_id path = ground (
  arith,
  get-set_row table new channel_id path,
  ===_iff row.channel_id new.channel_id,
  ===_iff row.path new.path,
  ===_iff new.channel_id channel_id,
  ===_iff new.path path,
  ===_iff row.channel_id channel_id,
  ===_iff row.path path,
)

-- After `remember` the item is read under its path in its channel, with its content, kind and
-- metadata, whether the path was new or not; every other path, and every path of every other
-- channel, reads as before.
pub get-remember :
    (fresh : Text) (table : MemoryTable) (channel_id content kind : Text) (metadata : Fields)
    (other path : Text)
    → let (named, item_metadata) = memory_path fresh kind metadata in
      get_item (remember fresh table channel_id content kind metadata) other path ≡ (
        if channel_id === other && named === path
        then some (record {
          path = named;
          content = content;
          kind = kind;
          metadata = item_metadata;
          score = none;
        })
        else get_item table other path)
unfolding remember get_item to_memory_item is_row
get-remember fresh table channel_id content kind metadata other path =
    let (named, item_metadata) = memory_path fresh kind metadata in
    let row : MemoryRow = record {
      channel_id = channel_id;
      path = named;
      content = content;
      kind = kind;
      item_metadata = item_metadata;
    } in
    rw (get-set_row table row other path) (if-map (channel_id === other && named === path) row)
  where
    if-map :
        (b : Bool) (row : MemoryRow)
        → Option.map (λ r. to_memory_item r none) (if b then some row else get_row table other path)
          ≡ (if b
              then some (to_memory_item row none)
              else Option.map (λ r. to_memory_item r none) (get_row table other path))
    if-map true row = refl
    if-map false row = refl
