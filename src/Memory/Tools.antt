-- ===== src/Memory/Tools.antt =====
-- memory_tools and _item_to_dict of henry/memory/tools.py over the two tables of PostgresMemory, and the
-- summarizer of henry/memory/summarizer.py with its model. `created_at` is the text of an item's time, and
-- `show` is Python's `str` of a list of dictionaries.
pub mod Reads
use henry.Prelude.{ℕ, Bool, true, false, Option, none, some, List, [], ◌∷◌, ◌++◌, map}
use henry.Prelude.Int.{ℤ, pos}
use henry.Text.{Text, codes, join}
use henry.Json.{Json, Fields, null, str, integer, obj, done, field, put}
use henry.Result.{Result, ok, err, ◌>>=◌}
use henry.Contracts.{ChannelState, ConversationTranscript, render}
use henry.Memory.Items.{MemoryItem, MemoryTable, remember, get_item, list_paths}
use henry.Memory.Snapshot.{StateTable, snapshot, fallback_summary}

score_json : Option ℕ → Json
score_json none = null
score_json (some n) = integer (pos n)

-- `_item_to_dict`
unfoldable pub item_to_dict : (created_at : MemoryItem → Json) → MemoryItem → Fields
unfolding score_json
item_to_dict created_at item = field (codes "path") (str item.path) (
    field (codes "content") (str item.content) (
      field (codes "kind") (str item.kind) (
        field (codes "metadata") (obj item.metadata) (
          field (codes "created_at") (created_at item)
            (field (codes "score") (score_json item.score) done)))))

-- What read_memory returns: an item or None, or the snapshot with the paths.
pub data Reading : Type 0 where
  one_item : Option Fields → Reading
  overview :
      (rolling_summary : Text) (open_tasks key_facts : List Fields) (paths : List Text) → Reading

item_dict : (MemoryItem → Json) → Option MemoryItem → Option Fields
item_dict created_at none = none
item_dict created_at (some item) = some (item_to_dict created_at item)

overview_of : ChannelState → List Text → Reading
overview_of s paths = overview s.rolling_summary s.open_tasks s.key_facts paths

module _ (created_at : MemoryItem → Json) (order_by : List Text → List Text) where
  unfoldable pub read_memory :
      MemoryTable → StateTable → (channel_id : Text) → Option Text → Reading
  unfolding item_dict overview_of
  read_memory table states channel_id (some (c ∷ path)) =
      one_item (item_dict created_at (get_item table channel_id (c ∷ path)))
  read_memory table states channel_id path =
      overview_of (snapshot states channel_id) (list_paths order_by table channel_id)

  unfoldable pub search_memory :
      (recall : MemoryTable → Text → Text → ℤ → List MemoryItem)
      → MemoryTable
      → (channel_id query : Text) → ℤ
      → List Fields
  search_memory recall table channel_id query k =
      map (item_to_dict created_at) (recall table channel_id query k)

-- `item_metadata["path"] = path`, for a path that is given
with_path : Option Text → Fields → Fields
with_path (some (c ∷ path)) metadata = put (codes "path") (str (c ∷ path)) metadata
with_path path metadata = metadata

unfoldable pub write_memory :
    (fresh : Text)
    → MemoryTable
    → (channel_id content kind : Text) → Option Text
    → Fields
    → MemoryTable × Text
unfolding with_path
write_memory fresh table channel_id content kind path metadata =
    (remember fresh table channel_id content kind (with_path path metadata), codes "Memory saved.")

-- `current or ChannelState(channel_id=...)`
or_new : Text → Option ChannelState → ChannelState
or_new channel_id (some s) = s
or_new channel_id none = record {
  channel_id = channel_id;
  rolling_summary = [];
  open_tasks = [];
  key_facts = [];
}

prompt_lines : (List Fields → Text) → ConversationTranscript → ChannelState → List Text
prompt_lines show transcript existing =
    codes "<current_snapshot>"
    ∷ (codes "rolling_summary: " ++ existing.rolling_summary)
    ∷ (codes "open_tasks: " ++ show existing.open_tasks)
    ∷ (codes "key_facts: " ++ show existing.key_facts)
    ∷ codes "</current_snapshot>"
    ∷ codes "<thread_transcript>"
    ∷ render transcript
    ∷ codes "</thread_transcript>"
    ∷ []

-- `_summarizer_prompt`
unfoldable pub summarizer_prompt :
    (List Fields → Text) → ConversationTranscript → Option ChannelState → Text
unfolding or_new prompt_lines
summarizer_prompt show transcript current =
    join (codes "\n") (prompt_lines show transcript (or_new transcript.channel_id current))

pub record SnapshotUpdate : Type 0 where
  pub rolling_summary : Text
  pub open_tasks : List Fields
  pub key_facts : List Fields

-- `summarize`; the model is a function of the prompt, if there is one.
unfoldable pub summarize :
    (List Fields → Text)
    → Option (Text → Result SnapshotUpdate)
    → (channel_id : Text) → ConversationTranscript
    → Option ChannelState
    → Result ChannelState
unfolding or_new
summarize show none channel_id transcript current =
    ok (fallback_summary channel_id transcript (or_new channel_id current))
summarize show (some model) channel_id transcript current = do
  update ← model (summarizer_prompt show transcript current)
  ok (record {
    channel_id = channel_id;
    rolling_summary = update.rolling_summary;
    open_tasks = update.open_tasks;
    key_facts = update.key_facts;
  })
