-- ===== src/Memory/Snapshot.antt =====
-- snapshot and refresh_snapshot of henry/memory/postgres.py with _fallback_summary of
-- henry/memory/summarizer.py, the summarizer without a model.
pub mod Refreshed
use henry.Prelude.{
  ℕ, Bool, true, false, not, ◌&&◌, Option, none, some, List, [], ◌∷◌, take, if◌then◌else◌,
}
use henry.Text.{Text, ◌===◌}
use henry.Contracts.{ChannelState, ConversationTranscript, render}

-- The table of snapshots, one row for a channel.
abbrev pub StateTable : Type 0
StateTable = List ChannelState

unfoldable pub state_row : StateTable → Text → Option ChannelState
state_row [] channel_id = none
state_row (row ∷ table) channel_id =
    let rest = state_row table channel_id in
    if row.channel_id === channel_id then some row else rest

or_blank : Text → Option ChannelState → ChannelState
or_blank channel_id (some row) = row
or_blank channel_id none = record {
  channel_id = channel_id;
  rolling_summary = [];
  open_tasks = [];
  key_facts = [];
}

unfoldable pub snapshot : StateTable → Text → ChannelState
unfolding or_blank
snapshot table channel_id = or_blank channel_id (state_row table channel_id)

unfoldable pub fallback_summary : Text → ConversationTranscript → ChannelState → ChannelState
fallback_summary channel_id transcript current =
    let summary = take 1000 (render transcript) in
    record {
      channel_id = channel_id;
      rolling_summary = if summary === [] then current.rolling_summary else summary;
      open_tasks = current.open_tasks;
      key_facts = current.key_facts;
    }

set_state : StateTable → ChannelState → StateTable
set_state [] new = new ∷ []
set_state (row ∷ table) new =
    let rest = set_state table new in
    if row.channel_id === new.channel_id then new ∷ table else row ∷ rest

unfoldable pub refresh_snapshot : StateTable → Text → ConversationTranscript → StateTable
unfolding set_state
refresh_snapshot table channel_id transcript =
    set_state table (fallback_summary channel_id transcript (snapshot table channel_id))
