-- ===== src/Memory/Snapshot/Refreshed.antt =====
-- What a refresh of a channel's snapshot changes.
use henry.Prelude.{◌≡◌, refl, Bool, true, false, some, [], ◌∷◌, take, if◌then◌else◌, arith}
use henry.Text.{Text, ◌===◌, ===_iff}
use henry.Contracts.{ChannelState, ConversationTranscript, render}
use henry.Memory.Snapshot.{
  StateTable, state_row, or_blank, snapshot, fallback_summary, set_state, refresh_snapshot,
}

state-set_state :
    (table : StateTable) (new : ChannelState) (channel_id : Text)
    → state_row (set_state table new) channel_id
      ≡ (if new.channel_id === channel_id then some new else state_row table channel_id)
unfolding state_row set_state
state-set_state [] new channel_id = refl
state-set_state (row ∷ table) new channel_id = ground (
  arith,
  state-set_state table new channel_id,
  ===_iff row.channel_id new.channel_id,
  ===_iff new.channel_id channel_id,
  ===_iff row.channel_id channel_id,
)

-- A refresh gives the channel a summary of the thread's start, or the old one if the thread is
-- empty, and keeps its tasks and facts; the snapshot of every other channel is as before.
pub snapshot-refresh_snapshot :
    (table : StateTable) (channel_id : Text) (transcript : ConversationTranscript) (other : Text)
    → let old = snapshot table channel_id in
      let summary = take 1000 (render transcript) in
      snapshot (refresh_snapshot table channel_id transcript) other ≡ (
        if channel_id === other
        then record {
          channel_id = channel_id;
          rolling_summary = if summary === [] then old.rolling_summary else summary;
          open_tasks = old.open_tasks;
          key_facts = old.key_facts;
        }
        else snapshot table other)
unfolding refresh_snapshot snapshot fallback_summary
snapshot-refresh_snapshot table channel_id transcript other =
    let new = fallback_summary channel_id transcript (snapshot table channel_id) in
    rw (state-set_state table new other) (chosen (channel_id === other) new)
  where
    chosen :
        (b : Bool) (new : ChannelState)
        → or_blank other (if b then some new else state_row table other)
          ≡ (if b then new else or_blank other (state_row table other))
    chosen true new = refl
    chosen false new = refl
