-- ===== src/Kernel/Drain.antt =====
-- The two loops of `drain_execution` in henry/sandbox/kernel_protocol.py. What the channels deliver
-- before a deadline is a list; where the list ends the deadline has passed.
pub mod Laws
use henry.Prelude.{
  ℕ, zero, suc, ◌+◌, Bool, true, false, not, ◌&&◌, ◌||◌, Option, none, some, List, [], ◌∷◌, ltb,
  leb, if◌then◌else◌,
}
use henry.Prelude.Int.{pos}
use henry.Text.{Text, codes, ◌===◌}
use henry.Json.{Json, Fields, integer, str, get, get_default}
use henry.Result.{Result, ok, err, value_error, ◌>>=◌, ◌>>◌, raise_if}
use henry.Kernel.Outputs.{Limits, Collected, nothing, append_stream, append_bundle, append_error}

abbrev pub max_channel_failures : ℕ
max_channel_failures = 5

-- A message of a channel: whether it answers this execution, its type and its content.
pub record Message : Type 0 where
  pub mine : Bool
  pub kind : Text
  pub content : Fields

-- A read of the output channel: nothing in time, another failure, or a message.
pub data Iopub : Type 0 where
  empty broken : Iopub
  message : Message → Iopub

pub data Shell : Type 0 where
  no_reply : Shell
  reply : Bool → Fields → Shell

pub record Progress : Type 0 where
  pub collected : Collected
  pub failed : Bool
  pub execution_count : Json

-- The dictionary that is returned; `failed` is the status "error".
pub record Drained : Type 0 where
  pub failed : Bool
  pub outputs : List Json
  pub execution_count : Json
  pub timed_out : Bool
  pub truncated : Bool

is_str : Text → Json → Bool
is_str t (str s) = s === t
is_str t _ = false

is_idle : Message → Bool
unfolding is_str
is_idle m =
    m.kind === codes "status" && is_str (codes "idle") (get (codes "execution_state") m.content)

collect : Progress → Result Collected → Result Progress
collect p (ok c) = ok (record p { collected = c })
collect p (err e) = err e

-- A message of this execution, other than the one that ends it.
unfoldable pub handle : (Json → Text) → Limits → Progress → Message → Result Progress
unfolding collect
handle show l p m =
    if m.kind === codes "stream"
    then ok (record p { collected = append_stream show l p.collected m.content })
    else if m.kind === codes "execute_input"
    then ok (record p {
      execution_count = get_default (codes "execution_count") p.execution_count m.content;
    })
    else if m.kind === codes "execute_result"
    then collect
        (record p {
          execution_count = get_default (codes "execution_count") p.execution_count m.content;
        })
        (append_bundle l p.collected (codes "execute_result") m.content)
    else if m.kind === codes "display_data" || m.kind === codes "update_display_data"
    then collect p (append_bundle l p.collected (codes "display_data") m.content)
    else if m.kind === codes "error"
    then collect (record p { failed = true }) (append_error show l p.collected m.content)
    else ok p

-- How the output loop ends: by the deadline, or by a message or a broken channel.
pub data Ended : Type 0 where
  late over : Progress → Ended

module _ (show : Json → Text) (l : Limits) where
  pub output_loop : Progress → ℕ → List Iopub → Result Ended
  unfolding is_idle
  output_loop p failures [] = ok (late p)
  output_loop p failures (empty ∷ rest) = output_loop p failures rest
  output_loop p failures (broken ∷ rest) =
      let more = output_loop p (failures + 1) rest in
      if leb max_channel_failures (failures + 1)
      then ok (over (record p { failed = true }))
      else more
  output_loop p failures (message m ∷ rest) =
      let skip = output_loop p 0 rest in
      let more = handle show l p m >>= (λ p'. output_loop p' 0 rest) in
      if not m.mine then skip else if is_idle m then ok (over p) else more

-- The wait for the reply on the shell channel.
pub shell_loop : List Shell → Option Fields
shell_loop [] = none
shell_loop (no_reply ∷ rest) = none
shell_loop (reply true content ∷ rest) = some content
shell_loop (reply false content ∷ rest) = shell_loop rest

timed_out_result : Progress → Drained
timed_out_result p = record {
  failed = true;
  outputs = p.collected.outputs;
  execution_count = p.execution_count;
  timed_out = true;
  truncated = p.collected.truncated;
}

final_result : Progress → Option Fields → Drained
unfolding is_str
final_result p matching = elim matching [
  | none ↦ record {
    failed = true;
    outputs = p.collected.outputs;
    execution_count = p.execution_count;
    timed_out = false;
    truncated = p.collected.truncated;
  }
  | some content ↦ record {
    failed = p.failed || not (is_str (codes "ok") (get (codes "status") content));
    outputs = p.collected.outputs;
    execution_count = get_default (codes "execution_count") p.execution_count content;
    timed_out = false;
    truncated = p.collected.truncated;
  }
]

finish : List Shell → Ended → Drained
unfolding timed_out_result final_result shell_loop
finish shell (late p) = timed_out_result p
finish shell (over p) = final_result p (shell_loop shell)

abbrev pub start : Progress
start = record { collected = nothing; failed = false; execution_count = integer (pos 0) }

unfoldable pub drain_execution : (Json → Text) → Limits → List Iopub → List Shell → Result Drained
unfolding output_loop finish
drain_execution show l iopub shell = do
  raise_if (ltb l.max_total_bytes 2 || ltb l.max_item_bytes 2)
      (value_error (codes "output budgets must allow a JSON list and non-negative item count"))
  ended ← output_loop show l start 0 iopub
  ok (finish shell ended)
