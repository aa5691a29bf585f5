-- ===== src/Kernel/Tests.antt =====
-- Runs of the models of henry/sandbox/kernel_protocol.py and kernel_entry.py.
use henry.Kernel.Entry.{
  Call, new_client, load_connection_file, start_channels, stop_channels, wait_for_ready,
  write_stderr, World, main,
}
use henry.Kernel.Entry.Channels.{closed, all_placed, main-all_placed}
use henry.Result.{Result, ok, err, runtime_error}
use henry.Prelude.{
  ℕ, ◌≡◌, refl, ◌⊎◌, ◌≤◌, ◌<◌, Bool, true, false, none, some, List, [], ◌∷◌, ◌++◌, arith, take,
  length, length-take, leb, leb→le,
}
use henry.Prelude.Int.{pos}
use henry.Text.{Text, codes, text_ops}
use henry.Json.{Json, done, field, str, obj, integer, get, get_default, py_str, to_items}
use henry.Json.Bytes.{size_ops}
use henry.Result.{ok}
use henry.Kernel.Fit.{fit_text}
use henry.Kernel.Fit.Longest.{fit_text-longest}
use henry.Kernel.Outputs.{
  default_limits, append_stream, stream_text, stream_name, stream_dict, fits, append, list_bytes,
}
use henry.Kernel.Outputs.Budget.{InBudget}
use henry.Kernel.Drain.{Iopub, empty, message, Shell, reply, Drained, drain_execution, handle}
use henry.Kernel.Drain.Laws.{drain_execution-InBudget}

abbrev show : Json → Text
show v = []

-- Starts of at most three characters pass.
abbrev short : Text → Bool
short t = leb (length t) 3

fit_text-longest_example :
    (k : ℕ) × ((fit_text short (codes "abcde") false).0 ≡ take k (codes "abcde"))
    × ((k ≡ 0) ⊎ (short (take k (codes "abcde")) ≡ true))
    × ((n : ℕ) → k < n → n ≤ length (codes "abcde") → short (take n (codes "abcde")) ≡ false)
fit_text-longest_example = fit_text-longest short (codes "abcde") false (λ m n p h. ground (
  arith,
  h,
  leb→le (length (take n (codes "abcde"))) 3,
  length-take m (codes "abcde"),
  length-take n (codes "abcde"),
))

-- A cell that prints to a channel of which one read times out, and ends.
abbrev iopub : List Iopub
iopub =
    empty
    ∷ message (record {
      mine = true;
      kind = codes "stream";
      content = field (codes "text") (str (codes "hi")) done;
    })
    ∷ message (record {
      mine = true;
      kind = codes "status";
      content = field (codes "execution_state") (str (codes "idle")) done;
    })
    ∷ []

abbrev shell : List Shell
shell = reply true (field (codes "status") (str (codes "ok")) done) ∷ []

abbrev drained : Drained
drained = record {
  failed = false;
  outputs =
      obj (
        field (codes "output_type") (str (codes "stream")) (
          field (codes "name") (str (codes "stdout"))
            (field (codes "text") (str (codes "hi")) done)))
      ∷ [];
  execution_count = integer (pos 0);
  timed_out = false;
  truncated = false;
}

drained-run : drain_execution show default_limits iopub shell ≡ ok drained
unfolding drain_execution text_ops get get_default handle append_stream stream_text stream_name
    stream_dict fit_text fits append py_str size_ops list_bytes to_items
drained-run = refl

drain_execution-InBudget_example : InBudget default_limits drained.outputs
drain_execution-InBudget_example =
    drain_execution-InBudget show default_limits iopub shell drained drained-run

-- A kernel that is never ready.
abbrev not_ready : Call → Result Text
not_ready (wait_for_ready t) = err (runtime_error (codes "no"))
not_ready call = ok []

abbrev container : World
container = record {
  answer = not_ready;
  environ = λ name. none;
  float = λ t. ok t;
  b64decode = λ t. ok t;
  decode = λ t. ok t;
  repr = λ t. t;
  seconds_alive = 0;
}

abbrev ping_argv : List Text
ping_argv = codes "kernel_entry" ∷ codes "ping" ∷ []

main-all_placed_example : all_placed not_ready closed (main container ping_argv).0 ≡ some closed
main-all_placed_example = main-all_placed container ping_argv

ping_fails : main container ping_argv ≡ (
  new_client (codes "/workspace/.henry/kernel.json")
      ∷ load_connection_file
      ∷ start_channels
      ∷ wait_for_ready (codes "5")
      ∷ stop_channels
      ∷ write_stderr (
          codes "ping failed: "
          ++ (henry.Result.message (runtime_error (codes "no")) ++ codes "\n"))
      ∷ [],
  ok 1,
)
unfolding main codes henry.Text.◌===◌
ping_fails = refl
