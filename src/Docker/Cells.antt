-- ===== src/Docker/Cells.antt =====
-- DockerSandbox.exec_cell of henry/sandbox/docker.py with `_bounded_timeout`, `_timeout_cell`,
-- `_transport_error_cell`, `_decode_and_cap` and `_split_exec_output`. The method holds the
-- session's lock while Docker runs the cell, so it is two steps, `cell_begin` and `cell_end`.
pub mod Outcome
use henry.Prelude.{
  ℕ, zero, suc, ◌+◌, ◌*◌, min, Bool, true, false, Option, none, some, List, [], ◌∷◌, ◌++◌, length,
  take, ltb, ◌==◌, if◌then◌else◌,
}
use henry.Prelude.Int.{ℤ, pos, negsuc}
use henry.Text.{Text, codes, decimal, decimal_int}
use henry.Json.{Json}
use henry.Result.{Result, ok, err, Error, value_error, session_destroyed, other_error, ◌>>=◌}
use henry.SandboxTypes.{SandboxPolicy, CellResult, error, error_status}
use henry.Docker.Payload.{cell_result_from_payload}
use henry.Docker.Sessions.{
  Sandbox, Session, Removal, update, exec_in, get_session, invalidate_locked,
}

-- Limits: `_MAX_PAYLOAD_BYTES`, and `stdout_limit_bytes` as it is by default.
abbrev pub max_payload_bytes : ℕ
max_payload_bytes = 2 * 1024 * 1024

abbrev pub stdout_limit_bytes : ℕ
stdout_limit_bytes = 64 * 1024

-- Decoding of bytes: `decode` is `bytes.decode("utf-8", errors="replace")`, and `loads` is
-- `json.loads(bytes.decode("utf-8"))`, `none` where either raises.
pub record Codec : Type 0 where
  pub decode : List ℕ → Text
  pub loads : List ℕ → Option Json

unfoldable pub bounded_timeout : Option ℤ → SandboxPolicy → Result ℕ
bounded_timeout none policy = ok policy.default_timeout_s
bounded_timeout (some (pos zero)) policy =
    err (value_error (codes "timeout_s must be positive, got 0"))
bounded_timeout (some (pos n)) policy = ok (min n policy.max_timeout_s)
bounded_timeout (some (negsuc n)) policy =
    err (value_error (codes "timeout_s must be positive, got " ++ decimal_int (negsuc n)))

invalidated : Bool → Text → Text → CellResult
invalidated timed_out ename evalue = record {
  status = error_status;
  outputs = error ename evalue [] ∷ [];
  execution_count = 0;
  timed_out = timed_out;
  truncated = false;
  session_invalidated = true;
}

unfoldable pub timeout_cell : ℕ → CellResult
unfolding invalidated
timeout_cell timeout =
    invalidated true (codes "ExecutionTimeout")
      (codes "cell timed out after " ++ (decimal timeout ++ codes "s"))

unfoldable pub transport_error_cell : Text → CellResult
unfolding invalidated
transport_error_cell text = invalidated false (codes "KernelTransportError") text

-- What `exec_run` gives as output: a pair with `demux`, bytes without, or another object, of which
-- `str` is taken.
pub data DockerOutput : Type 0 where
  demuxed : Option (List ℕ) → Option (List ℕ) → DockerOutput
  plain : List ℕ → DockerOutput
  other : List ℕ → DockerOutput

or_empty : Option (List ℕ) → List ℕ
or_empty none = []
or_empty (some bytes) = bytes

unfoldable pub split_exec_output : DockerOutput → List ℕ × List ℕ
unfolding or_empty
split_exec_output (demuxed stdout stderr) = (or_empty stdout, or_empty stderr)
split_exec_output (plain bytes) = (bytes, [])
split_exec_output (other bytes) = (bytes, [])

unfoldable pub decode_and_cap : Codec → List ℕ → Text × Bool
decode_and_cap codec bytes =
    let truncated = ltb stdout_limit_bytes (length bytes) in
    (codec.decode (if truncated then take stdout_limit_bytes bytes else bytes), truncated)

-- How the wait for Docker's `exec_run` ends.
pub data ExecOutcome : Type 0 where
  cancelled timed_out failed : ExecOutcome
  exited : ℤ → DockerOutput → ExecOutcome

is_zero : ℤ → Bool
is_zero (pos zero) = true
is_zero _ = false

-- What `exec_cell` returns for a decoded payload, with whether the session is torn down.
judged : Result CellResult → CellResult × Bool
judged (ok result) =
    if result.timed_out
    then (record result { session_invalidated = true }, true)
    else (result, false)
judged (err e) = (transport_error_cell (codes "malformed kernel response"), true)

decoded : Option Json → CellResult × Bool
unfolding judged
decoded none = (transport_error_cell (codes "malformed kernel response"), true)
decoded (some payload) = judged (cell_result_from_payload payload)

-- The branches behind the wait: the result, or `none` for a cancellation that is raised again, and
-- whether `_invalidate_locked` is called.
unfoldable pub cell_outcome : Codec → ℕ → ExecOutcome → Option CellResult × Bool
unfolding is_zero decoded
cell_outcome codec timeout cancelled = (none, true)
cell_outcome codec timeout timed_out = (some (timeout_cell timeout), true)
cell_outcome codec timeout failed =
    (some (transport_error_cell (codes "kernel exec failed: Docker transport error")), true)
cell_outcome codec timeout (exited exit_code output) =
    let (out, err_bytes) = split_exec_output output in
    let failure = transport_error_cell (
      codes "kernel exec failed (exit "
      ++ (decimal_int exit_code ++ (codes "): " ++ (decode_and_cap codec err_bytes).0))) in
    if is_zero exit_code
    then if ltb max_payload_bytes (length out)
      then (some (transport_error_cell (codes "kernel response exceeded host payload limit")), true)
      else (let (result, torn) = decoded (codec.loads out) in (some result, torn))
    else (some failure, true)

-- `exec_cell` up to the lock: the session and the timeout.
unfoldable pub cell_enter : Sandbox → Text → Option ℤ → Result (ℕ × ℕ)
cell_enter w session timeout_s = do
  found ← get_session w session
  timeout ← bounded_timeout timeout_s found.1.policy
  ok (found.0, timeout)

-- With the lock just taken on the object `s` of number `a`: the session may be gone by now.
unfoldable pub cell_begin : Sandbox → Text → ℕ → Session → Result Sandbox
cell_begin w session a s =
    if s.destroyed
    then err (session_destroyed (codes "sandbox session is destroyed: " ++ session))
    else ok (record w {
      heap = update w.heap a (record s { locked = true });
      calls = exec_in a ∷ w.calls;
    })

cell_result : Option CellResult → Result CellResult
cell_result none = err (other_error (codes "CancelledError"))
cell_result (some result) = ok result

unfoldable pub unlock : Sandbox → ℕ → Option Session → Sandbox
unlock w a none = w
unlock w a (some s) = record w { heap = update w.heap a (record s { locked = false }) }

-- From the end of the wait to the release of the lock.
unfoldable pub cell_end :
    Codec → Sandbox → Text → ℕ → Session → ℕ → ExecOutcome → Removal → Sandbox × Result CellResult
unfolding cell_result unlock
cell_end codec w session a s timeout outcome r =
    let (result, torn) = cell_outcome codec timeout outcome in
    let w' = if torn then invalidate_locked w session a s r else w in
    (unlock w' a (w'.heap a), cell_result result)
