-- ===== src/Docker/Cells/Outcome.antt =====
-- What a caller may conclude from the result of a cell.
use henry.Prelude.{ℕ, zero, suc, ◌≤◌, ◌<◌, ◌≡◌, refl, false, Option, none, some, arith}
use henry.Prelude.Int.{ℤ, pos, negsuc}
use henry.Result.{Result, ok, err, Ensures}
use henry.Json.{Json}
use henry.SandboxTypes.{SandboxPolicy, CellResult}
use henry.Docker.Payload.{cell_result_from_payload, cell_result_from_payload-trusted}
use henry.Docker.Cells.{
  Codec, bounded_timeout, timeout_cell, transport_error_cell, ExecOutcome, cancelled, timed_out,
  failed, exited, judged, decoded, cell_outcome, split_exec_output,
}

-- The timeout that a cell runs with is positive and within the policy, if the policy's own are.
pub bounded_timeout_bounds :
    (t : Option ℤ) (policy : SandboxPolicy) (n : ℕ)
    → 0 < policy.default_timeout_s
    → policy.default_timeout_s ≤ policy.max_timeout_s
    → bounded_timeout t policy ≡ ok n
    → (0 < n) × (n ≤ policy.max_timeout_s)
unfolding bounded_timeout
bounded_timeout_bounds none policy n p q h = ground arith
bounded_timeout_bounds (some (pos zero)) policy n p q h = cc
bounded_timeout_bounds (some (pos (suc k))) policy n p q h = ground arith
bounded_timeout_bounds (some (negsuc k)) policy n p q h = cc

judged-invalidated :
    (m : Result CellResult)
    → Ensures (λ r. r.session_invalidated ≡ false) m
    → (judged m).0.session_invalidated ≡ (judged m).1
unfolding judged transport_error_cell
judged-invalidated (ok r) h = ground (arith, h r refl)
judged-invalidated (err e) h = refl

decoded-invalidated :
    (payload : Option Json) → (decoded payload).0.session_invalidated ≡ (decoded payload).1
unfolding decoded transport_error_cell
decoded-invalidated none = refl
decoded-invalidated (some j) =
    judged-invalidated (cell_result_from_payload j) (cell_result_from_payload-trusted j)

-- A result says that the session is gone exactly when `exec_cell` has torn it down.
pub cell_outcome-invalidated :
    (codec : Codec) (timeout : ℕ) (o : ExecOutcome) (r : CellResult)
    → (cell_outcome codec timeout o).0 ≡ some r
    → r.session_invalidated ≡ (cell_outcome codec timeout o).1
unfolding cell_outcome timeout_cell transport_error_cell
cell_outcome-invalidated codec timeout cancelled r h = cc
cell_outcome-invalidated codec timeout timed_out r h = ground arith
cell_outcome-invalidated codec timeout failed r h = ground arith
cell_outcome-invalidated codec timeout (exited c out) r h =
    ground (arith, decoded-invalidated (codec.loads (split_exec_output out).0))
