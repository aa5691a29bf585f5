-- ===== src/Tools/Format.antt =====
-- `_render_outputs` and `_format_cell_result` of henry/sandbox/tools.py: what the model is told of a
-- cell. `show` is Python's `str` of a decoded JSON value.
pub mod Reports
use henry.Prelude.{
  ℕ, Bool, true, false, not, ◌&&◌, ◌||◌, Option, none, some, List, [], ◌∷◌, ◌++◌, if◌then◌else◌,
}
use henry.Text.{Text, codes, ◌===◌, join}
use henry.Text.Contains.{join_nonempty}
use henry.Json.{Json, Fields, null, done, field, get}
use henry.SandboxTypes.{
  CellOutput, CellStatus, CellResult, stream, execute_result, display_data, error, ok_status,
  error_status,
}

abbrev pub newline : Text
newline = 10 ∷ []

unfoldable pub kernel_reset_notice : Text
kernel_reset_notice =
    codes
      "The kernel was restarted and its workspace was destroyed, so variables, imports, definitions, written files, and cloned repositories from earlier in this task are all gone."

unfoldable pub timeout_notice : Text
timeout_notice = codes "timed out: cell exceeded its time limit. " ++ kernel_reset_notice

rich_outputs : Fields → List Text
rich_outputs done = []
rich_outputs (field mime v fs) =
    let rest = rich_outputs fs in
    if mime === codes "text/plain"
    then rest
    else (codes "[rich output: " ++ (mime ++ codes "]")) ∷ rest

-- `traceback = output.traceback or [output.evalue or ""]`
frames : Text → List Text → List Text
frames evalue [] = evalue ∷ []
frames evalue (f ∷ fs) = f ∷ fs

module _ (show : Json → Text) where
  plain_text : Json → List Text
  plain_text null = []
  plain_text v = show v ∷ []

  render_output : CellOutput → List Text
  unfolding rich_outputs frames plain_text
  render_output (stream name text) = text ∷ []
  render_output (execute_result bundle metadata count) =
      plain_text (get (codes "text/plain") bundle) ++ rich_outputs bundle
  render_output (display_data bundle metadata count) =
      plain_text (get (codes "text/plain") bundle) ++ rich_outputs bundle
  render_output (error ename evalue traceback) =
      (codes "error:\n" ++ join newline (frames evalue traceback)) ∷ []

  render_all : List CellOutput → List Text
  render_all [] = []
  render_all (o ∷ os) = render_output o ++ render_all os

  unfoldable pub render_outputs : CellResult → List Text
  unfolding render_output render_all
  render_outputs r =
      render_all r.outputs ++ (if r.truncated then codes "[output truncated]" ∷ [] else [])

is_error : CellOutput → Bool
is_error (error ename evalue traceback) = true
is_error _ = false

any_error : List CellOutput → Bool
any_error [] = false
any_error (o ∷ os) = is_error o || any_error os

is_ok : CellStatus → Bool
is_ok ok_status = true
is_ok error_status = false

-- The line for a failure whose error output did not come back.
missing_error : CellResult → List Text
missing_error r =
    if not (is_ok r.status) && not (any_error r.outputs)
    then (if r.truncated
        then codes "error: the cell raised, but its error output exceeded the output limit"
        else codes "error: the kernel reported a failure but produced no output")
      ∷ []
    else []

or_no_output : Text → Text
or_no_output [] = codes "(no output)"
or_no_output (c ∷ t) = c ∷ t

module _ (show : Json → Text) where
  unfoldable pub format_cell_result : CellResult → Text
  unfolding any_error is_error is_ok missing_error or_no_output
  format_cell_result r =
      if r.timed_out
      then join_nonempty newline (render_outputs show r ++ timeout_notice ∷ [])
      else or_no_output (
          join_nonempty newline (
            render_outputs show r
            ++ ((if r.session_invalidated then kernel_reset_notice ∷ [] else [])
                ++ missing_error r)))
