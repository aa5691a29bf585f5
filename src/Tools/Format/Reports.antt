-- ===== src/Tools/Format/Reports.antt =====
-- What went wrong with a cell is in the text that the model reads.
use henry.Prelude.{
  ◌≡◌, refl, ◌≢◌, ◌⊎◌, inl, inr, true, false, List, [], ◌∷◌, ◌++◌, arith, Any, Bool-cases,
}
use henry.Text.{Text, codes, join}
use henry.Text.Contains.{
  Contains, Contains-self, Contains-append_left, Contains-append_right, join_nonempty-Contains,
  Any-append_left, Any-append_right, Contains-ne-nil,
}
use henry.Json.{Json}
use henry.SandboxTypes.{CellOutput, CellResult, stream, error, error_status}
use henry.Tools.Format.{
  newline, kernel_reset_notice, timeout_notice, render_output, render_all, render_outputs, is_error,
  any_error, is_ok, missing_error, or_no_output, format_cell_result, frames,
}

or_no_output-Contains : (n t : Text) → n ≢ [] → Contains n t → Contains n (or_no_output t)
unfolding or_no_output
or_no_output-Contains n [] h c = absurd (Contains-ne-nil n [] h c refl)
or_no_output-Contains n (x ∷ t) h c = c

missing_error-Contains :
    (r : CellResult)
    → r.status ≡ error_status
    → any_error r.outputs ≡ false
    → Any (Contains (codes "error:")) (missing_error r)
missing_error-Contains r h k = elim (Bool-cases r.truncated) [
  | inl e ↦
      unfold missing_error is_ok in
      rw (h, k, e)
        (inl (record {
          before = [];
          after = codes " the cell raised, but its error output exceeded the output limit";
          place = unfold codes in refl;
        }))
  | inr e ↦
      unfold missing_error is_ok in
      rw (h, k, e)
        (inl (record {
          before = [];
          after = codes " the kernel reported a failure but produced no output";
          place = unfold codes in refl;
        }))
]

module _ (show : Json → Text) where
  render_all-error :
      (os : List CellOutput)
      → any_error os ≡ true
      → Any (Contains (codes "error:")) (render_all show os)
  unfolding render_all any_error is_error render_output
  render_all-error [] h = absurd (cc)
  render_all-error (error ename evalue traceback ∷ os) h = inl (
      Contains-append_right (codes "error:") (codes "error:\n")
        (join newline (frames evalue traceback))
        (record { before = []; after = newline; place = unfold codes in refl }))
  render_all-error (stream name text ∷ os) h = inr (render_all-error os h)
  render_all-error (o ∷ os) h =
      Any-append_right (Contains (codes "error:")) (render_output show o) (render_all show os)
        (render_all-error os h)

  error_part :
      (r : CellResult) (extra : List Text)
      → r.status ≡ error_status
      → Any (Contains (codes "error:")) (render_outputs show r ++ (extra ++ missing_error r))
  error_part r extra h = elim (Bool-cases (any_error r.outputs)) [
    | inl e ↦ Any-append_left _ (render_outputs show r) (extra ++ missing_error r) (
        unfold render_outputs in
        Any-append_left _ (render_all show r.outputs) _ (render_all-error r.outputs e))
    | inr e ↦
        Any-append_right _ (render_outputs show r) (extra ++ missing_error r)
          (Any-append_right _ extra (missing_error r) (missing_error-Contains r h e))
  ]

  -- A cell that failed without timing out never reads as a clean run: the text says `error:`, also
  -- where the error output itself was lost.
  pub format_cell_result-error :
      (r : CellResult)
      → r.timed_out ≡ false
      → r.status ≡ error_status
      → Contains (codes "error:") (format_cell_result show r)
  format_cell_result-error r t h =
      unfold format_cell_result in
      simp t (
        or_no_output-Contains (codes "error:") _ (λ e. unfold codes in cc)
          (join_nonempty-Contains (codes "error:") newline _ (λ e. unfold codes in cc)
            (error_part r _ h)))

  reset_in_timeout : Contains kernel_reset_notice timeout_notice
  unfolding timeout_notice
  reset_in_timeout =
      Contains-append_left kernel_reset_notice (codes "timed out: cell exceeded its time limit. ")
        kernel_reset_notice (Contains-self kernel_reset_notice)

  reset-ne-nil : kernel_reset_notice ≢ []
  unfolding kernel_reset_notice codes
  reset-ne-nil e = cc

  -- Where the sandbox has torn the session down, by a timeout or not, the text says that the state
  -- is gone.
  pub format_cell_result-reset :
      (r : CellResult)
      → (r.timed_out ≡ true) ⊎ (r.session_invalidated ≡ true)
      → Contains kernel_reset_notice (format_cell_result show r)
  format_cell_result-reset r h = elim (Bool-cases r.timed_out) [
    | inl t ↦
        unfold format_cell_result in
        simp t (
          join_nonempty-Contains kernel_reset_notice newline _ reset-ne-nil (
            Any-append_right _ (render_outputs show r) (timeout_notice ∷ [])
              (inl reset_in_timeout)))
    | inr t ↦
        let torn : r.session_invalidated ≡ true = ground arith in
        unfold format_cell_result in
        simp (t, torn)
          (or_no_output-Contains kernel_reset_notice _ reset-ne-nil (
            join_nonempty-Contains kernel_reset_notice newline _ reset-ne-nil (
              Any-append_right _ (render_outputs show r) (kernel_reset_notice ∷ missing_error r)
                (inl (Contains-self kernel_reset_notice)))))
  ]
