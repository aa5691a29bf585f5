-- ===== src/Kernel/Drain/Laws.antt =====
-- What holds of every result of `drain_execution`.
use henry.Prelude.{
  ℕ, ◌+◌, ◌≡◌, refl, subst, inl, inr, Bool, true, ◌||◌, Option, none, some, List, [], ◌∷◌, arith,
  ltb, leb, Bool-cases,
}
use henry.Text.{Text, codes, ◌===◌}
use henry.Json.{Json, Fields, get_default}
use henry.Result.{
  Result, ok, err, ◌>>=◌, raise_if, value_error, Ensures, Ensures-bind-with, Ensures-ok,
  ok-injective,
}
use henry.Kernel.Outputs.{Limits, Collected, append_stream, append_bundle, append_error}
use henry.Kernel.Outputs.Budget.{
  InBudget, append_stream-InBudget, append_bundle-Keeps, append_error-Keeps,
}
use henry.Kernel.Drain.{
  Message, Iopub, empty, broken, message, Shell, Progress, Drained, Ended, late, over, collect,
  handle, output_loop, shell_loop, finish, is_idle, start, drain_execution, max_channel_failures,
  timed_out_result, final_result,
}

abbrev Good : Limits → Progress → Type 0
Good l p = InBudget l p.collected.outputs

abbrev progress : Ended → Progress
progress (late p) = p
progress (over p) = p

collect-Good :
    (l : Limits) (p : Progress) (m : Result Collected)
    → Ensures (λ d. InBudget l d.outputs) m
    → Ensures (Good l) (collect p m)
unfolding collect
collect-Good l p (ok c) h = Ensures-ok (Good l) (record p { collected = c }) (h c refl)
collect-Good l p (err e) h = λ b q. absurd (cc)

abbrev counted : Progress → Message → Progress
counted p m = record p {
  execution_count = get_default (codes "execution_count") p.execution_count m.content;
}

streamed-Good :
    (show : Json → Text) (l : Limits) (p : Progress) (m : Message)
    → Good l p
    → Ensures (Good l) (ok (record p { collected = append_stream show l p.collected m.content }))
streamed-Good show l p m v =
    Ensures-ok (Good l) (record p { collected = append_stream show l p.collected m.content })
      (append_stream-InBudget show l p.collected m.content v)

bundled-Good :
    (l : Limits) (p : Progress) (kind : Text) (m : Message) (q : Progress)
    → Good l p
    → Ensures (Good l) (collect q (append_bundle l p.collected kind m.content))
bundled-Good l p kind m q v =
    collect-Good l q (append_bundle l p.collected kind m.content)
      (append_bundle-Keeps l p.collected kind m.content v)

failed-Good :
    (show : Json → Text) (l : Limits) (p : Progress) (m : Message) (q : Progress)
    → Good l p
    → Ensures (Good l) (collect q (append_error show l p.collected m.content))
failed-Good show l p m q v =
    collect-Good l q (append_error show l p.collected m.content)
      (append_error-Keeps show l p.collected m.content v)

handle-Good :
    (show : Json → Text) (l : Limits) (p : Progress) (m : Message)
    → Good l p
    → Ensures (Good l) (handle show l p m)
handle-Good show l p m v =
    unfold handle in
    elim (Bool-cases (m.kind === codes "stream")) [
      | inl e ↦ simp e (streamed-Good show l p m v)
      | inr e ↦ elim (Bool-cases (m.kind === codes "execute_input")) [
        | inl f ↦ simp (e, f) (Ensures-ok (Good l) (counted p m) v)
        | inr f ↦ elim (Bool-cases (m.kind === codes "execute_result")) [
          | inl g ↦ simp (e, f, g) (bundled-Good l p (codes "execute_result") m (counted p m) v)
          | inr g ↦
              elim (Bool-cases
                (m.kind === codes "display_data" || m.kind === codes "update_display_data")) [
                  | inl h ↦ simp (e, f, g, h) (bundled-Good l p (codes "display_data") m p v)
                  | inr h ↦ elim (Bool-cases (m.kind === codes "error")) [
                    | inl k ↦
                        simp (e, f, g, h, k) (failed-Good show l p m (record p { failed = true }) v)
                    | inr k ↦ simp (e, f, g, h, k) (Ensures-ok (Good l) p v)
                  ]
                ]
        ]
      ]
    ]

module _ (show : Json → Text) (l : Limits) where
  abbrev GoodEnd : Ended → Type 0
  GoodEnd e = Good l (progress e)

  loop-Good :
      (p : Progress) (failures : ℕ) (events : List Iopub)
      → Good l p
      → Ensures GoodEnd (output_loop show l p failures events)
  unfolding output_loop
  loop-Good p failures [] v = Ensures-ok GoodEnd (late p) v
  loop-Good p failures (empty ∷ rest) v = loop-Good p failures rest v
  loop-Good p failures (broken ∷ rest) v =
      elim (Bool-cases (leb max_channel_failures (failures + 1))) [
        | inl e ↦ rw e (Ensures-ok GoodEnd (over (record p { failed = true })) v)
        | inr e ↦ rw e (loop-Good p (failures + 1) rest v)
      ]
  loop-Good p failures (message m ∷ rest) v = elim (Bool-cases m.mine) [
    | inr e ↦ simp e (loop-Good p 0 rest v)
    | inl e ↦ elim (Bool-cases (is_idle m)) [
      | inl f ↦ simp (e, f) (Ensures-ok GoodEnd (over p) v)
      | inr f ↦
          simp (e, f)
            (Ensures-bind-with (handle show l p m) (λ q. output_loop show l q 0 rest)
              (handle-Good show l p m v) (λ q w. loop-Good q 0 rest w))
    ]
  ]

final-outputs :
    (p : Progress) (matching : Option Fields)
    → (final_result p matching).outputs ≡ p.collected.outputs
unfolding final_result
final-outputs p none = refl
final-outputs p (some content) = refl

finish-outputs :
    (shell : List Shell) (e : Ended) → (finish shell e).outputs ≡ (progress e).collected.outputs
unfolding finish timed_out_result
finish-outputs shell (late p) = refl
finish-outputs shell (over p) = final-outputs p (shell_loop shell)

ended-ok :
    (shell : List Shell) (m : Result Ended) (d : Drained)
    → (m >>= (λ e. ok (finish shell e))) ≡ ok d
    → (e : Ended) × (m ≡ ok e) × (finish shell e ≡ d)
ended-ok shell (ok e) d h = (e, refl, ok-injective h)
ended-ok shell (err e) d h = absurd (cc)

-- A returned dictionary is made of what the output loop ended with.
drain_execution-ended :
    (show : Json → Text) (l : Limits) (iopub : List Iopub) (shell : List Shell) (d : Drained)
    → drain_execution show l iopub shell ≡ ok d
    → (e : Ended) × (output_loop show l start 0 iopub ≡ ok e) × (finish shell e ≡ d)
drain_execution-ended show l iopub shell d h =
    let run = λ (bad : Bool).
      raise_if bad
        (value_error (codes "output budgets must allow a JSON list and non-negative item count"))
      >>= λ _. output_loop show l start 0 iopub >>= λ e. ok (finish shell e) in
    elim (Bool-cases (ltb l.max_total_bytes 2 || ltb l.max_item_bytes 2)) [
      | inl e ↦ absurd (unfold drain_execution in ground arith)
      | inr e ↦
          ended-ok shell (output_loop show l start 0 iopub) d
            (subst (λ bad. run bad ≡ ok d) e (unfold drain_execution in h))
    ]

-- Whatever the kernel sends, and however the cell ends, the outputs that `drain_execution`
-- returns keep the budget: their number, the bytes of each and the bytes of all as one JSON
-- list, unless nothing is returned.
pub drain_execution-InBudget :
    (show : Json → Text) (l : Limits) (iopub : List Iopub) (shell : List Shell) (d : Drained)
    → drain_execution show l iopub shell ≡ ok d
    → InBudget l d.outputs
drain_execution-InBudget show l iopub shell d h =
    let (e, ended, last) = drain_execution-ended show l iopub shell d h in
    let v : Good l (progress e) =
      loop-Good show l start 0 iopub (record { count = omega arith; each = tt; total = inl refl }) e
        ended in
    subst (InBudget l) (cc (finish-outputs shell e)) v
