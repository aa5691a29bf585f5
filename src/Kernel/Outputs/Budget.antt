-- ===== src/Kernel/Outputs/Budget.antt =====
-- The outputs that are collected stay within the budget.
use henry.Prelude.{
  ℕ, ◌-◌, ◌≤◌, ◌≡◌, ◌⊎◌, inl, inr, Bool, true, false, not, ◌||◌, Option, none, some, List, [], ◌∷◌,
  ◌++◌, arith, length, length-append, leb, leb→le, Bool-cases, &&-true, All, All-append,
}
use henry.Text.{Text, codes, ◌===◌}
use henry.Json.{Json, Fields}
use henry.Json.Bytes.{json_bytes}
use henry.Result.{Result, ok, Ensures, Ensures-bind, Ensures-ok}
use henry.Kernel.Outputs.{
  Limits, Collected, fits, list_bytes, append, within, cut_if, placeholder, append_fitted,
  append_stream, append_bundle, after_bundle, append_error, append_dropped, dropped, fit_field,
  max_field_bytes, stream_dict, bundle_dict, append_fields, error_dict, raw_frames, append_frames,
}

-- A size is known and at most the limit.
abbrev pub AtMost : ℕ → Option ℕ → Type 0
AtMost limit none = ⊥
AtMost limit (some n) = n ≤ limit

pub record InBudget (l : Limits) (outputs : List Json) : Type 0 where
  pub count : length outputs ≤ l.max_items
  pub each : All (λ o. AtMost l.max_item_bytes (json_bytes o)) outputs
  pub total : (outputs ≡ []) ⊎ AtMost l.max_total_bytes (list_bytes outputs)

within-AtMost : (limit : ℕ) (size : Option ℕ) → within limit size ≡ true → AtMost limit size
unfolding within
within-AtMost limit none h = absurd (cc)
within-AtMost limit (some n) h = leb→le n limit h

fits-AtMost :
    (l : Limits) (outputs : List Json) (output : Json)
    → fits l outputs output ≡ true
    → AtMost l.max_item_bytes (json_bytes output)
      × AtMost l.max_total_bytes (list_bytes (outputs ++ output ∷ []))
unfolding fits
fits-AtMost l outputs output h =
    let (p, q) =
      &&-true (within l.max_item_bytes (json_bytes output))
        (within l.max_total_bytes (list_bytes (outputs ++ output ∷ []))) h in
    (
      within-AtMost l.max_item_bytes (json_bytes output) p,
      within-AtMost l.max_total_bytes (list_bytes (outputs ++ output ∷ [])) q,
    )

pub append-InBudget :
    (l : Limits) (c : Collected) (output : Json)
    → InBudget l c.outputs
    → InBudget l (append l c output).0.outputs
append-InBudget l c output v =
    elim (Bool-cases (leb l.max_items (length c.outputs) || not (fits l c.outputs output))) [
      | inl full ↦ unfold append in simp full v
      | inr room ↦
          let (one, all) = fits-AtMost l c.outputs output (ground arith) in
          unfold append in
          simp room (record {
            count = ground (arith, length-append c.outputs (output ∷ []));
            each =
                All-append (λ o. AtMost l.max_item_bytes (json_bytes o)) c.outputs (output ∷ [])
                  v.each (one, tt);
            total = inr all;
          })
    ]

abbrev Keeps : Limits → Result Collected → Type 0
Keeps l m = Ensures (λ d. InBudget l d.outputs) m

ok-Keeps : (l : Limits) (c : Collected) → InBudget l c.outputs → Keeps l (ok c)
ok-Keeps l c v = Ensures-ok (λ d. InBudget l d.outputs) c v

append_dropped-InBudget :
    (l : Limits) (c : Collected) (value : Text)
    → InBudget l c.outputs
    → InBudget l (append_dropped l c value).outputs
unfolding append_dropped
append_dropped-InBudget l c value v =
    append-InBudget l (record c { truncated = true }) (dropped value) v

placeholder-Keeps :
    (l : Limits) (c : Collected) (reason : Text)
    → InBudget l c.outputs
    → Keeps l (placeholder l c reason)
unfolding placeholder
placeholder-Keeps l c reason v =
    Ensures-bind (fit_field (λ v. fits l c.outputs (dropped v)) (max_field_bytes - 11) reason)
      (λ fitted. ok (append_dropped l c fitted.0))
      (λ fitted. ok-Keeps l (append_dropped l c fitted.0) (append_dropped-InBudget l c fitted.0 v))

append_fitted-InBudget :
    (l : Limits) (c : Collected) (name text fitted : Text)
    → InBudget l c.outputs
    → InBudget l (append_fitted l c name text fitted).outputs
unfolding append_fitted
append_fitted-InBudget l c name text [] v = elim (Bool-cases (text === [])) [
  | inl e ↦ rw e (append-InBudget l c (stream_dict name []) v)
  | inr e ↦ rw e v
]
append_fitted-InBudget l c name text (x ∷ fitted) v =
    append-InBudget l c (stream_dict name (x ∷ fitted)) v

pub append_stream-InBudget :
    (show : Json → Text) (l : Limits) (c : Collected) (content : Fields)
    → InBudget l c.outputs
    → InBudget l (append_stream show l c content).outputs
unfolding append_stream
append_stream-InBudget show l c content v = append_fitted-InBudget l _ _ _ _ v

after_bundle-Keeps :
    (l : Limits) (output_type : Text) (c : Collected) (done : Bool)
    → InBudget l c.outputs
    → Keeps l (after_bundle l output_type (c, done))
after_bundle-Keeps l output_type c true v = unfold after_bundle in ok-Keeps l c v
after_bundle-Keeps l output_type c false v =
    unfold after_bundle in placeholder-Keeps l c (output_type ++ codes " exceeds output limit") v

pub append_bundle-Keeps :
    (l : Limits) (c : Collected) (output_type : Text) (content : Fields)
    → InBudget l c.outputs
    → Keeps l (append_bundle l c output_type content)
append_bundle-Keeps l c output_type content v =
    let (d, done) = append l c (bundle_dict output_type content) in
    unfold append_bundle in
    after_bundle-Keeps l output_type d done
      (append-InBudget l c (bundle_dict output_type content) v)

append_fields-InBudget :
    (l : Limits) (c : Collected) (ename evalue : Text × Bool) (frames : List Text × Bool)
    → InBudget l c.outputs
    → InBudget l (append_fields l c ename evalue frames).outputs
unfolding append_fields cut_if
append_fields-InBudget l c ename evalue frames v =
    append-InBudget l (cut_if (ename.1 || (evalue.1 || frames.1)) c)
      (error_dict ename.0 evalue.0 frames.0) v

pub append_error-Keeps :
    (show : Json → Text) (l : Limits) (c : Collected) (content : Fields)
    → InBudget l c.outputs
    → Keeps l (append_error show l c content)
unfolding append_error
append_error-Keeps show l c content v = Ensures-bind (fit_field _ _ _) _ (λ ename.
    Ensures-bind (fit_field _ _ _) _ (λ evalue. Ensures-bind (raw_frames _) _ (λ raws.
      Ensures-bind (append_frames show l c.outputs ename.0 evalue.0 [] raws)
        (λ frames. ok (append_fields l c ename evalue frames))
        (λ frames.
          ok-Keeps l (append_fields l c ename evalue frames)
            (append_fields-InBudget l c ename evalue frames v)))))
