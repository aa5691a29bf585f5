-- ===== src/Docker/Payload/RoundTrip.antt =====
-- What the kernel protocol writes, the decoder reads back.
use henry.Prelude.{ℕ, false, ◌≡◌, refl, ◌⊎◌, inl, inr, Option, none, some, List, [], ◌∷◌, All}
use henry.Prelude.Int.{pos}
use henry.Text.{Text, codes, text_ops}
use henry.Result.{Result, ok, value_error, ◌>>=◌}
use henry.Json.{
  Json, Items, Fields, null, boolean, integer, str, arr, obj, nil, cons, done, field, get,
}
use henry.SandboxTypes.{
  CellOutput, CellStatus, CellResult, stream, execute_result, display_data, error, ok_status,
  error_status,
}
use henry.Docker.Payload.{
  as_texts, payload_ops, cell_output_from_payload, outputs_from_payload, cell_result_from_payload,
}

texts_payload : List Text → Items
texts_payload [] = nil
texts_payload (t ∷ ts) = cons (str t) (texts_payload ts)

count_payload : Option ℕ → Json
count_payload none = null
count_payload (some n) = integer (pos n)

bundle_payload : Text → Fields → Fields → Option ℕ → Json
unfolding count_payload
bundle_payload output_type bundle metadata count = obj (
    field (codes "output_type") (str output_type) (
      field (codes "data") (obj bundle) (
        field (codes "metadata") (obj metadata)
          (field (codes "execution_count") (count_payload count) done))))

-- The dictionaries that kernel_protocol appends to `outputs`.
pub output_payload : CellOutput → Json
unfolding bundle_payload texts_payload
output_payload (stream name text) = obj (
    field (codes "output_type") (str (codes "stream"))
      (field (codes "name") (str name) (field (codes "text") (str text) done)))
output_payload (execute_result b m c) = bundle_payload (codes "execute_result") b m c
output_payload (display_data b m c) = bundle_payload (codes "display_data") b m c
output_payload (error ename evalue traceback) = obj (
    field (codes "output_type") (str (codes "error")) (
      field (codes "ename") (str ename) (
        field (codes "evalue") (str evalue)
          (field (codes "traceback") (arr (texts_payload traceback)) done))))

outputs_payload : List CellOutput → Items
outputs_payload [] = nil
outputs_payload (o ∷ os) = cons (output_payload o) (outputs_payload os)

status_payload : CellStatus → Text
status_payload ok_status = codes "ok"
status_payload error_status = codes "error"

-- The dictionary that drain_execution returns.
pub result_payload : CellResult → Json
unfolding outputs_payload status_payload
result_payload r = obj (
    field (codes "status") (str (status_payload r.status)) (
      field (codes "outputs") (arr (outputs_payload r.outputs)) (
        field (codes "execution_count") (integer (pos r.execution_count)) (
          field (codes "timed_out") (boolean r.timed_out)
            (field (codes "truncated") (boolean r.truncated) done)))))

-- A stream has one of the two names.
abbrev pub IsNamed : CellOutput → Type 0
IsNamed (stream name text) = (name ≡ codes "stdout") ⊎ (name ≡ codes "stderr")
IsNamed _ = Unit

as_texts-texts_payload :
    (ts : List Text) (e : henry.Result.Error) → as_texts (texts_payload ts) e ≡ ok ts
unfolding as_texts texts_payload
as_texts-texts_payload [] e = refl
as_texts-texts_payload (t ∷ ts) e = rw (as_texts-texts_payload ts e)

output-round_trip :
    (o : CellOutput) → IsNamed o → cell_output_from_payload (output_payload o) ≡ ok o
unfolding cell_output_from_payload output_payload get text_ops
output-round_trip (stream name text) (inl e) = rw e
output-round_trip (stream name text) (inr e) = rw e
output-round_trip (execute_result b m none) h = refl
output-round_trip (execute_result b m (some n)) h = refl
output-round_trip (display_data b m none) h = refl
output-round_trip (display_data b m (some n)) h = refl
output-round_trip (error ename evalue traceback) h =
    rw (as_texts-texts_payload traceback (value_error (codes "invalid traceback")))

outputs-round_trip :
    (os : List CellOutput) → All IsNamed os → outputs_from_payload (outputs_payload os) ≡ ok os
unfolding outputs_from_payload outputs_payload
outputs-round_trip [] h = refl
outputs-round_trip (o ∷ os) h = rw (output-round_trip o h.0, outputs-round_trip os h.1)

-- A result that is sent as drain_execution writes it, with its streams named stdout or stderr, is
-- read back as it was, and never as one whose session is gone: that flag is not part of a payload.
pub result-round_trip :
    (r : CellResult)
    → All IsNamed r.outputs
    → cell_result_from_payload (result_payload r) ≡ ok (record r { session_invalidated = false })
unfolding payload_ops result_payload get text_ops
result-round_trip r h = elim r.status as (λ s. P s) [
  | ok_status ↦ rw (outputs-round_trip r.outputs h)
  | error_status ↦ rw (outputs-round_trip r.outputs h)
]
  where
    P : CellStatus → Type 0
    P s =
        cell_result_from_payload (result_payload (record r { status = s }))
        ≡ ok (record r { session_invalidated = false; status = s })
