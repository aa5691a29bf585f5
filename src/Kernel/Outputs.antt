-- ===== src/Kernel/Outputs.antt =====
-- The collection of outputs in `drain_execution` of henry/sandbox/kernel_protocol.py: `_fits`,
-- `_append`, `_fit_text`, `_placeholder`, `_append_stream`, `_append_bundle` and `_append_error`.
pub mod Budget
use henry.Prelude.{
  ℕ, zero, suc, ◌+◌, ◌*◌, ◌-◌, Bool, true, false, not, ◌&&◌, ◌||◌, Option, none, some, List, [],
  ◌∷◌, ◌++◌, map, length, ltb, leb, if◌then◌else◌,
}
use henry.Prelude.Int.{pos}
use henry.Text.{Text, codes, ◌===◌}
use henry.Json.{
  Json, Items, Fields, null, str, arr, obj, nil, done, field, get, get_default, truthy, py_str,
  to_items, of_items, keys,
}
use henry.Json.Bytes.{json_bytes}
use henry.Result.{Result, ok, err, type_error, ◌>>=◌}
use henry.Kernel.Ansi.{strip_ansi, cap_utf8}
use henry.Kernel.Fit.{fit_text}

-- The limits are arguments of `drain_execution`.
pub record Limits : Type 0 where
  pub max_total_bytes : ℕ
  pub max_item_bytes : ℕ
  pub max_items : ℕ

abbrev pub default_limits : Limits
default_limits = record {
  max_total_bytes = 256 * 1024;
  max_item_bytes = 256 * 1024;
  max_items = 256;
}

abbrev pub max_field_bytes : ℕ
max_field_bytes = 16 * 1024

pub record Collected : Type 0 where
  pub outputs : List Json
  pub truncated : Bool

abbrev pub nothing : Collected
nothing = record { outputs = []; truncated = false }

within : ℕ → Option ℕ → Bool
within limit none = false
within limit (some n) = leb n limit

unfoldable pub list_bytes : List Json → Option ℕ
list_bytes outputs = json_bytes (arr (to_items outputs))

unfoldable pub fits : Limits → List Json → Json → Bool
unfolding within
fits l outputs output =
    within l.max_item_bytes (json_bytes output)
    && within l.max_total_bytes (list_bytes (outputs ++ output ∷ []))

-- The mark for what did not fit.
cut_if : Bool → Collected → Collected
cut_if cut c = record c { truncated = c.truncated || cut }

unfoldable pub append : Limits → Collected → Json → Collected × Bool
append l c output =
    if leb l.max_items (length c.outputs) || not (fits l c.outputs output)
    then (record c { truncated = true }, false)
    else (record c { outputs = c.outputs ++ output ∷ [] }, true)

unfoldable pub error_dict : Text → Text → List Text → Json
error_dict ename evalue traceback = obj (
    field (codes "output_type") (str (codes "error")) (
      field (codes "ename") (str ename) (
        field (codes "evalue") (str evalue)
          (field (codes "traceback") (arr (to_items (map str traceback))) done))))

unfoldable pub stream_dict : Text → Text → Json
stream_dict name text = obj (
    field (codes "output_type") (str (codes "stream"))
      (field (codes "name") (str name) (field (codes "text") (str text) done)))

dropped : Text → Json
dropped value = error_dict (codes "OutputDropped") (codes "<dropped: " ++ (value ++ codes ">")) []

-- `_fit_text` with a limit on the field.
fit_field : (Text → Bool) → ℕ → Text → Result (Text × Bool)
fit_field test limit text = do capped ← cap_utf8 text limit; ok (fit_text test capped.0 capped.1)

-- The prefix and the suffix take 11 bytes.
append_dropped : Limits → Collected → Text → Collected
append_dropped l c value = (append l (record c { truncated = true }) (dropped value)).0

placeholder : Limits → Collected → Text → Result Collected
unfolding dropped fit_field append_dropped
placeholder l c reason = do
  fitted ← fit_field (λ v. fits l c.outputs (dropped v)) (max_field_bytes - 11) reason
  ok (append_dropped l c fitted.0)

append_fitted : Limits → Collected → Text → Text → Text → Collected
append_fitted l c name text [] = if text === [] then (append l c (stream_dict name [])).0 else c
append_fitted l c name text (x ∷ fitted) = (append l c (stream_dict name (x ∷ fitted))).0

unfoldable pub stream_text : (Json → Text) → Fields → Text
stream_text show content = py_str show (get_default (codes "text") (str []) content)

unfoldable pub stream_name : (Json → Text) → Fields → Text
stream_name show content = py_str show (get_default (codes "name") (str (codes "stdout")) content)

unfoldable pub append_stream : (Json → Text) → Limits → Collected → Fields → Collected
unfolding append_fitted cut_if
append_stream show l c content =
    let text = stream_text show content in
    let name = stream_name show content in
    let (fitted, cut) = fit_text (λ v. fits l c.outputs (stream_dict name v)) text false in
    append_fitted l (cut_if cut c) name text fitted

-- `value or {}`
or_dict : Json → Json
or_dict v = if truthy v then v else obj done

unfoldable pub bundle_dict : Text → Fields → Json
unfolding or_dict
bundle_dict output_type content = obj (
    field (codes "output_type") (str output_type) (
      field (codes "data") (or_dict (get (codes "data") content)) (
        field (codes "metadata") (or_dict (get (codes "metadata") content))
          (field (codes "execution_count") (get (codes "execution_count") content) done))))

after_bundle : Limits → Text → Collected × Bool → Result Collected
unfolding placeholder
after_bundle l output_type (c, true) = ok c
after_bundle l output_type (c, false) =
    placeholder l c (output_type ++ codes " exceeds output limit")

unfoldable pub append_bundle : Limits → Collected → Text → Fields → Result Collected
unfolding after_bundle
append_bundle l c output_type content =
    after_bundle l output_type (append l c (bundle_dict output_type content))

-- `for raw_frame in content.get("traceback") or []`
raw_frames : Json → Result (List Json)
raw_frames (arr xs) = ok (of_items xs)
raw_frames (obj fs) = ok (map str (keys fs))
raw_frames (str t) = ok (map (λ c. str (c ∷ [])) t)
raw_frames v = if truthy v then err (type_error (codes "object is not iterable")) else ok []

-- The frames that are kept, in order behind those of `kept`, with whether something was cut.
after_frame : List Text → Text → Text × Bool → Result (List Text × Bool) → Result (List Text × Bool)
after_frame kept frame ([], cut) rest =
    if frame === [] then (if cut then ok (kept ++ [] ∷ [], true) else rest) else ok (kept, true)
after_frame kept frame (x ∷ fitted, true) rest = ok (kept ++ (x ∷ fitted) ∷ [], true)
after_frame kept frame (x ∷ fitted, false) rest = rest

module _ (show : Json → Text) (l : Limits) (outputs : List Json) where
  append_frames : Text → Text → List Text → List Json → Result (List Text × Bool)
  unfolding fit_field after_frame
  append_frames ename evalue kept [] = ok (kept, false)
  append_frames ename evalue kept (raw ∷ raws) =
      let frame = strip_ansi (py_str show raw) in
      let fitted =
        fit_field (λ v. fits l outputs (error_dict ename evalue (kept ++ v ∷ []))) max_field_bytes
          frame in
      elim fitted [
        | err e ↦ err e
        | ok f ↦ after_frame kept frame f (append_frames ename evalue (kept ++ f.0 ∷ []) raws)
      ]

append_fields : Limits → Collected → Text × Bool → Text × Bool → List Text × Bool → Collected
append_fields l c ename evalue frames =
    (append l (cut_if (ename.1 || (evalue.1 || frames.1)) c)
      (error_dict ename.0 evalue.0 frames.0)).0

unfoldable pub append_error : (Json → Text) → Limits → Collected → Fields → Result Collected
unfolding fit_field raw_frames append_frames cut_if append_fields
append_error show l c content = do
  ename ←
      fit_field (λ v. fits l c.outputs (error_dict v [] [])) max_field_bytes
        (py_str show (get_default (codes "ename") (str []) content))
  evalue ←
      fit_field (λ v. fits l c.outputs (error_dict ename.0 v [])) max_field_bytes
        (py_str show (get_default (codes "evalue") (str []) content))
  raws ← raw_frames (get (codes "traceback") content)
  frames ← append_frames show l c.outputs ename.0 evalue.0 [] raws
  ok (append_fields l c ename evalue frames)
