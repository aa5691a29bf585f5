-- ===== src/Docker/Payload.antt =====
-- DockerSandbox._cell_result_from_payload and _cell_output_from_payload of henry/sandbox/docker.py:
-- the decoder of what the kernel inside the container answers.
pub mod RoundTrip
use henry.Prelude.{
  ℕ, ◌≡◌, refl, arith, Bool, true, false, not, ◌&&◌, ◌||◌, Option, none, some, List, [], ◌∷◌,
  if◌then◌else◌,
}
use henry.Prelude.Int.{ℤ, pos, negsuc}
use henry.Text.{Text, codes, ◌===◌}
use henry.Result.{Result, ok, err, Error, value_error, type_error, ◌>>=◌, Ensures, Ensures-bind}
use henry.Json.{
  Json, Items, Fields, null, boolean, integer, float, str, arr, obj, nil, cons, done, field, get,
}
use henry.SandboxTypes.{
  CellOutput, CellStatus, CellResult, stream, execute_result, display_data, error, ok_status,
  error_status,
}

-- `value == name`
is_text : Json → Text → Bool
is_text (str s) name = s === name
is_text _ name = false

-- `value in {a, b}`; a list or a dict has no hash.
is_member : Json → Text → Text → Result Bool
is_member (arr xs) a b = err (type_error (codes "unhashable type: 'list'"))
is_member (obj fs) a b = err (type_error (codes "unhashable type: 'dict'"))
is_member (str s) a b = ok (s === a || s === b)
is_member _ a b = ok false

as_text : Json → Error → Result Text
as_text (str s) e = ok s
as_text _ e = err e

-- `type(value) is int and value >= 0`
as_count : Json → Error → Result ℕ
as_count (integer (pos n)) e = ok n
as_count _ e = err e

as_count_or_none : Json → Error → Result (Option ℕ)
as_count_or_none null e = ok none
as_count_or_none (integer (pos n)) e = ok (some n)
as_count_or_none _ e = err e

as_bool : Json → Error → Result Bool
as_bool (boolean b) e = ok b
as_bool _ e = err e

as_dict : Json → Error → Result Fields
as_dict (obj fs) e = ok fs
as_dict _ e = err e

as_list : Json → Error → Result Items
as_list (arr xs) e = ok xs
as_list _ e = err e

as_texts : Items → Error → Result (List Text)
as_texts nil e = ok []
as_texts (cons (str s) xs) e = do rest ← as_texts xs e; ok (s ∷ rest)
as_texts (cons _ xs) e = err e

stream_output : Fields → Result CellOutput
unfolding is_member as_text
stream_output fs = do
  named ← is_member (get (codes "name") fs) (codes "stdout") (codes "stderr")
  name ←
      (if named
        then as_text (get (codes "name") fs) (value_error (codes "invalid stream output"))
        else err (value_error (codes "invalid stream output")))
  text ← as_text (get (codes "text") fs) (value_error (codes "invalid stream output"))
  ok (stream name text)

bundle_output : Bool → Fields → Result CellOutput
unfolding as_dict as_count_or_none
bundle_output is_result fs = do
  bundle ← as_dict (get (codes "data") fs) (value_error (codes "invalid MIME bundle"))
  metadata ← as_dict (get (codes "metadata") fs) (value_error (codes "invalid output metadata"))
  count ←
      as_count_or_none (get (codes "execution_count") fs)
        (value_error (codes "invalid output execution count"))
  ok (
      if is_result
      then execute_result bundle metadata count
      else display_data bundle metadata count)

error_output : Fields → Result CellOutput
unfolding as_text as_list as_texts
error_output fs = do
  ename ← as_text (get (codes "ename") fs) (value_error (codes "invalid error output"))
  evalue ← as_text (get (codes "evalue") fs) (value_error (codes "invalid error output"))
  frames ← as_list (get (codes "traceback") fs) (value_error (codes "invalid traceback"))
  traceback ← as_texts frames (value_error (codes "invalid traceback"))
  ok (error ename evalue traceback)

unfoldable pub cell_output_from_payload : Json → Result CellOutput
unfolding is_text is_member stream_output bundle_output error_output
cell_output_from_payload (obj fs) =
    let output_type = get (codes "output_type") fs in
    if is_text output_type (codes "stream") then stream_output fs else do
      bundled ← is_member output_type (codes "execute_result") (codes "display_data")
      (if bundled
          then bundle_output (is_text output_type (codes "execute_result")) fs
          else if is_text output_type (codes "error")
          then error_output fs
          else err (value_error (codes "invalid cell output type")))
cell_output_from_payload _ = err (value_error (codes "cell output must be an object"))

unfoldable pub outputs_from_payload : Items → Result (List CellOutput)
outputs_from_payload nil = ok []
outputs_from_payload (cons x xs) = do
  output ← cell_output_from_payload x
  rest ← outputs_from_payload xs
  ok (output ∷ rest)

status_of : Bool → Json → Result CellStatus
unfolding is_text
status_of true status = ok (if is_text status (codes "ok") then ok_status else error_status)
status_of false status = err (value_error (codes "invalid cell status"))

build_result : CellStatus → ℕ → Bool → Bool → List CellOutput → CellResult
build_result status count timed_out truncated outputs = record {
  status = status;
  outputs = outputs;
  execution_count = count;
  timed_out = timed_out;
  truncated = truncated;
  session_invalidated = false;
}

pub cell_result_from_payload : Json → Result CellResult
cell_result_from_payload (obj fs) = do
  known ← is_member (get (codes "status") fs) (codes "ok") (codes "error")
  status ← status_of known (get (codes "status") fs)
  count ←
      as_count (get (codes "execution_count") fs) (value_error (codes "invalid execution count"))
  timed_out ← as_bool (get (codes "timed_out") fs) (value_error (codes "invalid cell flags"))
  truncated ← as_bool (get (codes "truncated") fs) (value_error (codes "invalid cell flags"))
  raw_outputs ←
      as_list (get (codes "outputs") fs) (value_error (codes "cell outputs must be a list"))
  outputs ← outputs_from_payload raw_outputs
  ok (build_result status count timed_out truncated outputs)
cell_result_from_payload _ = err (value_error (codes "kernel response must be an object"))

-- To run the decoder in a proof, unfold this.
unfoldable pub payload_ops : Unit {0}
unfolding cell_result_from_payload is_member as_count as_bool as_list status_of build_result
payload_ops = tt

-- No payload is read as a result whose session is gone.
pub cell_result_from_payload-trusted :
    (j : Json) (r : CellResult) → cell_result_from_payload j ≡ ok r → r.session_invalidated ≡ false
unfolding cell_result_from_payload build_result
cell_result_from_payload-trusted (obj fs) r h = ground arith
cell_result_from_payload-trusted null r h = cc
cell_result_from_payload-trusted _ r h = cc
