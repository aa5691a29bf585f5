-- ===== src/Docker/Tests.antt =====
-- Runs of the models of henry/sandbox/docker.py.
use henry.Prelude.{◌≡◌, refl, inl, true, false, none, some, [], ◌∷◌}
use henry.Prelude.Int.{pos}
use henry.Text.{Text, codes, text_ops}
use henry.Dict.{lookup}
use henry.Result.{ok}
use henry.PosixPath.{normpath, join_path}
use henry.SandboxTypes.{SandboxPolicy, default_policy, CellResult, stream, error, ok_status}
use henry.Docker.SafePath.{safe_path}
use henry.Docker.SafePath.Inside.{Inside, safe_path-Inside}
use henry.Docker.Payload.{cell_result_from_payload}
use henry.Docker.Payload.RoundTrip.{result_payload, result-round_trip}
use henry.Docker.Sessions.{Sandbox, Session, Removal, removed, api_error, empty, update, exec_in}
use henry.Docker.Sessions.Invariant.{Inv, Inv-empty}
use henry.Docker.Start.{Startup, timed_out, start, register}
use henry.Docker.Start.Clean.{start-Leaves, Leaves}
use henry.Docker.Cells.{Codec, ExecOutcome, exited, plain, cell_end}
use henry.Docker.Files.{Member}

abbrev workspace : Text
workspace = codes "/workspace"

safe_path-Inside_example : Inside (normpath workspace) (codes "/workspace/a/c")
unfolding safe_path normpath text_ops join_path
safe_path-Inside_example =
    safe_path-Inside workspace (codes "a/./b/../c") (codes "/workspace/a/c") refl (λ e. absurd (cc))
      refl

abbrev policy : SandboxPolicy
policy = default_policy (codes "henry-sandbox:base")

abbrev one_session : Sandbox
one_session = register empty (codes "c1") policy 0

-- The session's object, and the registry while its first cell runs.
abbrev object : Session
object = record {
  container = codes "c1";
  policy = policy;
  created_at = 0;
  destroyed = false;
  locked = false;
}

abbrev busy : Sandbox
busy = record one_session {
  heap = update one_session.heap 0 (record object { locked = true });
  calls = exec_in 0 ∷ one_session.calls;
}

abbrev answer : Removal
answer = record { container = removed; volume = removed }

abbrev refused : Removal
refused = record { container = api_error; volume = removed }

abbrev codec : Codec
codec = record { decode = λ bytes. bytes; loads = λ bytes. none }

abbrev silent : ExecOutcome
silent = exited (pos 0) (plain [])

-- A cell whose kernel answers nothing tears its session down.
abbrev torn : Sandbox
torn = (cell_end codec busy (codes "c1") 0 (record object { locked = true }) 30 silent answer).0

abbrev startup : Startup
startup = record {
  volume = ok tt;
  run = ok (codes "c1");
  now = 0;
  wait = timed_out;
  logs = codes "boot failed";
  removal = refused;
}

start-Leaves_example :
    Inv (start empty policy startup).0
    × Leaves empty (start empty policy startup).0 (start empty policy startup).1
unfolding lookup
start-Leaves_example = start-Leaves empty policy startup Inv-empty refl

abbrev printed : CellResult
printed = record {
  status = ok_status;
  outputs =
      stream (codes "stdout") (codes "hi")
      ∷ error (codes "E") (codes "v") (codes "frame" ∷ [])
      ∷ [];
  execution_count = 3;
  timed_out = false;
  truncated = false;
  session_invalidated = true;
}

result-round_trip_example :
    cell_result_from_payload (result_payload printed)
    ≡ ok (record printed { session_invalidated = false })
result-round_trip_example = result-round_trip printed (inl refl, (tt, tt))

abbrev member : Member
member = record {
  name = codes "a";
  is_file = true;
  is_link = false;
  size = 2;
  bytes = some (1 ∷ 2 ∷ []);
}
