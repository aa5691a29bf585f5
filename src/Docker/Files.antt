-- ===== src/Docker/Files.antt =====
-- exec, write_file and read_file of DockerSandbox (henry/sandbox/docker.py) with
-- `_extract_single_regular_file` and `_validate_archive_member`. What Docker and tarfile answer is an
-- argument.
pub mod Bounds
use henry.Prelude.{
  ℕ, zero, suc, ◌+◌, ◌*◌, Bool, true, false, not, ◌&&◌, ◌||◌, ◌==◌, Option, none, some, List, [],
  ◌∷◌, ◌++◌, length, take, ltb, keep_if, if◌then◌else◌,
}
use henry.Prelude.Int.{ℤ, pos}
use henry.Text.{Text, codes, ◌===◌, starts_with, decimal}
use henry.PosixPath.{normpath}
use henry.Result.{Result, ok, err, Error, archive_error, path_error, ◌>>=◌, ◌>>◌, raise_if}
use henry.SandboxTypes.{ExecRequest, ExecResult}
use henry.Docker.SafePath.{safe_path}
use henry.Docker.Sessions.{
  Sandbox, Session, Removal, exec_in, copy_in, copy_out, get_session, remove_session,
}
use henry.Docker.Cells.{Codec, DockerOutput, split_exec_output, decode_and_cap}

-- `file_limit_bytes`, as it is by default
abbrev pub file_limit_bytes : ℕ
file_limit_bytes = 4 * 1024 * 1024

-- How the wait for a command ends: out of time, with an exception, or with an exit code.
pub data CommandEnd : Type 0 where
  overdue : CommandEnd
  raised : Error → CommandEnd
  exited : ℤ → DockerOutput → CommandEnd

-- `req.cwd or state.policy.workdir`
cwd_of : Option Text → Text → Text
cwd_of none workdir = workdir
cwd_of (some []) workdir = workdir
cwd_of (some (c ∷ cwd)) workdir = c ∷ cwd

timeout_of : Option ℕ → ℕ → ℕ
timeout_of none default = default
timeout_of (some n) default = n

exec_result : Codec → ℤ → DockerOutput → ExecResult
exec_result codec exit_code output =
    let (out, err_bytes) = split_exec_output output in
    let (stdout, stdout_truncated) = decode_and_cap codec out in
    let (stderr, stderr_truncated) = decode_and_cap codec err_bytes in
    record {
      exit_code = exit_code;
      stdout = stdout;
      stderr = stderr;
      timed_out = false;
      truncated = stdout_truncated || stderr_truncated;
    }

overdue_result : ℕ → ExecResult
overdue_result timeout_s = record {
  exit_code = pos 124;
  stdout = [];
  stderr = codes "command timed out after " ++ (decimal timeout_s ++ codes "s");
  timed_out = true;
  truncated = false;
}

-- A command that is overdue takes its session with it.
after_command : Codec → Sandbox → Text → ℕ → CommandEnd → Removal → Sandbox × Result ExecResult
unfolding exec_result overdue_result
after_command codec w session timeout_s overdue r =
    let (w', done) = remove_session w session r in (w', done >>= λ u. ok (overdue_result timeout_s))
after_command codec w session timeout_s (raised e) r = (w, err e)
after_command codec w session timeout_s (exited exit_code output) r =
    (w, ok (exec_result codec exit_code output))

exec_found :
    Codec
    → Sandbox
    → Text
    → ExecRequest
    → CommandEnd
    → Removal
    → ℕ
    → Session
    → Result Text
    → Sandbox × Result ExecResult
unfolding after_command timeout_of
exec_found codec w session req ended r a s (err e) = (w, err e)
exec_found codec w session req ended r a s (ok cwd) =
    after_command codec (record w { calls = exec_in a ∷ w.calls }) session
      (timeout_of req.timeout_s s.policy.default_timeout_s) ended r

with_session :
    {A : Type 0}
    → Sandbox
    → Result (ℕ × Session)
    → (ℕ → Session → Sandbox × Result A)
    → Sandbox × Result A
with_session w (err e) k = (w, err e)
with_session w (ok (a, s)) k = k a s

unfoldable pub exec :
    Codec → Sandbox → Text → ExecRequest → CommandEnd → Removal → Sandbox × Result ExecResult
unfolding exec_found with_session cwd_of
exec codec w session req ended r = with_session w (get_session w session) (λ a s.
    exec_found codec w session req ended r a s
      (safe_path s.policy.workdir (cwd_of req.cwd s.policy.workdir)))

-- `posixpath.basename`
pub basename : Text → Text
basename [] = []
basename (c ∷ t) =
    let rest = basename t in if c == 47 then rest else if rest === t then c ∷ rest else rest

-- The text up to the last slash, with it
head_of : Text → Text
head_of [] = []
head_of (c ∷ t) =
    let rest = head_of t in if rest === [] then (if c == 47 then c ∷ [] else []) else c ∷ rest

strip_slashes : Text → Text
strip_slashes [] = []
strip_slashes (c ∷ t) =
    let rest = strip_slashes t in if rest === [] && c == 47 then [] else c ∷ rest

-- `posixpath.dirname`: the slashes at the end go, unless there is nothing else.
pub dirname : Text → Text
unfolding head_of strip_slashes
dirname p = if strip_slashes (head_of p) === [] then head_of p else strip_slashes (head_of p)

-- The answers to `mkdir` and to `put_archive`.
written : Sandbox → ℕ → Text → Result ℤ → Result Bool → Sandbox × Result (Unit {0})
unfolding dirname
written w a container_path (err e) put = (record w { calls = exec_in a ∷ w.calls }, err e)
written w a container_path (ok (pos zero)) put = (
  record w { calls = copy_in a ∷ exec_in a ∷ w.calls },
  put >>= λ fine.
      raise_if (not fine)
        (archive_error (codes "failed to write sandbox file: " ++ container_path)),
)
written w a container_path (ok code) put = (
  record w { calls = exec_in a ∷ w.calls },
  err (archive_error (codes "failed to create sandbox directory: " ++ dirname container_path)),
)

write_found : Sandbox → ℕ → Result ℤ → Result Bool → Result Text → Sandbox × Result (Unit {0})
unfolding basename written
write_found w a mkdir put (err e) = (w, err e)
write_found w a mkdir put (ok container_path) =
    if basename container_path === []
    then (w, err (path_error (codes "path must name a file")))
    else written w a container_path mkdir put

pub over_limit : Text → Text → Error
over_limit what kind = archive_error (
    what
    ++ (codes " exceeds "
        ++ (decimal file_limit_bytes ++ (codes " byte sandbox " ++ (kind ++ codes " limit")))))

unfoldable pub write_file :
    Sandbox → Text → Text → List ℕ → Result ℤ → Result Bool → Sandbox × Result (Unit {0})
unfolding write_found with_session over_limit
write_file w session path content mkdir put =
    if ltb file_limit_bytes (length content)
    then (w, err (over_limit (codes "file") (codes "write")))
    else with_session w (get_session w session)
        (λ a s. write_found w a mkdir put (safe_path s.policy.workdir path))

-- A member of an archive; `bytes` is what `extractfile` gives, if it gives a file.
pub record Member : Type 0 where
  pub name : Text
  pub is_file : Bool
  pub is_link : Bool
  pub size : ℕ
  pub bytes : Option (List ℕ)

unfoldable pub is_unsafe : Text → Bool
is_unsafe name =
    starts_with (codes "/") name
    || (normpath name === codes ".." || starts_with (codes "../") (normpath name))

validate_archive_member : Member → Result (Unit {0})
validate_archive_member m = do
  raise_if (is_unsafe m.name) (archive_error (codes "unsafe archive member path: " ++ m.name))
  raise_if m.is_link (archive_error (codes "archive member may not be a link: " ++ m.name))

-- `extracted.read(limit + 1)` and the check behind it
read_bytes : Option (List ℕ) → Result (List ℕ)
read_bytes none = err (archive_error (codes "sandbox file could not be extracted"))
read_bytes (some bytes) = do
  raise_if (ltb file_limit_bytes (length (take (file_limit_bytes + 1) bytes)))
      (over_limit (codes "file") (codes "read"))
  ok (take (file_limit_bytes + 1) bytes)

single_member : Member → Result (List ℕ)
unfolding validate_archive_member read_bytes
single_member m = do
  raise_if (not m.is_file)
      (archive_error (codes "sandbox archive must contain exactly one regular file"))
  validate_archive_member m
  raise_if (ltb file_limit_bytes m.size) (over_limit (codes "file") (codes "read"))
  read_bytes m.bytes

extract_single_regular_file : List Member → Result (List ℕ)
unfolding single_member
extract_single_regular_file (m ∷ []) = single_member m
extract_single_regular_file members =
    err (archive_error (codes "sandbox archive must contain exactly one regular file"))

-- `for chunk in chunks`
read_archive : List ℕ → List (List ℕ) → Result (List ℕ)
read_archive got [] = ok got
read_archive got (chunk ∷ chunks) = do
  raise_if (ltb file_limit_bytes (length (got ++ chunk)))
      (over_limit (codes "archive") (codes "read"))
  read_archive (got ++ chunk) chunks

read_found :
    (List ℕ → Result (List Member))
    → Sandbox
    → ℕ
    → Result (List (List ℕ))
    → Result Text
    → Sandbox × Result (List ℕ)
unfolding read_archive extract_single_regular_file
read_found open_tar w a archive (err e) = (w, err e)
read_found open_tar w a archive (ok container_path) = (
  record w { calls = copy_out a ∷ w.calls },
  archive >>= (λ chunks.
      read_archive [] chunks >>= (λ bytes. open_tar bytes >>= extract_single_regular_file)),
)

unfoldable pub read_file :
    (List ℕ → Result (List Member))
    → Sandbox
    → Text
    → Text
    → Result (List (List ℕ))
    → Sandbox × Result (List ℕ)
unfolding read_found with_session over_limit
read_file open_tar w session path archive =
    with_session w (get_session w session)
      (λ a s. read_found open_tar w a archive (safe_path s.policy.workdir path))
