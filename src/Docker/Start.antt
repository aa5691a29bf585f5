-- ===== src/Docker/Start.antt =====
-- DockerSandbox.start and `_wait_ready` of henry/sandbox/docker.py.
pub mod Clean
use henry.Prelude.{
  ℕ, suc, ◌+◌, ◌*◌, Bool, true, false, not, Option, none, some, List, [], ◌∷◌, ◌++◌, leb, ltb, ◌==◌,
  if◌then◌else◌,
}
use henry.Prelude.Int.{ℤ, pos}
use henry.Text.{Text, codes, ◌===◌}
use henry.Dict.{Dict, insert}
use henry.PosixPath.{join_path}
use henry.Result.{Result, ok, err, Error, value_error, sandbox_error, other_error}
use henry.SandboxTypes.{SandboxPolicy}
use henry.Docker.Sessions.{
  Sandbox, Session, Removal, create_volume, remove_new_volume, run_container, update,
  remove_session,
}

-- The options of the container that `_start` runs, beside the fixed ones: a read-only root, no
-- network, no capabilities and no new privileges.
pub record RunOptions : Type 0 where
  pub image : Text
  pub read_only : Bool
  pub working_dir : Text
  pub mem_limit_mb : ℕ
  pub nano_cpus : ℕ
  pub pids_limit : ℕ
  pub network_mode : Text
  pub connection_file : Text
  pub writable_mounts : List Text
  pub cap_drop : List Text
  pub no_new_privileges : Bool

unfoldable pub run_options : SandboxPolicy → RunOptions
run_options policy = record {
  image = policy.image;
  read_only = true;
  working_dir = policy.workdir;
  mem_limit_mb = policy.mem_mb;
  nano_cpus = policy.cpus_milli * 1000000;
  pids_limit = 512;
  network_mode = codes "none";
  connection_file = join_path (join_path policy.workdir (codes ".henry")) (codes "kernel.json");
  writable_mounts = policy.workdir ∷ codes "/tmp" ∷ [];
  cap_drop = codes "ALL" ∷ [];
  no_new_privileges = true;
}

-- One round of `_wait_ready`: the clock, what the ping answers, and the clock behind it.
pub data Ping : Type 0 where
  answered : ℤ → Ping
  overdue failed cancelled : Ping

pub record Round : Type 0 where
  pub now : ℕ
  pub ping : Ping

pub data Ready : Type 0 where
  ready timed_out interrupted : Ready

is_zero : ℤ → Bool
is_zero (pos n) = n == 0
is_zero _ = false

-- What follows a ping; `more` is the rest of the loop.
after_ping : Ping → Option Ready → Option Ready
after_ping (answered code) more = if is_zero code then some ready else more
after_ping overdue more = some timed_out
after_ping failed more = more
after_ping cancelled more = some interrupted

-- `none`: still polling when the rounds that are known end.
unfoldable pub wait_ready : ℕ → List Round → Option Ready
unfolding is_zero after_ping
wait_ready deadline [] = none
wait_ready deadline (r ∷ rest) =
    let more = after_ping r.ping (wait_ready deadline rest) in
    if leb deadline r.now then some timed_out else more

-- `self._sessions[session] = _Session(...)`, a new object.
unfoldable pub register : Sandbox → Text → SandboxPolicy → ℕ → Sandbox
register w session policy now = record w {
  sessions = insert session w.next w.sessions;
  heap = update w.heap w.next (record {
    container = session;
    policy = policy;
    created_at = now;
    destroyed = false;
    locked = false;
  });
  next = suc w.next;
  calls = run_container w.next ∷ create_volume ∷ w.calls;
}

-- What Docker and the kernel do while a session starts: how `volumes.create` ends, the
-- container's id or the exception of `containers.run`, the time of registration, how the wait for the kernel ends, the logs, and the
-- answer to a removal.
pub record Startup : Type 0 where
  pub volume : Result (Unit {0})
  pub run : Result Text
  pub now : ℕ
  pub wait : Ready
  pub logs : Text
  pub removal : Removal

not_ready : Text → Error
not_ready [] = sandbox_error (codes "sandbox kernel did not become ready")
not_ready (c ∷ logs) = sandbox_error (codes "sandbox kernel did not become ready: " ++ c ∷ logs)

-- The error of a failed cleanup takes the place of the one that led to it.
cleaned_up : Result (Unit {0}) → Error → Result Text
cleaned_up (ok _) e = err e
cleaned_up (err other) e = err other

after_wait : Sandbox → Text → Startup → Ready → Sandbox × Result Text
unfolding not_ready cleaned_up
after_wait w session u ready = (w, ok session)
after_wait w session u timed_out =
    let (w', done) = remove_session w session u.removal in (w', cleaned_up done (not_ready u.logs))
after_wait w session u interrupted =
    let (w', done) = remove_session w session u.removal in
    (w', cleaned_up done (other_error (codes "CancelledError")))

start_run : Sandbox → SandboxPolicy → Startup → Result Text → Sandbox × Result Text
unfolding after_wait
start_run w policy u (err e) =
    (record w { calls = remove_new_volume ∷ create_volume ∷ w.calls }, err e)
start_run w policy u (ok session) = after_wait (register w session policy u.now) session u u.wait

start_volume : Sandbox → SandboxPolicy → Startup → Result (Unit {0}) → Sandbox × Result Text
unfolding start_run
start_volume w policy u (err e) = (record w { calls = create_volume ∷ w.calls }, err e)
start_volume w policy u (ok _) = start_run w policy u u.run

unfoldable pub start : Sandbox → SandboxPolicy → Startup → Sandbox × Result Text
unfolding start_volume
start w policy u =
    if not (policy.network === codes "none")
    then (
      w,
      err (
          value_error
            (codes "V1 sandbox only supports network='none'; fetch external data host-side")),
    )
    else start_volume w policy u u.volume
