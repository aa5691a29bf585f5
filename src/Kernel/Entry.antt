-- ===== src/Kernel/Entry.antt =====
-- henry/sandbox/kernel_entry.py: the boot, the run of a cell and the ping in the container. What is asked of
-- jupyter_client and the system is a list of calls; each returns or raises. drain_execution returns the text that
-- json.dumps makes of its result. The environment, `float` and base64 are parameters.
pub mod Channels
use henry.Prelude.{
  ℕ, zero, suc, Bool, true, false, Option, none, some, List, [], ◌∷◌, ◌++◌, if◌then◌else◌,
}
use henry.Text.{Text, codes, ◌===◌}
use henry.Result.{Error, Result, ok, err, message, ◌>>=◌}
use henry.Docker.Files.{dirname}

pub data Call : Type 0 where
  make_directory new_client : Text → Call
  start_kernel write_connection_file manager_client load_connection_file start_channels
        stop_channels sleep :
      Call
  wait_for_ready : (timeout : Text) → Call
  drain_execution : (code timeout : Text) → Call
  write_stdout write_stderr : Text → Call

-- What is called, in order, and what is returned or raised.
abbrev pub Steps : Type 0 → Type 0
Steps A = List Call × Result A

module _ {A B : Type 0} where
  unfoldable pub then_do : Steps A → (A → Steps B) → Steps B
  then_do (calls, ok a) later = let (more, result) = later a in (calls ++ more, result)
  then_do (calls, err e) later = (calls, err e)

module _ {A B : Type 0} where
  -- `try: ... finally: ...`; what the second raises goes before what the first does.
  unfoldable pub finally : Steps A → Steps B → Steps A
  finally (calls, result) (more, ok b) = (calls ++ more, result)
  finally (calls, result) (more, err e) = (calls ++ more, err e)

-- The outside: what each call returns, as a text where the code uses it.
pub record World : Type 0 where
  pub answer : Call → Result Text
  pub environ : Text → Option Text
  pub float : Text → Result Text
  pub b64decode : Text → Result Text
  pub decode : Text → Result Text
  pub repr : Text → Text
  pub seconds_alive : ℕ

-- `os.environ.get(name, default)`
environ_or : World → Text → Text → Text
environ_or world name default = elim (world.environ name) [ none ↦ default | some value ↦ value ]

or_text : Text → Text → Text
or_text [] default = default
or_text (c ∷ value) default = c ∷ value

module _ (world : World) where
  unfoldable pub perform : Call → Steps Text
  perform call = (call ∷ [], world.answer call)

  -- `_connection_file`
  connection_file : Text
  unfolding environ_or or_text
  connection_file =
      or_text (environ_or world (codes "HENRY_KERNEL_CONNECTION_FILE") [])
        (codes "/workspace/.henry/kernel.json")

  -- `client.start_channels()`, then the body with `finally: client.stop_channels()`
  unfoldable pub with_channels : {A : Type 0} → Steps A → Steps A
  unfolding perform finally then_do
  with_channels body =
      then_do (perform start_channels) λ started. finally body (perform stop_channels)

  -- `while manager.is_alive(): time.sleep(1.0)`, for a kernel that lives so many seconds
  unfoldable pub stay : ℕ → Steps (Unit {0})
  unfolding perform then_do
  stay zero = ([], ok tt)
  stay (suc n) = then_do (perform sleep) λ slept. stay n

  startup_cell : Text → Steps Text
  unfolding perform then_do
  startup_cell startup =
      then_do (perform (wait_for_ready (codes "60")))
        λ ready. perform (drain_execution startup (codes "60.0"))

  started_up : Text → Steps Text
  unfolding startup_cell with_channels perform then_do
  started_up [] = ([], ok [])
  started_up (c ∷ startup) =
      then_do (perform manager_client) λ made. with_channels (startup_cell (c ∷ startup))

  -- `_boot`
  unfoldable pub boot : Steps (Unit {0})
  unfolding connection_file started_up perform then_do environ_or stay
  boot = then_do (perform (make_directory (dirname connection_file))) λ made.
      then_do (perform start_kernel) λ started. then_do (perform write_connection_file) λ written.
        then_do (started_up (environ_or world (codes "HENRY_KERNEL_STARTUP") []))
          λ ready. stay world.seconds_alive

  -- The client is made and reads the connection file.
  connect : Steps Text
  unfolding connection_file perform then_do
  connect = then_do (perform (new_client connection_file)) λ made. perform load_connection_file

  cell : Text → Steps Text
  unfolding perform then_do environ_or
  cell code = then_do (perform (wait_for_ready (codes "30"))) λ ready.
      then_do ([], world.float (environ_or world (codes "HENRY_CELL_TIMEOUT") (codes "120")))
        λ timeout. perform (drain_execution code timeout)

  -- `_exec`
  unfoldable pub exec : Text → Steps (Unit {0})
  unfolding connect cell with_channels perform then_do
  exec code = then_do connect λ connected.
      then_do (with_channels (cell code))
        λ result. then_do (perform (write_stdout result)) λ written. ([], ok tt)

  probe : Steps Text
  unfolding perform then_do environ_or
  probe =
      then_do ([], world.float (environ_or world (codes "HENRY_PING_TIMEOUT") (codes "5")))
        λ timeout. perform (wait_for_ready timeout)

  -- `except Exception`: what is raised is written and the code is 1.
  failed : Error → Steps ℕ
  unfolding perform then_do
  failed e =
      then_do (perform (write_stderr (codes "ping failed: " ++ (message e ++ codes "\n"))))
        λ written. ([], ok 1)

  reported : Steps Text → Steps ℕ
  unfolding failed then_do
  reported (calls, ok a) = (calls, ok 0)
  reported (calls, err e) = then_do (calls, ok tt) λ raised. failed e

  -- `_ping`
  unfoldable pub ping : Steps ℕ
  unfolding connect probe with_channels then_do reported
  ping = reported (then_do connect λ connected. with_channels probe)

  usage_error : Text → Steps ℕ
  unfolding perform then_do
  usage_error message = then_do (perform (write_stderr message)) λ written. ([], ok 2)

  run_payload : List Text → Steps ℕ
  unfolding exec then_do usage_error
  run_payload (payload ∷ []) =
      then_do ([], world.b64decode payload)
        λ bytes. then_do ([], world.decode bytes) λ code. then_do (exec code) λ done. ([], ok 0)
  run_payload other = usage_error (codes "exec requires one base64-encoded code payload\n")

  main_mode : Text → List Text → Steps ℕ
  unfolding boot run_payload ping usage_error then_do
  main_mode mode arguments =
      if mode === codes "boot"
      then then_do boot (λ done. ([], ok 0))
      else if mode === codes "exec"
      then run_payload arguments
      else if mode === codes "ping"
      then ping
      else usage_error (codes "unknown kernel_entry mode: " ++ (world.repr mode ++ codes "\n"))

  unfoldable pub main : (argv : List Text) → Steps ℕ
  unfolding main_mode
  main (program ∷ mode ∷ arguments) = main_mode mode arguments
  main argv = main_mode [] []
