-- ===== src/Tools/Calls.antt =====
-- The tools of henry/sandbox/tools.py: run_python, write_file, read_file and clone_repo, over the
-- `Sandbox` protocol of henry/interfaces.py, with `_session_for` and `_forget_session`. The calls
-- of the sandbox, of the HTTP client, of `tarfile` and of the codecs are parameters.
pub mod Sessions
pub mod Writes
use henry.Prelude.{
  ℕ, Bool, true, false, not, Option, none, some, List, [], ◌∷◌, ◌++◌, if◌then◌else◌, length,
}
use henry.Prelude.Int.{ℤ}
use henry.Text.{Text, codes, ◌===◌, decimal}
use henry.Json.{Json}
use henry.Result.{Result, ok, err, Error, value_error, session_not_found, session_destroyed}
use henry.PosixPath.{join_path}
use henry.SandboxTypes.{SandboxPolicy, default_policy, CellResult}
use henry.Tools.Slots.{forget_cached}
use henry.Tools.Format.{kernel_reset_notice, format_cell_result}
use henry.Tools.Clone.{is_repo, safe_relative_dest}
use henry.Tools.Clone.Download.{Streamed, download_github_tarball}
use henry.Tools.Clone.Archive.{Member, safe_files}

-- What a tool call of a run meets: the cached session of the run's slot, and the world.
pub record Run (W : Type 0) : Type 0 where
  pub cached : Option Text
  pub world : W

-- `start` and `destroy` are awaited under the slot's lock. While another call is awaited, other tool calls of the
-- run may change the slot, so such a call gives a new slot too.
pub record Sandbox (W : Type 0) : Type 0 where
  pub start : SandboxPolicy → W → Result Text × W
  pub exec_cell : (session code : Text) → Option ℤ → Run W → Result CellResult × Run W
  pub write_file : (session path content : Text) → Run W → Result (Unit {0}) × Run W
  pub read_file : (session path : Text) → Run W → Result Text × Run W
  pub destroy : (session : Text) → W → Result (Unit {0}) × W

-- What the deps say: the run's id and the settings that the tools read.
pub record Deps : Type 0 where
  pub run_id : Text
  pub sandbox_image : Text
  pub github_token : Text

abbrev pub Call : Type 0 → Type 0 → Type 0
Call W A = Run W → Result A × Run W

pub missing_run_id : Error
missing_run_id =
    value_error (codes "ChannelContext.run_id is required for sandbox session ownership")

pub reset_reply : Text
reset_reply = codes "error: the kernel session ended before this cell ran. " ++ kernel_reset_notice

module _ {W : Type 0} where
  pub forget_session : Text → Run W → Run W
  unfolding forget_cached
  forget_session session s = record s { cached = forget_cached session s.cached }

  -- A raised exception ends the call; a result goes to the rest of it.
  abbrev pub and_then : {A B : Type 0} → Result A × Run W → (A → Call W B) → Result B × Run W
  and_then (err e, s) next = (err e, s)
  and_then (ok a, s) next = next a s

  after_start : Result Text × W → Result Text × Run W
  after_start (ok session, w) = (ok session, record { cached = some session; world = w })
  after_start (err e, w) = (err e, record { cached = none; world = w })

module _ {W : Type 0} (box : Sandbox W) (deps : Deps) where
  from_slot : Option Text → W → Result Text × Run W
  unfolding after_start
  from_slot (some session) w = (ok session, record { cached = some session; world = w })
  from_slot none w = after_start (box.start (default_policy deps.sandbox_image) w)

  -- `_session_for`
  unfoldable pub session_for : Call W Text
  unfolding from_slot missing_run_id
  session_for s = if deps.run_id === [] then (err missing_run_id, s) else from_slot s.cached s.world

module _ {W : Type 0} (show : Json → Text) where
  -- run_python behind the call of `exec_cell`, its handler included.
  after_cell : Text → Result CellResult × Run W → Result Text × Run W
  unfolding forget_session reset_reply
  after_cell session (err (session_not_found m), s) = (ok reset_reply, forget_session session s)
  after_cell session (err (session_destroyed m), s) = (ok reset_reply, forget_session session s)
  after_cell session (err e, s) = (err e, s)
  after_cell session (ok r, s) = (
    ok (format_cell_result show r),
    if r.session_invalidated then forget_session session s else s,
  )

checked_dest : (repo dest : Text) → Result Text
checked_dest repo dest =
    if not (is_repo repo)
    then err (value_error (codes "repo must be in owner/name form"))
    else safe_relative_dest dest

copied : (repo ref dest : Text) → ℕ → Text
copied repo ref dest n =
    codes "copied "
    ++ (decimal n
        ++ (codes " files from " ++ (repo ++ (codes "@" ++ (ref ++ (codes " into " ++ dest))))))

module _ {W : Type 0} (box : Sandbox W) (deps : Deps) where
  unfoldable pub run_python : (show : Json → Text) (code : Text) → Option ℤ → Call W Text
  unfolding after_cell
  run_python show code timeout_s s =
      and_then (session_for box deps s)
        (λ session s'. after_cell show session (box.exec_cell session code timeout_s s'))

  -- `encode` is `str.encode("utf-8")`, which raises on a lone surrogate.
  unfoldable pub write_file : (encode : Text → Result Text) (path content : Text) → Call W Text
  write_file encode path content s = and_then (session_for box deps s) (λ session s'.
      and_then (encode content, s')
        (λ bytes s''. and_then (box.write_file session path bytes s'') (λ done end.
          (ok (codes "wrote " ++ (decimal (length bytes) ++ (codes " bytes to " ++ path))), end))))

  -- `decode` is `bytes.decode("utf-8", errors="replace")`.
  unfoldable pub read_file : (decode : Text → Text) (path : Text) → Call W Text
  read_file decode path s = and_then (session_for box deps s) (λ session s'.
      and_then (box.read_file session path s') (λ bytes s''. (ok (decode bytes), s'')))

  -- The loop of clone_repo over the files.
  write_files : (session dest : Text) → List (Text × Text) → Call W (Unit {0})
  write_files session dest [] s = (ok tt, s)
  write_files session dest ((rel_path, bytes) ∷ files) s =
      and_then (box.write_file session (join_path dest rel_path) bytes s)
        (λ done s'. write_files session dest files s')

  -- `members` is what `tarfile.open` and `getmembers` give for the archive's bytes.
  unfoldable pub clone_repo :
      (stream : Text → List (Text × Text) → Result Streamed) (members : Text → Result (List Member))
      (repo ref dest : Text)
      → Call W Text
  unfolding write_files checked_dest copied
  clone_repo stream members repo ref dest s =
      and_then
        (
          if not (is_repo repo)
              then err (value_error (codes "repo must be in owner/name form"))
              else safe_relative_dest dest,
          s,
        )
        (λ safe_dest s.
          and_then (download_github_tarball stream deps.github_token repo ref, s)
            (λ archive s.
              and_then (members archive, s)
                (λ listed s.
                  and_then (safe_files listed, s)
                    (λ files s. and_then (session_for box deps s) (λ session s.
                      and_then (write_files session safe_dest files s)
                        (λ done s. (ok (copied repo ref safe_dest (length files)), s)))))))

  destroy_cached : Option Text → Bool → W → Result (Unit {0}) × W
  destroy_cached (some session) true w = box.destroy session w
  destroy_cached (some session) false w = (ok tt, w)
  destroy_cached none destroy w = (ok tt, w)

  -- The end of the run.
  unfoldable pub clear_sandbox_session : (destroy : Bool) → Run W → Result (Unit {0}) × Run W
  unfolding destroy_cached
  clear_sandbox_session destroy s =
      let (result, w) = destroy_cached s.cached destroy s.world in
      (result, record { cached = none; world = w })
