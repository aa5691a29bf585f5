-- ===== src/Docker/Files/Bounds.antt =====
-- What a file that is read from a sandbox is, and when something is written to one.
use henry.Prelude.{ℕ, ◌≤◌, ◌≡◌, ◌≢◌, true, false, some, List, [], ◌∷◌, length}
use henry.Text.{Text}
use henry.Result.{Result, ok}
use henry.Docker.SafePath.{safe_path}
use henry.Docker.Sessions.{Sandbox, Session, exec_in, copy_in, get_session}
use henry.Docker.Files.{Member, file_limit_bytes, is_unsafe, basename}

-- The bytes are those of a regular file of the archive that is no link and has a safe name.
pub record IsRead (bytes : List ℕ) : Type 0 where
  pub member : Member
  pub regular : member.is_file ≡ true
  pub no_link : member.is_link ≡ false
  pub safe_name : is_unsafe member.name ≡ false
  pub all_bytes : member.bytes ≡ some bytes
  pub small : length bytes ≤ file_limit_bytes

-- What stands behind a write that succeeded.
pub record IsWritten (w : Sandbox) (session path : Text) (content : List ℕ) (w' : Sandbox)
    : Type 0 where
  pub object : ℕ
  pub state : Session
  pub target : Text
  pub small : length content ≤ file_limit_bytes
  pub live : get_session w session ≡ ok (object, state)
  pub safe : safe_path state.policy.workdir path ≡ ok target
  pub named : basename target ≢ []
  pub calls : w'.calls ≡ copy_in object ∷ exec_in object ∷ w.calls
