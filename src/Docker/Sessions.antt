-- ===== src/Docker/Sessions.antt =====
-- The sessions of DockerSandbox (henry/sandbox/docker.py): the registry, the session objects and
-- what is asked of Docker. `_get_session`, `_remove_session`, `_remove_session_locked`,
-- `_invalidate_locked`, `destroy` and `reap_expired`. What Docker answers is an argument.
pub mod Invariant
pub mod Uses
pub mod Removed
use henry.Prelude.{
  ℕ, suc, ◌+◌, ◌-◌, ◌*◌, Bool, true, false, Option, none, some, List, [], ◌∷◌, ◌++◌, length, ltb,
  ◌==◌, if◌then◌else◌,
}
use henry.Text.{Text, codes, ◌===◌}
use henry.Dict.{Dict, lookup, insert, remove}
use henry.Result.{Result, ok, err, Error, sandbox_error, session_not_found, session_destroyed}
use henry.SandboxTypes.{SandboxPolicy}

-- `_Session`. Times are milliseconds; `container` is the id of the container.
pub record Session : Type 0 where
  pub container : Text
  pub policy : SandboxPolicy
  pub created_at : ℕ
  pub destroyed : Bool
  pub locked : Bool

-- A session object is named by its number.
pub data DockerCall : Type 0 where
  create_volume : DockerCall
  remove_new_volume : DockerCall
  run_container exec_in copy_in copy_out remove_container remove_volume : ℕ → DockerCall

-- `sessions` is the registry, `heap` the objects, `calls` what was asked of Docker, latest first.
pub record Sandbox : Type 0 where
  pub sessions : Dict ℕ
  pub heap : ℕ → Option Session
  pub next : ℕ
  pub calls : List DockerCall

abbrev pub empty : Sandbox
empty = record { sessions = []; heap = λ a. none; next = 0; calls = [] }

abbrev pub update : (ℕ → Option Session) → ℕ → Session → ℕ → Option Session
update heap a s b = if a == b then some s else heap b

-- How Docker answers a removal.
pub data Reply : Type 0 where
  removed not_found api_error : Reply

pub record Removal : Type 0 where
  pub container : Reply
  pub volume : Reply

-- Both removals are tried; the container's error is the one that is raised.
removal_result : Text → Removal → Result (Unit {0})
removal_result session r = elim r.container [
  | api_error ↦ err (sandbox_error (codes "failed to remove sandbox session " ++ session))
  | _ ↦ elim r.volume [
    | api_error ↦
        err (sandbox_error (codes "failed to remove sandbox workspace volume " ++ session))
    | _ ↦ ok tt
  ]
]

-- The object that a session id stands for; the error says whether it is unknown or destroyed.
found_session : Text → ℕ → Option Session → Result (ℕ × Session)
found_session session a none =
    err (session_not_found (codes "unknown sandbox session: " ++ session))
found_session session a (some s) =
    if s.destroyed
    then err (session_destroyed (codes "sandbox session is destroyed: " ++ session))
    else ok (a, s)

unfoldable pub get_session : Sandbox → Text → Result (ℕ × Session)
unfolding found_session
get_session w session = elim (lookup session w.sessions) [
  | none ↦ err (session_not_found (codes "unknown sandbox session: " ++ session))
  | some a ↦ found_session session a (w.heap a)
]

-- `if self._sessions.get(session) is state: self._sessions.pop(session, None)`
forget : Text → ℕ → Dict ℕ → Dict ℕ
forget session a d = elim (lookup session d) [
  | none ↦ d
  | some b ↦ if b == a then remove session d else d
]

-- What `_remove_session_locked` does to the object `s` of number `a`. The marks are set before
-- Docker is asked, so a task that waits for the lock finds them whatever Docker answers.
pub tear_down : Sandbox → Text → ℕ → Session → Sandbox
unfolding forget
tear_down w session a s = if s.destroyed then w else record w {
  sessions = forget session a w.sessions;
  heap = update w.heap a (record s { destroyed = true });
  calls = remove_volume a ∷ remove_container a ∷ w.calls;
}

unfoldable pub remove_session_locked :
    Sandbox → Text → ℕ → Session → Removal → Sandbox × Result (Unit {0})
unfolding tear_down removal_result
remove_session_locked w session a s r =
    (tear_down w session a s, if s.destroyed then ok tt else removal_result session r)

-- A `SandboxError` of the cleanup is dropped.
unfoldable pub invalidate_locked : Sandbox → Text → ℕ → Session → Removal → Sandbox
unfolding remove_session_locked
invalidate_locked w session a s r = (remove_session_locked w session a s r).0

-- `_remove_session`, from a moment when the session's lock is free.
remove_object : Sandbox → Text → ℕ → Option Session → Removal → Sandbox × Result (Unit {0})
unfolding remove_session_locked
remove_object w session a none r = (w, ok tt)
remove_object w session a (some s) r = remove_session_locked w session a s r

unfoldable pub remove_session : Sandbox → Text → Removal → Sandbox × Result (Unit {0})
unfolding remove_object
remove_session w session r = elim (lookup session w.sessions) [
  | none ↦ (w, ok tt)
  | some a ↦ remove_object w session a (w.heap a) r
]

unfoldable pub destroy : Sandbox → Text → Removal → Sandbox × Result (Unit {0})
unfolding remove_session
destroy w session r = remove_session w session r

is_expired : ℕ → Option Session → Bool
is_expired now none = false
is_expired now (some s) = ltb (s.policy.ttl_s * 1000) (now - s.created_at)

expired_ids : ℕ → (ℕ → Option Session) → Dict ℕ → List Text
expired_ids now heap [] = []
expired_ids now heap ((session, a) ∷ d) =
    let rest = expired_ids now heap d in if is_expired now (heap a) then session ∷ rest else rest

-- The loop stops at the first removal that raises.
remove_each : Sandbox → List Text → (Text → Removal) → Sandbox × Result (Unit {0})
remove_each w [] answer = (w, ok tt)
remove_each w (session ∷ rest) answer =
    let (w', done) = remove_session w session (answer session) in
    let more = remove_each w' rest answer in elim done [ ok _ ↦ more | err e ↦ (w', err e) ]

reaped : ℕ → Result (Unit {0}) → Result ℕ
reaped n (ok _) = ok n
reaped n (err e) = err e

unfoldable pub reap_expired : Sandbox → ℕ → (Text → Removal) → Sandbox × Result ℕ
unfolding is_expired expired_ids remove_each reaped
reap_expired w now answer =
    let ids = expired_ids now w.heap w.sessions in
    let (w', done) = remove_each w ids answer in (w', reaped (length ids) done)
