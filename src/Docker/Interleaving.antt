-- ===== src/Docker/Interleaving.antt =====
-- Tasks that share one DockerSandbox (henry/sandbox/docker.py): every order of the steps that
-- asyncio allows. A step runs up to the next await; one that needs a session's lock waits until the
-- lock is free, and a step of a lock's holder finds it taken.
use henry.Prelude.{
  ℕ, ◌≡◌, refl, subst, ◌⊎◌, inl, inr, true, false, Option, none, some, ◌∷◌, arith, Bool-cases,
  Option-cases,
}
use henry.Text.{Text}
use henry.Dict.{lookup}
use henry.SandboxTypes.{SandboxPolicy}
use henry.Result.{ok}
use henry.Docker.Sessions.{
  Sandbox, Session, Removal, DockerCall, exec_in, copy_in, copy_out, empty, update, get_session,
  remove_session_locked, invalidate_locked,
}
use henry.Docker.Sessions.Invariant.{Inv, Inv-empty, tear_down-Inv, relock-Inv, container_removals}
use henry.Docker.Sessions.Uses.{use-Inv}
use henry.Docker.Start.{register}
use henry.Docker.Start.Clean.{register-Inv}
use henry.Docker.Cells.{Codec, ExecOutcome, cell_begin, cell_end, cell_outcome, unlock}

pub data Step (w : Sandbox) : Sandbox → Type 0 where
  -- `start` enters a new container into the registry.
  registers :
      (id : Text) (policy : SandboxPolicy) (now : ℕ)
      → lookup id w.sessions ≡ none
      → Step w (register w id policy now)
  -- `exec_cell` takes the lock and hands the cell to Docker.
  begins :
      (a : ℕ) (s : Session) (w' : Sandbox)
      → w.heap a ≡ some s
      → s.locked ≡ false
      → cell_begin w s.container a s ≡ ok w'
      → Step w w'
  -- The wait of `exec_cell` ends; the lock is given back.
  ends :
      (codec : Codec) (a : ℕ) (s : Session) (timeout : ℕ) (o : ExecOutcome) (r : Removal)
      → w.heap a ≡ some s
      → s.locked ≡ true
      → Step w (cell_end codec w s.container a s timeout o r).0
  -- `_remove_session`, from `destroy`, `reap_expired`, `start` or `exec`. The object may have been
  -- destroyed since it was looked up.
  removes :
      (a : ℕ) (s : Session) (r : Removal)
      → w.heap a ≡ some s
      → s.locked ≡ false
      → Step w (remove_session_locked w s.container a s r).0
  -- `exec`, `write_file` and `read_file` look a session up and hand their command to Docker.
  runs :
      (session : Text) (a : ℕ) (s : Session) (c : ℕ → DockerCall)
      → get_session w session ≡ ok (a, s)
      → (c ≡ exec_in) ⊎ ((c ≡ copy_in) ⊎ (c ≡ copy_out))
      → Step w (record w { calls = c a ∷ w.calls })

pub data Reach (w : Sandbox) : Sandbox → Type 0 where
  here : Reach w w
  next : {w' w'' : Sandbox} → Reach w w' → Step w' w'' → Reach w w''

get_session-alive :
    (w : Sandbox) (session : Text) (a : ℕ) (s : Session)
    → get_session w session ≡ ok (a, s)
    → (w.heap a ≡ some s) × (s.destroyed ≡ false)
unfolding get_session
get_session-alive w session a s h = elim (Option-cases (lookup session w.sessions)) [
  | inl e ↦ absurd (ground arith)
  | inr (b, e) ↦ elim (Option-cases (w.heap b)) [
    | inl n ↦ absurd (ground arith)
    | inr (t, there) ↦ (ground arith, ground arith)
  ]
]

unused :
    (w : Sandbox)
    → Inv w
    → (a : ℕ) (s : Session) → w.heap a ≡ some s
    → s.destroyed ≡ false
    → container_removals a w.calls ≡ 0
unused w v a s there alive = ground (arith, v.cleaned a s there)

abbrev begun : Sandbox → ℕ → Session → Sandbox
begun w a s = record w {
  heap = update w.heap a (record s { locked = true });
  calls = exec_in a ∷ w.calls;
}

begins-Inv :
    {w w' : Sandbox} (a : ℕ) (s : Session)
    → Inv w
    → w.heap a ≡ some s
    → cell_begin w s.container a s ≡ ok w'
    → Inv w'
begins-Inv {w} {w'} a s v there h = elim (Bool-cases s.destroyed) [
  | inl gone ↦ absurd (unfold cell_begin in ground arith)
  | inr alive ↦
      let e : begun w a s ≡ w' = unfold cell_begin in ground arith in
      subst Inv e (
        use-Inv (record w { heap = update w.heap a (record s { locked = true }) }) (exec_in a)
          (relock-Inv w v a s there true) (unused w v a s there alive))
]

invalidate-Inv :
    {w : Sandbox} (a : ℕ) (s : Session) (r : Removal)
    → Inv w
    → w.heap a ≡ some s
    → Inv (invalidate_locked w s.container a s r)
unfolding invalidate_locked
invalidate-Inv {w} a s r v there = tear_down-Inv w v a s there

unlock-Inv :
    (w : Sandbox) → Inv w → (a : ℕ) (o : Option Session) → w.heap a ≡ o → Inv (unlock w a o)
unfolding unlock
unlock-Inv w v a none e = v
unlock-Inv w v a (some s) e = relock-Inv w v a s e false

ends-Inv :
    (codec : Codec) {w : Sandbox} (a : ℕ) (s : Session) (timeout : ℕ) (o : ExecOutcome)
    (r : Removal)
    → Inv w
    → w.heap a ≡ some s
    → Inv (cell_end codec w s.container a s timeout o r).0
unfolding cell_end
ends-Inv codec {w} a s timeout o r v there = elim (Bool-cases (cell_outcome codec timeout o).1) [
  | inl torn ↦
      rw torn
        (unlock-Inv (invalidate_locked w s.container a s r) (invalidate-Inv a s r v there) a _ refl)
  | inr kept ↦ rw kept (unlock-Inv w v a _ refl)
]

Step-Inv : {w w' : Sandbox} → Step w w' → Inv w → Inv w'
Step-Inv {w} (registers id policy now new) v = register-Inv w v id policy now new
Step-Inv (begins a s w' there free h) v = begins-Inv a s v there h
Step-Inv (ends codec a s timeout o r there held) v = ends-Inv codec a s timeout o r v there
Step-Inv {w} (removes a s r there free) v =
    unfold remove_session_locked in tear_down-Inv w v a s there
Step-Inv {w} (runs session a s c h kind) v =
    let (there, alive) = get_session-alive w session a s h in
    use-Inv w (c a) v (elim kind [
      | inl e ↦ rw e (unused w v a s there alive)
      | inr (inl e) ↦ rw e (unused w v a s there alive)
      | inr (inr e) ↦ rw e (unused w v a s there alive)
    ])

pub Reach-Inv : (w : Sandbox) → Reach empty w → Inv w
Reach-Inv w here = Inv-empty
Reach-Inv w (next r st) = Step-Inv st (Reach-Inv _ r)
