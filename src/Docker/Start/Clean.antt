-- ===== src/Docker/Start/Clean.antt =====
-- Starting a session keeps the invariant, and a start that fails leaves no session behind.
use henry.Prelude.{
  ℕ, ◌<◌, ◌≡◌, refl, ◌∙◌, ◌⊎◌, inl, inr, false, Option, none, some, List, [], ◌∷◌, arith, ◌==◌,
  ==_iff, ==_refl, if◌then◌else◌, Bool-cases, leb, Any,
}
use henry.Prelude.Int.{pos, negsuc}
use henry.Text.{Text, codes, ◌===◌, ===_iff, ===-refl}
use henry.Dict.{lookup, lookup-insert}
use henry.SandboxTypes.{SandboxPolicy}
use henry.Result.{Result, ok, err}
use henry.Docker.Sessions.{Sandbox, Session, create_volume, remove_new_volume, remove_session}
use henry.Docker.Sessions.Invariant.{Inv}
use henry.Docker.Sessions.Uses.{use-Inv}
use henry.Docker.Sessions.Removed.{remove_session_lem}
use henry.Docker.Start.{
  cleaned_up, after_wait, start_run, start_volume, timed_out, interrupted, Startup, register, start,
  Ready, wait_ready, Round, Ping, answered, overdue, failed, cancelled, ready, after_ping, is_zero,
}

module _ (w : Sandbox) (v : Inv w) (name : Text) (policy : SandboxPolicy) (now : ℕ)
    (new : lookup name w.sessions ≡ none) where
  abbrev session : Session
  session = record {
    container = name;
    policy = policy;
    created_at = now;
    destroyed = false;
    locked = false;
  }

  registered-register :
      (j : Text) (b : ℕ)
      → lookup j (register w name policy now).sessions ≡ some b
      → (t : Session) × ((register w name policy now).heap b ≡ some t)
        × (t.container ≡ j)
        × (t.destroyed ≡ false)
  unfolding register
  registered-register j b h = elim (Bool-cases (name === j)) [
    | inl same ↦ (
      session,
      ground (arith, lookup-insert name j w.next w.sessions, ==_iff w.next b),
      (===_iff name j).0 same,
      refl,
    )
    | inr other ↦
        let (t, there, named, alive) =
          v.registered j b (ground (arith, lookup-insert name j w.next w.sessions)) in
        (t, ground (arith, v.fresh w.next, ==_iff w.next b), named, alive)
  ]

  reachable-register :
      (b : ℕ) (t : Session)
      → (register w name policy now).heap b ≡ some t
      → t.destroyed ≡ false
      → lookup t.container (register w name policy now).sessions ≡ some b
  unfolding register
  reachable-register b t h alive = elim (Bool-cases (w.next == b)) [
    | inl same ↦ ground (
      arith,
      lookup-insert name t.container w.next w.sessions,
      ==_iff w.next b,
      ===_iff name t.container,
    )
    | inr other ↦ ground (
      arith,
      v.reachable b t,
      lookup-insert name t.container w.next w.sessions,
      ===_iff name t.container,
    )
  ]

  -- A session under an id that no live session has.
  pub register-Inv : Inv (register w name policy now)
  unfolding register
  register-Inv = record {
    registered = registered-register;
    reachable = reachable-register;
    cleaned = λ b t h. ground (arith, v.cleaned b t, v.unborn b, v.fresh b, ==_iff w.next b);
    unborn = λ b h. ground (arith, v.unborn b, ==_iff w.next b);
    fresh = λ b h. ground (arith, v.fresh b, ==_iff w.next b);
    used_alive = v.used_alive;
  }

-- What a start leaves behind: a live session under the id that it returns, or, where it raises, the
-- registry as it was.
abbrev pub Leaves : Sandbox → Sandbox → Result Text → Type 0
Leaves w w' (ok id) =
    (lookup id w'.sessions ≡ some w.next)
    × (s : Session) × (w'.heap w.next ≡ some s)
    × (s.container ≡ id)
    × (s.destroyed ≡ false)
Leaves w w' (err e) = (j : Text) → lookup j w'.sessions ≡ lookup j w.sessions

-- The ids that Docker gives are new.
abbrev pub NewId : Sandbox → Result Text → Type 0
NewId w (ok id) = lookup id w.sessions ≡ none
NewId w (err e) = Unit

abbrev Holds : Sandbox → Sandbox × Result Text → Type 0
Holds w (w', result) = Inv w' × Leaves w w' result

module _ (w : Sandbox) (policy : SandboxPolicy) (u : Startup) (v : Inv w) where
  lookup-register :
      (id j : Text)
      → lookup j (register w id policy u.now).sessions
        ≡ (if id === j then some w.next else lookup j w.sessions)
  unfolding register
  lookup-register id j = lookup-insert id j w.next w.sessions

  -- A session that is registered and removed again.
  removed :
      (id : Text) (e : henry.Result.Error)
      → lookup id w.sessions ≡ none
      → Holds w (
          let (w', done) = remove_session (register w id policy u.now) id u.removal in
          (w', cleaned_up done e))
  removed id e new =
      let (inv, same) =
        remove_session_lem (register w id policy u.now) id u.removal
          (register-Inv w v id policy u.now new) in
      (
        inv,
        undone (remove_session (register w id policy u.now) id u.removal).1
            (λ j. ground (arith, same j, lookup-register id j, ===_iff id j)),
      )
    where
      undone :
          (done : Result (Unit {0}))
          → ((j : Text)
              → lookup j (remove_session (register w id policy u.now) id u.removal).0.sessions
                ≡ lookup j w.sessions)
          → Leaves w
              (remove_session (register w id policy u.now) id u.removal).0
              (cleaned_up done e)
      undone (ok x) h = unfold cleaned_up in h
      undone (err x) h = unfold cleaned_up in h

  after_wait-Holds :
      (id : Text) (wait : Ready)
      → lookup id w.sessions ≡ none
      → Holds w (after_wait (register w id policy u.now) id u wait)
  unfolding after_wait
  after_wait-Holds id ready new = (
    register-Inv w v id policy u.now new,
    (
      lookup-register id id ∙ rw (===-refl id),
      session w v id policy u.now new,
      unfold register in rw (==_refl w.next),
      refl,
      refl,
    ),
  )
  after_wait-Holds id timed_out new = removed id _ new
  after_wait-Holds id interrupted new = removed id _ new

  start_run-Holds : (run : Result Text) → NewId w run → Holds w (start_run w policy u run)
  unfolding start_run
  start_run-Holds (ok id) new = after_wait-Holds id u.wait new
  start_run-Holds (err e) new =
      (use-Inv _ remove_new_volume (use-Inv w create_volume v tt) tt, λ j. refl)

  start_volume-Holds :
      (volume : Result (Unit {0})) → NewId w u.run → Holds w (start_volume w policy u volume)
  unfolding start_volume
  start_volume-Holds (ok x) new = start_run-Holds u.run new
  start_volume-Holds (err e) new = (use-Inv w create_volume v tt, λ j. refl)

-- Whatever Docker and the kernel do, a start keeps the invariant of the registry. It returns the id
-- of a live, registered session, or it raises and every id is registered exactly as before: no
-- half-started session is left. Docker's container ids are new.
pub start-Leaves :
    (w : Sandbox) (policy : SandboxPolicy) (u : Startup)
    → Inv w
    → NewId w u.run
    → Inv (start w policy u).0 × Leaves w (start w policy u).0 (start w policy u).1
unfolding start
start-Leaves w policy u v new = elim (Bool-cases (policy.network === codes "none")) [
  | inl e ↦ rw e (start_volume-Holds w policy u v u.volume new)
  | inr e ↦ rw e (v, λ j. refl)
]

after_ping-ready :
    (ping : Ping) (more : Option Ready)
    → after_ping ping more ≡ some ready
    → (ping ≡ answered (pos 0)) ⊎ (more ≡ some ready)
unfolding after_ping is_zero
after_ping-ready (answered (pos n)) more h = ground (arith, ==_iff n 0)
after_ping-ready (answered (negsuc n)) more h = inr h
after_ping-ready overdue more h = cc
after_ping-ready failed more h = inr h
after_ping-ready cancelled more h = cc

-- A kernel counts as ready only if a ping before the deadline has answered 0.
pub wait_ready-answered :
    (deadline : ℕ) (rounds : List Round)
    → wait_ready deadline rounds ≡ some ready
    → Any (λ r. (r.now < deadline) × (r.ping ≡ answered (pos 0))) rounds
unfolding wait_ready
wait_ready-answered deadline [] h = absurd (cc)
wait_ready-answered deadline (r ∷ rest) h = elim (Bool-cases (leb deadline r.now)) [
  | inl late ↦ absurd (ground arith)
  | inr early ↦ elim (after_ping-ready r.ping (wait_ready deadline rest) (ground arith)) [
    | inl e ↦ inl (ground arith, e)
    | inr e ↦ inr (wait_ready-answered deadline rest e)
  ]
]
