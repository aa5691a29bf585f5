-- ===== src/Docker/Sessions/Invariant.antt =====
-- The invariant of the session registry, kept by every step that touches it.
use henry.Prelude.{
  ℕ, suc, ◌≤◌, ◌≡◌, ◌≢◌, refl, ◌∙◌, ◌⊎◌, inl, inr, Bool, true, false, Option, none, some, List, [],
  ◌∷◌, arith, ◌==◌, ==_iff, if◌then◌else◌, Bool-cases,
}
use henry.Text.{Text, ◌===◌, ===_iff}
use henry.Dict.{lookup, remove, lookup-remove}
use henry.Docker.Sessions.{
  Sandbox, Session, DockerCall, exec_in, copy_in, copy_out, remove_container, remove_volume, empty,
  update, forget, tear_down,
}

-- How often Docker was asked to remove a session's container, and its volume.
abbrev pub container_removals : ℕ → List DockerCall → ℕ
container_removals a [] = 0
container_removals a (remove_container b ∷ cs) =
    if a == b then suc (container_removals a cs) else container_removals a cs
container_removals a (_ ∷ cs) = container_removals a cs

abbrev pub volume_removals : ℕ → List DockerCall → ℕ
volume_removals a [] = 0
volume_removals a (remove_volume b ∷ cs) =
    if a == b then suc (volume_removals a cs) else volume_removals a cs
volume_removals a (_ ∷ cs) = volume_removals a cs

-- Docker was never asked to run or copy in a container after it was asked to remove it.
abbrev pub UsedAlive : List DockerCall → Type 0
UsedAlive [] = Unit
UsedAlive (exec_in a ∷ cs) = (container_removals a cs ≡ 0) × UsedAlive cs
UsedAlive (copy_in a ∷ cs) = (container_removals a cs ≡ 0) × UsedAlive cs
UsedAlive (copy_out a ∷ cs) = (container_removals a cs ≡ 0) × UsedAlive cs
UsedAlive (_ ∷ cs) = UsedAlive cs

abbrev pub once_if : Bool → ℕ
once_if true = 1
once_if false = 0

pub record Inv (w : Sandbox) : Type 0 where
  -- What is registered is there, under its own id, and not destroyed.
  pub registered :
      (name : Text) (a : ℕ)
      → lookup name w.sessions ≡ some a
      → (s : Session) × (w.heap a ≡ some s) × (s.container ≡ name) × (s.destroyed ≡ false)
  -- What is not destroyed is registered: no container is lost track of.
  pub reachable :
      (a : ℕ) (s : Session)
      → w.heap a ≡ some s
      → s.destroyed ≡ false
      → lookup s.container w.sessions ≡ some a
  -- A destroyed session's container and volume were each removed once, and no other's.
  pub cleaned :
      (a : ℕ) (s : Session)
      → w.heap a ≡ some s
      → (container_removals a w.calls ≡ once_if s.destroyed)
        × (volume_removals a w.calls ≡ once_if s.destroyed)
  pub unborn :
      (a : ℕ)
      → w.heap a ≡ none
      → (container_removals a w.calls ≡ 0) × (volume_removals a w.calls ≡ 0)
  pub fresh : (a : ℕ) → w.next ≤ a → w.heap a ≡ none
  pub used_alive : UsedAlive w.calls

pub Inv-empty : Inv empty
Inv-empty = record {
  registered = λ name a h. unfold lookup in absurd (cc);
  reachable = λ a s h d. absurd (cc);
  cleaned = λ a s h. absurd (cc);
  unborn = λ a h. (refl, refl);
  fresh = λ a h. refl;
  used_alive = tt;
}

update-eq :
    (heap : ℕ → Option Session) (a b : ℕ) (s t : Session)
    → update heap a s b ≡ some t
    → ((a ≡ b) × (s ≡ t)) ⊎ ((a ≢ b) × (heap b ≡ some t))
update-eq heap a b s t h = elim (Bool-cases (a == b)) [
  | inl e ↦ inl ((==_iff a b).0 e, ground arith)
  | inr e ↦ inr (λ q. absurd (ground (arith, ==_iff a b)), ground arith)
]

abbrev torn : Sandbox → ℕ → Session → Sandbox
torn w a s = record w {
  sessions = remove s.container w.sessions;
  heap = update w.heap a (record s { destroyed = true });
  calls = remove_volume a ∷ remove_container a ∷ w.calls;
}

module _ (w : Sandbox) (v : Inv w) (a : ℕ) (s : Session) (here : w.heap a ≡ some s) where
  kept-lookup :
      (name : Text) (b : ℕ)
      → lookup name (remove s.container w.sessions) ≡ some b
      → (s.container ≢ name) × (lookup name w.sessions ≡ some b)
  kept-lookup name b h = elim (Bool-cases (s.container === name)) [
    | inl e ↦ absurd (ground (arith, lookup-remove s.container name w.sessions))
    | inr e ↦ (
      λ q. absurd (ground (arith, ===_iff s.container name)),
      ground (arith, lookup-remove s.container name w.sessions),
    )
  ]

  torn-registered :
      (name : Text) (b : ℕ)
      → lookup name (torn w a s).sessions ≡ some b
      → (t : Session) × ((torn w a s).heap b ≡ some t)
        × (t.container ≡ name)
        × (t.destroyed ≡ false)
  torn-registered name b h =
      let (other, kept) = kept-lookup name b h in
      let (t, there, named, alive) = v.registered name b kept in
      (
        t,
        elim (Bool-cases (a == b)) [
          | inl same ↦ absurd (other (ground (arith, ==_iff a b)))
          | inr apart ↦ rw apart there
        ],
        named,
        alive,
      )

  torn-reachable :
      (b : ℕ) (t : Session)
      → (torn w a s).heap b ≡ some t
      → t.destroyed ≡ false
      → s.destroyed ≡ false
      → lookup t.container (torn w a s).sessions ≡ some b
  torn-reachable b t h alive d = elim (update-eq w.heap a b (record s { destroyed = true }) t h) [
    | inl (e, same) ↦ absurd (ground arith)
    | inr (apart, there) ↦
        let found = v.reachable b t there alive in
        elim (Bool-cases (s.container === t.container)) [
          | inl clash ↦
              absurd
                (apart (ground (arith, v.reachable a s here d, ===_iff s.container t.container)))
          | inr e ↦ lookup-remove s.container t.container w.sessions ∙ rw e found
        ]
  ]

  torn-cleaned :
      (b : ℕ) (t : Session)
      → (torn w a s).heap b ≡ some t
      → s.destroyed ≡ false
      → (container_removals b (torn w a s).calls ≡ once_if t.destroyed)
        × (volume_removals b (torn w a s).calls ≡ once_if t.destroyed)
  torn-cleaned b t h d = elim (update-eq w.heap a b (record s { destroyed = true }) t h) [
    | inl (e, same) ↦ ground (arith, v.cleaned a s here)
    | inr (apart, there) ↦ ground (arith, v.cleaned b t there)
  ]

  torn-unborn :
      (b : ℕ)
      → (torn w a s).heap b ≡ none
      → (container_removals b (torn w a s).calls ≡ 0) × (volume_removals b (torn w a s).calls ≡ 0)
  torn-unborn b h = elim (Bool-cases (a == b)) [
    | inl e ↦ absurd (ground arith)
    | inr e ↦ ground (arith, v.unborn b (ground arith))
  ]

  torn-fresh : (b : ℕ) → w.next ≤ b → (torn w a s).heap b ≡ none
  torn-fresh b h = ground (arith, v.fresh b h, ==_iff a b)

  torn-Inv : s.destroyed ≡ false → Inv (torn w a s)
  torn-Inv d = record {
    registered = torn-registered;
    reachable = λ b t h k. torn-reachable b t h k d;
    cleaned = λ b t h. torn-cleaned b t h d;
    unborn = torn-unborn;
    fresh = torn-fresh;
    used_alive = v.used_alive;
  }

  tear_down-torn : s.destroyed ≡ false → tear_down w s.container a s ≡ torn w a s
  unfolding tear_down forget
  tear_down-torn d = ground (arith, v.reachable a s here d)

  -- Teardown of a session, also of one that is gone already.
  pub tear_down-Inv : Inv (tear_down w s.container a s)
  tear_down-Inv = elim (Bool-cases s.destroyed) [
    | inl gone ↦ unfold tear_down in rw gone v
    | inr alive ↦ rw (tear_down-torn alive) (torn-Inv alive)
  ]

  relock-registered :
      (locked : Bool) (name : Text) (b : ℕ)
      → lookup name w.sessions ≡ some b
      → (t : Session) × (update w.heap a (record s { locked = locked }) b ≡ some t)
        × (t.container ≡ name)
        × (t.destroyed ≡ false)
  relock-registered locked name b h =
      let (t, there, named, alive) = v.registered name b h in
      elim (Bool-cases (a == b)) [
        | inl same ↦ (
          record s { locked = locked },
          rw same,
          ground (arith, ==_iff a b),
          ground (arith, ==_iff a b),
        )
        | inr apart ↦ (t, rw apart there, named, alive)
      ]

  relock-reachable :
      (locked : Bool) (b : ℕ) (t : Session)
      → update w.heap a (record s { locked = locked }) b ≡ some t
      → t.destroyed ≡ false
      → lookup t.container w.sessions ≡ some b
  relock-reachable locked b t h alive =
      elim (update-eq w.heap a b (record s { locked = locked }) t h) [
        | inl (e, same) ↦ ground (arith, v.reachable a s here)
        | inr (apart, there) ↦ v.reachable b t there alive
      ]

  relock-cleaned :
      (locked : Bool) (b : ℕ) (t : Session)
      → update w.heap a (record s { locked = locked }) b ≡ some t
      → (container_removals b w.calls ≡ once_if t.destroyed)
        × (volume_removals b w.calls ≡ once_if t.destroyed)
  relock-cleaned locked b t h = elim (update-eq w.heap a b (record s { locked = locked }) t h) [
    | inl (e, same) ↦ ground (arith, v.cleaned a s here)
    | inr (apart, there) ↦ v.cleaned b t there
  ]

  relock-none :
      (locked : Bool) (b : ℕ)
      → update w.heap a (record s { locked = locked }) b ≡ none
      → w.heap b ≡ none
  relock-none locked b h = ground (arith, ==_iff a b)

  -- Taking or giving back the lock of an object.
  pub relock-Inv :
      (locked : Bool) → Inv (record w { heap = update w.heap a (record s { locked = locked }) })
  relock-Inv locked = record {
    registered = relock-registered locked;
    reachable = relock-reachable locked;
    cleaned = relock-cleaned locked;
    unborn = λ b h. v.unborn b (relock-none locked b h);
    fresh = λ b h. ground (arith, v.fresh b h, ==_iff a b);
    used_alive = v.used_alive;
  }
