-- ===== src/Tools/Slots/Interleaving.antt =====
-- Tasks that share the session cache: every order of their steps.
use henry.Prelude.{
  ℕ, suc, ◌-◌, ◌≤◌, ◌<◌, ◌≡◌, refl, ◌⊎◌, inl, inr, Bool, true, false, none, some, arith, ◌==◌,
  ==_iff, Bool-cases,
}
use henry.Text.{Text, ◌===◌, ===_iff}
use henry.Dict.{lookup, insert, remove, lookup-insert, lookup-remove}
use henry.Result.{Result}
use henry.Tools.Slots.{
  Slot, Cache, empty, update, enter_slot, leave_slot, forget_cached, cache_after,
}

abbrev pub holder : Bool → ℕ
holder true = 1
holder false = 0

pub data Step (c : Cache) : Cache → Type 0 where
  -- A task asks for the slot of a key.
  enters : (key : Text) → Step c (enter_slot c key)
  -- A task that waits gets the slot's lock.
  acquires :
      (a : ℕ) (s : Slot)
      → c.heap a ≡ some s
      → s.locked ≡ false
      → 0 < s.users
      → Step c (record c { heap = update c.heap a (record s { locked = true }) })
  -- `_session_for` has its session.
  caches :
      (a : ℕ) (s : Slot) (started : Result Text)
      → c.heap a ≡ some s
      → s.locked ≡ true
      → Step c
          (record c { heap = update c.heap a (record s { cached = cache_after s.cached started }) })
  forgets :
      (a : ℕ) (s : Slot) (session : Text)
      → c.heap a ≡ some s
      → s.locked ≡ true
      → Step c (record c {
        heap = update c.heap a (record s { cached = forget_cached session s.cached });
      })
  -- `clear_sandbox_session`
  clears :
      (a : ℕ) (s : Slot)
      → c.heap a ≡ some s
      → s.locked ≡ true
      → Step c (record c { heap = update c.heap a (record s { cached = none }) })
  releases :
      (a : ℕ) (s : Slot)
      → c.heap a ≡ some s
      → s.locked ≡ true
      → Step c (record c { heap = update c.heap a (record s { locked = false }) })
  -- A task that has released the lock, or was cancelled while it waited, gives the slot back; it is
  -- not the one that holds the lock.
  leaves :
      (a : ℕ) (s : Slot) → c.heap a ≡ some s → holder s.locked < s.users → Step c (leave_slot c a s)

pub data Reach (c : Cache) : Cache → Type 0 where
  here : Reach c c
  next : {c' c'' : Cache} → Reach c c' → Step c' c'' → Reach c c''

pub record Inv (c : Cache) : Type 0 where
  -- A registered slot is there, under its own key, and in use or with a session.
  pub registered :
      (key : Text) (a : ℕ)
      → lookup key c.slots ≡ some a
      → (s : Slot) × (c.heap a ≡ some s)
        × (s.key ≡ key)
        × ((0 < s.users) ⊎ ((session : Text) × (s.cached ≡ some session)))
  -- A slot in use is registered, so the tasks of one key share one slot and one lock.
  pub shared : (a : ℕ) (s : Slot) → c.heap a ≡ some s → 0 < s.users → lookup s.key c.slots ≡ some a
  -- A slot with a session is registered, so the cleanup at the end of the run finds the session.
  pub found :
      (a : ℕ) (s : Slot) (session : Text)
      → c.heap a ≡ some s
      → s.cached ≡ some session
      → lookup s.key c.slots ≡ some a
  pub held : (a : ℕ) (s : Slot) → c.heap a ≡ some s → holder s.locked ≤ s.users
  pub fresh : (a : ℕ) → c.next ≤ a → c.heap a ≡ none

pub Inv-empty : Inv empty
Inv-empty = record {
  registered = λ key a h. unfold lookup in absurd (cc);
  shared = λ a s h u. absurd (cc);
  found = λ a s session h k. absurd (cc);
  held = λ a s h. absurd (cc);
  fresh = λ a h. refl;
}

-- A change of a registered slot that keeps its key, and leaves it in use.
module _ (c : Cache) (v : Inv c) (a : ℕ) (s t : Slot) (there : c.heap a ≡ some s)
    (key : t.key ≡ s.key) (listed : lookup s.key c.slots ≡ some a) (used : 0 < t.users)
    (fits : holder t.locked ≤ t.users) where
  change-registered :
      (k : Text) (b : ℕ)
      → lookup k c.slots ≡ some b
      → (u : Slot) × (update c.heap a t b ≡ some u)
        × (u.key ≡ k)
        × ((0 < u.users) ⊎ ((session : Text) × (u.cached ≡ some session)))
  change-registered k b h = elim (Bool-cases (a == b)) [
    | inl same ↦ (t, rw same, ground (arith, v.registered k b h, ==_iff a b), inl used)
    | inr apart ↦ let (u, at, named, live) = v.registered k b h in (u, rw apart at, named, live)
  ]

  pub change-Inv : Inv (record c { heap = update c.heap a t })
  change-Inv = record {
    registered = change-registered;
    shared = λ b u h k. ground (arith, v.shared b u, ==_iff a b);
    found = λ b u session h k. ground (arith, v.found b u session, ==_iff a b);
    held = λ b u h. ground (arith, v.held b u, ==_iff a b);
    fresh = λ b h. ground (arith, v.fresh b h, ==_iff a b);
  }

-- The first task of a key makes its slot.
module _ (c : Cache) (v : Inv c) (key : Text) (new : lookup key c.slots ≡ none) where
  abbrev pub made : Slot
  made = record { key = key; locked = false; cached = none; users = 1 }

  abbrev pub grown : Cache
  grown = record {
    slots = insert key c.next c.slots;
    heap = update c.heap c.next made;
    next = suc c.next;
  }

  grown-registered :
      (k : Text) (b : ℕ)
      → lookup k grown.slots ≡ some b
      → (u : Slot) × (grown.heap b ≡ some u)
        × (u.key ≡ k)
        × ((0 < u.users) ⊎ ((session : Text) × (u.cached ≡ some session)))
  grown-registered k b h = elim (Bool-cases (key === k)) [
    | inl same ↦ (
      made,
      ground (arith, lookup-insert key k c.next c.slots, ==_iff c.next b),
      (===_iff key k).0 same,
      inl (omega arith),
    )
    | inr other ↦
        let (u, at, named, live) =
          v.registered k b (ground (arith, lookup-insert key k c.next c.slots)) in
        (u, ground (arith, v.fresh c.next, ==_iff c.next b), named, live)
  ]

  pub grown-Inv : Inv grown
  grown-Inv = record {
    registered = grown-registered;
    shared = λ b u h k. ground (
      arith,
      v.shared b u,
      ==_iff c.next b,
      lookup-insert key u.key c.next c.slots,
      ===_iff key u.key,
    );
    found = λ b u session h k. ground (
      arith,
      v.found b u session,
      ==_iff c.next b,
      lookup-insert key u.key c.next c.slots,
      ===_iff key u.key,
    );
    held = λ b u h. ground (arith, v.held b u, ==_iff c.next b);
    fresh = λ b h. ground (arith, v.fresh b, ==_iff c.next b);
  }

-- The last task to leave a slot without a session drops it.
module _ (c : Cache) (v : Inv c) (a : ℕ) (s : Slot) (there : c.heap a ≡ some s) (last : s.users ≡ 1)
    (idle : holder s.locked < s.users) (bare : s.cached ≡ none) where
  abbrev pub dropped : Cache
  dropped = record c {
    heap = update c.heap a (record s { users = s.users - 1 });
    slots = remove s.key c.slots;
  }

  dropped-registered :
      (k : Text) (b : ℕ)
      → lookup k dropped.slots ≡ some b
      → (u : Slot) × (dropped.heap b ≡ some u)
        × (u.key ≡ k)
        × ((0 < u.users) ⊎ ((session : Text) × (u.cached ≡ some session)))
  dropped-registered k b h = elim (Bool-cases (s.key === k)) [
    | inl same ↦ absurd (ground (arith, lookup-remove s.key k c.slots))
    | inr other ↦
        let (u, at, named, live) =
          v.registered k b (ground (arith, lookup-remove s.key k c.slots)) in
        (u, ground (arith, ==_iff a b, ===_iff s.key k), named, live)
  ]

  pub dropped-Inv : Inv dropped
  dropped-Inv = record {
    registered = dropped-registered;
    shared = λ b u h k. ground (
      arith,
      v.shared a s there,
      v.shared b u,
      ==_iff a b,
      lookup-remove s.key u.key c.slots,
      ===_iff s.key u.key,
    );
    found = λ b u session h k. ground (
      arith,
      v.shared a s there,
      v.found b u session,
      ==_iff a b,
      lookup-remove s.key u.key c.slots,
      ===_iff s.key u.key,
    );
    held = λ b u h. ground (arith, v.held b u, ==_iff a b);
    fresh = λ b h. ground (arith, v.fresh b h, ==_iff a b);
  }

-- A task that leaves others behind, or a session, leaves the slot where it is.
module _ (c : Cache) (v : Inv c) (a : ℕ) (s : Slot) (there : c.heap a ≡ some s)
    (idle : holder s.locked < s.users)
    (live : (0 < s.users - 1) ⊎ ((session : Text) × (s.cached ≡ some session))) where
  abbrev pub thinner : Cache
  thinner = record c { heap = update c.heap a (record s { users = s.users - 1 }) }

  thinner-registered :
      (k : Text) (b : ℕ)
      → lookup k c.slots ≡ some b
      → (u : Slot) × (thinner.heap b ≡ some u)
        × (u.key ≡ k)
        × ((0 < u.users) ⊎ ((session : Text) × (u.cached ≡ some session)))
  thinner-registered k b h = elim (Bool-cases (a == b)) [
    | inl same ↦ (
      record s { users = s.users - 1 },
      rw same,
      ground (arith, v.registered k b h, ==_iff a b),
      live,
    )
    | inr apart ↦ let (u, at, named, used) = v.registered k b h in (u, rw apart at, named, used)
  ]

  pub thinner-Inv : Inv thinner
  thinner-Inv = record {
    registered = thinner-registered;
    shared = λ b u h k. ground (arith, v.shared a s there, v.shared b u, ==_iff a b);
    found = λ b u session h k. ground (arith, v.shared a s there, v.found b u session, ==_iff a b);
    held = λ b u h. ground (arith, v.held b u, ==_iff a b);
    fresh = λ b h. ground (arith, v.fresh b h, ==_iff a b);
  }
