-- ===== src/Tools/Slots/Reachable.antt =====
-- What holds of the session cache after any steps of any tasks.
use henry.Prelude.{
  ℕ, ◌+◌, ◌-◌, ◌<◌, ◌≡◌, refl, ap, subst, ◌∙◌, ◌⊎◌, inl, inr, Bool, true, false, Option, none, some,
  arith, ◌==◌, ==_iff, Bool-cases, Option-cases,
}
use henry.Text.{Text}
use henry.Dict.{lookup, remove}
use henry.Tools.Slots.{Slot, Cache, empty, update, enter_slot, leave_slot}
use henry.Tools.Slots.Interleaving.{
  Step, enters, acquires, caches, forgets, clears, releases, leaves, Reach, here, next, Inv,
  Inv-empty, holder, change-Inv, grown-Inv, dropped-Inv, thinner-Inv,
}

enter-Inv : (c : Cache) (key : Text) → Inv c → Inv (enter_slot c key)
unfolding enter_slot
enter-Inv c key v = elim (Option-cases (lookup key c.slots)) [
  | inl new ↦ rw (new, enter_slot) (grown-Inv c v key new)
  | inr (a, listed) ↦
      let (s, there, named, live) = v.registered key a listed in
      rw (listed, enter_slot, there)
        (change-Inv c v a s (record s { users = s.users + 1 }) there refl
          (ap (λ k. lookup k c.slots) named ∙ listed) (omega arith)
          (omega (arith, v.held a s there)))
]

module _ (c : Cache) (v : Inv c) (a : ℕ) (s : Slot) (there : c.heap a ≡ some s)
    (idle : holder s.locked < s.users) where
  abbrev without_slot : Cache
  without_slot = record c {
    heap = update c.heap a (record s { users = s.users - 1 });
    slots = remove s.key c.slots;
  }

  abbrev with_slot : Cache
  with_slot = record c { heap = update c.heap a (record s { users = s.users - 1 }) }

  leave-Inv : Inv (leave_slot c a s)
  leave-Inv = elim (Option-cases s.cached) [
    | inl bare ↦ elim (Bool-cases (s.users - 1 == 0)) [
      | inl last ↦
          let e : without_slot ≡ leave_slot c a s =
            unfold leave_slot in ground (arith, v.shared a s there, ==_iff a a) in
          subst Inv e (dropped-Inv c v a s there (ground arith) idle bare)
      | inr others ↦
          let e : with_slot ≡ leave_slot c a s = unfold leave_slot in rw others in
          subst Inv e (thinner-Inv c v a s there idle (inl (ground arith)))
    ]
    | inr (session, full) ↦
        let e : with_slot ≡ leave_slot c a s = unfold leave_slot in ground arith in
        subst Inv e (thinner-Inv c v a s there idle (inr (session, full)))
  ]

-- A change of the cached session or of the lock, by the task that holds the lock or takes it.
module _ (c : Cache) (v : Inv c) (a : ℕ) (s : Slot) (there : c.heap a ≡ some s)
    (used : 0 < s.users) where
  recache-Inv :
      (cached : Option Text)
      → Inv (record c { heap = update c.heap a (record s { cached = cached }) })
  recache-Inv cached =
      change-Inv c v a s (record s { cached = cached }) there refl (v.shared a s there used) used
        (v.held a s there)

  relock-Inv :
      (locked : Bool) → Inv (record c { heap = update c.heap a (record s { locked = locked }) })
  relock-Inv locked =
      change-Inv c v a s (record s { locked = locked }) there refl (v.shared a s there used) used
        (ground arith)

in_use :
    (c : Cache) → Inv c → (a : ℕ) (s : Slot) → c.heap a ≡ some s → s.locked ≡ true → 0 < s.users
in_use c v a s there locked = ground (arith, v.held a s there)

Step-Inv : {c c' : Cache} → Step c c' → Inv c → Inv c'
Step-Inv {c} (enters key) v = enter-Inv c key v
Step-Inv {c} (acquires a s there free used) v = relock-Inv c v a s there used true
Step-Inv {c} (caches a s started there locked) v =
    recache-Inv c v a s there (in_use c v a s there locked) _
Step-Inv {c} (forgets a s session there locked) v =
    recache-Inv c v a s there (in_use c v a s there locked) _
Step-Inv {c} (clears a s there locked) v =
    recache-Inv c v a s there (in_use c v a s there locked) none
Step-Inv {c} (releases a s there locked) v =
    relock-Inv c v a s there (in_use c v a s there locked) false
Step-Inv {c} (leaves a s there idle) v = leave-Inv c v a s there idle

-- Every order of the steps keeps the invariant.
pub Reach-Inv : (c : Cache) → Reach empty c → Inv c
Reach-Inv c here = Inv-empty
Reach-Inv c (next r st) = Step-Inv st (Reach-Inv _ r)

-- In every order of the tasks' steps, two slots that are in use under one key are the same slot, so
-- the tasks of one run always share one lock.
pub one_slot :
    (c : Cache) (a b : ℕ) (s t : Slot)
    → Reach empty c
    → c.heap a ≡ some s
    → c.heap b ≡ some t
    → 0 < s.users
    → 0 < t.users
    → s.key ≡ t.key
    → a ≡ b
one_slot c a b s t r p q u w e =
    let v = Reach-Inv c r in ground (arith, v.shared a s p u, v.shared b t q w)

-- In every order of the tasks' steps, a session that some slot still caches is found through the
-- registry under the slot's key: the cleanup at the end of the run cannot miss it.
pub cached-listed :
    (c : Cache) (a : ℕ) (s : Slot) (session : Text)
    → Reach empty c
    → c.heap a ≡ some s
    → s.cached ≡ some session
    → lookup s.key c.slots ≡ some a
cached-listed c a s session r there cached = (Reach-Inv c r).found a s session there cached

-- In every order of the tasks' steps, a key that is registered has a slot that some task uses or
-- that caches a session: slots of finished runs do not pile up.
pub listed-live :
    (c : Cache) (key : Text) (a : ℕ)
    → Reach empty c
    → lookup key c.slots ≡ some a
    → (s : Slot) × (c.heap a ≡ some s)
      × ((0 < s.users) ⊎ ((session : Text) × (s.cached ≡ some session)))
listed-live c key a r listed =
    let (s, there, named, live) = (Reach-Inv c r).registered key a listed in (s, there, live)
