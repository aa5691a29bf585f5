-- ===== src/Orchestrator/Locks/Exclusive.antt =====
-- Requests of one thread do not overlap, in any order of the tasks' steps.
use henry.Prelude.{ℕ, ◌≡◌, ◌≢◌, inl, inr, none, some, ==_iff, arith, Option-cases}
use henry.Text.{Text, ===_iff}
use henry.Dict.{lookup, lookup-insert}
use henry.Orchestrator.Locks.{ThreadLocks, no_locks, lock_at, get_lock, ask, enter, leave, give_up}

pub data Step (w : ThreadLocks) : ThreadLocks → Type 0 where
  asks : (t : ℕ) (key : Text) → w.asked t ≡ none → Step w (ask w t key)
  enters :
      (t : ℕ) (key : Text) (a : ℕ)
      → w.asked t ≡ some (key, a)
      → w.locks a ≡ some none
      → Step w (enter w t a)
  leaves :
      (t : ℕ) (key : Text) (a : ℕ)
      → w.asked t ≡ some (key, a)
      → w.locks a ≡ some (some t)
      → Step w (leave w t a)
  gives_up : (t : ℕ) → ((a : ℕ) → w.locks a ≢ some (some t)) → Step w (give_up w t)

pub data Reach (w : ThreadLocks) : ThreadLocks → Type 0 where
  here : Reach w w
  next : {w' w'' : ThreadLocks} → Reach w w' → Step w' w'' → Reach w w''

-- A task is inside the block of a key: it holds the lock that it asked for under the key.
pub record Inside (w : ThreadLocks) (t : ℕ) (key : Text) : Type 0 where
  pub lock : ℕ
  pub got : w.asked t ≡ some (key, lock)
  pub holds : w.locks lock ≡ some (some t)

-- What a task has got is what the registry still has.
record Inv (w : ThreadLocks) : Type 0 where
  current :
      (t : ℕ) (key : Text) (a : ℕ) → w.asked t ≡ some (key, a) → lookup key w.registry ≡ some a

ask-Inv : (w : ThreadLocks) (t : ℕ) (key : Text) → Inv w → w.asked t ≡ none → Inv (ask w t key)
unfolding ask get_lock lock_at
ask-Inv w t key v h = elim (Option-cases (lookup key w.registry)) [
  | inr (a, e) ↦
      rw e (record { current = λ u k b q. ground (arith, e, q, v.current u k b, ==_iff t u) })
  | inl e ↦ rw e (record {
    current = λ u k b q. ground (
      arith,
      e,
      q,
      v.current u k b,
      ==_iff t u,
      lookup-insert key k w.next w.registry,
      ===_iff key k,
    );
  })
]

Step-Inv : {w w' : ThreadLocks} → Step w w' → Inv w → Inv w'
unfolding enter leave give_up
Step-Inv {w} (asks t key h) v = ask-Inv w t key v h
Step-Inv (enters t key a h free) v = record { current = v.current }
Step-Inv {w} (leaves t key a h held) v = record {
  current = λ u k b q. ground (arith, v.current u k b, ==_iff t u);
}
Step-Inv {w} (gives_up t h) v = record {
  current = λ u k b q. ground (arith, v.current u k b, ==_iff t u);
}

Reach-current : (w : ThreadLocks) → Reach no_locks w → Inv w
Reach-current w here = record { current = λ t key a h. absurd (cc) }
Reach-current w (next r st) = Step-Inv st (Reach-current _ r)

-- In every order of the tasks' steps, two tasks that are inside the block of one thread are the same
-- task, although a task may wait for a lock that it asked for long ago.
pub mutual_exclusion :
    (w : ThreadLocks) (t u : ℕ) (key : Text)
    → Reach no_locks w
    → Inside w t key
    → Inside w u key
    → t ≡ u
mutual_exclusion w t u key r i j =
    let v = Reach-current w r in
    let same : i.lock ≡ j.lock = cc (v.current t key i.lock i.got, v.current u key j.lock j.got) in
    cc (i.holds, j.holds, same)
