-- ===== src/Orchestrator/Locks.antt =====
-- ThreadLocks of henry/orchestrator/locks.py. A lock is an object; a task that has asked for the lock
-- of a thread keeps the object that it got while it waits.
pub mod Exclusive
use henry.Prelude.{
  ℕ, suc, Bool, true, false, Option, none, some, List, [], ◌∷◌, ◌++◌, ◌==◌, length, if◌then◌else◌,
  ◌≡◌,
}
use henry.Text.{Text}
use henry.Dict.{Dict, lookup, insert}

-- `locks` are the objects, each with the task that holds it; `asked` is what a task has got from
-- `_get_lock` and not yet given up.
pub record ThreadLocks : Type 0 where
  pub registry : Dict ℕ
  pub locks : ℕ → Option (Option ℕ)
  pub next : ℕ
  pub asked : ℕ → Option (Text × ℕ)

abbrev pub no_locks : ThreadLocks
no_locks = record { registry = []; locks = λ a. none; next = 0; asked = λ t. none }

abbrev pub set {ℓ} : {A : Type ℓ} → (ℕ → Option A) → ℕ → Option A → ℕ → Option A
set f a v b = if a == b then v else f b

-- `(channel_id, thread_ts)` as one text: the length keeps the two apart.
unfoldable pub thread_key : Text → Text → Text
thread_key channel_id thread_ts = length channel_id ∷ (channel_id ++ thread_ts)

-- `_get_lock`, which holds the registry's own lock throughout: the lock of the key, or a new one.
lock_at : ThreadLocks → Text → Option ℕ → ThreadLocks × ℕ
lock_at w key (some a) = (w, a)
lock_at w key none = (
  record w {
    registry = insert key w.next w.registry;
    locks = set w.locks w.next (some none);
    next = suc w.next;
  },
  w.next,
)

unfoldable pub get_lock : ThreadLocks → Text → ThreadLocks × ℕ
unfolding lock_at
get_lock w key = lock_at w key (lookup key w.registry)

-- The steps of `acquire` for a task `t`.
unfoldable pub ask : ThreadLocks → ℕ → Text → ThreadLocks
ask w t key = let (w', a) = get_lock w key in record w' { asked = set w'.asked t (some (key, a)) }

unfoldable pub enter : ThreadLocks → ℕ → ℕ → ThreadLocks
enter w t a = record w { locks = set w.locks a (some (some t)) }

unfoldable pub leave : ThreadLocks → ℕ → ℕ → ThreadLocks
leave w t a = record w { locks = set w.locks a (some none); asked = set w.asked t none }

-- A task that is cancelled while it waits.
unfoldable pub give_up : ThreadLocks → ℕ → ThreadLocks
give_up w t = record w { asked = set w.asked t none }
