-- ===== src/Tools/Slots.antt =====
-- The session cache of henry/sandbox/tools.py: `_session_slots`, `_locked_slot`, `_session_for`,
-- `_forget_session` and `clear_sandbox_session`. A slot is an object, since a task that waits for
-- its lock still holds it when the registry has dropped it.
pub mod Interleaving
pub mod Reachable
use henry.Prelude.{
  ℕ, suc, ◌+◌, ◌-◌, Bool, true, false, ◌&&◌, Option, none, some, List, [], ◌∷◌, ◌==◌, if◌then◌else◌,
}
use henry.Text.{Text, codes, ◌===◌}
use henry.Dict.{Dict, lookup, insert, remove}
use henry.Result.{Result, ok, err, value_error}

-- `_SessionSlot`, with the key that it was made for. `cached` is the session of `_CachedSession`,
-- whose sandbox is the one of the key.
pub record Slot : Type 0 where
  pub key : Text
  pub locked : Bool
  pub cached : Option Text
  pub users : ℕ

pub record Cache : Type 0 where
  pub slots : Dict ℕ
  pub heap : ℕ → Option Slot
  pub next : ℕ

abbrev pub empty : Cache
empty = record { slots = []; heap = λ a. none; next = 0 }

abbrev pub update : (ℕ → Option Slot) → ℕ → Slot → ℕ → Option Slot
update heap a s b = if a == b then some s else heap b

-- `_session_key`: the identity of the sandbox and the run id.
unfoldable pub session_key : ℕ → Text → Text
session_key sandbox run_id = sandbox ∷ run_id

-- The first block of `_locked_slot`: `setdefault`, then one more user.
join_slot : Cache → ℕ → Option Slot → Cache
join_slot c a none = c
join_slot c a (some s) = record c { heap = update c.heap a (record s { users = s.users + 1 }) }

unfoldable pub enter_slot : Cache → Text → Cache
unfolding join_slot
enter_slot c key = elim (lookup key c.slots) [
  | some a ↦ join_slot c a (c.heap a)
  | none ↦ record {
    slots = insert key c.next c.slots;
    heap = update c.heap c.next (record { key = key; locked = false; cached = none; users = 1 });
    next = suc c.next;
  }
]

is_none : Option Text → Bool
is_none none = true
is_none (some s) = false

is_slot : ℕ → Option ℕ → Bool
is_slot a none = false
is_slot a (some b) = b == a

-- The last block of `_locked_slot`, behind the release of the lock, for the slot `s` of number `a`.
unfoldable pub leave_slot : Cache → ℕ → Slot → Cache
unfolding is_none is_slot
leave_slot c a s = record c {
  heap = update c.heap a (record s { users = s.users - 1 });
  slots =
      if (s.users - 1 == 0) && (is_none s.cached && is_slot a (lookup s.key c.slots))
      then remove s.key c.slots
      else c.slots;
}

-- What is done to `slot.cached` under the slot's lock.
-- `_forget_session`: only the session that failed is dropped.
unfoldable pub forget_cached : Text → Option Text → Option Text
forget_cached session none = none
forget_cached session (some cached) = if cached === session then none else some cached

-- `_session_for`: the cached session, or the one that `start` returns.
unfoldable pub session_cached : Option Text → Result Text → Result Text
session_cached (some session) started = ok session
session_cached none started = started

keep_started : Option Text → Result Text → Option Text
keep_started cached (ok session) = some session
keep_started cached (err e) = cached

unfoldable pub cache_after : Option Text → Result Text → Option Text
unfolding keep_started session_cached
cache_after cached started = keep_started cached (session_cached cached started)
