-- ===== src/Tools/Tests.antt =====
-- Runs of the models of henry/sandbox/tools.py.
use henry.Prelude.{ℕ, ◌≡◌, refl, true, false, none, some, [], ◌∷◌, arith}
use henry.Text.{Text, codes}
use henry.Dict.{lookup}
use henry.Json.{Json}
use henry.Result.{ok}
use henry.SandboxTypes.{CellResult, stream, error_status}
use henry.Tools.Slots.{Slot, Cache, empty, update, enter_slot, cache_after}
use henry.Tools.Slots.Interleaving.{Reach, here, next, enters, acquires, caches}
use henry.Tools.Slots.Reachable.{one_slot, cached-listed}

abbrev key : Text
key = 7 ∷ codes "run"

abbrev slot : Slot
slot = record { key = key; locked = false; cached = none; users = 1 }

abbrev entered : Cache
entered = enter_slot empty key

abbrev held : Cache
held = record entered { heap = update entered.heap 0 (record slot { locked = true }) }

-- A task has started a session and still holds the slot.
abbrev full_slot : Slot
full_slot = record slot { locked = true; cached = some (codes "c1") }

abbrev full : Cache
full = record held { heap = update held.heap 0 full_slot }

full-Reach : Reach empty full
unfolding enter_slot lookup cache_after
full-Reach =
    next (next (next here (enters key)) (acquires 0 slot refl refl (omega arith)))
      (caches 0 (record slot { locked = true }) (ok (codes "c1")) refl refl)

one_slot_example : ◌≡◌ {A = ℕ} 0 0
unfolding enter_slot lookup
one_slot_example =
    one_slot full 0 0 full_slot full_slot full-Reach refl refl (omega arith) (omega arith) refl

cached-listed_example : lookup key full.slots ≡ some 0
unfolding enter_slot lookup
cached-listed_example = cached-listed full 0 full_slot (codes "c1") full-Reach refl refl

abbrev show : Json → Text
show v = codes "{}"

-- A cell that printed and then failed, whose error output was lost.
abbrev failed_cell : CellResult
failed_cell = record {
  status = error_status;
  outputs = stream (codes "stdout") (codes "hi") ∷ [];
  execution_count = 1;
  timed_out = false;
  truncated = true;
  session_invalidated = true;
}
