-- ===== src/Config/Merge.antt =====
-- What a merged configuration has under a key.
use henry.Prelude.{◌≡◌, false}
use henry.Text.{Text}
use henry.Json.{Fields, done, field, has_key}

-- A dictionary as Python has it: no key stands twice.
abbrev pub Keyed : Fields → Type 0
Keyed done = Unit
Keyed (field key value fs) = (has_key key fs ≡ false) × Keyed fs
