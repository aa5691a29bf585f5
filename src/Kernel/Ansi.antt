-- ===== src/Kernel/Ansi.antt =====
-- `_strip_ansi` and `_cap_utf8` of henry/sandbox/kernel_protocol.py.
use henry.Prelude.{
  ℕ, zero, suc, ◌-◌, Bool, true, false, ◌&&◌, ◌||◌, Option, none, some, [], ◌∷◌, length, leb, ◌==◌,
  if◌then◌else◌,
}
use henry.Text.{Text, codes}
use henry.Json.Bytes.{char_bytes, utf8_bytes}
use henry.Result.{Result, ok, err, value_error}

is_parameter : ℕ → Bool
is_parameter c = (leb b'0' c && leb c b'9') || c == b';'

is_letter : ℕ → Bool
is_letter c = (leb b'A' c && leb c b'Z') || (leb b'a' c && leb c b'z')

-- What is left behind `[0-9;]*[A-Za-z]`, if the text begins with it.
ansi_tail : Text → Option Text
ansi_tail [] = none
ansi_tail (c ∷ t) =
    let rest = ansi_tail t in if is_letter c then some t else if is_parameter c then rest else none

-- What is left behind `\x1b\[[0-9;]*[A-Za-z]`.
ansi_match : Text → Option Text
ansi_match (c ∷ d ∷ t) = if (c == 27) && (d == b'[') then ansi_tail t else none
ansi_match _ = none

-- `_ANSI.sub("", text)`; every round goes past a character, so the length is fuel enough.
strip_from : ℕ → Text → Text
strip_from zero t = t
strip_from (suc fuel) [] = []
strip_from (suc fuel) (c ∷ t) = elim (ansi_match (c ∷ t)) [
  | some rest ↦ strip_from fuel rest
  | none ↦ c ∷ strip_from fuel t
]

unfoldable pub strip_ansi : Text → Text
unfolding strip_from ansi_match ansi_tail is_letter is_parameter
strip_ansi t = strip_from (length t) t

-- The longest start of a text that fits in `limit` bytes: a character that is cut is dropped.
pub take_bytes : ℕ → Text → Text
take_bytes limit [] = []
take_bytes limit (c ∷ t) =
    let rest = take_bytes (limit - char_bytes c) t in
    if leb (char_bytes c) limit then c ∷ rest else []

unfoldable pub cap_utf8 : Text → ℕ → Result (Text × Bool)
unfolding take_bytes
cap_utf8 t limit = elim (utf8_bytes t) [
  | none ↦ err (value_error (codes "surrogates not allowed"))
  | some n ↦ ok (if leb n limit then (t, false) else (take_bytes limit t, true))
]
