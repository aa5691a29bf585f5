-- ===== src/Json/Bytes.antt =====
-- The number of bytes of `json.dumps(value, ensure_ascii=False).encode("utf-8")`; `none` where the
-- encoding raises, at a lone surrogate.
use henry.Prelude.{
  ℕ, ◌+◌, Bool, true, false, ◌&&◌, ◌||◌, Option, none, some, [], ◌∷◌, length, ltb, leb, ◌==◌,
  if◌then◌else◌,
}
use henry.Text.{Text, decimal_int}
use henry.Json.{
  Json, Items, Fields, null, boolean, integer, float, str, arr, obj, nil, cons, done, field,
}

pub is_surrogate : ℕ → Bool
is_surrogate c = leb 0xd800 c && leb c 0xdfff

-- The length of a character in UTF-8.
unfoldable pub char_bytes : ℕ → ℕ
char_bytes c = if ltb c 0x80 then 1 else if ltb c 0x800 then 2 else if ltb c 0x10000 then 3 else 4

-- The same in a JSON string, where quotes, backslashes and control characters are escaped.
is_short_escape : ℕ → Bool
is_short_escape c =
    (c == 34 || c == 92) || ((c == 8 || c == 9) || (c == 10 || (c == 12 || c == 13)))

unfoldable pub escaped_bytes : ℕ → ℕ
unfolding is_short_escape
escaped_bytes c = if is_short_escape c then 2 else if ltb c 32 then 6 else char_bytes c

-- `len(text.encode("utf-8"))`
unfoldable pub utf8_bytes : Text → Option ℕ
unfolding is_surrogate
utf8_bytes [] = some 0
utf8_bytes (c ∷ t) = elim (utf8_bytes t) [
  | none ↦ none
  | some n ↦ if is_surrogate c then none else some (char_bytes c + n)
]

text_bytes : Text → Option ℕ
text_bytes [] = some 2
text_bytes (c ∷ t) = elim (text_bytes t) [
  | none ↦ none
  | some n ↦ if is_surrogate c then none else some (escaped_bytes c + n)
]

-- Two sizes, and what stands between them.
plus : ℕ → Option ℕ → Option ℕ → Option ℕ
plus k (some m) (some n) = some (m + k + n)
plus k _ _ = none

-- `, ` stands before every item but the first.
mutual
  unfolding text_bytes plus

  json_size : Json → Option ℕ
  json_size null = some 4
  json_size (boolean true) = some 4
  json_size (boolean false) = some 5
  json_size (integer n) = some (length (decimal_int n))
  json_size (float t) = some (length t)
  json_size (str t) = text_bytes t
  json_size (arr xs) = plus 2 (some 0) (items_size xs)
  json_size (obj fs) = plus 2 (some 0) (fields_size fs)

  items_size : Items → Option ℕ
  items_size nil = some 0
  items_size (cons x nil) = json_size x
  items_size (cons x (cons y xs)) = plus 2 (json_size x) (items_size (cons y xs))

  fields_size : Fields → Option ℕ
  fields_size done = some 0
  fields_size (field k v done) = plus 2 (text_bytes k) (json_size v)
  fields_size (field k v (field j w fs)) =
      plus 2 (plus 2 (text_bytes k) (json_size v)) (fields_size (field j w fs))

-- `_json_bytes(value)`
unfoldable pub json_bytes : Json → Option ℕ
unfolding json_size
json_bytes j = json_size j

-- To measure values in a test, unfold this.
unfoldable pub size_ops : Unit {0}
unfolding is_surrogate is_short_escape char_bytes escaped_bytes utf8_bytes text_bytes plus json_size
    json_bytes
size_ops = tt
