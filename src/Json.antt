-- ===== src/Json.antt =====
-- JSON values as `json.loads` returns them, and what the program asks of them. A float is kept by
-- its text, since no code looks inside one.
pub mod Bytes
use henry.Prelude.{
  ℕ, zero, ◌≡◌, refl, Bool, true, false, not, ◌||◌, List, [], ◌∷◌, ◌++◌, Option, none, some, arith,
  if◌then◌else◌,
}
use henry.Prelude.Int.{ℤ, pos}
use henry.Text.{Text, codes, ◌===◌, ===_iff}

mutual
  pub data Json : Type 0 where
    null : Json
    boolean : Bool → Json
    integer : ℤ → Json
    float : Text → Json
    str : Text → Json
    arr : Items → Json
    obj : Fields → Json

  pub data Items : Type 0 where
    nil : Items
    cons : Json → Items → Items

  pub data Fields : Type 0 where
    done : Fields
    field : Text → Json → Fields → Fields

-- `d.get(key)`, with `null` for a key that is not there.
unfoldable pub get : Text → Fields → Json
get k done = null
get k (field j v fs) = let rest = get k fs in if j === k then v else rest

-- `key in d`
unfoldable pub has_key : Text → Fields → Bool
has_key k done = false
has_key k (field j v fs) = let rest = has_key k fs in if j === k then true else rest

-- `d[key] = value`: a key that is there keeps its place.
unfoldable pub put : Text → Json → Fields → Fields
put k v done = field k v done
put k v (field j w fs) = let rest = put k v fs in if j === k then field j v fs else field j w rest

pub get-put :
    (k j : Text) (v : Json) (fs : Fields) → get j (put k v fs) ≡ (if k === j then v else get j fs)
unfolding get put
get-put k j v done = refl
get-put k j v (field i w fs) =
    ground (arith, ===_iff k j, ===_iff i k, ===_iff i j, get-put k j v fs)

-- `bool(value)`
unfoldable pub truthy : Json → Bool
truthy null = false
truthy (boolean b) = b
truthy (integer (pos zero)) = false
truthy (integer n) = true
truthy (float t) = not (t === codes "0.0" || t === codes "-0.0")
truthy (str []) = false
truthy (str (c ∷ t)) = true
truthy (arr nil) = false
truthy (arr (cons x xs)) = true
truthy (obj done) = false
truthy (obj (field k v fs)) = true

-- `d.get(key, default)`
unfoldable pub get_default : Text → Json → Fields → Json
get_default k d done = d
get_default k d (field j v fs) = let rest = get_default k d fs in if j === k then v else rest

-- `str(value)`, given what it makes of a value that is no text.
unfoldable pub py_str : (Json → Text) → Json → Text
py_str show (str t) = t
py_str show v = show v

unfoldable pub to_items : List Json → Items
to_items [] = nil
to_items (j ∷ js) = cons j (to_items js)

unfoldable pub of_items : Items → List Json
of_items nil = []
of_items (cons j js) = j ∷ of_items js

unfoldable pub keys : Fields → List Text
keys done = []
keys (field k v fs) = k ∷ keys fs

-- `value == text`
unfoldable pub equals_text : Json → Text → Bool
equals_text (str s) t = s === t
equals_text v t = false
