-- ===== src/Text/Words.antt =====
-- White space in Python's `str`: `isspace`, `split()` and `strip()`, and `replace`.
use henry.Prelude.{
  ℕ, zero, suc, ◌-◌, Bool, ◌&&◌, ◌||◌, List, [], ◌∷◌, ◌++◌, leb, ◌==◌, if◌then◌else◌, length,
}
use henry.Text.{Text, ◌===◌, starts_with}

unfoldable pub is_space : ℕ → Bool
is_space c =
    (leb 9 c && leb c 13)
    || ((leb 28 c && leb c 32)
        || (c == 133
            || (c == 160
                || (c == 5760
                    || ((leb 8192 c && leb c 8202)
                        || (c == 8232
                            || (c == 8233 || (c == 8239 || (c == 8287 || c == 12288)))))))))

-- `t.split()`: the words, given the word that is open.
unfoldable pub words : Text → Text → List Text
words [] [] = []
words (c ∷ word) [] = (c ∷ word) ∷ []
words word (d ∷ t) =
    let rest = words [] t in
    let more = words (word ++ d ∷ []) t in
    if is_space d then (if word === [] then rest else word ∷ rest) else more

lstrip : Text → Text
lstrip [] = []
lstrip (c ∷ t) = let rest = lstrip t in if is_space c then rest else c ∷ t

rstrip : Text → Text
rstrip [] = []
rstrip (c ∷ t) = let rest = rstrip t in if rest === [] && is_space c then [] else c ∷ rest

-- `t.strip()`
unfoldable pub strip : Text → Text
unfolding lstrip rstrip
strip t = rstrip (lstrip t)

-- The number counts the characters of a match that are still to be dropped.
replace_from : Text → Text → ℕ → Text → Text
replace_from old new k [] = []
replace_from old new (suc k) (c ∷ t) = replace_from old new k t
replace_from old new zero (c ∷ t) =
    let rest = c ∷ replace_from old new zero t in
    let cut = new ++ replace_from old new (length old - 1) t in
    if starts_with old (c ∷ t) then cut else rest

-- `t.replace(old, new)`, for an `old` that is not empty.
unfoldable pub replace : Text → Text → Text → Text
unfolding replace_from
replace old new t = replace_from old new 0 t
