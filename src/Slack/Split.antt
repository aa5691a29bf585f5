-- ===== src/Slack/Split.antt =====
-- split_for_slack of henry/slack/context.py: a long reply in messages of bounded size.
pub mod Laws
pub mod Overlong
use henry.Prelude.{
  ℕ, zero, suc, ◌+◌, ◌≤◌, ◌<◌, min, Option, none, some, List, [], ◌∷◌, slice, length, ltb, ◌==◌,
  if◌then◌else◌, ◌-◌,
}
use mathlib.Core.Option
use henry.Text.{Text, codes, ◌===◌}
use henry.Result.{Result, ok, err, value_error}

abbrev pub newline : ℕ
newline = 10

abbrev pub default_slack_chunk_limit : ℕ
default_slack_chunk_limit = 3900

-- The last index of a character in a text.
last_index : ℕ → Text → Option ℕ
last_index c [] = none
last_index c (d ∷ t) = elim (last_index c t) [
  | some i ↦ some (suc i)
  | none ↦ if c == d then some 0 else none
]

-- `text.rfind(chr(c), start, stop)`, with `none` for -1
rfind : ℕ → Text → ℕ → ℕ → Option ℕ
rfind c text start stop = Option.map (λ i. start + i) (last_index c (slice text start stop))

-- Where the chunk that begins at `start` ends.
break_at : ℕ → ℕ → Option ℕ → ℕ
break_at start stop none = stop
break_at start stop (some newline_at) = if ltb start newline_at then newline_at + 1 else stop

chunk_end : ℕ → Text → ℕ → ℕ
unfolding break_at rfind
chunk_end limit text start =
    let stop = min (start + limit) (length text) in
    if ltb stop (length text)
    then break_at start stop (rfind newline text start (stop + 1))
    else stop

-- `while start < len(text)`, on fuel
pub chunks_from : ℕ → ℕ → Text → ℕ → List Text
chunks_from zero limit text start = []
chunks_from (suc fuel) limit text start =
    let stop = chunk_end limit text start in
    let rest = slice text start stop ∷ chunks_from fuel limit text stop in
    if ltb start (length text) then rest else []

unfoldable pub split_for_slack : ℕ → Text → Result (List Text)
unfolding chunks_from chunk_end last_index
split_for_slack limit text =
    if ltb limit 1
    then err (value_error (codes "limit must be positive"))
    else if text === []
    then ok ([] ∷ [])
    else ok (chunks_from (length text) limit text 0)
