-- ===== src/Slack/Split/Overlong.antt =====
-- A chunk of a reply that is longer than the limit.
use henry.Prelude.{
  ℕ, suc, ◌+◌, ◌-◌, ◌≤◌, min, ◌≡◌, refl, ap, ◌∙◌, ◌≢◌, some, List, [], ◌∷◌, ◌++◌, arith, length,
  length-append, take, lt→ltb,
}
use henry.Text.{Text}
use henry.Result.{ok}
use henry.Slack.Split.{
  newline, last_index, rfind, break_at, chunk_end, chunks_from, split_for_slack,
}
use henry.Slack.Split.Laws.{split_for_slack-chunks_from}

last_index-append : (c : ℕ) (t : Text) → last_index c (t ++ c ∷ []) ≡ some (length t)
unfolding last_index
last_index-append c [] = ground arith
last_index-append c (d ∷ t) = rw (last_index-append c t)

take-line :
    (line rest : Text) → take (length line + 1) (line ++ newline ∷ rest) ≡ line ++ newline ∷ []
take-line [] rest = refl
take-line (c ∷ line) rest = rw (towards (length line)) (ap (λ r. c ∷ r) (take-line line rest))
  where
    towards : (n : ℕ) → suc n + 1 ≡ suc (n + 1)
    towards n = omega arith

rfind-line :
    (line rest : Text)
    → rfind newline (line ++ newline ∷ rest) 0 (length line + 1) ≡ some (length line)
unfolding rfind
rfind-line line rest =
    rw (sub_zero (length line + 1), take-line line rest, last_index-append newline line)
      (ap some (omega arith))
  where
    sub_zero : (n : ℕ) → n - 0 ≡ n
    sub_zero n = omega arith

chunk_end-line :
    (limit : ℕ) (line rest : Text)
    → 1 ≤ limit
    → length line ≡ limit
    → rest ≢ []
    → chunk_end limit (line ++ newline ∷ rest) 0 ≡ limit + 1
chunk_end-line limit line [] p e n = absurd (n refl)
chunk_end-line limit line (r ∷ rest) p e n =
    let size : length (line ++ newline ∷ r ∷ rest) ≡ limit + suc (suc (length rest)) =
      omega (arith, length-append line (newline ∷ r ∷ rest)) in
    let stop_eq : min (0 + limit) (length (line ++ newline ∷ r ∷ rest)) ≡ length line =
      omega arith in
    unfold chunk_end break_at in
    rw
      (
        stop_eq,
        lt→ltb (length line) (length (line ++ newline ∷ r ∷ rest)) (omega arith),
        rfind-line line (r ∷ rest),
        lt→ltb 0 (length line) (omega arith),
      )
      (omega arith)

chunks_from-line :
    (limit fuel : ℕ) (line rest : Text)
    → 1 ≤ limit
    → length line ≡ limit
    → rest ≢ []
    → chunks_from (suc fuel) limit (line ++ newline ∷ rest) 0
      ≡ (line ++ newline ∷ []) ∷ chunks_from fuel limit (line ++ newline ∷ rest) (limit + 1)
unfolding chunks_from
chunks_from-line limit fuel line rest p e n = rw (
  lt→ltb 0 (length (line ++ newline ∷ rest)) (omega (arith, length-append line (newline ∷ rest))),
  chunk_end-line limit line rest p e n,
  sub_zero,
  ← e,
  take-line line rest,
)
  where
    sub_zero : limit + 1 - 0 ≡ limit + 1
    sub_zero = omega arith

-- The limit is not kept: a line of exactly `limit` characters whose newline comes next, with more
-- text behind it, makes a first chunk of `limit + 1` characters.
pub split_for_slack_exceeds :
    (limit : ℕ) (line rest : Text)
    → 1 ≤ limit
    → length line ≡ limit
    → rest ≢ []
    → (chunks : List Text) × (split_for_slack limit (line ++ newline ∷ rest)
        ≡ ok ((line ++ newline ∷ []) ∷ chunks))
      × (length (line ++ newline ∷ []) ≡ limit + 1)
split_for_slack_exceeds limit [] rest p e n = absurd (omega arith)
split_for_slack_exceeds limit (c ∷ line) rest p e n = (
  chunks_from (length (line ++ newline ∷ rest)) limit (c ∷ line ++ newline ∷ rest) (limit + 1),
  split_for_slack-chunks_from limit (c ∷ line ++ newline ∷ rest) p (λ q. cc)
      ∙ ap ok (chunks_from-line limit (length (line ++ newline ∷ rest)) (c ∷ line) rest p e n),
  omega (arith, length-append line (newline ∷ [])),
)
