-- ===== src/Memory/Recall.antt =====
-- PostgresMemory.recall and _score of henry/memory/postgres.py.
pub mod Ranked
use henry.Prelude.{
  ℕ, zero, suc, ◌+◌, ◌-◌, Bool, true, false, not, List, [], ◌∷◌, ◌++◌, map, keep_if, length, take,
  ltb, if◌then◌else◌, some,
}
use henry.Prelude.Int.{ℤ, pos, negsuc}
use henry.Text.{Text, codes, ◌===◌, starts_with, join}
use henry.Text.Words.{words}
use henry.Json.{Json, Fields, done, field, py_str}
use henry.Memory.Items.{MemoryRow, MemoryItem, MemoryTable, to_memory_item}

-- `t.count(term)` for a term that is not empty: the matches that do not overlap.
count_from : Text → ℕ → Text → ℕ
count_from term k [] = 0
count_from term (suc k) (c ∷ t) = count_from term k t
count_from term zero (c ∷ t) =
    let more = suc (count_from term (length term - 1) t) in
    let rest = count_from term zero t in if starts_with term (c ∷ t) then more else rest

metadata_texts : (Json → Text) → Fields → List Text
metadata_texts show done = []
metadata_texts show (field k v fs) = py_str show v ∷ metadata_texts show fs

sum_counts : Text → List Text → ℕ
unfolding count_from
sum_counts haystack [] = 0
sum_counts haystack (term ∷ terms) = count_from term 0 haystack + sum_counts haystack terms

module _ (show : Json → Text) (lower : Text → Text) where
  haystack : MemoryRow → Text
  unfolding metadata_texts
  haystack row = lower (
      join (codes " ") (
        row.path
        ∷ row.kind
        ∷ row.content
        ∷ join (codes " ") (metadata_texts show row.item_metadata)
        ∷ []))

  unfoldable pub score : MemoryRow → List Text → ℕ
  unfolding haystack sum_counts
  score row [] = 1
  score row (term ∷ terms) = sum_counts (haystack row) (term ∷ terms)

  scored : List Text → List MemoryRow → List (ℕ × MemoryRow)
  scored terms rows = map (λ row. (score row terms, row)) rows

  -- `if terms:` only rows with a match are kept.
  matching : List Text → List (ℕ × MemoryRow) → List (ℕ × MemoryRow)
  matching [] rows = rows
  matching (term ∷ terms) rows = keep_if (λ (r : ℕ × MemoryRow). ltb 0 r.0) rows

  -- The sort by score, highest first; what ties stays in order.
  insert_ranked : ℕ × MemoryRow → List (ℕ × MemoryRow) → List (ℕ × MemoryRow)
  insert_ranked r [] = r ∷ []
  insert_ranked r (s ∷ rows) =
      let rest = insert_ranked r rows in if ltb r.0 s.0 then s ∷ rest else r ∷ s ∷ rows

  rank : List (ℕ × MemoryRow) → List (ℕ × MemoryRow)
  unfolding insert_ranked
  rank [] = []
  rank (r ∷ rows) = insert_ranked r (rank rows)

  -- `max(k, 0)`
  pub at_most : ℤ → ℕ
  at_most (pos k) = k
  at_most (negsuc k) = 0

  -- The rows of the channel, latest update first.
  unfoldable pub recall :
      (MemoryTable → List MemoryRow) → MemoryTable → Text → Text → ℤ → List MemoryItem
  unfolding scored matching rank at_most
  recall order_by table channel_id query k =
      let terms = words [] (lower query) in
      map (λ (r : ℕ × MemoryRow). to_memory_item r.1 (some r.0))
        (take (at_most k) (
          rank (
            matching terms
              (scored terms (order_by (keep_if (λ row. row.channel_id === channel_id) table))))))
