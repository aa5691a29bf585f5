-- ===== src/Memory/Recall/Ranked.antt =====
-- The order and the number of the items that are recalled.
use henry.Prelude.{
  ℕ, zero, suc, ◌≤◌, ◌≡◌, refl, inl, inr, List, [], ◌∷◌, map, keep_if, length, take, length-take,
  ltb, ltb→lt, ltb-false→le, some, none, All, arith, Bool-cases,
}
use henry.Prelude.Int.{ℤ}
use henry.Text.{Text, ◌===◌}
use henry.Text.Words.{words}
use henry.Json.{Json}
use henry.Memory.Items.{MemoryRow, MemoryItem, MemoryTable, to_memory_item}
use henry.Memory.Recall.{scored, matching, insert_ranked, rank, at_most, recall}

abbrev Scored : Type 0
Scored = ℕ × MemoryRow

-- The scores do not rise along the list.
abbrev Falling : List Scored → Type 0
Falling [] = Unit
Falling (r ∷ rows) = All (λ s. s.0 ≤ r.0) rows × Falling rows

below_trans :
    (m n : ℕ) (rows : List Scored) → m ≤ n → All (λ s. s.0 ≤ m) rows → All (λ s. s.0 ≤ n) rows
below_trans m n [] p h = tt
below_trans m n (r ∷ rows) p (h, hs) = (omega arith, below_trans m n rows p hs)

module _ (show : Json → Text) (lower : Text → Text) where
  below-insert_ranked :
      (n : ℕ) (r : Scored) (rows : List Scored)
      → r.0 ≤ n
      → All (λ s. s.0 ≤ n) rows
      → All (λ s. s.0 ≤ n) (insert_ranked show lower r rows)
  unfolding insert_ranked
  below-insert_ranked n r [] p h = (p, tt)
  below-insert_ranked n r (s ∷ rows) p (h, hs) = elim (Bool-cases (ltb r.0 s.0)) [
    | inl e ↦ rw e (h, below-insert_ranked n r rows p hs)
    | inr e ↦ rw e (p, (h, hs))
  ]

  insert_ranked-Falling :
      (r : Scored) (rows : List Scored) → Falling rows → Falling (insert_ranked show lower r rows)
  unfolding insert_ranked
  insert_ranked-Falling r [] v = (tt, tt)
  insert_ranked-Falling r (s ∷ rows) (h, v) = elim (Bool-cases (ltb r.0 s.0)) [
    | inl e ↦ rw e (
      below-insert_ranked s.0 r rows (omega (arith, ltb→lt r.0 s.0 e)) h,
      insert_ranked-Falling r rows v,
    )
    | inr e ↦
        rw e ((ltb-false→le r.0 s.0 e, below_trans s.0 r.0 rows (ltb-false→le r.0 s.0 e) h), (h, v))
  ]

  rank-Falling : (rows : List Scored) → Falling (rank show lower rows)
  unfolding rank
  rank-Falling [] = tt
  rank-Falling (r ∷ rows) = insert_ranked-Falling r (rank show lower rows) (rank-Falling rows)

  below-take :
      (n k : ℕ) (rows : List Scored) → All (λ s. s.0 ≤ n) rows → All (λ s. s.0 ≤ n) (take k rows)
  below-take n zero rows h = tt
  below-take n (suc k) [] h = tt
  below-take n (suc k) (r ∷ rows) (h, hs) = (h, below-take n k rows hs)

  take-Falling : (k : ℕ) (rows : List Scored) → Falling rows → Falling (take k rows)
  take-Falling zero rows v = tt
  take-Falling (suc k) [] v = tt
  take-Falling (suc k) (r ∷ rows) (h, v) = (below-take r.0 k rows h, take-Falling k rows v)

  -- The score of an item.
  abbrev pub value : MemoryItem → ℕ
  value item = elim item.score [ none ↦ 0 | some n ↦ n ]

  abbrev pub ScoresFall : List MemoryItem → Type 0
  ScoresFall [] = Unit
  ScoresFall (i ∷ items) = All (λ j. value j ≤ value i) items × ScoresFall items

  abbrev items_of : List Scored → List MemoryItem
  items_of rows = map (λ (r : Scored). to_memory_item r.1 (some r.0)) rows

  items-below :
      (n : ℕ) (rows : List Scored)
      → All (λ s. s.0 ≤ n) rows
      → All (λ j. value j ≤ n) (items_of rows)
  unfolding to_memory_item
  items-below n [] h = tt
  items-below n (r ∷ rows) (h, hs) = (h, items-below n rows hs)

  items-ScoresFall : (rows : List Scored) → Falling rows → ScoresFall (items_of rows)
  unfolding to_memory_item
  items-ScoresFall [] v = tt
  items-ScoresFall (r ∷ rows) (h, v) = (items-below r.0 rows h, items-ScoresFall rows v)

  length-items : (rows : List Scored) → length (items_of rows) ≡ length rows
  length-items [] = refl
  length-items (r ∷ rows) = omega (arith, length-items rows)

  -- What is recalled comes with the best score first, and there are at most `k` items, none for a
  -- `k` below one.
  pub recall-ScoresFall :
      (order_by : MemoryTable → List MemoryRow) (table : MemoryTable) (channel_id query : Text)
      (k : ℤ)
      → let items = recall show lower order_by table channel_id query k in
        ScoresFall items × (length items ≤ at_most show lower k)
  unfolding recall
  recall-ScoresFall order_by table channel_id query k =
      let rows = matching show lower (words [] (lower query)) (
        scored show lower (words [] (lower query))
          (order_by (keep_if (λ row. row.channel_id === channel_id) table))) in
      let kept = take (at_most show lower k) (rank show lower rows) in
      (
        items-ScoresFall kept
            (take-Falling (at_most show lower k) (rank show lower rows) (rank-Falling rows)),
        omega (arith, length-items kept, length-take (at_most show lower k) (rank show lower rows)),
      )
