-- ===== src/Kernel/Fit.antt =====
-- The binary search of `_fit_text` in henry/sandbox/kernel_protocol.py: the longest start of a text
-- that passes a test.
pub mod Longest
use henry.Prelude.{ℕ, zero, suc, ◌+◌, ◌-◌, ◌/◌, Bool, true, false, take, length, ltb, if◌then◌else◌}
use henry.Text.{Text}

-- `while low < high`, on fuel
search_fit : (Text → Bool) → Text → ℕ → ℕ → ℕ → ℕ
search_fit fits t zero low high = low
search_fit fits t (suc fuel) low high =
    let middle = (low + high + 1) / 2 in
    let next : ℕ = elim (fits (take middle t)) [
      | true ↦ search_fit fits t fuel middle high
      | false ↦ search_fit fits t fuel low (middle - 1)
    ] in
    if ltb low high then next else low

-- `candidate` and `cut` are the text and the mark that the field's own limit left.
unfoldable pub fit_text : (Text → Bool) → Text → Bool → Text × Bool
unfolding search_fit
fit_text fits candidate cut =
    if fits candidate
    then (candidate, cut)
    else (take (search_fit fits candidate (length candidate) 0 (length candidate)) candidate, true)
