-- ===== src/Kernel/Fit/Longest.antt =====
-- What the binary search finds.
use henry.Prelude.{
  [], ◌∷◌, ℕ, zero, suc, ◌+◌, ◌-◌, ◌/◌, ◌≤◌, ◌<◌, ◌≡◌, refl, ap, sym, ◌⊎◌, inl, inr, Bool, true,
  false, arith, take, length, ltb, Bool-cases, ltb→lt, ltb-false→le,
}
use henry.Text.{Text}
use henry.Kernel.Fit.{search_fit, fit_text}

-- If a start of the text passes, so does every shorter one.
abbrev pub IsMonotone : (Text → Bool) → Text → Type 0
IsMonotone fits t = (m n : ℕ) → m ≤ n → fits (take n t) ≡ true → fits (take m t) ≡ true

-- `k` is where the starts cease to pass.
pub record Boundary (fits : Text → Bool) (t : Text) (k : ℕ) : Type 0 where
  pub passes : (k ≡ 0) ⊎ (fits (take k t) ≡ true)
  pub longest : (n : ℕ) → k < n → n ≤ length t → fits (take n t) ≡ false

module _ (fits : Text → Bool) (t : Text) (mono : IsMonotone fits t) where
  beyond : (m n : ℕ) → m ≤ n → fits (take m t) ≡ false → fits (take n t) ≡ false
  beyond m n p h = elim (Bool-cases (fits (take n t))) [
    | inl e ↦ absurd (ground (arith, mono m n p e))
    | inr e ↦ e
  ]

  search_fit-Boundary :
      (fuel low high : ℕ)
      → low ≤ high
      → high ≤ low + fuel
      → high ≤ length t
      → (low ≡ 0) ⊎ (fits (take low t) ≡ true)
      → ((n : ℕ) → high < n → n ≤ length t → fits (take n t) ≡ false)
      → Boundary fits t (search_fit fits t fuel low high)
  unfolding search_fit
  search_fit-Boundary zero low high p q r down up = record {
    passes = down;
    longest = λ n a b. up n (omega arith) b;
  }
  search_fit-Boundary (suc fuel) low high p q r down up = elim (Bool-cases (ltb low high)) [
    | inr end ↦ rw end (record {
      passes = down;
      longest = λ n a b. up n (omega (arith, ltb-false→le low high end)) b;
    })
    | inl more ↦ elim (Bool-cases (fits (take ((low + high + 1) / 2) t))) [
      | inl yes_fits ↦
          rw (more, yes_fits)
            (search_fit-Boundary fuel ((low + high + 1) / 2) high
              (omega (arith, ltb→lt low high more)) (omega (arith, ltb→lt low high more)) r
              (inr yes_fits) up)
      | inr no_fits ↦
          rw (more, no_fits)
            (search_fit-Boundary fuel low ((low + high + 1) / 2 - 1)
              (omega (arith, ltb→lt low high more)) (omega (arith, ltb→lt low high more))
              (omega (arith, ltb→lt low high more)) down
              (λ n a b.
                beyond ((low + high + 1) / 2) n (omega (arith, ltb→lt low high more)) no_fits))
    ]
  ]

take-all : (t : Text) → take (length t) t ≡ t
take-all [] = refl
take-all (c ∷ t) = ap (λ r. c ∷ r) (take-all t)

-- With a test that every start of a passing start passes too, `_fit_text` keeps a start of the text
-- that passes or is empty, and no longer start passes.
pub fit_text-longest :
    (fits : Text → Bool) (t : Text) (cut : Bool)
    → IsMonotone fits t
    → (k : ℕ) × ((fit_text fits t cut).0 ≡ take k t)
      × ((k ≡ 0) ⊎ (fits (take k t) ≡ true))
      × ((n : ℕ) → k < n → n ≤ length t → fits (take n t) ≡ false)
unfolding fit_text
fit_text-longest fits t cut mono = elim (Bool-cases (fits t)) [
  | inl e ↦
      (length t, rw e (sym (take-all t)), inr (rw (take-all t) e), λ n a b. absurd (omega arith))
  | inr e ↦
      let b =
        search_fit-Boundary fits t mono (length t) 0 (length t) (omega arith) (omega arith)
          (omega arith) (inl refl) (λ n p q. absurd (omega arith)) in
      (search_fit fits t (length t) 0 (length t), rw e, b.passes, b.longest)
]
