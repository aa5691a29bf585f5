-- ===== src/Slack/Split/Laws.antt =====
-- The chunks of a reply: nothing is lost, and each fits.
use henry.Prelude.{
  ℕ, zero, suc, ◌+◌, ◌-◌, ◌≤◌, ◌<◌, min, ◌≡◌, refl, sym, subst, ◌∙◌, ◌≢◌, ◌⊎◌, inl, inr, Option,
  none, some, List, [], ◌∷◌, All, arith, length, slice, drop, get_elem?, concat, ltb, Bool-cases,
  Option-cases, slice-drop, length-slice, get_elem?-slice, drop-all, ltb→lt, ltb-false→le, ==_iff,
}
use henry.Text.{Text, ===_iff}
use henry.Result.{ok}
use henry.Slack.Split.{
  newline, last_index, rfind, break_at, chunk_end, chunks_from, split_for_slack,
}

last_index_cons :
    (c d : ℕ) (t : Text) (i : ℕ)
    → last_index c (d ∷ t) ≡ some i
    → ((i ≡ 0) × (d ≡ c)) ⊎ ((j : ℕ) × (i ≡ suc j) × (last_index c t ≡ some j))
unfolding last_index
last_index_cons c d t i h = elim (Option-cases (last_index c t)) [
  | inl e ↦ inl (ground (arith, ==_iff c d))
  | inr (j, e) ↦ inr (j, ground arith, e)
]

last_index_lem :
    (c : ℕ) (t : Text) (i : ℕ) → last_index c t ≡ some i → (i < length t) × (get_elem? t i ≡ some c)
last_index_lem c [] i h = unfold last_index in absurd (cc)
last_index_lem c (d ∷ t) i h = elim (last_index_cons c d t i h) [
  | inl (z, same) ↦ rw (z, same) (omega arith, refl)
  | inr (j, e, found) ↦ let (less, there) = last_index_lem c t j found in rw e (omega arith, there)
]

rfind_lem :
    (c : ℕ) (t : Text) (a b i : ℕ)
    → rfind c t a b ≡ some i
    → (a ≤ i) × (i < b) × (i < length t) × (get_elem? t i ≡ some c)
unfolding rfind
rfind_lem c t a b i h = elim (Option-cases (last_index c (slice t a b))) [
  | inl e ↦ absurd (ground arith)
  | inr (j, e) ↦
      let (less, there) = last_index_lem c (slice t a b) j e in
      let size : length (slice t a b) ≡ min (b - a) (length t - a) = length-slice t a b in
      let i_eq : i ≡ a + j = ground arith in
      rw i_eq
        (omega arith, omega arith, omega arith, sym (get_elem?-slice t a b j (omega arith)) ∙ there)
]

-- A chunk ends after its start, and at most one character past the limit, which is then a newline.
record GoodEnd (limit : ℕ) (text : Text) (start stop : ℕ) : Type 0 where
  moves : start < stop
  within : stop ≤ length text
  fits :
      (stop ≤ start + limit)
      ⊎ ((stop ≡ start + limit + 1) × (get_elem? text (start + limit) ≡ some newline))

break_at-GoodEnd :
    (limit : ℕ) (text : Text) (start stop : ℕ) (found : Option ℕ)
    → start < stop
    → stop < length text
    → stop ≤ start + limit
    → ((i : ℕ)
        → found ≡ some i
        → (start ≤ i) × (i < stop + 1) × (i < length text) × (get_elem? text i ≡ some newline))
    → GoodEnd limit text start (break_at start stop found)
unfolding break_at
break_at-GoodEnd limit text start stop none a b c h = record {
  moves = a;
  within = omega arith;
  fits = inl c;
}
break_at-GoodEnd limit text start stop (some i) a b c h = elim (Bool-cases (ltb start i)) [
  | inl past ↦
      let (low, high, inside, char) = h i refl in
      rw past (record {
        moves = omega (arith, ltb→lt start i past);
        within = omega arith;
        fits = elim (Bool-cases (ltb i (start + limit))) [
          | inl y ↦ inl (omega (arith, ltb→lt i (start + limit) y))
          | inr z ↦
              let e : i ≡ start + limit = omega (arith, ltb-false→le i (start + limit) z) in
              inr (omega arith, subst (λ k. get_elem? text k ≡ some newline) e char)
        ];
      })
  | inr at ↦ rw at (record { moves = a; within = omega arith; fits = inl c })
]

chunk_end-GoodEnd :
    (limit : ℕ) (text : Text) (start : ℕ)
    → 1 ≤ limit
    → start < length text
    → GoodEnd limit text start (chunk_end limit text start)
unfolding chunk_end
chunk_end-GoodEnd limit text start p q = elim (Bool-cases (ltb stop (length text))) [
  | inl more ↦
      rw (chunk_end, more)
        (break_at-GoodEnd limit text start stop (rfind newline text start (stop + 1)) (omega arith)
          (ltb→lt stop (length text) more) (omega arith) (rfind_lem newline text start (stop + 1)))
  | inr end ↦
      rw (chunk_end, end)
        (record { moves = omega arith; within = omega arith; fits = inl (omega arith) })
]
  where
    stop : ℕ
    stop = min (start + limit) (length text)

-- Not empty, and within the limit but for a newline at its end.
abbrev pub Fits : ℕ → Text → Type 0
Fits limit chunk =
    (0 < length chunk)
    × ((length chunk ≤ limit)
        ⊎ ((length chunk ≡ limit + 1) × (get_elem? chunk limit ≡ some newline)))

slice-Fits :
    (limit : ℕ) (text : Text) (start stop : ℕ)
    → GoodEnd limit text start stop
    → Fits limit (slice text start stop)
slice-Fits limit text start stop (g) =
    let size : length (slice text start stop) ≡ min (stop - start) (length text - start) =
      length-slice text start stop in
    (
      omega (arith, g.moves, g.within),
      elim g.fits [
        | inl low ↦ inl (omega (arith, g.within))
        | inr (e, char) ↦
            inr
              (omega (arith, g.within), get_elem?-slice text start stop limit (omega arith) ∙ char)
      ],
    )

module _ (limit : ℕ) (text : Text) (positive : 1 ≤ limit) where
  concat-chunks_from :
      (fuel start : ℕ)
      → length text ≤ start + fuel
      → concat (chunks_from fuel limit text start) ≡ drop start text
  unfolding chunks_from
  concat-chunks_from zero start h = sym (drop-all start text (omega arith))
  concat-chunks_from (suc fuel) start h = elim (Bool-cases (ltb start (length text))) [
    | inl more ↦
        let g = chunk_end-GoodEnd limit text start positive (ltb→lt _ _ more) in
        rw (more, concat-chunks_from fuel (chunk_end limit text start) (omega (arith, g.moves)))
          (slice-drop text start (chunk_end limit text start) (omega (arith, g.moves)))
    | inr end ↦ rw end (sym (drop-all start text (ltb-false→le _ _ end)))
  ]

  chunks_from-Fits : (fuel start : ℕ) → All (Fits limit) (chunks_from fuel limit text start)
  unfolding chunks_from
  chunks_from-Fits zero start = tt
  chunks_from-Fits (suc fuel) start = elim (Bool-cases (ltb start (length text))) [
    | inl more ↦ rw more (
      slice-Fits limit text start _ (chunk_end-GoodEnd limit text start positive (ltb→lt _ _ more)),
      chunks_from-Fits fuel (chunk_end limit text start),
    )
    | inr end ↦ rw end tt
  ]

pub split_for_slack-chunks_from :
    (limit : ℕ) (text : Text)
    → 1 ≤ limit
    → text ≢ []
    → split_for_slack limit text ≡ ok (chunks_from (length text) limit text 0)
unfolding split_for_slack
split_for_slack-chunks_from limit text p n = ground (arith, ===_iff text [])

-- With a positive limit a text that is not empty is split into chunks that, put together, are the
-- text again. No chunk is empty, and each has at most `limit` characters, or one more if that one
-- is a newline.
pub split_for_slack_lem :
    (limit : ℕ) (text : Text)
    → 1 ≤ limit
    → text ≢ []
    → (chunks : List Text) × (split_for_slack limit text ≡ ok chunks)
      × (concat chunks ≡ text)
      × All (Fits limit) chunks
split_for_slack_lem limit text p n = (
  chunks_from (length text) limit text 0,
  split_for_slack-chunks_from limit text p n,
  concat-chunks_from limit text p (length text) 0 (omega arith),
  chunks_from-Fits limit text p (length text) 0,
)
