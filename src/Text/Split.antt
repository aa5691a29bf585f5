-- ===== src/Text/Split.antt =====
-- `split` and `join` are inverse to one another.
use henry.Prelude.{
  ℕ, ◌≡◌, refl, ap, ◌≢◌, inl, inr, false, List, [], ◌∷◌, ◌++◌, arith, ◌==◌, ==_iff, ==_refl,
  Bool-cases, All,
}
use henry.Text.{Text, has_char, cons_head, split, join}

cons_head-append :
    (c : ℕ) (xs ys : List Text) → xs ≢ [] → cons_head c (xs ++ ys) ≡ cons_head c xs ++ ys
unfolding cons_head
cons_head-append c [] ys h = absurd (h refl)
cons_head-append c (x ∷ xs) ys h = refl

cons_head-ne-nil : (c : ℕ) (ws : List Text) → cons_head c ws ≢ []
unfolding cons_head
cons_head-ne-nil c [] h = cc
cons_head-ne-nil c (w ∷ ws) h = cc

pub split-ne-nil : (sep : ℕ) (t : Text) → split sep t ≢ []
unfolding split
split-ne-nil sep [] h = cc
split-ne-nil sep (c ∷ t) h = ground (arith, cons_head-ne-nil c (split sep t))

pub split-append : (sep : ℕ) (s t : Text) → split sep (s ++ sep ∷ t) ≡ split sep s ++ split sep t
unfolding split
split-append sep [] t = rw (==_refl sep)
split-append sep (c ∷ s) t = elim (Bool-cases (c == sep)) [
  | inl e ↦ rw e (ap (λ r. [] ∷ r) (split-append sep s t))
  | inr e ↦
      rw (e, split-append sep s t)
        (cons_head-append c (split sep s) (split sep t) (split-ne-nil sep s))
]

join-cons_head : (sep : Text) (c : ℕ) (ws : List Text) → join sep (cons_head c ws) ≡ c ∷ join sep ws
unfolding join cons_head
join-cons_head sep c [] = refl
join-cons_head sep c (w ∷ []) = refl
join-cons_head sep c (w ∷ v ∷ ws) = refl

pub join-cons :
    (sep w : Text) (ws : List Text) → ws ≢ [] → join sep (w ∷ ws) ≡ w ++ (sep ++ join sep ws)
unfolding join
join-cons sep w [] h = absurd (h refl)
join-cons sep w (v ∷ ws) h = refl

pub join-split : (sep : ℕ) (t : Text) → join (sep ∷ []) (split sep t) ≡ t
unfolding split
join-split sep [] = unfold join in refl
join-split sep (c ∷ t) = elim (Bool-cases (c == sep)) [
  | inl e ↦
      rw (e, join-cons (sep ∷ []) [] (split sep t) (split-ne-nil sep t), join-split sep t)
        (ground arith)
  | inr e ↦ rw (e, join-cons_head (sep ∷ []) c (split sep t), join-split sep t)
]

-- A text without the separator is one part.
pub split-single : (sep : ℕ) (t : Text) → has_char sep t ≡ false → split sep t ≡ t ∷ []
unfolding split has_char cons_head
split-single sep [] h = refl
split-single sep (c ∷ t) h = ground (arith, split-single sep t, ==_iff sep c, ==_iff c sep)

pub split-join :
    (sep : ℕ) (ws : List Text)
    → ws ≢ []
    → All (λ w. has_char sep w ≡ false) ws
    → split sep (join (sep ∷ []) ws) ≡ ws
unfolding join
split-join sep [] n h = absurd (n refl)
split-join sep (w ∷ []) n h = split-single sep w h.0
split-join sep (w ∷ v ∷ ws) n h = rw (
  split-append sep w (join (sep ∷ []) (v ∷ ws)),
  split-single sep w h.0,
  split-join sep (v ∷ ws) (λ e. cc) h.1,
)

cons_head-All :
    (P : Text → Type 0) (c : ℕ) (ws : List Text)
    → P (c ∷ [])
    → ((w : Text) → P w → P (c ∷ w))
    → All P ws
    → All P (cons_head c ws)
unfolding cons_head
cons_head-All P c [] one grow h = (one, tt)
cons_head-All P c (w ∷ ws) one grow h = (grow w h.0, h.1)

-- No part holds the separator.
pub split-All : (sep : ℕ) (t : Text) → All (λ w. has_char sep w ≡ false) (split sep t)
unfolding split
split-All sep [] = (unfold has_char in refl, tt)
split-All sep (c ∷ t) = elim (Bool-cases (c == sep)) [
  | inl e ↦ rw e (unfold has_char in refl, split-All sep t)
  | inr e ↦ rw e (
      cons_head-All (λ w. has_char sep w ≡ false) c (split sep t)
        (unfold has_char in ground (arith, ==_iff sep c, ==_iff c sep))
        (λ w h. unfold has_char in ground (arith, ==_iff sep c, ==_iff c sep)) (split-All sep t))
]
