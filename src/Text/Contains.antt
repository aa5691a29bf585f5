-- ===== src/Text/Contains.antt =====
-- `needle in text`, as a statement, and how it passes through `join`.
use henry.Prelude.{
  ◌≡◌, refl, ap, sym, ◌∙◌, ◌≢◌, ◌⊎◌, inl, inr, true, false, not, List, [], ◌∷◌, ◌++◌, append_assoc,
  append-nil, Any, keep_if, Bool-cases,
}
use henry.Text.{Text, ◌===◌, ===_iff, join}

pub record Contains (needle text : Text) : Type 0 where
  pub before : Text
  pub after : Text
  pub place : text ≡ before ++ (needle ++ after)

pub Contains-self : (t : Text) → Contains t t
Contains-self t = record { before = []; after = []; place = sym (append-nil t) }

pub Contains-append_left : (n s t : Text) → Contains n t → Contains n (s ++ t)
Contains-append_left n s t c = record {
  before = s ++ c.before;
  after = c.after;
  place = ap (λ u. s ++ u) c.place ∙ sym (append_assoc s c.before (n ++ c.after));
}

pub Contains-append_right : (n s t : Text) → Contains n s → Contains n (s ++ t)
Contains-append_right n s t c = record {
  before = c.before;
  after = c.after ++ t;
  place =
      ap (λ u. u ++ t) c.place
      ∙ (append_assoc c.before (n ++ c.after) t
          ∙ ap (λ u. c.before ++ u) (append_assoc n c.after t));
}

pub Contains-ne-nil : (n t : Text) → n ≢ [] → Contains n t → t ≢ []
Contains-ne-nil n t h c e = h (empty_middle c.before n c.after (sym c.place ∙ e))
  where
    empty_middle : (a b d : Text) → a ++ (b ++ d) ≡ [] → b ≡ []
    empty_middle [] [] d q = refl
    empty_middle [] (x ∷ b) d q = absurd (cc)
    empty_middle (x ∷ a) b d q = absurd (cc)

-- `"\n".join(part for part in parts if part)`
unfoldable pub join_nonempty : Text → List Text → Text
join_nonempty sep parts = join sep (keep_if (λ p. not (p === [])) parts)

kept-Any :
    (n : Text) (ps : List Text)
    → n ≢ []
    → Any (Contains n) ps
    → Any (Contains n) (keep_if (λ p. not (p === [])) ps)
kept-Any n [] h a = absurd a
kept-Any n (p ∷ ps) h (inl c) = rw (nonempty (Bool-cases (p === []))) (inl c)
  where
    nonempty : (p === [] ≡ true) ⊎ (p === [] ≡ false) → (p === []) ≡ false
    nonempty (inl e) = absurd (Contains-ne-nil n p h c ((===_iff p []).0 e))
    nonempty (inr e) = e
kept-Any n (p ∷ ps) h (inr a) = elim (Bool-cases (p === [])) [
  | inl e ↦ rw e (kept-Any n ps h a)
  | inr e ↦ rw e (inr (kept-Any n ps h a))
]

join-Contains : (n sep : Text) (ps : List Text) → Any (Contains n) ps → Contains n (join sep ps)
unfolding join
join-Contains n sep [] a = absurd a
join-Contains n sep (p ∷ []) (inl c) = c
join-Contains n sep (p ∷ []) (inr a) = absurd a
join-Contains n sep (p ∷ q ∷ ps) (inl c) = Contains-append_right n p _ c
join-Contains n sep (p ∷ q ∷ ps) (inr a) =
    Contains-append_left n p _ (Contains-append_left n sep _ (join-Contains n sep (q ∷ ps) a))

-- A part is found in the text that the parts make.
pub join_nonempty-Contains :
    (n sep : Text) (ps : List Text)
    → n ≢ []
    → Any (Contains n) ps
    → Contains n (join_nonempty sep ps)
unfolding join_nonempty
join_nonempty-Contains n sep ps h a =
    join-Contains n sep (keep_if (λ p. not (p === [])) ps) (kept-Any n ps h a)

pub Any-append_right {ℓ} :
    {A : Type ℓ} (P : A → Type 0) (xs ys : List A) → Any P ys → Any P (xs ++ ys)
Any-append_right P [] ys h = h
Any-append_right P (x ∷ xs) ys h = inr (Any-append_right P xs ys h)

pub Any-append_left {ℓ} :
    {A : Type ℓ} (P : A → Type 0) (xs ys : List A) → Any P xs → Any P (xs ++ ys)
Any-append_left P [] ys h = absurd h
Any-append_left P (x ∷ xs) ys (inl h) = inl h
Any-append_left P (x ∷ xs) ys (inr h) = inr (Any-append_left P xs ys h)
