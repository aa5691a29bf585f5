-- ===== src/Sanitize/Clean.antt =====
-- After `neutralize_delimiters` no reserved tag is left.
use henry.Prelude.{
  ℕ, ◌≡◌, refl, ap, Bool, true, false, not, Bool-cases, inl, inr, List, [], ◌∷◌, ◌++◌, arith, ◌==◌,
  ==_iff, All, if◌then◌else◌,
}
use henry.Text.{Text, codes, has_char}
use henry.Text.Words.{is_space}
use henry.Sanitize.{
  reserved_tags, less, greater, fold, skip_spaces, skip_slash, is_word, closes, names_tag,
  names_any, matches_tag, escape, substitute, neutralize_delimiters,
}

escape-less : escape less ≡ b'&' ∷ b'l' ∷ b't' ∷ b';' ∷ []
unfolding escape
escape-less = refl

is_space-less : is_space less ≡ false
unfolding is_space
is_space-less = refl

is_space-amp : is_space b'&' ≡ false
unfolding is_space
is_space-amp = refl

fold-amp : fold b'&' ≡ b'&'
unfolding fold
fold-amp = refl

reserved_tags-plain : All (λ name. All (λ p. p == b'&' ≡ false) name) reserved_tags
unfolding reserved_tags codes
reserved_tags-plain = ground arith

module _ (is_alnum : ℕ → Bool) where
  -- No place of the text starts a reserved tag.
  abbrev pub IsClean : Text → Type 0
  IsClean [] = Unit
  IsClean (c ∷ t) = (matches_tag is_alnum (c ∷ t) ≡ false) × IsClean t

  matches_tag-less : (c : ℕ) (t : Text) → matches_tag is_alnum (c ∷ t) ≡ true → c ≡ less
  unfolding matches_tag
  matches_tag-less c t h = ground (arith, ==_iff c less)

  matches_tag-other : (c : ℕ) (t : Text) → c == less ≡ false → matches_tag is_alnum (c ∷ t) ≡ false
  unfolding matches_tag
  matches_tag-other c t h = rw h

  -- What `substitute` does at one character outside a tag.
  data Turn (c : ℕ) (t : Text) : Type 0 where
    begins :
        matches_tag is_alnum (c ∷ t) ≡ true
        → c ≡ less
        → substitute is_alnum false (c ∷ t) ≡ b'&' ∷ b'l' ∷ b't' ∷ b';' ∷ substitute is_alnum true t
        → Turn c t
    passes :
        matches_tag is_alnum (c ∷ t) ≡ false
        → substitute is_alnum false (c ∷ t) ≡ c ∷ substitute is_alnum false t
        → Turn c t

  turn : (c : ℕ) (t : Text) → Turn c t
  unfolding substitute
  turn c t = elim (Bool-cases (matches_tag is_alnum (c ∷ t))) [
    | inl h ↦
        begins h (matches_tag-less c t h)
          (rw (h, matches_tag-less c t h) (ap (λ e. e ++ substitute is_alnum true t) escape-less))
    | inr h ↦ passes h (rw h)
  ]

  skip_spaces-substitute :
      (t : Text)
      → skip_spaces (substitute is_alnum false t) ≡ substitute is_alnum false (skip_spaces t)
  unfolding skip_spaces
  skip_spaces-substitute [] = unfold substitute in refl
  skip_spaces-substitute (c ∷ t) = by_turn (turn c t) (skip_spaces-substitute t)
    where
      by_turn :
          Turn c t
          → skip_spaces (substitute is_alnum false t) ≡ substitute is_alnum false (skip_spaces t)
          → skip_spaces (substitute is_alnum false (c ∷ t))
            ≡ substitute is_alnum false (skip_spaces (c ∷ t))
      by_turn (begins h e q) ih = ground (arith, is_space-less, is_space-amp)
      by_turn (passes h q) ih = ground arith

  skip_slash-substitute :
      (t : Text)
      → skip_slash (substitute is_alnum false t) ≡ substitute is_alnum false (skip_slash t)
  unfolding skip_slash
  skip_slash-substitute [] = unfold substitute in refl
  skip_slash-substitute (c ∷ t) = by_turn (turn c t)
    where
      by_turn :
          Turn c t
          → skip_slash (substitute is_alnum false (c ∷ t))
            ≡ substitute is_alnum false (skip_slash (c ∷ t))
      by_turn (begins h e q) = ground arith
      by_turn (passes h q) = ground arith

  has_char-escape : (c : ℕ) (u : Text) → has_char greater (escape c ++ u) ≡ has_char greater u
  unfolding escape has_char
  has_char-escape c u = ground arith

  has_char-substitute :
      (inside : Bool) (t : Text)
      → has_char greater (substitute is_alnum inside t) ≡ true
      → has_char greater t ≡ true
  unfolding substitute has_char
  has_char-substitute inside [] h = h
  has_char-substitute true (c ∷ t) h = ground (
    arith,
    has_char-escape c (substitute is_alnum (not (c == greater)) t),
    has_char-substitute (not (c == greater)) t,
  )
  has_char-substitute false (c ∷ t) h = ground (
    arith,
    has_char-escape c (substitute is_alnum true t),
    has_char-substitute true t,
    has_char-substitute false t,
  )

  other : (c : ℕ) (t : Text) → c == less ≡ false → IsClean t → IsClean (c ∷ t)
  other c t h k = (matches_tag-other c t h, k)

  IsClean-escape : (c : ℕ) (u : Text) → IsClean u → IsClean (escape c ++ u)
  unfolding escape
  IsClean-escape c u h = elim (Bool-cases (c == less)) [
    | inl e ↦ rw e (other b'&' _ refl (other b'l' _ refl (other b't' _ refl (other b';' _ refl h))))
    | inr e ↦ elim (Bool-cases (c == greater)) [
      | inl f ↦
          rw (e, f)
            (other b'&' _ refl (other b'g' _ refl (other b't' _ refl (other b';' _ refl h))))
      | inr f ↦ rw (e, f) (other c u e h)
    ]
  ]

  module _ (less_apart : is_alnum less ≡ false) where
    closes-substitute :
        (t : Text) → closes is_alnum (substitute is_alnum false t) ≡ true → closes is_alnum t ≡ true
    unfolding closes is_word
    closes-substitute [] h = unfold substitute in h
    closes-substitute (c ∷ t) h = by_turn (turn c t)
      where
        by_turn : Turn c t → closes is_alnum (c ∷ t) ≡ true
        by_turn (begins m e q) = ground (arith, h, less_apart, has_char-substitute false (c ∷ t))
        by_turn (passes m q) = ground (arith, h, has_char-substitute false (c ∷ t))

    names_tag-substitute :
        (name t : Text)
        → All (λ p. p == b'&' ≡ false) name
        → names_tag is_alnum name (substitute is_alnum false t) ≡ true
        → names_tag is_alnum name t ≡ true
    unfolding names_tag
    names_tag-substitute [] t k h = closes-substitute t h
    names_tag-substitute (p ∷ name) [] k h = unfold substitute in h
    names_tag-substitute (p ∷ name) (c ∷ t) k h =
        by_turn (turn c t) (names_tag-substitute name t k.1)
      where
        by_turn :
            Turn c t
            → (names_tag is_alnum name (substitute is_alnum false t) ≡ true
                → names_tag is_alnum name t ≡ true)
            → names_tag is_alnum (p ∷ name) (c ∷ t) ≡ true
        by_turn (begins m e q) ih = absurd (ground (arith, h, k.0, ==_iff p b'&', fold-amp))
        by_turn (passes m q) ih = ground (arith, h, ih)

    names_any-substitute :
        (names : List Text) (t : Text)
        → All (λ name. All (λ p. p == b'&' ≡ false) name) names
        → names_any is_alnum names (substitute is_alnum false t) ≡ true
        → names_any is_alnum names t ≡ true
    unfolding names_any
    names_any-substitute [] t k h = h
    names_any-substitute (name ∷ names) t k h =
        ground (arith, names_tag-substitute name t k.0, names_any-substitute names t k.1)

    -- A place that starts no tag starts none when the rest has been gone over.
    matches_tag-substitute :
        (c : ℕ) (t : Text)
        → matches_tag is_alnum (c ∷ t) ≡ false
        → matches_tag is_alnum (c ∷ substitute is_alnum false t) ≡ false
    unfolding matches_tag
    matches_tag-substitute c t h = ground (
      arith,
      ap (λ u. skip_spaces (skip_slash u)) (skip_spaces-substitute t),
      ap skip_spaces (skip_slash-substitute (skip_spaces t)),
      skip_spaces-substitute (skip_slash (skip_spaces t)),
      names_any-substitute reserved_tags (skip_spaces (skip_slash (skip_spaces t)))
          reserved_tags-plain,
    )

    substitute-IsClean : (inside : Bool) (t : Text) → IsClean (substitute is_alnum inside t)
    unfolding substitute
    substitute-IsClean inside [] = tt
    substitute-IsClean true (c ∷ t) = IsClean-escape c _ (substitute-IsClean (not (c == greater)) t)
    substitute-IsClean false (c ∷ t) =
        by_test (matches_tag is_alnum (c ∷ t)) refl (λ b. substitute-IsClean b t)
      where
        by_test :
            (b : Bool)
            → matches_tag is_alnum (c ∷ t) ≡ b
            → ((b : Bool) → IsClean (substitute is_alnum b t))
            → IsClean ((if b then escape c else c ∷ []) ++ substitute is_alnum b t)
        by_test true h k = IsClean-escape c _ (k true)
        by_test false h k = (matches_tag-substitute c t h, k false)

  IsClean-unchanged : (t : Text) → IsClean t → substitute is_alnum false t ≡ t
  unfolding substitute
  IsClean-unchanged [] h = refl
  IsClean-unchanged (c ∷ t) h = rw h.0 (ap (λ u. c ∷ u) (IsClean-unchanged t h.1))

  -- If `<` is no letter or digit, no place of the result starts a reserved tag, in whatever case, with
  -- whatever spaces and attributes; a text that has none is left as it is, so that a second pass changes
  -- nothing.
  pub neutralize_delimiters-IsClean :
      (is_alnum less ≡ false)
      → (text : Text)
      → IsClean (neutralize_delimiters is_alnum text)
        × (IsClean text → neutralize_delimiters is_alnum text ≡ text)
        × (neutralize_delimiters is_alnum (neutralize_delimiters is_alnum text)
            ≡ neutralize_delimiters is_alnum text)
  unfolding neutralize_delimiters
  neutralize_delimiters-IsClean h text = (
    substitute-IsClean h false text,
    IsClean-unchanged text,
    IsClean-unchanged (substitute is_alnum false text) (substitute-IsClean h false text),
  )
