-- ===== src/Sanitize/Cut.antt =====
-- A text without reserved tags that is cut, with a note behind the cut, has none either.
use henry.Prelude.{
  ℕ, ◌≡◌, ap, sym, subst, Bool, true, false, List, [], ◌∷◌, ◌++◌, arith, ◌==◌, ==_iff, Bool-cases,
  inl, inr, take, drop, take-append-drop,
}
use henry.Text.{Text, has_char, has_char-append}
use henry.Text.Words.{is_space}
use henry.Sanitize.{
  reserved_tags, less, greater, skip_spaces, skip_slash, closes, names_tag, names_any, matches_tag,
}
use henry.Sanitize.Unclosed.{skip_spaces-Has, skip_slash-Has, names_tag-Has, names_any-Has}
use henry.Sanitize.Clean.{IsClean}

module _ (note : Text) (silent : has_char greater note ≡ false) where
  -- A step that passes over the start of a text: it stops before the note, or no `>` is left.
  data Passes (skip : Text → Text) (a b : Text) : Type 0 where
    before_note :
        (a' : Text) → skip (a ++ note) ≡ a' ++ note → skip (a ++ b) ≡ a' ++ b → Passes skip a b
    lost : has_char greater (skip (a ++ note)) ≡ false → Passes skip a b

  skip_spaces-Passes : (a b : Text) → Passes skip_spaces a b
  unfolding skip_spaces
  skip_spaces-Passes [] b = lost (ground (arith, skip_spaces-Has note))
  skip_spaces-Passes (c ∷ a) b = elim (Bool-cases (is_space c)) [
    | inl e ↦ by_rest e (skip_spaces-Passes a b)
    | inr e ↦ before_note (c ∷ a) (rw e) (rw e)
  ]
    where
      by_rest : is_space c ≡ true → Passes skip_spaces a b → Passes skip_spaces (c ∷ a) b
      by_rest e (before_note a' p q) = before_note a' (rw e p) (rw e q)
      by_rest e (lost p) = lost (rw e p)

  skip_slash-Passes : (a b : Text) → Passes skip_slash a b
  unfolding skip_slash
  skip_slash-Passes [] b = lost (ground (arith, skip_slash-Has note))
  skip_slash-Passes (c ∷ a) b = elim (Bool-cases (c == b'/')) [
    | inl e ↦ before_note a (rw e) (rw e)
    | inr e ↦ before_note (c ∷ a) (rw e) (rw e)
  ]

  module _ (is_alnum : ℕ → Bool) where
    names_tag-cut :
        (name a b : Text)
        → names_tag is_alnum name (a ++ note) ≡ true
        → names_tag is_alnum name (a ++ b) ≡ true
    unfolding names_tag closes
    names_tag-cut name [] b h = absurd (ground (arith, names_tag-Has is_alnum name note))
    names_tag-cut [] (c ∷ a) b h =
        ground (arith, has_char-append greater (c ∷ a) note, has_char-append greater (c ∷ a) b)
    names_tag-cut (p ∷ name) (c ∷ a) b h = ground (arith, names_tag-cut name a b)

    names_any-cut :
        (names : List Text) (a b : Text)
        → names_any is_alnum names (a ++ note) ≡ true
        → names_any is_alnum names (a ++ b) ≡ true
    unfolding names_any
    names_any-cut [] a b h = h
    names_any-cut (name ∷ names) a b h =
        ground (arith, names_tag-cut name a b, names_any-cut names a b)

    -- The three steps before the name, one by one.
    skipped : Text → Text
    skipped t = skip_spaces (skip_slash (skip_spaces t))

    skipped-Passes : (a b : Text) → Passes skipped a b
    unfolding skipped
    skipped-Passes a b = first (skip_spaces-Passes a b)
      where
        third :
            (a' : Text)
            → skip_slash (skip_spaces (a ++ note)) ≡ a' ++ note
            → skip_slash (skip_spaces (a ++ b)) ≡ a' ++ b
            → Passes skip_spaces a' b
            → Passes skipped a b
        third a' p q (before_note d r s) = before_note d (rw p r) (rw q s)
        third a' p q (lost r) = lost (rw p r)

        second :
            (a' : Text)
            → skip_spaces (a ++ note) ≡ a' ++ note
            → skip_spaces (a ++ b) ≡ a' ++ b
            → Passes skip_slash a' b
            → Passes skipped a b
        second a' p q (before_note d r s) = third d (rw p r) (rw q s) (skip_spaces-Passes d b)
        second a' p q (lost r) = lost (
            ground (
              arith,
              r,
              ap (λ t. has_char greater (skip_slash t)) p,
              skip_spaces-Has (skip_slash (skip_spaces (a ++ note))),
            ))

        first : Passes skip_spaces a b → Passes skipped a b
        first (before_note a' p q) = second a' p q (skip_slash-Passes a' b)
        first (lost p) = lost (
            ground (
              arith,
              skip_spaces-Has (skip_slash (skip_spaces (a ++ note))),
              skip_slash-Has (skip_spaces (a ++ note)),
            ))

    matches_tag-cut :
        (c : ℕ) (a b : Text)
        → matches_tag is_alnum (c ∷ (a ++ b)) ≡ false
        → matches_tag is_alnum (c ∷ (a ++ note)) ≡ false
    unfolding matches_tag skipped
    matches_tag-cut c a b h = by_steps (skipped-Passes a b)
      where
        by_steps : Passes skipped a b → matches_tag is_alnum (c ∷ (a ++ note)) ≡ false
        by_steps (before_note d p q) = ground (arith, p, q, h, names_any-cut reserved_tags d b)
        by_steps (lost p) =
            ground (arith, p, names_any-Has is_alnum reserved_tags (skipped (a ++ note)))

    matches_tag-silent :
        (c : ℕ) (t : Text) → c == less ≡ false → matches_tag is_alnum (c ∷ t) ≡ false
    unfolding matches_tag
    matches_tag-silent c t h = rw h

    quiet-IsClean : (t : Text) → has_char less t ≡ false → IsClean is_alnum t
    unfolding has_char
    quiet-IsClean [] h = tt
    quiet-IsClean (c ∷ t) h = (
      matches_tag-silent c t (ground (arith, ==_iff c less, ==_iff less c)),
      quiet-IsClean t (ground arith),
    )

    append-IsClean :
        (a b : Text)
        → has_char less note ≡ false
        → IsClean is_alnum (a ++ b)
        → IsClean is_alnum (a ++ note)
    append-IsClean [] b q h = quiet-IsClean note q
    append-IsClean (c ∷ a) b q h = (matches_tag-cut c a b h.0, append-IsClean a b q h.1)

    -- A cut text with a note that has neither `<` nor `>`.
    pub take-IsClean :
        (n : ℕ) (t : Text)
        → has_char less note ≡ false
        → IsClean is_alnum t
        → IsClean is_alnum (take n t ++ note)
    take-IsClean n t q h =
        append-IsClean (take n t) (drop n t) q
          (subst (IsClean is_alnum) (sym (take-append-drop n t)) h)
