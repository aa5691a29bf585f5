-- ===== src/Sanitize/Unclosed.antt =====
-- A tag without its `>` is no tag for `neutralize_delimiters`.
use henry.Prelude.{ℕ, ◌≡◌, refl, Bool, true, false, List, [], ◌∷◌, ◌++◌, arith}
use henry.Text.{Text, codes, has_char, text_ops}
use henry.Text.Words.{is_space}
use henry.Sanitize.{
  reserved_tags, greater, fold, skip_spaces, skip_slash, is_word, closes, names_tag, names_any,
  matches_tag, substitute, neutralize_delimiters,
}

abbrev pub Has : Text → Type 0
Has t = has_char greater t ≡ true

Has-tail : (c : ℕ) (t : Text) → Has t → Has (c ∷ t)
unfolding has_char
Has-tail c t h = ground arith

pub skip_spaces-Has : (t : Text) → Has (skip_spaces t) → Has t
unfolding skip_spaces
skip_spaces-Has [] h = h
skip_spaces-Has (c ∷ t) h = ground (arith, skip_spaces-Has t, Has-tail c t)

pub skip_slash-Has : (t : Text) → Has (skip_slash t) → Has t
unfolding skip_slash
skip_slash-Has [] h = h
skip_slash-Has (c ∷ t) h = ground (arith, Has-tail c t)

module _ (is_alnum : ℕ → Bool) where
  closes-Has : (t : Text) → closes is_alnum t ≡ true → Has t
  unfolding closes
  closes-Has [] h = absurd (cc)
  closes-Has (c ∷ t) h = ground arith

  pub names_tag-Has : (name t : Text) → names_tag is_alnum name t ≡ true → Has t
  unfolding names_tag
  names_tag-Has [] t h = closes-Has t h
  names_tag-Has (p ∷ name) [] h = absurd (cc)
  names_tag-Has (p ∷ name) (c ∷ t) h = ground (arith, names_tag-Has name t, Has-tail c t)

  pub names_any-Has : (names : List Text) (t : Text) → names_any is_alnum names t ≡ true → Has t
  unfolding names_any
  names_any-Has [] t h = absurd (cc)
  names_any-Has (name ∷ names) t h = ground (arith, names_tag-Has name t, names_any-Has names t)

  matches_tag-Has : (t : Text) → matches_tag is_alnum t ≡ true → Has t
  unfolding matches_tag
  matches_tag-Has [] h = absurd (cc)
  matches_tag-Has (c ∷ t) h = ground (
    arith,
    names_any-Has reserved_tags (skip_spaces (skip_slash (skip_spaces t))),
    skip_spaces-Has (skip_slash (skip_spaces t)),
    skip_slash-Has (skip_spaces t),
    skip_spaces-Has t,
    Has-tail c t,
  )

  substitute-unclosed : (t : Text) → has_char greater t ≡ false → substitute is_alnum false t ≡ t
  unfolding substitute has_char
  substitute-unclosed [] h = refl
  substitute-unclosed (c ∷ t) h = ground (arith, matches_tag-Has (c ∷ t), substitute-unclosed t)

  -- A text without a `>` is left as it is.
  pub neutralize_delimiters-unclosed :
      (text : Text) → has_char greater text ≡ false → neutralize_delimiters is_alnum text ≡ text
  unfolding neutralize_delimiters
  neutralize_delimiters-unclosed text h = substitute-unclosed text h

  pub unclosed_request :
      is_alnum 10 ≡ false
      → matches_tag is_alnum (codes "</user_request" ++ codes "\n</user_request>") ≡ true
  unfolding matches_tag names_any names_tag closes is_word reserved_tags text_ops is_space fold
      skip_spaces skip_slash
  unclosed_request h = rw h
