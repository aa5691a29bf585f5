-- ===== src/Github/Paths/Segments.antt =====
-- A repository path has exactly the two segments that were given.
use henry.Prelude.{
  ℕ, ◌/◌, ◌%◌, ◌≡◌, ◌<◌, refl, ◌⊎◌, inl, inr, true, ◌||◌, List, [], ◌∷◌, ◌++◌, ltb, arith,
  Bool-cases, All, All-append, ltb→lt,
}
use henry.Text.{Text, codes, ◌===◌, has_char}
use henry.Json.Bytes.{is_surrogate}
use henry.Result.{ok, raise_if, Ensures, Ensures-bind, Ensures-bind-with, Ensures-ok}
use henry.Github.Paths.{
  quote, quote_bytes, quote_byte, is_unreserved, hex_digit, encode_char, repo_path,
}

-- What a quoted segment is made of: no slash, no question mark, no number sign, no control.
abbrev pub IsPlain : ℕ → Type 0
IsPlain c = (is_unreserved c ≡ true) ⊎ (c ≡ 37)

hex_digit-IsPlain : (d : ℕ) → d < 16 → IsPlain (hex_digit d)
unfolding hex_digit is_unreserved
hex_digit-IsPlain d h = inl (ground arith)

quote_byte-IsPlain : (b : ℕ) → b < 256 → All IsPlain (quote_byte [] b)
unfolding quote_byte has_char
quote_byte-IsPlain b h = elim (Bool-cases (is_unreserved b)) [
  | inl e ↦ rw e (inl e, tt)
  | inr e ↦ rw e (
    inr refl,
    (hex_digit-IsPlain (b / 16) (omega arith), (hex_digit-IsPlain (b % 16) (omega arith), tt)),
  )
]

quote_bytes-IsPlain : (bs : List ℕ) → All (λ b. b < 256) bs → All IsPlain (quote_bytes [] bs)
unfolding quote_bytes
quote_bytes-IsPlain [] h = tt
quote_bytes-IsPlain (b ∷ bs) (h, hs) =
    All-append IsPlain (quote_byte [] b) (quote_bytes [] bs) (quote_byte-IsPlain b h)
      (quote_bytes-IsPlain bs hs)

-- The code points that Python has.
abbrev pub IsCodePoint : ℕ → Type 0
IsCodePoint c = c < 0x110000

encode_char-bytes : (c : ℕ) → IsCodePoint c → All (λ b. b < 256) (encode_char c)
unfolding encode_char
encode_char-bytes c h = elim (Bool-cases (ltb c 0x80)) [
  | inl e ↦ rw e (omega (arith, ltb→lt c 0x80 e), tt)
  | inr e ↦ elim (Bool-cases (ltb c 0x800)) [
    | inl f ↦ rw (e, f) (omega (arith, ltb→lt c 0x800 f), (omega arith, tt))
    | inr f ↦ elim (Bool-cases (ltb c 0x10000)) [
      | inl g ↦ rw (e, f, g) (omega (arith, ltb→lt c 0x10000 g), (omega arith, (omega arith, tt)))
      | inr g ↦ rw (e, f, g) (omega arith, (omega arith, (omega arith, (omega arith, tt))))
    ]
  ]
]

quote-IsPlain : (t : Text) → All IsCodePoint t → Ensures (All IsPlain) (quote [] t)
unfolding quote
quote-IsPlain [] h = Ensures-ok (All IsPlain) [] tt
quote-IsPlain (c ∷ t) (h, hs) = Ensures-bind (raise_if (is_surrogate c) _) _ (λ u.
    Ensures-bind-with (quote [] t) _ (quote-IsPlain t hs) (λ rest v.
      Ensures-ok (All IsPlain) (quote_bytes [] (encode_char c) ++ rest) (
        All-append IsPlain (quote_bytes [] (encode_char c)) rest
          (quote_bytes-IsPlain (encode_char c) (encode_char-bytes c h)) v)))

-- A repository path.
pub record TwoSegments (p : Text) : Type 0 where
  pub owner : Text
  pub repo : Text
  pub same : p ≡ owner ++ (codes "/" ++ repo)
  pub plain_owner : All IsPlain owner
  pub plain_repo : All IsPlain repo

-- Whatever the model passes as owner and repository, an accepted pair becomes two segments of
-- letters, digits, `_`, `.`, `-`, `~` and percent signs around one slash, so that it can add neither
-- a segment nor a query to the path of the request.
pub repo_path-TwoSegments :
    (owner repo p : Text)
    → All IsCodePoint owner
    → All IsCodePoint repo
    → repo_path owner repo ≡ ok p
    → TwoSegments p
unfolding repo_path
repo_path-TwoSegments owner repo p o r =
    Ensures-bind
      (raise_if (owner === [] || (repo === [] || (has_char 47 owner || has_char 47 repo))) _) _
      (λ u. Ensures-bind-with (quote [] owner) _ (quote-IsPlain owner o) (λ q v.
        Ensures-bind-with (quote [] repo) _ (quote-IsPlain repo r) (λ q' v'.
          Ensures-ok TwoSegments (q ++ (codes "/" ++ q'))
            (record { owner = q; repo = q'; same = refl; plain_owner = v; plain_repo = v' }))))
      p
