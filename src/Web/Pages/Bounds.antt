-- ===== src/Web/Pages/Bounds.antt =====
-- The body that is kept and the text that is returned.
use henry.Prelude.{
  ℕ, zero, suc, ◌+◌, ◌≤◌, ◌≡◌, refl, ap, sym, ◌∙◌, inl, inr, List, [], ◌∷◌, ◌++◌, append_assoc,
  append-nil, length, take, concat, ltb, arith, Bool-cases, length-append, ltb→lt, lt→ltb,
  ltb-false→le,
}
use henry.Web.Pages.{read_body, read_chunks, max_fetch_bytes}

concat-append : (xs ys : List (List ℕ)) → concat (xs ++ ys) ≡ concat xs ++ concat ys
concat-append [] ys = refl
concat-append (x ∷ xs) ys =
    ap (λ r. x ++ r) (concat-append xs ys) ∙ sym (append_assoc x (concat xs) (concat ys))

concat-snoc : (xs : List (List ℕ)) (y : List ℕ) → concat (xs ++ y ∷ []) ≡ concat xs ++ y
concat-snoc xs y = concat-append xs (y ∷ []) ∙ ap (λ r. concat xs ++ r) (append-nil y)

take-append : (n : ℕ) (xs ys : List ℕ) → n ≤ length xs → take n (xs ++ ys) ≡ take n xs
take-append zero xs ys h = refl
take-append (suc n) [] ys h = absurd (omega arith)
take-append (suc n) (x ∷ xs) ys h = ap (λ r. x ∷ r) (take-append n xs ys (omega arith))

read_chunks_lem :
    (chunks : List (List ℕ)) (total : ℕ) (rest : List (List ℕ))
    → total ≡ length (concat chunks)
    → total ≤ max_fetch_bytes
    → let (kept, truncated) = read_chunks chunks total rest in
      (take max_fetch_bytes (concat kept) ≡ take max_fetch_bytes (concat chunks ++ concat rest))
      × (truncated ≡ ltb max_fetch_bytes (length (concat chunks ++ concat rest)))
unfolding read_chunks
read_chunks_lem chunks total [] e le =
    rw (append-nil (concat chunks))
      (refl, ground (arith, ltb→lt max_fetch_bytes (length (concat chunks))))
read_chunks_lem chunks total (chunk ∷ rest) e le =
    let longer : length (concat (chunks ++ chunk ∷ [])) ≡ total + length chunk =
      omega (arith, ap length (concat-snoc chunks chunk), length-append (concat chunks) chunk) in
    let regroup : concat (chunks ++ chunk ∷ []) ++ concat rest
        ≡ concat chunks ++ (chunk ++ concat rest) =
      ap (λ r. r ++ concat rest) (concat-snoc chunks chunk)
      ∙ append_assoc (concat chunks) chunk (concat rest) in
    elim (Bool-cases (ltb max_fetch_bytes (total + length chunk))) [
      | inl h ↦
          rw (h, ← regroup)
            (
              sym (
                  take-append max_fetch_bytes (concat (chunks ++ chunk ∷ [])) (concat rest)
                    (omega (arith, ltb→lt max_fetch_bytes (total + length chunk) h))),
              sym (
                  lt→ltb _ _ (
                    omega (
                      arith,
                      ltb→lt max_fetch_bytes (total + length chunk) h,
                      length-append (concat (chunks ++ chunk ∷ [])) (concat rest),
                    ))),
            )
      | inr h ↦
          rw (h, ← regroup)
            (read_chunks_lem (chunks ++ chunk ∷ []) (total + length chunk) rest (sym longer)
              (omega (arith, ltb-false→le max_fetch_bytes (total + length chunk) h)))
    ]

-- The body that is kept is the first million bytes of what the server sends, in however many
-- chunks it comes, and it is marked as truncated exactly if the server sends more.
pub read_body_lem :
    (stream : List (List ℕ))
    → let (body, truncated) = read_body stream in
      (body ≡ take max_fetch_bytes (concat stream))
      × (truncated ≡ ltb max_fetch_bytes (length (concat stream)))
unfolding read_body
read_body_lem stream = read_chunks_lem [] 0 stream refl (omega arith)
