-- ===== src/PosixPath/Joined.antt =====
-- posixpath.join of two paths that consist of names.
use henry.Prelude.{
  ◌≡◌, refl, ap, sym, ◌∙◌, ◌≢◌, false, List, [], ◌∷◌, ◌++◌, append_assoc, arith, ==_iff, All,
}
use henry.Text.{Text, ◌===◌, ===_iff, has_char, join}
use henry.Text.Split.{join-cons}
use henry.PosixPath.{join_path, slash, root, ends_with_slash}
use henry.PosixPath.Normal.{IsName}
use henry.PosixPath.Relative.{names-relative}

append-ne-nil : (s t : Text) → t ≢ [] → s ++ t ≢ []
append-ne-nil [] t n = n
append-ne-nil (c ∷ s) t n = λ e. cc

ends_with_slash-append : (s t : Text) → t ≢ [] → ends_with_slash (s ++ t) ≡ ends_with_slash t
unfolding ends_with_slash
ends_with_slash-append [] t n = refl
ends_with_slash-append (c ∷ []) [] n = absurd (n refl)
ends_with_slash-append (c ∷ []) (d ∷ t) n = refl
ends_with_slash-append (c ∷ d ∷ s) t n = ends_with_slash-append (d ∷ s) t n

ends_with_slash-free : (w : Text) → has_char slash w ≡ false → ends_with_slash w ≡ false
unfolding ends_with_slash has_char
ends_with_slash-free [] h = refl
ends_with_slash-free (c ∷ []) h = ground (arith, ==_iff slash c, ==_iff c slash)
ends_with_slash-free (c ∷ d ∷ t) h = ends_with_slash-free (d ∷ t) (ground arith)

join-ne-nil : (d : Text) (ds : List Text) → IsName d → join root (d ∷ ds) ≢ []
unfolding join
join-ne-nil [] ds h = absurd (h.0 refl)
join-ne-nil (c ∷ d) [] h = λ e. cc
join-ne-nil (c ∷ d) (e ∷ ds) h = λ q. cc

ends_with_slash-join :
    (d : Text) (ds : List Text) → All IsName (d ∷ ds) → ends_with_slash (join root (d ∷ ds)) ≡ false
ends_with_slash-join d [] h = unfold join in ends_with_slash-free d h.0.3
ends_with_slash-join d (e ∷ ds) h =
    ap (λ t. ends_with_slash t) (join-cons root d (e ∷ ds) (λ q. cc))
    ∙ (ends_with_slash-append d (root ++ join root (e ∷ ds)) (λ q. cc)
        ∙ (ends_with_slash-append root (join root (e ∷ ds)) (join-ne-nil e ds h.1.0)
            ∙ ends_with_slash-join e ds h.1))

join-append :
    (d e : Text) (ds es : List Text)
    → join root (d ∷ (ds ++ e ∷ es)) ≡ join root (d ∷ ds) ++ (root ++ join root (e ∷ es))
join-append d e [] es = join-cons root d (e ∷ es) (λ q. cc) ∙ unfold join in refl
join-append d e (f ∷ ds) es =
    join-cons root d (f ∷ (ds ++ e ∷ es)) (λ q. cc)
    ∙ (ap (λ t. d ++ (root ++ t)) (join-append f e ds es)
        ∙ (sym (append_assoc d (root ++ join root (f ∷ ds)) (root ++ join root (e ∷ es)))
            ∙ ap (λ t. t ++ (root ++ join root (e ∷ es)))
                (sym (join-cons root d (f ∷ ds) (λ q. cc)))))

-- The names of the two paths follow one another.
pub join_path-names :
    (d e : Text) (ds es : List Text)
    → All IsName (d ∷ ds)
    → IsName e
    → join_path (join root (d ∷ ds)) (join root (e ∷ es)) ≡ join root (d ∷ (ds ++ e ∷ es))
unfolding join_path
join_path-names d e ds es h k =
    rw
      (
        names-relative e es k,
        ends_with_slash-join d ds h,
        not_empty (join root (d ∷ ds)) (join-ne-nil d ds h.0),
      )
      (sym (join-append d e ds es))
  where
    not_empty : (t : Text) → t ≢ [] → (t === []) ≡ false
    not_empty t n = ground (arith, ===_iff t [])
