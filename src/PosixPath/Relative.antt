-- ===== src/PosixPath/Relative.antt =====
-- What normpath returns for a path that does not start with a slash: climbs first, then names.
use henry.Prelude.{
  ℕ, ◌≡◌, refl, ap, sym, subst, ◌∙◌, ◌≢◌, ◌⊎◌, inl, inr, Bool-cases, true, false, List, [], ◌∷◌,
  ◌++◌, append-nil, append_assoc, arith, All,
}
use henry.Text.{Text, ◌===◌, ===_iff, starts_with, starts_with-append, has_char, split, join}
use henry.Text.Split.{split-All, split-join, join-cons}
use henry.PosixPath.{
  normpath, dot, dotdot, slash, root, initial_slashes, step, components, rev, or_dot,
}
use henry.PosixPath.Normal.{IsName, rev-All, names-slash_free}

-- Components found so far, the last one first: names above climbs.
data Climbs : List Text → Type 0 where
  climbs : (ups : List Text) → All (λ w. w ≡ dotdot) ups → Climbs ups
  name : (w : Text) (ws : List Text) → IsName w → Climbs ws → Climbs (w ∷ ws)

step-name : (ws : List Text) (comp : Text) → IsName comp → step false ws comp ≡ comp ∷ ws
unfolding step
step-name [] comp n = ground (arith, ===_iff comp [], ===_iff comp dot, ===_iff comp dotdot)
step-name (w ∷ ws) comp n = ground (arith, ===_iff comp [], ===_iff comp dot, ===_iff comp dotdot)

push_name : (ws : List Text) (comp : Text) → IsName comp → Climbs ws → Climbs (step false ws comp)
push_name ws comp n c = subst Climbs (sym (step-name ws comp n)) (name comp ws n c)

not_dotdot : (w : Text) → w ≢ dotdot → (w === dotdot) ≡ false
not_dotdot w n = ground (arith, ===_iff w dotdot)

push_dotdot : (ws : List Text) → Climbs ws → Climbs (step false ws dotdot)
unfolding step ◌===◌
push_dotdot ws (climbs [] h) = climbs (dotdot ∷ []) (refl, tt)
push_dotdot ws (climbs (u ∷ us) h) = rw h.0 (climbs (dotdot ∷ dotdot ∷ us) (refl, (refl, h.1)))
push_dotdot ws (name v vs n c) = rw (not_dotdot v n.2) c

step-Climbs :
    (ws : List Text) (comp : Text)
    → has_char slash comp ≡ false
    → Climbs ws
    → Climbs (step false ws comp)
step-Climbs ws comp h c =
    by_kind (Bool-cases (comp === [])) (Bool-cases (comp === dot)) (Bool-cases (comp === dotdot))
  where
    by_kind :
        (comp === [] ≡ true) ⊎ (comp === [] ≡ false)
        → (comp === dot ≡ true) ⊎ (comp === dot ≡ false)
        → (comp === dotdot ≡ true) ⊎ (comp === dotdot ≡ false)
        → Climbs (step false ws comp)
    by_kind (inl e) f g = unfold step in rw e c
    by_kind (inr e) (inl f) g = unfold step in rw (e, f) c
    by_kind (inr e) (inr f) (inl g) = rw ((===_iff comp dotdot).0 g) (push_dotdot ws c)
    by_kind (inr e) (inr f) (inr g) =
        push_name ws comp (ground (arith, ===_iff comp [], ===_iff comp dot, ===_iff comp dotdot)) c

components-Climbs :
    (ws parts : List Text)
    → Climbs ws
    → All (λ w. has_char slash w ≡ false) parts
    → Climbs (components false ws parts)
unfolding components
components-Climbs ws [] c h = c
components-Climbs ws (comp ∷ rest) c h =
    components-Climbs (step false ws comp) rest (step-Climbs ws comp h.0 c) h.1

-- The components in order: climbs, then names.
record Parts (ws : List Text) : Type 0 where
  ups : List Text
  names : List Text
  upward : All (λ w. w ≡ dotdot) ups
  proper : All IsName names
  order : ws ≡ ups ++ names

rev-append : (acc ws : List Text) → rev acc ws ≡ rev [] ws ++ acc
unfolding rev
rev-append acc [] = refl
rev-append acc (w ∷ ws) =
    rev-append (w ∷ acc) ws
    ∙ (sym (append_assoc (rev [] ws) (w ∷ []) acc)
        ∙ ap (λ r. r ++ acc) (sym (rev-append (w ∷ []) ws)))

rev-Parts : (acc ws : List Text) → All IsName acc → Climbs ws → Parts (rev acc ws)
unfolding rev
rev-Parts acc ws h (climbs u w) = record {
  ups = rev [] u;
  names = acc;
  upward = rev-All (λ w. w ≡ dotdot) [] u tt w;
  proper = h;
  order = rev-append acc u;
}
rev-Parts acc ws h (name v vs n c) = rev-Parts (v ∷ acc) vs (n, h) c

relative_components : Text → List Text
relative_components path = rev [] (components false [] (split slash path))

relative_components-Parts : (path : Text) → Parts (relative_components path)
unfolding relative_components
relative_components-Parts path =
    rev-Parts [] (components false [] (split slash path)) tt
      (components-Climbs [] (split slash path) (climbs [] tt) (split-All slash path))

no_slash : (path : Text) → starts_with root path ≡ false → initial_slashes path ≡ []
unfolding initial_slashes starts_with
no_slash [] h = refl
no_slash (c ∷ t) h = ground arith

normpath-relative :
    (path : Text)
    → starts_with root path ≡ false
    → normpath path ≡ or_dot (join root (relative_components path))
unfolding normpath relative_components
normpath-relative path h = start ∙ ap (λ k. or_dot (k ++ join root comps)) (no_slash path h)
  where
    comps : List Text
    comps = rev [] (components false [] (split slash path))

    start : normpath path ≡ or_dot (initial_slashes path ++ join root comps)
    start = rw h

abbrev climb : Text
climb = b'.' ∷ b'.' ∷ slash ∷ []

or_dot-nonempty : (c : ℕ) (t : Text) → or_dot (c ∷ t) ≡ c ∷ t
unfolding or_dot
or_dot-nonempty c t = refl

join-climb :
    (w : Text) (ws : List Text) → w ≡ dotdot → ws ≢ [] → join root (w ∷ ws) ≡ climb ++ join root ws
join-climb w ws e n = join-cons root w ws n ∙ rw e

climb-seen :
    (w : Text) (ws : List Text)
    → w ≡ dotdot
    → ws ≢ []
    → starts_with climb (or_dot (join root (w ∷ ws))) ≡ true
climb-seen w ws e n =
    rw (join-climb w ws e n, or_dot-nonempty b'.' (b'.' ∷ slash ∷ join root ws))
      (starts_with-append climb (join root ws))

-- Climbs show at the start of the text.
climbs-seen :
    (ups names : List Text)
    → All (λ w. w ≡ dotdot) ups
    → or_dot (join root (ups ++ names)) ≢ dotdot
    → starts_with climb (or_dot (join root (ups ++ names))) ≡ false
    → ups ≡ []
climbs-seen [] names u d s = refl
climbs-seen (w ∷ []) [] u d s =
    absurd (d (unfold join in rw u.0 (or_dot-nonempty b'.' (b'.' ∷ []))))
climbs-seen (w ∷ []) (v ∷ vs) u d s = absurd (cc (climb-seen w (v ∷ vs) u.0 (λ e. cc)))
climbs-seen (w ∷ x ∷ ws) names u d s = absurd (cc (climb-seen w (x ∷ (ws ++ names)) u.0 (λ e. cc)))

-- A path below where it starts: names only, and `.` for the place itself.
pub record IsBelow (p : Text) : Type 0 where
  pub names : List Text
  pub proper : All IsName names
  pub path : p ≡ or_dot (join root names)

-- The test `normalized == ".." or normalized.startswith("../")` finds every path that climbs.
pub normpath-IsBelow :
    (path : Text)
    → starts_with root path ≡ false
    → normpath path ≢ dotdot
    → starts_with climb (normpath path) ≡ false
    → IsBelow (normpath path)
normpath-IsBelow path r d s = record {
  names = ps.names;
  proper = ps.proper;
  path = form ∙ ap (λ us. or_dot (join root (us ++ ps.names))) none_up;
}
  where
    ps : Parts (relative_components path)
    ps = relative_components-Parts path

    form : normpath path ≡ or_dot (join root (ps.ups ++ ps.names))
    form = normpath-relative path r ∙ ap (λ ws. or_dot (join root ws)) ps.order

    none_up : ps.ups ≡ []
    none_up =
        climbs-seen ps.ups ps.names ps.upward (λ e. d (form ∙ e))
          (ap (λ t. starts_with climb t) (sym form) ∙ s)

components-names : (ws ds : List Text) → All IsName ds → components false ws ds ≡ rev ws ds
unfolding components rev
components-names ws [] h = refl
components-names ws (d ∷ ds) h = rw (step-name ws d h.0) (components-names (d ∷ ws) ds h.1)

rev-rev : (b a ws : List Text) → rev b (rev a ws) ≡ rev (ws ++ b) a
unfolding rev
rev-rev b a [] = refl
rev-rev b a (w ∷ ws) = rev-rev b (w ∷ a) ws

relative_components-names :
    (d : Text) (ds : List Text)
    → All IsName (d ∷ ds)
    → relative_components (join root (d ∷ ds)) ≡ d ∷ ds
unfolding relative_components rev
relative_components-names d ds h =
    rw
      (
        split-join slash (d ∷ ds) (λ e. cc) (names-slash_free (d ∷ ds) h),
        components-names [] (d ∷ ds) h,
      )
      (rev-rev [] [] (d ∷ ds) ∙ append-nil (d ∷ ds))

pub or_dot-join :
    (d : Text) (ds : List Text) → IsName d → or_dot (join root (d ∷ ds)) ≡ join root (d ∷ ds)
unfolding join or_dot
or_dot-join [] ds h = absurd (h.0 refl)
or_dot-join (c ∷ d) [] h = refl
or_dot-join (c ∷ d) (e ∷ ds) h = refl

pub names-relative :
    (d : Text) (ds : List Text) → IsName d → starts_with root (join root (d ∷ ds)) ≡ false
unfolding join starts_with has_char
names-relative [] ds h = absurd (h.0 refl)
names-relative (c ∷ d) [] h = ground (arith, h.3)
names-relative (c ∷ d) (e ∷ ds) h = ground (arith, h.3)

-- A path of names is in normal form.
pub normpath-names :
    (d : Text) (ds : List Text)
    → All IsName (d ∷ ds)
    → normpath (join root (d ∷ ds)) ≡ join root (d ∷ ds)
normpath-names d ds h =
    normpath-relative (join root (d ∷ ds)) (names-relative d ds h.0)
    ∙ (ap (λ ws. or_dot (join root ws)) (relative_components-names d ds h) ∙ or_dot-join d ds h.0)

pub or_dot-nil : or_dot (join root []) ≡ dot
unfolding or_dot join
or_dot-nil = refl
