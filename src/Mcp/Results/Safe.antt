-- ===== src/Mcp/Results/Safe.antt =====
-- What `_neutralize_result` gives to the model, whatever a server sends.
use henry.Prelude.{
  ℕ, ◌+◌, ◌≤◌, ◌≡◌, refl, Bool, true, false, Option, none, some, ◌++◌, arith, length, length-append,
  length-take, take, leb, leb→le, Bool-cases, inl, inr,
}
use henry.Text.{Text, codes, ◌===◌, has_char}
use henry.Sanitize.{less, greater, neutralize_delimiters}
use henry.Sanitize.Clean.{IsClean, neutralize_delimiters-IsClean}
use henry.Sanitize.Cut.{take-IsClean}
use henry.Mcp.Results.{
  max_result_chars, truncation_note, Value, Values, Entries, text, sequence, mapping, other, nil,
  cons, end, entry, put_entry, cut_long, truncate, walk, walk_values, walk_entries, cap_strings,
  cap_values, cap_entries, cut_rendered, cap_structure, cap_result, neutralize_result,
}

note_greater : has_char greater truncation_note ≡ false
unfolding truncation_note codes has_char
note_greater = refl

note_less : has_char less truncation_note ≡ false
unfolding truncation_note codes has_char
note_less = refl

-- The size that a text keeps when it is cut and the note is put behind it.
abbrev pub longest : ℕ
longest = max_result_chars + length truncation_note

length-cut : (t : Text) → length (take max_result_chars t ++ truncation_note) ≤ longest
length-cut t =
    omega (
      arith,
      length-append (take max_result_chars t) truncation_note,
      length-take max_result_chars t,
    )

length-truncate : (t : Text) → length (truncate t) ≤ longest
unfolding truncate
length-truncate t = by_size (leb (length t) max_result_chars) refl
  where
    by_size : (b : Bool) → leb (length t) max_result_chars ≡ b → length (cut_long b t) ≤ longest
    by_size true e = unfold cut_long in omega (arith, leb→le (length t) max_result_chars e)
    by_size false e = unfold cut_long in length-cut t

module _ (is_alnum : ℕ → Bool) where
  -- No text of a value, the keys of its dictionaries included, has a place that starts a reserved tag.
  mutual
    pub AllClean : Value → Type 0
    AllClean (text t) = IsClean is_alnum t
    AllClean (sequence vs) = AllCleanValues vs
    AllClean (mapping es) = AllCleanEntries es
    AllClean (other n) = Unit

    pub AllCleanValues : Values → Type 0
    AllCleanValues nil = Unit
    AllCleanValues (cons v vs) = AllClean v × AllCleanValues vs

    pub AllCleanEntries : Entries → Type 0
    AllCleanEntries end = Unit
    AllCleanEntries (entry k v es) = IsClean is_alnum k × AllClean v × AllCleanEntries es

  put_entry-AllClean :
      (k : Text) (v : Value) (es : Entries)
      → IsClean is_alnum k
      → AllClean v
      → AllCleanEntries es
      → AllCleanEntries (put_entry k v es)
  unfolding put_entry AllCleanEntries
  put_entry-AllClean k v end c d h = (c, d, tt)
  put_entry-AllClean k v (entry j w es) c d h = elim (Bool-cases (j === k)) [
    | inl e ↦ rw e (h.0, d, h.2)
    | inr e ↦ rw e (h.0, h.1, put_entry-AllClean k v es c d h.2)
  ]

  module _ (less_apart : is_alnum less ≡ false) where
    neutralized : (t : Text) → IsClean is_alnum (neutralize_delimiters is_alnum t)
    neutralized t = (neutralize_delimiters-IsClean is_alnum less_apart t).0

    mutual
      unfolding walk walk_values walk_entries AllClean AllCleanValues AllCleanEntries

      walk-AllClean : (v : Value) → AllClean (walk is_alnum v)
      walk-AllClean (text t) = neutralized t
      walk-AllClean (sequence vs) = walk_values-AllClean vs
      walk-AllClean (mapping es) = walk_entries-AllClean end es tt
      walk-AllClean (other n) = tt

      walk_values-AllClean : (vs : Values) → AllCleanValues (walk_values is_alnum vs)
      walk_values-AllClean nil = tt
      walk_values-AllClean (cons v vs) = (walk-AllClean v, walk_values-AllClean vs)

      walk_entries-AllClean :
          (so_far es : Entries)
          → AllCleanEntries so_far
          → AllCleanEntries (walk_entries is_alnum so_far es)
      walk_entries-AllClean so_far end h = h
      walk_entries-AllClean so_far (entry k v es) h =
          walk_entries-AllClean
            (put_entry (neutralize_delimiters is_alnum k) (walk is_alnum v) so_far) es
            (put_entry-AllClean (neutralize_delimiters is_alnum k) (walk is_alnum v) so_far
              (neutralized k) (walk-AllClean v) h)

  cut-IsClean :
      (t : Text)
      → IsClean is_alnum t
      → IsClean is_alnum (take max_result_chars t ++ truncation_note)
  cut-IsClean t h =
      take-IsClean truncation_note note_greater is_alnum max_result_chars t note_less h

  truncate-IsClean : (t : Text) → IsClean is_alnum t → IsClean is_alnum (truncate t)
  unfolding truncate
  truncate-IsClean t h = by_size (leb (length t) max_result_chars)
    where
      by_size : (b : Bool) → IsClean is_alnum (cut_long b t)
      by_size true = unfold cut_long in h
      by_size false = unfold cut_long in cut-IsClean t h

  mutual
    unfolding cap_strings cap_values cap_entries AllClean AllCleanValues AllCleanEntries

    cap_strings-AllClean : (v : Value) → AllClean v → AllClean (cap_strings v)
    cap_strings-AllClean (text t) h = truncate-IsClean t h
    cap_strings-AllClean (sequence vs) h = cap_values-AllClean vs h
    cap_strings-AllClean (mapping es) h = cap_entries-AllClean es h
    cap_strings-AllClean (other n) h = tt

    cap_values-AllClean : (vs : Values) → AllCleanValues vs → AllCleanValues (cap_values vs)
    cap_values-AllClean nil h = tt
    cap_values-AllClean (cons v vs) h = (cap_strings-AllClean v h.0, cap_values-AllClean vs h.1)

    cap_entries-AllClean : (es : Entries) → AllCleanEntries es → AllCleanEntries (cap_entries es)
    cap_entries-AllClean end h = tt
    cap_entries-AllClean (entry k v es) h =
        (h.0, cap_strings-AllClean v h.1, cap_entries-AllClean es h.2)

-- Each text of a value that is not a key is within the limit and the note.
mutual
  pub AllShort : Value → Type 0
  AllShort (text t) = length t ≤ longest
  AllShort (sequence vs) = AllShortValues vs
  AllShort (mapping es) = AllShortEntries es
  AllShort (other n) = Unit

  pub AllShortValues : Values → Type 0
  AllShortValues nil = Unit
  AllShortValues (cons v vs) = AllShort v × AllShortValues vs

  pub AllShortEntries : Entries → Type 0
  AllShortEntries end = Unit
  AllShortEntries (entry k v es) = AllShort v × AllShortEntries es

mutual
  unfolding cap_strings cap_values cap_entries AllShort AllShortValues AllShortEntries

  cap_strings-AllShort : (v : Value) → AllShort (cap_strings v)
  cap_strings-AllShort (text t) = length-truncate t
  cap_strings-AllShort (sequence vs) = cap_values-AllShort vs
  cap_strings-AllShort (mapping es) = cap_entries-AllShort es
  cap_strings-AllShort (other n) = tt

  cap_values-AllShort : (vs : Values) → AllShortValues (cap_values vs)
  cap_values-AllShort nil = tt
  cap_values-AllShort (cons v vs) = (cap_strings-AllShort v, cap_values-AllShort vs)

  cap_entries-AllShort : (es : Entries) → AllShortEntries (cap_entries es)
  cap_entries-AllShort end = tt
  cap_entries-AllShort (entry k v es) = (cap_strings-AllShort v, cap_entries-AllShort es)

module _ (is_alnum : ℕ → Bool) (dumps : Value → Option Text) where
  -- The size of a result: its JSON text, with the tags escaped, is within the limit, or its texts are.
  pub data IsSized (v : Value) : Type 0 where
    rendered_short :
        (dumped : Text)
        → dumps v ≡ some dumped
        → length (neutralize_delimiters is_alnum dumped) ≤ max_result_chars
        → IsSized v
    texts_short : AllShort v → IsSized v

  cut_rendered-IsSized :
      (dumped : Text) (v : Value)
      → dumps v ≡ some dumped
      → IsSized (
          cut_rendered is_alnum dumps
            (leb (length (neutralize_delimiters is_alnum dumped)) max_result_chars)
            (neutralize_delimiters is_alnum dumped)
            v)
  cut_rendered-IsSized dumped v e =
      by_size (leb (length (neutralize_delimiters is_alnum dumped)) max_result_chars) refl
    where
      by_size :
          (b : Bool)
          → leb (length (neutralize_delimiters is_alnum dumped)) max_result_chars ≡ b
          → IsSized (cut_rendered is_alnum dumps b (neutralize_delimiters is_alnum dumped) v)
      by_size true f = unfold cut_rendered in rendered_short dumped e (leb→le _ _ f)
      by_size false f =
          unfold cut_rendered in
          texts_short (unfold AllShort in length-cut (neutralize_delimiters is_alnum dumped))

  cap_structure-IsSized :
      (o : Option Text) (v : Value) → dumps v ≡ o → IsSized (cap_structure is_alnum dumps o v)
  unfolding cap_structure
  cap_structure-IsSized none v e = texts_short (cap_strings-AllShort v)
  cap_structure-IsSized (some dumped) v e = cut_rendered-IsSized dumped v e

  cap_result-IsSized : (v : Value) → IsSized (cap_result is_alnum dumps v)
  unfolding cap_result
  cap_result-IsSized (text t) = texts_short (unfold AllShort in length-truncate t)
  cap_result-IsSized (sequence vs) = cap_structure-IsSized (dumps (sequence vs)) (sequence vs) refl
  cap_result-IsSized (mapping es) = cap_structure-IsSized (dumps (mapping es)) (mapping es) refl
  cap_result-IsSized (other n) = texts_short (unfold AllShort in tt)

  module _ (less_apart : is_alnum less ≡ false) where
    cap_structure-AllClean :
        (o : Option Text) (v : Value)
        → AllClean is_alnum v
        → AllClean is_alnum (cap_structure is_alnum dumps o v)
    unfolding cap_structure
    cap_structure-AllClean none v h = cap_strings-AllClean is_alnum v h
    cap_structure-AllClean (some dumped) v h =
        by_size (leb (length (neutralize_delimiters is_alnum dumped)) max_result_chars)
      where
        by_size :
            (b : Bool)
            → AllClean is_alnum
                (cut_rendered is_alnum dumps b (neutralize_delimiters is_alnum dumped) v)
        by_size true = unfold cut_rendered in h
        by_size false =
            unfold cut_rendered in
            unfold AllClean in cut-IsClean is_alnum _ (neutralized is_alnum less_apart dumped)

    cap_result-AllClean :
        (v : Value) → AllClean is_alnum v → AllClean is_alnum (cap_result is_alnum dumps v)
    unfolding cap_result
    cap_result-AllClean (text t) h =
        unfold AllClean in truncate-IsClean is_alnum t (unfold AllClean in h)
    cap_result-AllClean (sequence vs) h =
        cap_structure-AllClean (dumps (sequence vs)) (sequence vs) h
    cap_result-AllClean (mapping es) h = cap_structure-AllClean (dumps (mapping es)) (mapping es) h
    cap_result-AllClean (other n) h = h

    -- Whatever a server's tool returns, and whatever `json.dumps` makes of it: no text of the result, keys
    -- included, has a place that starts a reserved tag, also where it was cut, and the result is within the
    -- limit on its JSON text, or each of its texts but the keys is within the limit and the note.
    pub neutralize_result-IsSafe :
        (value : Value)
        → AllClean is_alnum (neutralize_result is_alnum dumps value)
          × IsSized (neutralize_result is_alnum dumps value)
    unfolding neutralize_result
    neutralize_result-IsSafe value = (
      cap_result-AllClean (walk is_alnum value) (walk-AllClean is_alnum less_apart value),
      cap_result-IsSized (walk is_alnum value),
    )
