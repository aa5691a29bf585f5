-- ===== src/Mcp/Results.antt =====
-- `_truncate` and `_neutralize_result` of henry/integrations/mcp.py. `dumps` is `json.dumps`, which
-- raises for a value with parts that are not JSON; `is_alnum` is `str.isalnum` of one character.
pub mod Safe
use henry.Prelude.{
  ℕ, Bool, true, false, Option, none, some, List, [], ◌∷◌, ◌++◌, length, take, leb, if◌then◌else◌,
}
use henry.Text.{Text, codes, ◌===◌}
use henry.Sanitize.{neutralize_delimiters}

-- `_MAX_RESULT_CHARS`
unfoldable pub max_result_chars : ℕ
max_result_chars = 50000

-- `_TRUNCATION_NOTE`, with the limit put in
unfoldable pub truncation_note : Text
truncation_note = codes "\n[truncated by henry: tool result exceeded 50000 chars]"

-- A result of a tool: a string, a list, a dictionary with strings for keys, or another object.
mutual
  pub data Value : Type 0 where
    text : Text → Value
    sequence : Values → Value
    mapping : Entries → Value
    other : ℕ → Value

  pub data Values : Type 0 where
    nil : Values
    cons : Value → Values → Values

  pub data Entries : Type 0 where
    end : Entries
    entry : Text → Value → Entries → Entries

-- `d[key] = value`
pub put_entry : Text → Value → Entries → Entries
put_entry k v end = entry k v end
put_entry k v (entry j w es) =
    let rest = put_entry k v es in if j === k then entry j v es else entry j w rest

cut_long : Bool → Text → Text
cut_long true t = t
cut_long false t = take max_result_chars t ++ truncation_note

-- `_truncate`
pub truncate : Text → Text
unfolding cut_long
truncate t = cut_long (leb (length t) max_result_chars) t

module _ (is_alnum : ℕ → Bool) where
  -- `walk`
  mutual
    unfolding put_entry

    pub walk : Value → Value
    walk (text t) = text (neutralize_delimiters is_alnum t)
    walk (sequence vs) = sequence (walk_values vs)
    walk (mapping es) = mapping (walk_entries end es)
    walk (other n) = other n

    pub walk_values : Values → Values
    walk_values nil = nil
    walk_values (cons v vs) = cons (walk v) (walk_values vs)

    pub walk_entries : Entries → Entries → Entries
    walk_entries so_far end = so_far
    walk_entries so_far (entry k v es) =
        walk_entries (put_entry (neutralize_delimiters is_alnum k) (walk v) so_far) es

-- `cap_strings`
mutual
  unfolding truncate

  pub cap_strings : Value → Value
  cap_strings (text t) = text (truncate t)
  cap_strings (sequence vs) = sequence (cap_values vs)
  cap_strings (mapping es) = mapping (cap_entries es)
  cap_strings (other n) = other n

  pub cap_values : Values → Values
  cap_values nil = nil
  cap_values (cons v vs) = cons (cap_strings v) (cap_values vs)

  pub cap_entries : Entries → Entries
  cap_entries end = end
  cap_entries (entry k v es) = entry k (cap_strings v) (cap_entries es)

module _ (is_alnum : ℕ → Bool) (dumps : Value → Option Text) where
  cut_rendered : Bool → Text → Value → Value
  cut_rendered true rendered clean = clean
  cut_rendered false rendered clean = text (take max_result_chars rendered ++ truncation_note)

  -- A clean list or dictionary, by what `json.dumps` makes of it.
  cap_structure : Option Text → Value → Value
  unfolding cap_strings cut_rendered
  cap_structure none clean = cap_strings clean
  cap_structure (some dumped) clean =
      let rendered = neutralize_delimiters is_alnum dumped in
      cut_rendered (leb (length rendered) max_result_chars) rendered clean

  cap_result : Value → Value
  unfolding cap_structure truncate
  cap_result (text t) = text (truncate t)
  cap_result (sequence vs) = cap_structure (dumps (sequence vs)) (sequence vs)
  cap_result (mapping es) = cap_structure (dumps (mapping es)) (mapping es)
  cap_result (other n) = other n

  -- `_neutralize_result`
  unfoldable pub neutralize_result : Value → Value
  unfolding walk cap_result
  neutralize_result value = cap_result (walk is_alnum value)
