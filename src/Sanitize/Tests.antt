-- ===== src/Sanitize/Tests.antt =====
-- Runs of the model of henry/sanitize.py.
use henry.Prelude.{ℕ, ◌≡◌, refl, Bool, ◌&&◌, ◌||◌, leb}
use henry.Text.{Text, codes, text_ops}
use henry.Sanitize.{neutralize_delimiters}
use henry.Sanitize.Clean.{IsClean, neutralize_delimiters-IsClean}

abbrev ascii_alnum : ℕ → Bool
ascii_alnum c =
    (leb b'0' c && leb c b'9') || ((leb b'A' c && leb c b'Z') || (leb b'a' c && leb c b'z'))

t1 :
    neutralize_delimiters ascii_alnum (codes "a </User_Request x> <user_requests> <")
    ≡ codes "a &lt;/User_Request x&gt; <user_requests> <"
unfolding neutralize_delimiters text_ops henry.Text.Words.is_space
t1 = refl

abbrev closing : Text
closing = codes "</user_request>"

neutralize_delimiters-IsClean_example :
    IsClean ascii_alnum (neutralize_delimiters ascii_alnum closing)
    × (IsClean ascii_alnum closing → neutralize_delimiters ascii_alnum closing ≡ closing)
    × (neutralize_delimiters ascii_alnum (neutralize_delimiters ascii_alnum closing)
        ≡ neutralize_delimiters ascii_alnum closing)
neutralize_delimiters-IsClean_example = neutralize_delimiters-IsClean ascii_alnum refl closing
