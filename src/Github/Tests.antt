-- ===== src/Github/Tests.antt =====
-- Runs of the models of henry/integrations/builtins/github.py.
use henry.Prelude.{refl, none, [], ◌∷◌, arith, All}
use henry.Text.{Text, codes, text_ops}
use henry.Json.{Json}
use henry.Json.Bytes.{size_ops}
use henry.Result.{ok}
use henry.Github.Paths.{repo_path, quote, quote_byte, is_unreserved, encode_char}
use henry.Github.Paths.Segments.{TwoSegments, IsCodePoint, repo_path-TwoSegments}
use henry.Github.Tools.{GithubSettings, Api, channel_list, open_pr, create_issue}
use henry.Github.Tools.Gated.{Gated, writes-Gated}

abbrev quoted : Text
quoted = codes "a%3Fb/c"

ascii : All IsCodePoint (codes "a?b")
unfolding codes
ascii = (omega arith, (omega arith, (omega arith, tt)))

ascii_c : All IsCodePoint (codes "c")
unfolding codes
ascii_c = (omega arith, tt)

repo_path-TwoSegments_example : TwoSegments quoted
unfolding repo_path quote quote_byte is_unreserved encode_char text_ops size_ops
repo_path-TwoSegments_example =
    repo_path-TwoSegments (codes "a?b") (codes "c") quoted ascii ascii_c refl

abbrev settings : GithubSettings
settings = record {
  token = codes "t";
  default_repo = [];
  write_channels = channel_list (codes "C1" ∷ []);
}

abbrev api : Api
api request = ok none

abbrev show : Json → Text
show v = []

writes-Gated_example :
    Gated settings
      (codes "C1")
      (codes "a")
      (codes "c")
      (codes "/pulls")
      (open_pr show settings api (codes "C1") (codes "a") (codes "c") [] [] [] []).requests
    × Gated settings
        (codes "C1")
        (codes "a")
        (codes "c")
        (codes "/issues")
        (create_issue show settings api (codes "C1") (codes "a") (codes "c") [] []).requests
writes-Gated_example =
    writes-Gated show settings api (codes "C1") (codes "a") (codes "c") [] [] [] []
