-- ===== src/Web/Pages.antt =====
-- _TextExtractor, _extract_text, _trim_text, the reading of a body in web_fetch and web_search of
-- henry/integrations/builtins/web.py.
pub mod Bounds
use henry.Prelude.{
  ℕ, zero, suc, ◌+◌, ◌-◌, ◌*◌, Bool, true, false, not, ◌&&◌, ◌||◌, List, [], ◌∷◌, ◌++◌, length,
  take, concat, ltb, leb, ◌==◌, max, min, if◌then◌else◌, keep_if, map,
}
use henry.Text.Words.{words}
use henry.Text.{Text, codes, ◌===◌, starts_with, join}

abbrev pub max_fetch_bytes : ℕ
max_fetch_bytes = 1000 * 1000

abbrev pub max_text_chars : ℕ
max_text_chars = 20 * 1000

-- What the parser reports of a page.
pub data HtmlEvent : Type 0 where
  start_tag end_tag data_text : Text → HtmlEvent

pub record Extractor : Type 0 where
  pub skip : ℕ
  pub parts : List Text

abbrev pub new_extractor : Extractor
new_extractor = record { skip = 0; parts = [] }

is_skipped_tag : Text → Bool
is_skipped_tag tag = tag === codes "script" || (tag === codes "style" || tag === codes "noscript")

handle_data : Extractor → Text → Extractor
handle_data x text_data =
    let text = join (codes " ") (words [] text_data) in
    if x.skip == 0 && not (text === []) then record x { parts = x.parts ++ text ∷ [] } else x

handle_event : Extractor → HtmlEvent → Extractor
unfolding is_skipped_tag handle_data
handle_event x (start_tag tag) = if is_skipped_tag tag then record x { skip = x.skip + 1 } else x
handle_event x (end_tag tag) =
    if is_skipped_tag tag && not (x.skip == 0) then record x { skip = x.skip - 1 } else x
handle_event x (data_text t) = handle_data x t

feed : Extractor → List HtmlEvent → Extractor
unfolding handle_event
feed x [] = x
feed x (e ∷ events) = feed (handle_event x e) events

-- `needle in text`
contains : Text → Text → Bool
contains needle [] = needle === []
contains needle (c ∷ t) = starts_with needle (c ∷ t) || contains needle t

-- `_extract_text` on the decoded body
unfoldable pub extract_text : (Text → Text) → (Text → List HtmlEvent) → Text → Text → Text
unfolding contains feed
extract_text lower html_events content_type raw =
    if not (contains (codes "html") (lower content_type))
    then raw
    else join (codes "\n") (feed new_extractor (html_events raw)).parts

unfoldable pub trim_text : Text → Text × Bool
trim_text text =
    if leb (length text) max_text_chars
    then (text, false)
    else (take max_text_chars text ++ codes "\n...[truncated]", true)

-- `async for chunk in response.aiter_bytes()`, with the chunks and the size so far.
read_chunks : List (List ℕ) → ℕ → List (List ℕ) → List (List ℕ) × Bool
read_chunks chunks total [] = (chunks, false)
read_chunks chunks total (chunk ∷ rest) =
    let more = read_chunks (chunks ++ chunk ∷ []) (total + length chunk) rest in
    if ltb max_fetch_bytes (total + length chunk) then (chunks ++ chunk ∷ [], true) else more

unfoldable pub read_body : List (List ℕ) → List ℕ × Bool
unfolding read_chunks
read_body stream =
    let (chunks, truncated) = read_chunks [] 0 stream in
    (take max_fetch_bytes (concat chunks), truncated)
