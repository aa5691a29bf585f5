-- ===== src/Web/Search.antt =====
-- web_search and _configured_domains of henry/integrations/builtins/web.py. The server is a function of the
-- request; what `str` makes of a value that is no text is a parameter.
pub mod Bounded
use henry.Prelude.{
  ℕ, zero, suc, Bool, true, false, not, ◌&&◌, Option, none, some, List, [], ◌∷◌, ◌++◌, map, keep_if,
  take, leb, if◌then◌else◌,
}
use henry.Prelude.Int.{ℤ, pos, negsuc}
use henry.Text.{Text, codes, ◌===◌, split}
use henry.Text.Words.{strip}
use henry.Json.{Json, Fields, str, arr, obj, nil, get_default, py_str, of_items}
use henry.Result.{Result, ok, err, runtime_error, type_error, other_error, ◌>>=◌, ◌>>◌}

-- The setting web_allowed_domains, where there is one: a text, or its items as `str` gives them.
pub data Domains : Type 0 where
  one_text : Text → Domains
  several : List Text → Domains

lowered : (Text → Text) → Domains → List Text
lowered lower (one_text value) =
    map (λ item. lower (strip item)) (keep_if (λ item. not (strip item === [])) (split 44 value))
lowered lower (several items) = map lower items

-- `_configured_domains`
unfoldable pub configured_domains :
    (Text → Text) → (fallback : List Text) → Option Domains → List Text
unfolding lowered
configured_domains lower fallback none = map lower fallback
configured_domains lower fallback (some value) = lowered lower value

pub record SearchRequest : Type 0 where
  pub api_key : Text
  pub query : Text
  pub max_results : ℕ

pub record SearchResponse : Type 0 where
  pub raise_for_status : Result (Unit {0})
  pub json : Result Json

pub record Found : Type 0 where
  pub title : Text
  pub url : Text
  pub content : Text

-- `max(1, min(limit, 10))`
unfoldable pub max_results_of : ℤ → ℕ
max_results_of (pos zero) = 1
max_results_of (pos (suc n)) = if leb (suc n) 10 then suc n else 10
max_results_of (negsuc n) = 1

-- `results[:n]`: the characters of a text are texts.
first_items : ℕ → Json → Result (List Json)
first_items n (arr items) = ok (take n (of_items items))
first_items n (str t) = ok (take n (map (λ c. str (c ∷ [])) t))
first_items n (obj fields) = err (other_error (codes "slice"))
first_items n v = err (type_error (codes "object is not subscriptable"))

-- `data.get("results", []) if isinstance(data, dict) else []`
results_of : Json → Json
results_of (obj answer) = get_default (codes "results") (arr nil) answer
results_of v = arr nil

-- `getattr(settings, "web_search_provider", "tavily")`
unfoldable pub provider_of : Option Text → Text
provider_of none = codes "tavily"
provider_of (some provider) = provider

unfoldable pub key_of : Option Text → Text
key_of none = []
key_of (some api_key) = api_key

module _ (show : Json → Text) where
  text_at : Text → Fields → Text
  text_at key item = py_str show (get_default key (str []) item)

  -- An item that is no dictionary has no `get`.
  found_item : Json → Result Found
  unfolding text_at
  found_item (obj item) = ok (record {
    title = text_at (codes "title") item;
    url = text_at (codes "url") item;
    content = take 2000 (text_at (codes "content") item);
  })
  found_item v = err (other_error (codes "object has no attribute 'get'"))

  found_all : List Json → Result (List Found)
  unfolding found_item
  found_all [] = ok []
  found_all (v ∷ vs) = do found ← found_item v; rest ← found_all vs; ok (found ∷ rest)

  answered : ℕ → SearchResponse → Result (List Found)
  unfolding first_items results_of found_all
  answered n response = do
    response.raise_for_status
    answer ← response.json
    items ← first_items n (results_of answer)
    found_all items

  -- The requests that are sent, and what the tool returns.
  searched :
      (SearchRequest → Result SearchResponse)
      → (api_key query : Text) → ℕ
      → List SearchRequest × Result (List Found)
  unfolding answered
  searched post api_key query n =
      let request : SearchRequest = record { api_key = api_key; query = query; max_results = n } in
      (request ∷ [], post request >>= answered n)

  unfoldable pub web_search :
      (lower : Text → Text)
      → (SearchRequest → Result SearchResponse)
      → (provider api_key : Option Text) → (query : Text) → (limit : ℤ)
      → List SearchRequest × Result (List Found)
  unfolding searched provider_of key_of
  web_search lower post provider api_key query limit =
      let n = max_results_of limit in
      if lower (provider_of provider) === codes "tavily"
      then if key_of api_key === []
        then (
          [],
          err (
              runtime_error (codes "web search provider tavily requires HENRY_WEB_SEARCH_API_KEY")),
        )
        else searched post (key_of api_key) query n
      else (
        [],
        err (
            runtime_error
              (codes "unsupported web search provider " ++ lower (provider_of provider))),
      )
