-- ===== src/Web/Search/Bounded.antt =====
-- What web_search asks the provider, and how much it returns.
use henry.Prelude.{
  ℕ, zero, suc, ◌≡◌, refl, Bool, true, false, not, ◌&&◌, Option, List, [], ◌∷◌, ◌≤◌, arith, All,
  length, take, length-take, map, ◌++◌, if◌then◌else◌,
}
use henry.Prelude.Int.{ℤ, pos, negsuc}
use henry.Text.{Text, codes, ◌===◌}
use henry.Json.{Json, null, boolean, integer, float, str, arr, obj, of_items}
use henry.Result.{
  Result, ok, err, runtime_error, Ensures, Ensures-ok, Ensures-bind, Ensures-bind-with,
}
use henry.Web.Search.{
  SearchRequest, SearchResponse, Found, max_results_of, first_items, found_item, found_all, text_at,
  results_of, answered, searched, web_search, provider_of, key_of,
}

-- At most that many results, none with more than 2000 characters of content.
pub record Within (n : ℕ) (found : List Found) : Type 0 where
  pub few : length found ≤ n
  pub short : All (λ f. length f.content ≤ 2000) found

-- What a search comes to: one request and the results within its bounds, or none and an exception.
pub record Asked (asks : Bool) (api_key query : Text) (n : ℕ)
    (out : List SearchRequest × Result (List Found)) : Type 0 where
  pub sent : asks ≡ true → out.0 ≡ record { api_key = api_key; query = query; max_results = n } ∷ []
  pub within : asks ≡ true → Ensures (Within n) out.1
  pub refused : asks ≡ false → (out.0 ≡ []) × ((m : Text) × (out.1 ≡ err (runtime_error m)))

max_results_bounds : (limit : ℤ) → (1 ≤ max_results_of limit) × (max_results_of limit ≤ 10)
unfolding max_results_of
max_results_bounds (pos zero) = (omega arith, omega arith)
max_results_bounds (pos (suc n)) = (ground arith, ground arith)
max_results_bounds (negsuc n) = (omega arith, omega arith)

taken :
    (n : ℕ) (items : List Json) → Ensures (λ some_items. length some_items ≤ n) (ok (take n items))
taken n items =
    Ensures-ok (λ some_items. length some_items ≤ n) (take n items)
      (omega (arith, length-take n items))

items_few : (n : ℕ) (v : Json) → Ensures (λ items. length items ≤ n) (first_items n v)
unfolding first_items
items_few n (arr items) = taken n (of_items items)
items_few n (str t) = taken n (map (λ c. str (c ∷ [])) t)
items_few n (obj fields) = λ a q. absurd (cc)
items_few n null = λ a q. absurd (cc)
items_few n (boolean b) = λ a q. absurd (cc)
items_few n (integer i) = λ a q. absurd (cc)
items_few n (float x) = λ a q. absurd (cc)

module _ (show : Json → Text) where
  item_short : (v : Json) → Ensures (λ f. length f.content ≤ 2000) (found_item show v)
  unfolding found_item
  item_short (obj item) =
      Ensures-ok (λ f. length f.content ≤ 2000) _
        (omega (arith, length-take 2000 (text_at show (codes "content") item)))
  item_short (arr items) = λ a q. absurd (cc)
  item_short (str t) = λ a q. absurd (cc)
  item_short null = λ a q. absurd (cc)
  item_short (boolean b) = λ a q. absurd (cc)
  item_short (integer i) = λ a q. absurd (cc)
  item_short (float x) = λ a q. absurd (cc)

  all_short :
      (vs : List Json)
      → Ensures
          (λ found. (length found ≡ length vs) × All (λ f. length f.content ≤ 2000) found)
          (found_all show vs)
  unfolding found_all
  all_short [] = Ensures-ok _ [] (refl, tt)
  all_short (v ∷ vs) = Ensures-bind-with (found_item show v) _ (item_short v) λ f short.
      Ensures-bind-with (found_all show vs) _ (all_short vs)
        λ rest (same, shorts). Ensures-ok _ (f ∷ rest) (omega (arith, same), (short, shorts))

  answered-Within :
      (n : ℕ) (response : SearchResponse) → Ensures (Within n) (answered show n response)
  unfolding answered
  answered-Within n response = Ensures-bind response.raise_for_status _ λ done.
      Ensures-bind response.json _ λ answer.
        Ensures-bind-with (first_items n (results_of answer)) _ (items_few n (results_of answer))
          λ items few. λ found q.
            let (same, shorts) = all_short items found q in
            record { few = omega (arith, same, few); short = shorts }

  searched-Asked :
      (post : SearchRequest → Result SearchResponse) (api_key query : Text) (n : ℕ)
      → Asked true api_key query n (searched show post api_key query n)
  unfolding searched
  searched-Asked post api_key query n = record {
    sent = λ e. refl;
    within = λ e.
        Ensures-bind (post (record { api_key = api_key; query = query; max_results = n })) _
          (answered-Within n);
    refused = λ e. absurd (cc);
  }

  -- A search sends one request if the provider is tavily, in whatever case, and a key is set, and otherwise
  -- none, and raises. The request has the key, the query and the limit brought between 1 and 10; whatever
  -- the server answers, what is returned has no more results than that, none with more than 2000 characters.
  pub web_search-Asked :
      (lower : Text → Text) (post : SearchRequest → Result SearchResponse)
      (provider api_key : Option Text) (query : Text) (limit : ℤ)
      → Asked
          (lower (provider_of provider) === codes "tavily" && not (key_of api_key === []))
          (key_of api_key)
          query
          (max_results_of limit)
          (web_search show lower post provider api_key query limit)
        × (1 ≤ max_results_of limit)
        × (max_results_of limit ≤ 10)
  unfolding web_search
  web_search-Asked lower post provider api_key query limit =
      let (low, high) = max_results_bounds limit in
      (
        by_tests (lower (provider_of provider) === codes "tavily") (key_of api_key === []),
        low,
        high,
      )
    where
      one_sent :
          Asked true
            (key_of api_key)
            query
            (max_results_of limit)
            (searched show post (key_of api_key) query (max_results_of limit))
      one_sent = searched-Asked post (key_of api_key) query (max_results_of limit)

      by_tests :
          (tavily no_key : Bool)
          → Asked (tavily && not no_key) (key_of api_key) query (max_results_of limit) (
              if tavily
              then if no_key
                then (
                  [],
                  err (
                      runtime_error
                        (codes "web search provider tavily requires HENRY_WEB_SEARCH_API_KEY")),
                )
                else searched show post (key_of api_key) query (max_results_of limit)
              else (
                [],
                err (
                    runtime_error
                      (codes "unsupported web search provider " ++ lower (provider_of provider))),
              ))
      by_tests false no_key = record {
        sent = λ e. absurd (cc);
        within = λ e. absurd (cc);
        refused = λ e. (refl, (_, refl));
      }
      by_tests true true = record {
        sent = λ e. absurd (cc);
        within = λ e. absurd (cc);
        refused = λ e. (refl, (_, refl));
      }
      by_tests true false = one_sent
