-- ===== src/Agent/Prompt.antt =====
-- What surrounds a run in henry/agent/runner.py: `_render_prompt`, `_feed_errors_back`, `_map_usage`
-- and `_compute_cost_usd`. A price is a number of the smallest unit of the decimals that are added.
pub mod Forged
use henry.Prelude.{ℕ, ◌+◌, Bool, Option, none, some, List, [], ◌∷◌, ◌++◌}
use henry.Text.{Text, codes}
use henry.Result.{Result, ok, err, Error, model_retry, message}
use henry.Contracts.{RunUsage, ConversationTranscript, render}
use henry.Sanitize.{neutralize_delimiters}

pub thread_start : Text
thread_start = codes "<slack_thread>\n"

pub thread_end : Text
thread_end = codes "\n</slack_thread>\n\n"

pub request_start : Text
request_start = codes "<user_request>\n"

pub request_end : Text
request_end = codes "\n</user_request>"

-- `_render_prompt`
unfoldable pub render_prompt : (is_alnum : ℕ → Bool) → Text → Option ConversationTranscript → Text
unfolding thread_start thread_end request_start request_end
render_prompt is_alnum user_prompt none = neutralize_delimiters is_alnum user_prompt
render_prompt is_alnum user_prompt (some transcript) =
    thread_start
    ++ (neutralize_delimiters is_alnum (render transcript)
        ++ (thread_end
            ++ (request_start ++ (neutralize_delimiters is_alnum user_prompt ++ request_end))))

retry_text : Text → Error → Text
retry_text integration_name exc =
    codes "The "
    ++ (integration_name
        ++ (codes " tool call failed: "
            ++ (message exc
                ++ codes
                    ". You may adjust the arguments and retry, or proceed without this tool.")))

-- The wrapper of `_feed_errors_back`, on what the tool returns or raises.
unfoldable pub feed_errors_back {ℓ} : {A : Type ℓ} → Text → Result A → Result A
unfolding retry_text
feed_errors_back integration_name (ok a) = ok a
feed_errors_back integration_name (err (model_retry m)) = err (model_retry m)
feed_errors_back integration_name (err exc) = err (model_retry (retry_text integration_name exc))

-- A message of a run: a response of the model whose cost is known, one whose cost cannot be told (the
-- call raises, or there is no total), or another message.
pub data RunMessage : Type 0 where
  priced : ℕ → RunMessage
  unpriced other_message : RunMessage

-- `total` and `found` after the loop.
add_prices : ℕ → Option ℕ → List RunMessage → Option ℕ
add_prices total found [] = found
add_prices total found (priced price ∷ ms) = add_prices (total + price) (some (total + price)) ms
add_prices total found (unpriced ∷ ms) = add_prices total found ms
add_prices total found (other_message ∷ ms) = add_prices total found ms

unfoldable pub compute_cost_usd : List RunMessage → Option ℕ
unfolding add_prices
compute_cost_usd messages = add_prices 0 none messages
