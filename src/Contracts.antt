-- ===== src/Contracts.antt =====
-- The data of henry/contracts.py and henry/types.py that the parts of the program pass around, and
-- the configuration of henry/config/registry.py.
use henry.Prelude.{ℕ, Bool, Option, none, some, List, [], ◌∷◌, ◌++◌, map}
use henry.Text.{Text, codes, join}
use henry.Json.{Fields}

-- A cost is kept by the text of the number.
pub record RunUsage : Type 0 where
  pub input_tokens : ℕ
  pub output_tokens : ℕ
  pub requests : ℕ
  pub tool_calls : ℕ
  pub cost_usd : Option Text

abbrev pub no_usage : RunUsage
no_usage = record {
  input_tokens = 0;
  output_tokens = 0;
  requests = 0;
  tool_calls = 0;
  cost_usd = none;
}

pub data RunStatus : Type 0 where
  succeeded budget_exceeded failed : RunStatus

pub record RunResult : Type 0 where
  pub output : Text
  pub usage : RunUsage
  pub status : RunStatus
  pub error : Option Text

pub record SlackEvent : Type 0 where
  pub channel_id : Text
  pub thread_ts : Text
  pub user : Text
  pub text : Text
  pub event_id : Text
  pub event_ts : Text
  pub is_mention : Bool

pub record ChannelContext : Type 0 where
  pub channel_id : Text
  pub thread_ts : Text
  pub actor_user_id : Option Text
  pub run_id : Text

pub record ChannelState : Type 0 where
  pub channel_id : Text
  pub rolling_summary : Text
  pub open_tasks : List Fields
  pub key_facts : List Fields

pub data Role : Type 0 where
  user_role assistant_role system_role : Role

pub record ThreadMessage : Type 0 where
  pub role : Role
  pub text : Text
  pub user : Option Text
  pub ts : Option Text

pub record ConversationTranscript : Type 0 where
  pub channel_id : Text
  pub thread_ts : Text
  pub messages : List ThreadMessage

role_name : Role → Text
role_name user_role = codes "user"
role_name assistant_role = codes "assistant"
role_name system_role = codes "system"

-- `if message.user` and `if message.ts`: an empty text counts as none.
speaker : Text → Option Text → Text
speaker role none = role
speaker role (some []) = role
speaker role (some (c ∷ user)) = role ++ (codes ":" ++ c ∷ user)

stamp : Option Text → Text
stamp none = []
stamp (some []) = []
stamp (some (c ∷ ts)) = codes " [" ++ (c ∷ ts ++ codes "]")

render_message : ThreadMessage → Text
unfolding role_name speaker stamp
render_message m = speaker (role_name m.role) m.user ++ (stamp m.ts ++ (codes ": " ++ m.text))

-- ConversationTranscript.render
unfoldable pub render : ConversationTranscript → Text
unfolding render_message
render transcript = join (codes "\n") (map render_message transcript.messages)

-- `list[str] | Literal["*"]`
pub data Enabled : Type 0 where
  every : Enabled
  listed : List Text → Enabled

pub record ResolvedConfig : Type 0 where
  pub model : Text
  pub enabled_integrations : Enabled
  pub system_prompt : Text
  pub ambient_on : Bool
  pub budget_caps : Fields
