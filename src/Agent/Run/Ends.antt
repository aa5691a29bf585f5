-- ===== src/Agent/Run/Ends.antt =====
-- How a run of the agent ends.
use henry.Prelude.{◌≡◌, List}
use henry.Text.{Text}
use henry.Json.{Json}
use henry.Result.{Result, ok}
use henry.Contracts.{RunResult}
use henry.Agent.Choice.{Integration}
use henry.Agent.Run.{AgentServices, Answer, attached}

-- The agent answered with the toolsets of the active integrations that could be attached.
pub record IsAnswered (s : AgentServices) (active : Result (List Integration)) (r : RunResult)
    : Type 0 where
  pub integrations : List Integration
  pub instructions : Text
  pub answer : Answer
  pub chosen : active ≡ ok integrations
  pub answered : s.answer instructions (attached s integrations) ≡ ok answer
  pub same : r.output ≡ answer.output
