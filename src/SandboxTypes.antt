-- ===== src/SandboxTypes.antt =====
-- henry/sandbox_types.py: the policy of a sandbox and the results that it returns.
use henry.Prelude.{ℕ, Bool, List, [], Option}
use henry.Prelude.Int.{ℤ}
use henry.Text.{Text, codes}
use henry.Json.{Fields}

-- `cpus` is a float there: thousandths here.
pub record SandboxPolicy : Type 0 where
  pub image : Text
  pub workdir : Text
  pub mem_mb : ℕ
  pub cpus_milli : ℕ
  pub network : Text
  pub allow_domains : List Text
  pub default_timeout_s : ℕ
  pub max_timeout_s : ℕ
  pub ttl_s : ℕ

-- `SandboxPolicy(image=image)`
unfoldable pub default_policy : Text → SandboxPolicy
default_policy image = record {
  image = image;
  workdir = codes "/workspace";
  mem_mb = 1024;
  cpus_milli = 1000;
  network = codes "none";
  allow_domains = [];
  default_timeout_s = 120;
  max_timeout_s = 600;
  ttl_s = 900;
}

pub record ExecRequest : Type 0 where
  pub cmd : List Text
  pub timeout_s : Option ℕ
  pub cwd : Option Text
  pub env : List (Text × Text)

pub record ExecResult : Type 0 where
  pub exit_code : ℤ
  pub stdout : Text
  pub stderr : Text
  pub timed_out : Bool
  pub truncated : Bool

-- One output of a cell. The Python record has a field for each kind; the fields that a kind does
-- not use are None there and have no place here.
pub data CellOutput : Type 0 where
  stream : (name text : Text) → CellOutput
  execute_result display_data : (bundle metadata : Fields) (execution_count : Option ℕ) → CellOutput
  error : (ename evalue : Text) (traceback : List Text) → CellOutput

pub data CellStatus : Type 0 where
  ok_status error_status : CellStatus

pub record CellResult : Type 0 where
  pub status : CellStatus
  pub outputs : List CellOutput
  pub execution_count : ℕ
  pub timed_out : Bool
  pub truncated : Bool
  pub session_invalidated : Bool
