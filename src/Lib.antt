-- ===== src/Lib.antt =====
-- Henry, a Slack teammate (henry/): a mention of the bot in Slack becomes a run of an agent whose
-- tools work in a Docker sandbox, and the reply goes back to the thread.
--
-- The parts and the files that model them:
--   Contracts      henry/contracts.py, henry/types.py, the record of henry/config/registry.py: what
--                  the parts pass around, with ConversationTranscript.render.
--   Slack          henry/slack: Slack.App has _run_and_update_slack and _start_run of app.py,
--                  Slack.Dispatch has dispatch_app_mention and make_transcript_fetcher, Slack.Split has
--                  split_for_slack and Slack.Context the events and transcripts of context.py. The
--                  client is a function of the calls so far.
--   Orchestrator   henry/orchestrator: Orchestrator.Handle has handle_request of runner.py, with the
--                  services it is given as a record of functions that may raise, and the calls with
--                  effects in order; Orchestrator.Dedupe has ProcessedEventDeduper over a table,
--                  Orchestrator.Audit the row of an audit record, and Orchestrator.Locks the ThreadLocks
--                  of locks.py with the steps of tasks.
--   Agent          henry/agent: Choice (_active_integrations), Run (run, build_instructions) and Prompt
--                  (_render_prompt, _feed_errors_back, _compute_cost_usd). The agent of pydantic_ai is
--                  a function of its instructions and toolsets.
--   Sanitize       henry/sanitize.py: neutralize_delimiters, with its pattern as a scanner.
--   Docker         henry/sandbox/docker.py: SafePath (_safe_path), Payload (the decoder of what the
--                  kernel sends), Sessions (the registry, its objects and the calls of Docker),
--                  Start (start, _wait_ready), Cells (exec_cell), Files (exec, write_file, read_file)
--                  and Interleaving, the steps of tasks that share one sandbox, from await to await.
--   Tools          henry/sandbox/tools.py: Slots (the cache of sessions, _locked_slot, _session_for,
--                  _forget_session, clear_sandbox_session) with its interleavings, Format
--                  (_render_outputs, _format_cell_result), Clone (_REPO_RE, the download and the checks
--                  of the archive) and Calls, the tools over the Sandbox protocol.
--   Kernel         henry/sandbox/kernel_protocol.py: Ansi, Fit (_fit_text), Outputs (the collection
--                  within the budget) and Drain (the loops of drain_execution); and Entry, which is
--                  kernel_entry.py, with a list of the calls that it makes.
--   SandboxTypes   henry/sandbox_types.py.
--   Web            henry/integrations/builtins/web.py: Domains (_domain_allowed, _assert_public_ip),
--                  Pages (the body and the text of a page), Fetch (web_fetch) and Search (web_search).
--   Github         henry/integrations/builtins/github.py: Paths (_repo_path, _content_path) and Tools
--                  (the five tools, with the requests that each sends).
--   Memory         henry/memory: Items (remember, get and list_paths of postgres.py), Recall (recall,
--                  _score), Snapshot (snapshot, refresh_snapshot) and Tools (tools.py, summarizer.py).
--   Db             henry/db: Models (the classes of models.py and the tables they describe), Migrations
--                  (the operations of both migrations) and Overrides (the updates of the second).
--   Mcp            henry/integrations/mcp.py: Expand (_expand), Load (load_mcp_config), Definition
--                  (MCPServerDef, MCPIntegration) and Results (_neutralize_result).
--   Wiring         henry/wiring.py, henry/app.py, henry/settings.py, henry/integrations/registry.py:
--                  Discover, Runtime (the registry of build_runtime, close) and Settings.
--   Config         henry/config/registry.py: the merge and the checks of load_channel_config.
-- The standard library that the code calls stands in Text (str and bytes as lists of numbers),
-- PosixPath (posixpath), Dict, Json (values as json.loads gives them, and the size of json.dumps) and
-- Result (exceptions as values). Prelude has the shared lists, tests and lemmas.
--
-- How state is modelled: a mutable object that tasks share is an entry of a heap, a dictionary of
-- such objects maps to the entry's number, and what is asked of an outside service is a list of
-- calls. Docker, the kernel's channels, Slack, the database, the name service and the HTTP client
-- are parameters: what they answer is an argument, without an assumption unless a theorem names one.
--
-- Loops: the wait for the kernel and the loops of drain_execution recur on the list of events that
-- come before the deadline; where the list ends the deadline has passed. split_for_slack has the
-- length of the text as fuel, each turn takes a character at least. _fit_text has it too, each turn
-- halves the interval. web_fetch has five turns, for four requests and the redirect that is refused.
--
-- Not modelled: the language model and its libraries; SQLAlchemy and alembic, with the environment of
-- the migrations and the making of sessions; the construction of the parts and the start of the
-- program, which are calls of their constructors; the fakes of henry/testing; the clock beyond its
-- order; and in the orchestrator the cancellation of a request.
pub mod Prelude
pub mod Text
pub mod Result
pub mod PosixPath
pub mod Dict
pub mod Json
pub mod SandboxTypes
pub mod Contracts
pub mod Db
pub mod Docker
pub mod Tools
pub mod Sanitize
pub mod Kernel
pub mod Slack
pub mod Orchestrator
pub mod Web
pub mod Github
pub mod Config
pub mod Memory
pub mod Agent
pub mod Mcp
pub mod Wiring
