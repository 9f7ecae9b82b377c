-- ===== src/Lib.antt =====
-- First Commit: models of the decision, budget, state and pipeline code, and theorems about them.
--
-- The program scans a repository, decides over its findings with embedded Cedar policies, explains
-- the decisions with language models under a budget, and runs all that as a pipeline of steps with
-- durable state. What is modelled here, each part with the file of the repository it models:
--
-- - Iam (agent/iam.py): the check that a candidate IAM policy grants nothing new
--   (`check_no_expansion`, `covered_by`), and the policy that is built from reviewed operations
--   (`policy_from_evidence`). Iam/Meaning gives an independent reading of policies: which requests a
--   document allows, for any matching relation that reads `*` and `?` as AWS documents them.
--   `str.lower` is a parameter; `fnmatchcase` is written out for the patterns that reach it.
-- - Governance (agent/governance.py, agent/policies/remediation.cedar): `Governance.evaluate` over
--   any Cedar engine, and over the repository's own policies as conditions.
-- - Budget (agent/reasoning/budget.py): the ledger of model calls. Money is counted in units of 10⁻⁸
--   USD, in which every price and multiplier is whole; floating-point rounding is not modelled.
-- - Routing (agent/reasoning/routing.py): the tiers that groups, summaries and questions go to.
-- - Cache (agent/reasoning/cache.py): the three explanation caches and their leases; the clock, a
--   float of seconds in the source, is counted in microseconds.
-- - Contracts (agent/orchestration/contracts.py): `validate_request` and its patterns.
-- - Failures (agent/orchestration/failures.py) and Failures/Faults (agent/orchestration/faults.py):
--   the taxonomy of step errors, and the fault injection.
-- - Runs (agent/orchestration/state.py): `merge_run`, the local tables of runs, checkpoints and
--   reviews (Runs/Store), and the optimistic update on DynamoDB (Runs/Optimistic).
--   Runs/Store/Checkpoints also has `_write_once` and `_load` of agent/orchestration/steps.py.
-- - Pipeline (agent/orchestration/pipeline.py): submit, resume and the closing of a run, locally and
--   with Step Functions, over Runs/Store and Contracts. The state machine is a parameter.
--   Pipeline/Reconcile (api/handlers.py) closes the runs of executions that ended abnormally.
-- - Steps (agent/orchestration/steps.py): what `_assemble` makes of the coverage of a run's checks.
-- - Scans (agent/domain.py, agent/store.py, agent/workflow.py): the scan records, their local store,
--   and the lifecycle of a scan.
-- - Hosted (agent/store.py, agent/orchestration/state.py): the same scan, run and review records as
--   items of the one DynamoDB table, each request by its condition. Hosted/Agreement and
--   Hosted/Refinement relate them to Scans.
-- - Triage (agent/finding_policy.py): the Cedar triage of findings, over any engine, and the storing
--   of its results.
-- - LeastPrivilege (agent/least_privilege.py, agent/access_analyzer.py, agent/code_actions.py): the
--   narrower candidates for an over-broad policy. Documents reads policies as the code does, with
--   what it raises; Candidates has `static_candidate`, `activity_candidate` and `scope_to_target`;
--   Narrow has `evaluate_narrowing` over `Iam.check_no_expansion`; Attempts and Recommend have the
--   attempts, `await_generation` and `recommend`. `fnmatch.fnmatchcase` is a parameter here.
-- - StateMachine (agent/orchestration/asl.py): the local executor of the Amazon States Language.
--   Paths has `read_path`, `resolve` and `apply_result_path`; Handlers the retriers and catchers;
--   Definition the states and `_choice`; Attempts `_invoke`, `_map` and `_attempt`; Run `_run` and
--   `execute`. Each turn of `_run` takes fuel, and a machine inside a map runs on what is left. What
--   a resource answers, and whether the deadline has passed, is given for each place of the
--   execution (the states entered, the retries, the index of the item), so that the iterations of a
--   map, which overlap in the source, are not put in an order.
-- - Base: names that the parts share; JSON values, tables with a primary key, signed integers.
--
-- A method that mutates an object is a function from the old state to the result and the new state;
-- a raised exception is a value of `Result`. A method that runs under a lock or in a transaction is
-- one step, and interleavings are lists of steps (`Budget.Bounds.run`, `Runs.Store.after_all`,
-- `Cache.after_all`) or a step relation (`Budget.Spending.Reach`). Loops go over a list that is
-- given, but for three: the executor's `_run` takes any fuel, of which a definition without cycles
-- needs as much as its longest path has states (StateMachine/Ending); the retries of a state take one
-- more than its retriers have attempts; and the wait for a generation job takes a poll for each unit.
-- The five rounds of the optimistic update are the source's own bound.
--
-- Parameters stand for code that is not of this repository: the Cedar engine, SHA-256, `str.lower`,
-- `str.casefold`, `str.strip`, `str.isprintable`, `fnmatch.fnmatchcase` where a pattern may hold
-- brackets, `json.loads`, the replies of Step Functions and of IAM Access Analyzer, the tasks that
-- the executor invokes, and what other writers do to a DynamoDB item between a read and a
-- conditional put.
--
-- Not modelled: the detectors and ingestion (external tools, archives, Git), the prompts and the
-- providers, the other steps of the pipeline, the validation of the state machine's definition, its
-- history and its delays, the scan of the source for boto3 calls (its result is an argument), the
-- diffs and guidance texts of recommendations, queries by prefix and S3 objects, the other handlers,
-- the command line, and the web client.
pub mod Base
pub mod Iam
pub mod LeastPrivilege
pub mod StateMachine
pub mod Steps
pub mod Budget
pub mod Contracts
pub mod Failures
pub mod Runs
pub mod Pipeline
pub mod Cache
pub mod Routing
pub mod Governance
pub mod Scans
pub mod Hosted
pub mod Triage
