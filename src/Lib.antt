-- ===== src/Lib.antt =====
-- The FinOps cost gate: a pipeline step that prices a Terraform plan, compares the cost with a
-- threshold, and lets a deployment through only with a cost lock or an approved exception.
--
-- How the parts interact. `run_gate` (src/finops/gate.py) loads and normalises the proposed plan
-- (src/finops/plan/normalizer.py), asks an estimator for the cost (src/finops/cost/base.py), has the
-- policy decide (src/finops/policy/engine.py), asks an AI provider for an explanation
-- (src/finops/ai/factory.py), and on a pass writes a cost lock (src/finops/lock/cost_lock.py). After
-- a FAIL a person may accept the overspend by a budget exception (src/finops/lock/exception.py);
-- `authorize_deployment` and `evaluate_approval` (src/finops/gate.py) combine all of this.
--
-- Which file models which part:
--   Errors      src/finops/errors.py: error classes as categories; `Result` is a value or what is
--               raised, a `FinOpsError` or one of Python's own exceptions.
--   Json        documents of `json.loads` and the dict methods the code calls on them.
--   Decimal     `money`, `as_float` of src/finops/models.py and the decimals behind them.
--   Models      src/finops/models.py: records, fingerprints, derived costs, exit codes.
--   Config      src/finops/config.py: the configuration as the engine reads it, `_build` of a parsed
--               document and the environment, and `load_config`.
--   Infracost   src/finops/cost/infracost/parser.py: Infracost's output in both schemas, and
--               `build_estimate`, the difference of two runs.
--   Estimators  src/finops/cost/: the mock, the fixture and the Infracost estimator, and the choice of
--               one (factory.py); the program that runs Infracost is a `Runner`.
--   Reconcile   src/finops/cost/reconcile.py: the breakdown against the authoritative totals.
--   Report      src/finops/report/breakdown.py: groups, labels and order of the breakdown.
--   Cli         src/finops/cli.py: the commands that decide, and `main`; `load_cost_lock` and
--               `load_exception`, `build_approval_record` of src/finops/lock/.
--   Policy      src/finops/policy/engine.py: `evaluate`, from upstream errors to the comparison.
--   CostLock    src/finops/lock/cost_lock.py: `create_cost_lock`, `verify_cost_lock`.
--   Exception   src/finops/lock/exception.py: `create_exception`, `verify_exception`,
--               `verify_environment_approval` and the bindings they share.
--   Stacks      src/finops/stacks.py: loading the registry, selections, attribution of changes.
--   Plan        src/finops/plan/: normalizer.py, state_shim.py, sanitizer.py and detector.py.
--   Ai          src/finops/ai/factory.py and `AIProvider.analyze` of src/finops/ai/base.py.
--   Gate        src/finops/gate.py, with the estimator interface of src/finops/cost/base.py.
--   Prelude     shared names, tests, lists, integers, sorting and Python's text methods.
--   Tests       test data and a concrete use of each theorem.
--
-- Conventions. An amount is a whole number of units of 10^-40, so sums and comparisons are exact;
-- Python's context of 28 digits does not round amounts of two decimals below 10^26, and only the
-- percentage divides, to 28 digits. A formatted message is the name of its `raise`. Letters and
-- white space of texts are ASCII's. What the code takes from outside is a parameter: SHA-256 of a
-- canonical dump (`sha256`), `str` of a value that is no text (`show`), the AI provider (`ask`),
-- the estimator, the environment variables, fresh identifiers and the clock (`Environment`,
-- `Clock`), the product of two floats (`scale`), GitHub's reviews, `fnmatch` and path
-- normalisation, the parsed YAML of the registry and of the configuration, the numbers that Python
-- reads from a text (`Numbers`, `Reader`, `decimal`). A threshold may read as an infinity or a NaN; in
-- Infracost's output and in stored results such texts, and the `.inf` and `.nan` of YAML, are outside
-- the model, as is an infinite threshold once it reaches the engine. A document of another shape than
-- expected raises where Python raises; a name, an address or a stored text of another kind, which
-- Python keeps, raises too. A file is what stands at its path. No definition needs fuel
-- but the count of decimal digits, whose fuel is the number itself: it has at most that many.
--
-- Not modelled: the parsing of arguments, the printing, src/finops/report/markdown.py, the prompts,
-- the network clients and the mock of the AI providers and the parsing of their answers, the runs
-- of Infracost and Git, the reading of YAML, the files written, and the scripts: they are I/O,
-- rendering or glue round the modelled operations.
pub mod Prelude
pub mod Errors
pub mod Json
pub mod Decimal
pub mod Models
pub mod Config
pub mod Policy
pub mod CostLock
pub mod Stacks
pub mod Plan
pub mod Ai
pub mod Exception
pub mod Infracost
pub mod Reconcile
pub mod Report
pub mod Cli
pub mod Estimators
pub mod Gate
pub mod Tests
