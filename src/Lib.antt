-- ===== src/Lib.antt =====
-- HybridOps Core: the authority contracts and the blueprint planning of the hyops runtime. A
-- blueprint is a list of steps, each of which runs one module. The planner orders the steps,
-- checks each before anything runs, and defers what stands on a failure. A step may require
-- an authority, such as an IPAM service: a registered provider admits the operation before
-- its dispatch, and decides on its evidence at completion.
--
-- The files and the code they model:
--
--   Authority/Models, Provider, Registry: hyops/authority/models.py, provider.py and
--     registry.py. A provider is a record of functions that return or raise; the registry is
--     the dict of providers, `register` and `resolve` pass it on.
--   Authority/Clock, Checks: `_parse_utc` and the validators of hyops/authority/resolver.py.
--   Authority/Admission: `begin` and `enforce` of the resolver, as a chain of its tests in
--     the code's order.
--   Authority/Completion: `complete` of the resolver; one function per stage, a receipt for
--     each early return.
--   Blueprint/Step: the dict of a step that `validate_blueprint` of hyops/blueprint/schema.py
--     builds.
--   Blueprint/Order: `topological_order` of the schema, a depth-first walk with its two
--     collections as state.
--   Blueprint/Upstream, References: `depends_on` and the last loop of `validate_blueprint`.
--   Blueprint/Preflight: `preflight_step` of hyops/blueprint/planner.py and `step_state_ref`
--     of hyops/blueprint/contracts.py.
--   Blueprint/Policy: `validate_policy` of the schema and the readers of
--     hyops/blueprint/common.py.
--   Blueprint/Authorities: `validate_authorities` of the schema.
--   Blueprint/Contracts: the contracts of a step in hyops/blueprint/contracts.py, which call
--     `begin` and `complete`, and `legacy_authority_contract` of hyops/authority/compat.py.
--     Contracts/Binding says from the step and the blueprint which authority is meant.
--   Blueprint/Inputs: `merge_mappings` of common.py, and the pruning and the drift of inputs
--     of contracts.py. Inputs/Paths says what a merge leaves, Blank and Pruning what is
--     pruned, and Skipping compares inputs with those of a state as they stand in the file.
--   PreflightDecision: hyops/runtime/preflight_decision.py.
--   Blueprint/Destroy: the loop of `_run_destroy_unlocked` in hyops/blueprint/command.py. A
--     child that waits for its parent keeps the position of its result, which the code
--     updates in place; Children has `finish_subsumed_steps` and the closing of what still
--     waits.
--   State/Refs, State/Store: module references (hyops/runtime/refs.py) and the files of
--     module states (hyops/runtime/module_state.py) on a disk that is a dict of files.
--   State/Inputs: nested inputs of hyops/runtime/module_inputs.py.
--   StopState: `evaluate_stop_state` of hyops/state/stop_state.py: Readers and Manifest read
--     the manifest, Estimate is `_evaluate_estimate` with the coverage in hundredths of a
--     percent, Evaluation is the loop over the resources and the verdict.
--   Blueprint/Plan: `compute_preflight` of the planner; the variables of its loop are the
--     record `Plan`.
--
-- A call that raises is a value of `Raises` (Raises), which tells a `ValueError` from every
-- other exception, as the handlers of the code do. Untyped data are trees of `Value` (Value),
-- with Python's `==` and truth: 1, 1.0 and True are equal, and a float is an integer over a
-- power of two, infinite or NaN. Value/Printing has `str` and `repr`, Value/Update the
-- changes of a dict. Text has the string methods on ASCII letters, and Text/Split those on
-- one character.
--
-- Parameters stand for what the code asks of its surroundings: `datetime.fromisoformat`, the
-- providers, and for the planner the record `StepEnv` with the files on disk, the module
-- states, the module resolver, the step contracts and the driver preflights, for the
-- contracts the record `ContractEnv`, and for a destroy run the record `DestroyEnv` with the
-- command of a step, and for a stop state the record `StopEnv` with the readers of decimals,
-- dates and times. The models make no assumption on what they answer.
--
-- Fuel: `collapse` has one pass for each character. `dfs` has one level for each step and one
-- more, and `search_upstream` one round for each name that is ever pushed. A step is entered
-- at most once on the way down, and what it requires is pushed at most once, so that neither
-- walk runs out.
--
-- Not modelled: the parsing of the fields of a blueprint from YAML, the deploy loop, the
-- archive and the prompts of the blueprint commands, the printing of a stop state, the
-- command line, drivers, provider clients, secrets and the interactive front ends, which read
-- and write files, run processes or ask services.
mod Prelude
pub mod Text
pub mod Raises
pub mod Value
pub mod Authority
pub mod Blueprint
pub mod PreflightDecision
pub mod State
pub mod StopState
