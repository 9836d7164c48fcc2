-- ===== src/Lib.antt =====
-- A model of the core of E2H (src/e2h), the evaluation harness for task capsules, with the theorems
-- that make it correct.
--
-- Which file models which part:
--   * Prelude: Booleans, lists over native numbers, equality tests and Python's integers; Result: a
--     computation that may raise; Dict: dictionaries as lists of items with distinct keys.
--   * Values (src/e2h/document.py, `_validate_json_compatible`): JSON values and the length of their
--     canonical text. Floats are a type `F` and what Python says of them is the record `PyRuntime`.
--   * Failures (src/e2h/failures.py): the taxonomy, `FailureRecord`, the constructors of records,
--     `FailureSummary` and `summarize_failures`, each with its validators as a chain of tests that
--     may refuse.
--   * Runner (src/e2h/runner.py): Runner/Capture is `_BoundedCapture`; Runner/Process is
--     `_execute_process` from what the operating system answered (a `ProcessTrace`); Runner/Results
--     is `CommandResult` and `RunResult` with their validators; Runner/Checks, Runner/Classify and
--     Runner/Replay are `run_capsule`, whose loop changes a `RunState` by one check at a time.
--   * Genome (src/e2h/genome.py): patches, their targets, `_apply_patch` and `apply_genome`.
--   * Schema (src/e2h/models.py): the validators of paths, commands, environments and capsules.
--   * LongHorizon (src/e2h/long_horizon.py): the documents and the check that follows the active
--     constraints (`Scan`, `transition`); LongHorizon/Replay is `_expected_probe_states`,
--     LongHorizon/Scoring the predictions and LongHorizon/Evaluation
--     `evaluate_long_horizon_predictions` with its reports.
--   * Partitions (src/e2h/partitions.py, with the dataset of src/e2h/optimizer_adapters.py): the
--     documents; Partitions/Verify is `verify_dataset_partitions` and the public payload of a
--     dataset, Partitions/Export `export_dataset_partition` and Partitions/Sealed
--     `evaluate_sealed_predictions`.
--   * Promotion: Promotion/Evidence is src/e2h/promotion_evidence.py, Promotion/Comparison the paired
--     comparison of two variants (src/e2h/promotion_comparison.py), Promotion/Gate the exact test and
--     the gate rules, Promotion/Decision `evaluate_promotion` and Promotion/Receipt
--     `materialize_promotion` (src/e2h/promotion_decision_ops.py, src/e2h/promotion_lifecycle.py),
--     and Promotion/Rollback the recording of a rollback (src/e2h/promotion_rollback.py).
--   * Variants (src/e2h/variants.py): Variants/Workflow is the check of a workflow's stages for
--     cycles, `workflow_must_be_a_dag`, and Variants/Routing the check of routing rules.
--   * Tests: sample values and a run of each theorem at a concrete input.
--
-- How the parts interact: the runner classifies each check by a record of Failures, keeps one
-- result for each check, and hands the list to `RunResult`, which validates every result and
-- record again, recomputes the summary and demands that it is the same. A genome changes the
-- capsule that the runner runs. A comparison's report is the evidence of a proposal; a gate turns
-- it into a decision, a decision with a plan into a receipt, and a trigger of the plan into the
-- event of a rollback. Each document is validated again where it is used, with the documents that
-- it embeds.
--
-- Bounds: loops are structural recursion. The one search that is not, the visits of a workflow's
-- stages, has fuel for one call more than there are stages, which is enough: the stages that are
-- being visited at once differ. The bounds of the source (4096 bytes of details, 255 characters of
-- a check's id, 10 causes) are written out where it tests them.
--
-- Not modelled: processes, threads, signals, files, containers and clocks, whose answers are
-- observations or parameters; UTF-8 decoding, JSON text beyond its size, SHA-256 and the schema
-- validation of a patched capsule, which are parameters; identity-based detection of recursive
-- values; patterns that texts have to match, metadata and locators of the promotion and of the
-- long-horizon corpora; experiments, the other parts of variants, snapshots, releases, stores,
-- providers, servers and command lines.
pub mod Prelude
pub mod Result
pub mod Values
pub mod Dict
pub mod Failures
pub mod Runner
pub mod Genome
pub mod LongHorizon
pub mod Partitions
pub mod Promotion
pub mod Schema
pub mod Variants
pub mod Tests
