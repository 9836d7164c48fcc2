-- ===== src/Runner/Results.antt =====
-- The results of src/e2h/runner.py and what their model validators demand.
use e2h.Prelude.{
  ℕ, ltb, ◌≡◌, Bool, true, false, not, ◌&&◌, ◌||◌, String, Option, none, some, List, [], ◌∷◌, map,
  any, ◌==◌, text_eq, number_eq, contains, all_unique, Eq, eq_of, ℤ, if◌then◌else◌,
}
use e2h.Dict.{same_items}
use e2h.Result.{Result, ok, err, refuse, rethrow, collect, ◌>>=◌, ◌>>◌}
use e2h.Values.Data.{PyRuntime}
use e2h.Failures
use e2h.Failures.{FailureCode, FailureImpact, infrastructure_error, code_eq, impact_eq}
use e2h.Failures.Record.{FailureError, FailureRecord, validated_record}
use e2h.Failures.Summary.{FailureSummary, SummaryError, validated_summary, summarize_failures}

pub data CheckStatus : Type 0 where
  passed failed timed_out error skipped : CheckStatus

pub data RunStatus : Type 0 where
  passed failed error : RunStatus

unfoldable pub CheckStatus-discrete : Discrete CheckStatus
CheckStatus-discrete = hlevel

unfoldable pub RunStatus-discrete : Discrete RunStatus
RunStatus-discrete = hlevel

instance abbrev pub check_status_eq : Eq CheckStatus
check_status_eq = eq_of CheckStatus-discrete

instance abbrev pub run_status_eq : Eq RunStatus
run_status_eq = eq_of RunStatus-discrete

-- `_FAILURE_CODES_BY_CHECK_STATUS`; a passed check is tested before it.
unfoldable pub failure_codes : CheckStatus → List FailureCode
failure_codes CheckStatus.passed = []
failure_codes CheckStatus.failed = Failures.unexpected_exit ∷ Failures.signal_termination ∷ []
failure_codes CheckStatus.timed_out =
    Failures.timeout ∷ Failures.sandbox_cleanup ∷ Failures.output_capture ∷ []
failure_codes CheckStatus.error =
    Failures.command_not_found ∷ Failures.permission_denied ∷ Failures.process_launch_error
    ∷ Failures.working_directory_missing ∷ Failures.sandbox_configuration ∷ Failures.sandbox_runtime
    ∷ Failures.output_capture ∷ []
failure_codes CheckStatus.skipped = Failures.skipped_after_failure ∷ []

-- Python's `monotonic` readings: their difference, and the test of `Field(ge=0)` on a finite float.
pub record Clock (F : Type 0) : Type 0 where
  pub zero_seconds : F
  pub seconds_between : F → F → F
  pub precedes : F → F → Bool
  pub is_duration : F → Bool
  pub is_duration-zero : is_duration zero_seconds ≡ true
  pub is_duration-between :
      (a b : F) → precedes a b ≡ true → is_duration (seconds_between a b) ≡ true

pub record CommandResult (F : Type 0) : Type 0 where
  pub id : String
  pub argv : List String
  pub cwd : String
  pub status : CheckStatus
  pub exit_code : Option ℤ
  pub duration_seconds : F
  pub stdout : List ℕ
  pub stderr : List ℕ
  pub stdout_truncated : Bool
  pub stderr_truncated : Bool
  pub error : Option String
  pub failure : Option (FailureRecord F)

pub data ResultError : Type 0 where
  bad_duration failure_of_passed missing_failure incompatible_failure : ResultError
  invalid_failure : FailureError → ResultError
  invalid_summary : SummaryError → ResultError
  naive_start naive_finish finish_before_start ids_not_unique : ResultError
  executed_after_skipped skipped_without_halt wrong_blocking_check : ResultError
  summary_mismatch status_mismatch : ResultError

-- A `datetime`: whether it has a time zone, and its instant.
pub record DateTime : Type 0 where
  pub is_aware : Bool
  pub instant : ℕ

module _ {F : Type 0} where
  -- `failure_must_match_status`
  unfoldable pub failure_must_match_status :
      CheckStatus → Option (FailureRecord F) → Result ResultError (Unit {0})
  unfolding failure_codes
  failure_must_match_status CheckStatus.passed none = ok tt
  failure_must_match_status CheckStatus.passed (some failure) = err failure_of_passed
  failure_must_match_status status none = err missing_failure
  failure_must_match_status status (some failure) =
      refuse (not (contains failure.code (failure_codes status))) incompatible_failure

module _ {F : Type 0} (py : PyRuntime F) where
  abbrev pub validated_failure : Option (FailureRecord F) → Result ResultError (Unit {0})
  validated_failure none = ok tt
  validated_failure (some failure) =
      rethrow invalid_failure (validated_record py failure) >>= λ r. ok tt

module _ {F : Type 0} (py : PyRuntime F) (clock : Clock F) where
  -- `CommandResult(...)`; a record in it is validated again.
  unfoldable pub validated_result : CommandResult F → Result ResultError (CommandResult F)
  unfolding failure_must_match_status
  validated_result r = do
    refuse (not (clock.is_duration r.duration_seconds)) bad_duration
    validated_failure py r.failure
    failure_must_match_status r.status r.failure
    ok r

-- The variables of the loop in `result_must_be_consistent`, with the check before the next one.
pub record OrderState (F : Type 0) : Type 0 where
  pub previous : Option (CommandResult F)
  pub skipped_started : Bool
  pub blocking_check_id : Option String

module _ {F : Type 0} where
  abbrev pub order_start : OrderState F
  order_start = record { previous = none; skipped_started = false; blocking_check_id = none }

  -- `check.failure is None or check.failure.caused_by_check_id != blocking_check_id`
  unfoldable pub names_blocking : Option (FailureRecord F) → Option String → Bool
  names_blocking none blocking = false
  names_blocking (some failure) none = elim failure.caused_by_check_id [
    | none ↦ true
    | some check_id ↦ false
  ]
  names_blocking (some failure) (some blocking) = elim failure.caused_by_check_id [
    | none ↦ false
    | some check_id ↦ check_id == blocking
  ]

  -- The start of the skipped checks: the check before them is the one that halted.
  unfoldable pub start_skipped : OrderState F → Result ResultError (OrderState F)
  start_skipped s = elim s.previous [
    | none ↦ err skipped_without_halt
    | some check ↦
        if check.status == CheckStatus.passed || check.status == CheckStatus.skipped
        then err skipped_without_halt
        else ok (record s { skipped_started = true; blocking_check_id = some check.id })
  ]

  unfoldable pub skipped_step : OrderState F → CommandResult F → Result ResultError (OrderState F)
  unfolding names_blocking start_skipped
  skipped_step s check = do
    s' ← if s.skipped_started then ok s else start_skipped s
    refuse (not (names_blocking check.failure s'.blocking_check_id)) wrong_blocking_check
    ok (record s' { previous = some check })

  -- One iteration of the loop.
  unfoldable pub order_step : OrderState F → CommandResult F → Result ResultError (OrderState F)
  unfolding skipped_step
  order_step s check =
      if check.status == CheckStatus.skipped
      then skipped_step s check
      else refuse s.skipped_started executed_after_skipped
        >> ok (record s { previous = some check })

  unfoldable pub order_steps :
      OrderState F → List (CommandResult F) → Result ResultError (OrderState F)
  unfolding order_step
  order_steps s [] = ok s
  order_steps s (check ∷ checks) = order_step s check >>= λ s'. order_steps s' checks

  abbrev pub is_infrastructure : CommandResult F → Bool
  is_infrastructure check = elim check.failure [
    | none ↦ false
    | some failure ↦ failure.impact == infrastructure_error
  ]

  abbrev pub has_not_passed : CommandResult F → Bool
  has_not_passed check = not (check.status == CheckStatus.passed)

  unfoldable pub status_of_checks : List (CommandResult F) → RunStatus
  status_of_checks checks =
      if any is_infrastructure checks
      then RunStatus.error
      else if any has_not_passed checks
      then RunStatus.failed
      else RunStatus.passed

  abbrev pub failure_entry : CommandResult F → String × Option (FailureRecord F)
  failure_entry check = (check.id, check.failure)

abbrev pub same_option {ℓ} : {A : Type ℓ} ⦃e : Eq A⦄ → Option A → Option A → Bool
same_option none none = true
same_option (some a) (some b) = a == b
same_option _ _ = false

-- `==` on two summaries
unfoldable pub same_summary : FailureSummary → FailureSummary → Bool
same_summary a b =
    a.total == b.total
    && a.evaluation_failures == b.evaluation_failures
    && a.infrastructure_errors == b.infrastructure_errors
    && a.not_evaluated_count == b.not_evaluated_count
    && same_items a.by_category b.by_category
    && same_items a.by_code b.by_code
    && same_option a.primary_check_id b.primary_check_id
    && same_option a.primary_code b.primary_code

pub record RunResult (F : Type 0) : Type 0 where
  pub capsule_id : String
  pub status : RunStatus
  pub started_at : DateTime
  pub finished_at : DateTime
  pub duration_seconds : F
  pub checks : List (CommandResult F)
  pub failure_summary : FailureSummary

module _ {F : Type 0} (py : PyRuntime F) (clock : Clock F) where
  -- `result_must_be_consistent`
  unfoldable pub result_must_be_consistent : RunResult F → Result ResultError (Unit {0})
  unfolding order_steps status_of_checks summarize_failures same_summary
  result_must_be_consistent r = do
    refuse (not r.started_at.is_aware) naive_start
    refuse (not r.finished_at.is_aware) naive_finish
    refuse (ltb r.finished_at.instant r.started_at.instant) finish_before_start
    refuse (not (all_unique (map (λ check. check.id) r.checks))) ids_not_unique
    order ← order_steps order_start r.checks
    expected ← rethrow invalid_summary (summarize_failures py (map failure_entry r.checks))
    refuse (not (same_summary r.failure_summary expected)) summary_mismatch
    refuse (not (r.status == status_of_checks r.checks)) status_mismatch

  -- `RunResult(...)`; the results and the summary in it are validated again.
  unfoldable pub validated_run : RunResult F → Result ResultError (RunResult F)
  unfolding result_must_be_consistent validated_result validated_summary
  validated_run r = do
    refuse (not (clock.is_duration r.duration_seconds)) bad_duration
    checks ← collect (validated_result py clock) r.checks
    summary ← rethrow invalid_summary (validated_summary r.failure_summary)
    result_must_be_consistent r
    ok r
