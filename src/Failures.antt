-- ===== src/Failures.antt =====
-- The failure taxonomy of src/e2h/failures.py: the codes and what each of them stands for.
-- The records, the summaries and the theorems stand in the modules below.
pub mod Record
pub mod Builders
pub mod Accepted
pub mod Summary
pub mod Counts
pub mod Consistent
pub mod Primary
use e2h.Prelude.{ℕ, ◌≡◌, Bool, decide, String, Eq, eq_of, List, [], ◌∷◌, ◌==◌, contains}

pub data FailureCategory : Type 0 where
  task resource dependency environment sandbox observability control_flow : FailureCategory

pub data FailureCode : Type 0 where
  unexpected_exit signal_termination timeout command_not_found permission_denied : FailureCode
  process_launch_error working_directory_missing sandbox_configuration : FailureCode
  sandbox_runtime sandbox_cleanup output_capture skipped_after_failure : FailureCode

pub data FailureImpact : Type 0 where
  evaluation_failure infrastructure_error not_evaluated : FailureImpact

pub data Retryability : Type 0 where
  never maybe after_fix unknown : Retryability

unfoldable pub FailureCategory-discrete : Discrete FailureCategory
FailureCategory-discrete = hlevel

unfoldable pub FailureCode-discrete : Discrete FailureCode
FailureCode-discrete = hlevel

unfoldable pub FailureImpact-discrete : Discrete FailureImpact
FailureImpact-discrete = hlevel

unfoldable pub Retryability-discrete : Discrete Retryability
Retryability-discrete = hlevel

instance abbrev pub category_eq : Eq FailureCategory
category_eq = eq_of FailureCategory-discrete

instance abbrev pub code_eq : Eq FailureCode
code_eq = eq_of FailureCode-discrete

instance abbrev pub impact_eq : Eq FailureImpact
impact_eq = eq_of FailureImpact-discrete

instance abbrev pub retryability_eq : Eq Retryability
retryability_eq = eq_of Retryability-discrete

unfoldable pub code_category : FailureCode → FailureCategory
code_category unexpected_exit = task
code_category signal_termination = task
code_category timeout = resource
code_category command_not_found = dependency
code_category permission_denied = environment
code_category process_launch_error = environment
code_category working_directory_missing = environment
code_category sandbox_configuration = sandbox
code_category sandbox_runtime = sandbox
code_category sandbox_cleanup = sandbox
code_category output_capture = observability
code_category skipped_after_failure = control_flow

unfoldable pub code_impact : FailureCode → FailureImpact
code_impact unexpected_exit = evaluation_failure
code_impact signal_termination = evaluation_failure
code_impact timeout = evaluation_failure
code_impact command_not_found = infrastructure_error
code_impact permission_denied = infrastructure_error
code_impact process_launch_error = infrastructure_error
code_impact working_directory_missing = infrastructure_error
code_impact sandbox_configuration = infrastructure_error
code_impact sandbox_runtime = infrastructure_error
code_impact sandbox_cleanup = infrastructure_error
code_impact output_capture = infrastructure_error
code_impact skipped_after_failure = not_evaluated

unfoldable pub code_retryability : FailureCode → Retryability
code_retryability unexpected_exit = never
code_retryability signal_termination = never
code_retryability timeout = maybe
code_retryability command_not_found = after_fix
code_retryability permission_denied = after_fix
code_retryability process_launch_error = unknown
code_retryability working_directory_missing = after_fix
code_retryability sandbox_configuration = after_fix
code_retryability sandbox_runtime = after_fix
code_retryability sandbox_cleanup = after_fix
code_retryability output_capture = after_fix
code_retryability skipped_after_failure = after_fix

unfoldable pub impact_primary_rank : FailureImpact → ℕ
impact_primary_rank infrastructure_error = 0
impact_primary_rank evaluation_failure = 1
impact_primary_rank not_evaluated = 2

-- The `value` of each enumeration member, as it is written to a document.
unfoldable pub category_value : FailureCategory → String
category_value task = "task"
category_value resource = "resource"
category_value dependency = "dependency"
category_value environment = "environment"
category_value sandbox = "sandbox"
category_value observability = "observability"
category_value control_flow = "control_flow"

unfoldable pub code_value : FailureCode → String
code_value unexpected_exit = "unexpected_exit"
code_value signal_termination = "signal_termination"
code_value timeout = "timeout"
code_value command_not_found = "command_not_found"
code_value permission_denied = "permission_denied"
code_value process_launch_error = "process_launch_error"
code_value working_directory_missing = "working_directory_missing"
code_value sandbox_configuration = "sandbox_configuration"
code_value sandbox_runtime = "sandbox_runtime"
code_value sandbox_cleanup = "sandbox_cleanup"
code_value output_capture = "output_capture"
code_value skipped_after_failure = "skipped_after_failure"

-- Every code, in the order of declaration.
abbrev pub all_codes : List FailureCode
all_codes =
    unexpected_exit ∷ signal_termination ∷ timeout ∷ command_not_found ∷ permission_denied
    ∷ process_launch_error ∷ working_directory_missing ∷ sandbox_configuration ∷ sandbox_runtime
    ∷ sandbox_cleanup ∷ output_capture ∷ skipped_after_failure ∷ []

-- Opens the tables and the equality of the enumerations.
unfoldable pub taxonomy : Unit {0}
unfolding code_category code_impact code_retryability FailureCategory-discrete FailureCode-discrete
    FailureImpact-discrete Retryability-discrete decide
taxonomy = tt
