-- ===== src/Tests/Samples.antt =====
-- A runtime and a clock over whole seconds, for the witnesses.
use e2h.Prelude.{ℕ, ◌-◌, refl, true, none, List, [], leb, arith}
use e2h.Values.Data.{PyRuntime, end}
use e2h.Failures
use e2h.Failures.{code_category, code_impact, code_retryability, FailureCode}
use e2h.Failures.Record.{FailureRecord}
use e2h.Runner.Results.{Clock}

abbrev pub whole_seconds : PyRuntime ℕ
whole_seconds = record {
  is_finite = λ n. true;
  float_size = λ n. 1;
  casefold = λ s. s;
  float_size-le = λ n h. omega arith;
  casefold-plain = λ s h. refl;
}

abbrev pub sample_clock : Clock ℕ
sample_clock = record {
  zero_seconds = 0;
  seconds_between = λ a b. b - a;
  precedes = leb;
  is_duration = λ n. true;
  is_duration-zero = refl;
  is_duration-between = λ a b h. refl;
}

abbrev pub bytes_as_characters : List ℕ → List ℕ
bytes_as_characters bytes = bytes

abbrev pub missing_directory : FailureRecord ℕ
missing_directory = record {
  category = Failures.environment;
  code = Failures.working_directory_missing;
  impact = Failures.infrastructure_error;
  retryability = Failures.after_fix;
  summary = "declared check working directory does not exist";
  details = end;
  caused_by_check_id = none;
  causes = [];
}
