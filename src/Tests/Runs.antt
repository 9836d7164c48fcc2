-- ===== src/Tests/Runs.antt =====
-- A run of two checks, the first of which fails.
use e2h.Prelude.{
  ℕ, ◌≤◌, ◌≡◌, refl, true, false, String, Option, none, some, [], ◌∷◌, ◌++◌, map, ◌==◌, pos,
  text_eq, arith,
}
use e2h.Result.{ok, is_ok}
use e2h.Values.Size.{items_size}
use e2h.Failures.Builders.{int_items}
use e2h.Runner.Capture.{Stream}
use e2h.Runner.Process.{ProcessTrace, ran}
use e2h.Runner.Results.{
  DateTime, RunResult, run_status_eq, order_start, order_steps, status_of_checks,
}
use e2h.Runner.Checks.{
  CommandCheck, TaskCapsule, auto, local, ResolvedPath, safe_child, relative_to, select_backend,
  sorted, relative_cwd, path_text,
}
use e2h.Runner.Classify.{classify}
use e2h.Runner.Replay.{Observation, run_capsule}
use e2h.Runner.Replay.Sound.{IsUsable, Sound, classify-Sound}
use e2h.Runner.Replay.Accepted.{IsReady}
use e2h.Runner.Replay.Valid.{AllReady, run_capsule-valid}
use e2h.Failures
use e2h.Failures.{taxonomy}
use e2h.Failures.Record.{
  FailureRecord, validated_record, details_must_be_bounded_json, validate_detail_value,
  check_id_too_long, taxonomy_must_be_consistent, caused_by_must_fit,
}
use e2h.Failures.Builders.{make_record, skipped_failure}
use e2h.Values.Data.{end}
use e2h.Values.Compatible.{validate_json_compatible}
use e2h.Values.Size.{json_size}
use e2h.Runner.Results.{
  CommandResult, validated_result, failure_must_match_status, failure_codes, check_status_eq,
  CheckStatus-discrete, CheckStatus,
}
use e2h.Runner.Replay.{RunState, run_checks, run_check, skipped_check, skipped_result}
use e2h.Runner.Replay.Halted.{run_checks-halted}
use e2h.Prelude.{all, List, ◌++◌}
use e2h.Tests.Samples.{whole_seconds, sample_clock, bytes_as_characters}

abbrev build_check : CommandCheck ℕ
build_check = record {
  id = "build";
  argv = "make" ∷ [];
  cwd = ".";
  timeout_seconds = none;
  expected_exit_codes = pos 0 ∷ [];
  continue_on_failure = false;
}

abbrev test_check : CommandCheck ℕ
test_check = record build_check { id = "test"; timeout_seconds = some 10 }

abbrev sample_capsule : TaskCapsule ℕ
sample_capsule = record {
  id = "sample";
  working_directory = "task";
  default_timeout_seconds = 60;
  max_output_chars = 1000;
  has_sandbox = false;
  commands = build_check ∷ (test_check ∷ []);
}

abbrev quiet : Stream
quiet = record { chunks = []; read_error = none }

-- The process ends with exit code 1.
abbrev failing : ProcessTrace
failing = record {
  wait_timed_out = false;
  reader_alive_at_deadline = false;
  reader_alive_at_end = false;
  stdout = quiet;
  stderr = quiet;
  returncode = some (pos 1);
}

abbrev seen : Observation ℕ
seen = record {
  is_directory = true;
  command_started = 3;
  command_finished = 5;
  execution = ran failing none;
}

abbrev workspace : ResolvedPath
workspace = "work" ∷ []

-- Every relative path resolves to a directory below.
abbrev resolve_below : ResolvedPath → String → Option ResolvedPath
resolve_below root relative = some (root ++ (relative ∷ []))

abbrev at_noon : DateTime
at_noon = record { is_aware = true; instant = 12 }

usable :
    (check : CommandCheck ℕ) (timeout : ℕ)
    → check.expected_exit_codes ≡ pos 0 ∷ []
    → IsUsable whole_seconds bytes_as_characters check timeout (ran failing none)
unfolding items_size int_items sorted
usable check timeout codes = record {
  timeout_is_finite = refl;
  codes_fit = rw codes (omega arith);
  exits = λ trace cleanup_error h. (pos 1, ground (arith, h), omega arith);
  short_errno = λ e message h. absurd (ground (arith, h));
}

classify-Sound_example :
    Sound whole_seconds bytes_as_characters
      (classify whole_seconds bytes_as_characters local 1000 60 build_check (ran failing none))
classify-Sound_example =
    classify-Sound whole_seconds bytes_as_characters local 1000 60 build_check (ran failing none)
      (usable build_check 60 refl)

ready :
    (check : CommandCheck ℕ)
    → check.expected_exit_codes ≡ pos 0 ∷ []
    → check.cwd ≡ "."
    → Prim.Native.String.count check.id ≤ 255
    → IsReady whole_seconds bytes_as_characters sample_clock resolve_below sample_capsule workspace
        ("work" ∷ ("task" ∷ []))
        seen
        check
unfolding safe_child relative_to relative_cwd path_text
ready check codes cwd short = record {
  id_fits = short;
  dir = "work" ∷ ("task" ∷ ("." ∷ []));
  inside = rw cwd refl;
  cwd = "task/.";
  named = refl;
  clock_is_monotonic = refl;
  usable = usable check _ codes;
}

both_ready :
    AllReady whole_seconds bytes_as_characters sample_clock resolve_below sample_capsule workspace
      ("work" ∷ ("task" ∷ []))
      (λ n. seen)
      sample_capsule.commands
both_ready =
    (ready build_check refl refl (omega arith), (ready test_check refl refl (omega arith), tt))

run_capsule-valid_example :
    (r : RunResult ℕ) × (run_capsule whole_seconds bytes_as_characters sample_clock resolve_below
        sample_capsule auto workspace true true
        (λ n. seen)
        at_noon
        at_noon
        1
        9
      ≡ ok r)
    × (map (λ check. check.id) r.checks ≡ "build" ∷ ("test" ∷ []))
    × (is_ok (order_steps order_start r.checks) ≡ true)
    × ((r.status == status_of_checks r.checks) ≡ true)
unfolding safe_child relative_to select_backend
run_capsule-valid_example =
    run_capsule-valid whole_seconds bytes_as_characters sample_clock resolve_below sample_capsule
      auto local workspace ("work" ∷ ("task" ∷ [])) (λ n. seen) at_noon at_noon 1 9 refl refl refl
      (record {
        started_aware = refl;
        finished_aware = refl;
        in_order = omega arith;
        monotonic = refl;
      })
      both_ready

abbrev after_build : FailureRecord ℕ
after_build = record {
  category = Failures.control_flow;
  code = Failures.skipped_after_failure;
  impact = Failures.not_evaluated;
  retryability = Failures.after_fix;
  summary = "check was skipped after an earlier check failed";
  details = end;
  caused_by_check_id = some "build";
  causes = [];
}

abbrev halted_state : RunState ℕ
halted_state = record {
  results = [];
  halt = true;
  blocked_by_check_id = some "build";
  infrastructure_error = false;
}

abbrev skipped_state : RunState ℕ
skipped_state = record halted_state {
  results =
      skipped_result whole_seconds bytes_as_characters sample_clock test_check "task/." after_build
      ∷ [];
}

run_checks-halted_example :
    (skips : List (CommandResult ℕ)) × (skipped_state.results ≡ halted_state.results ++ skips)
    × (map (λ r. r.id) skips ≡ "test" ∷ [])
    × (all (λ r. r.status == CheckStatus.skipped) skips ≡ true)
unfolding run_checks run_check skipped_check validated_result skipped_failure validated_record
    taxonomy details_must_be_bounded_json validate_json_compatible validate_detail_value json_size
    check_id_too_long taxonomy_must_be_consistent caused_by_must_fit make_record
    failure_must_match_status failure_codes safe_child relative_to relative_cwd path_text
    CheckStatus-discrete
run_checks-halted_example =
    run_checks-halted whole_seconds bytes_as_characters sample_clock resolve_below sample_capsule
      local workspace ("work" ∷ ("task" ∷ [])) (λ n. seen) halted_state skipped_state
      (test_check ∷ []) refl refl
