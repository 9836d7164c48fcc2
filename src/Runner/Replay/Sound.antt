-- ===== src/Runner/Replay/Sound.antt =====
-- The classification of one command in src/e2h/runner.py: it returns, and what it returns passes
-- the validation of a `CommandResult`.
use e2h.Prelude.{
  decide, ℕ, ◌≡◌, ◌≤◌, ◌<◌, ◌^◌, ◌∙◌, ap, sym, refl, Bool, true, false, String, Option, none, some,
  List, ◌==◌, contains, ℤ, pos, negsuc, magnitude, arith, Bool-cases, inl, inr, if◌then◌else◌,
}
use e2h.Result.{Result, ok}
use e2h.Values.Data.{PyRuntime}
use e2h.Values.Size.{items_size, text_size}
use e2h.Failures
use e2h.Failures.{
  FailureCode, code_impact, infrastructure_error, code_eq, impact_eq, taxonomy,
  FailureCode-discrete, FailureImpact-discrete,
}
use e2h.Failures.Record.{FailureError, FailureRecord}
use e2h.Failures.Builders.{
  OsError, int_items, unexpected_exit_failure, make_record, is_not_found, is_denied,
}
use e2h.Failures.Accepted.Exits.{unexpected_exit_failure-ok}
use e2h.Failures.Accepted.Others.{
  Classifies, timeout_code, tested_code, HasShortErrno, timeout_failure-ok, launch_failure-tested,
  output_capture_failure-ok, sandbox_failure-ok,
}
use e2h.Failures.Consistent.Total.{IsValid, IsValid-IsClassified}
use e2h.Runner.Process.{
  ProcessOutcome, ProcessTrace, Execution, ran, sandbox_refused, not_started, execute_process,
  clean_up,
}
use e2h.Runner.Results.{
  CheckStatus, CheckStatus-discrete, check_status_eq, failure_codes, failure_must_match_status,
}
use e2h.Runner.Checks.{
  CommandCheck, ExecutionBackend, auto, local, container, backend_value, RunnerError, is_expected,
  sorted, failed_launch,
}
use e2h.Runner.Classify.{
  Classified, classified_as, timed_out_as, classify_outcome, outcome_of, classify,
}

module _ {F : Type 0} (py : PyRuntime F) (decode : List ℕ → List ℕ) where
  -- A record passes its own validation, where there is one.
  abbrev pub FailureIsValid : Option (FailureRecord F) → Type 0
  FailureIsValid none = Unit {0}
  FailureIsValid (some f) = IsValid py f

  -- What the rest of the loop needs of a classification.
  pub record IsSound (c : Classified F) : Type 0 where
    pub valid : FailureIsValid c.failure
    pub fits : failure_must_match_status c.status c.failure ≡ ok tt
    pub infrastructure :
        c.infrastructure_error
        ≡ elim c.failure [ none ↦ false | some f ↦ f.impact == infrastructure_error ]
    pub not_skipped : (c.status == CheckStatus.skipped) ≡ false

  abbrev pub Sound : Result RunnerError (Classified F) → Type 0
  Sound m = (c : Classified F) × (m ≡ ok c) × IsSound c

  -- A status whose failures are tabled.
  abbrev IsTabled : CheckStatus → FailureCode → Type 0
  IsTabled status code =
      ((f : FailureRecord F) → f.code ≡ code → failure_must_match_status status (some f) ≡ ok tt)
      × ((status == CheckStatus.skipped) ≡ false)

  classified_as-Sound :
      (status : CheckStatus) (outcome : ProcessOutcome) (infrastructure : Bool)
      (result : Result FailureError (FailureRecord F)) (code : FailureCode)
      → Classifies py result code
      → IsTabled status code
      → (code_impact code == infrastructure_error) ≡ infrastructure
      → Sound (classified_as py decode status outcome infrastructure result)
  classified_as-Sound status outcome infrastructure result code (r, made, valid, is_code, c) tabled
        i =
      rw made (
        _,
        refl,
        record {
          valid = valid;
          fits = tabled.0 r is_code;
          infrastructure =
              sym i
              ∙ ap (λ k. k == infrastructure_error)
                  (ap code_impact (sym is_code) ∙ sym (IsValid-IsClassified py r valid).impact);
          not_skipped = tabled.1;
        },
      )

  timed_out_as-Sound :
      (outcome : ProcessOutcome) (result : Result FailureError (FailureRecord F))
      (code : FailureCode)
      → Classifies py result code
      → IsTabled CheckStatus.timed_out code
      → Sound (timed_out_as py decode outcome result)
  timed_out_as-Sound outcome result code (r, made, valid, is_code, c) tabled = rw made (
    _,
    refl,
    record {
      valid = valid;
      fits = tabled.0 r is_code;
      infrastructure = refl;
      not_skipped = tabled.1;
    },
  )

  tabled :
      (status : CheckStatus) (code : FailureCode)
      → ((status == CheckStatus.passed) ≡ false)
      → ((status == CheckStatus.skipped) ≡ false)
      → contains code (failure_codes status) ≡ true
      → IsTabled status code
  unfolding failure_must_match_status CheckStatus-discrete decide
  tabled CheckStatus.passed code p s c = absurd (ground (arith, p))
  tabled CheckStatus.failed code p s c = (λ f e. rw (e, c) refl, s)
  tabled CheckStatus.timed_out code p s c = (λ f e. rw (e, c) refl, s)
  tabled CheckStatus.error code p s c = (λ f e. rw (e, c) refl, s)
  tabled CheckStatus.skipped code p s c = absurd (ground (arith, s))

  timed_out-IsTabled : (c : Option FailureCode) → IsTabled CheckStatus.timed_out (timeout_code c)
  unfolding failure_codes CheckStatus-discrete FailureCode-discrete decide
  timed_out-IsTabled none = tabled CheckStatus.timed_out _ refl refl refl
  timed_out-IsTabled (some Failures.sandbox_cleanup) = tabled CheckStatus.timed_out _ refl refl refl
  timed_out-IsTabled (some Failures.output_capture) = tabled CheckStatus.timed_out _ refl refl refl
  timed_out-IsTabled (some c) = tabled CheckStatus.timed_out _ refl refl refl

  launch-IsTabled :
      (e : OsError)
      → IsTabled CheckStatus.error (tested_code e)
        × ((code_impact (tested_code e) == infrastructure_error) ≡ true)
  unfolding failure_codes CheckStatus-discrete taxonomy decide
  launch-IsTabled e = elim (Bool-cases (is_not_found e)) [
    | inl missing ↦ rw missing (tabled _ Failures.command_not_found refl refl refl, refl)
    | inr found ↦ elim (Bool-cases (is_denied e)) [
      | inl denied ↦ rw (found, denied) (tabled _ Failures.permission_denied refl refl refl, refl)
      | inr other ↦ rw (found, other) (tabled _ Failures.process_launch_error refl refl refl, refl)
    ]
  ]

  failed_exit-Sound :
      (a : ℤ) (ns : List ℤ) (outcome : ProcessOutcome)
      → magnitude a < 10 ^ 10
      → items_size py (int_items ns) ≤ 3900
      → Sound (
          classified_as py decode CheckStatus.failed outcome false
            (unexpected_exit_failure py a ns))
  unfolding unexpected_exit_failure make_record failure_codes CheckStatus-discrete taxonomy decide
  failed_exit-Sound (pos n) ns outcome h k =
      let made = unexpected_exit_failure-ok py (pos n) ns h k in
      classified_as-Sound _ _ _ _ Failures.unexpected_exit (_, made, made, refl, refl)
        (tabled _ _ refl refl refl) refl
  failed_exit-Sound (negsuc n) ns outcome h k =
      let made = unexpected_exit_failure-ok py (negsuc n) ns h k in
      classified_as-Sound _ _ _ _ Failures.signal_termination (_, made, made, refl, refl)
        (tabled _ _ refl refl refl) refl

  -- What the launch and the process must have answered: the errors and the exit code of a real
  -- process are short, and a process that was waited for has an exit code.
  pub record IsUsable (check : CommandCheck F) (timeout : F) (execution : Execution) : Type 0 where
    pub timeout_is_finite : py.is_finite timeout ≡ true
    pub codes_fit : items_size py (int_items (sorted check.expected_exit_codes)) ≤ 3900
    pub exits :
        (trace : ProcessTrace) (cleanup_error : Option String)
        → execution ≡ ran trace cleanup_error
        → (a : ℤ) × (trace.returncode ≡ some a) × (magnitude a < 10 ^ 10)
    pub short_errno :
        (e : OsError) (message : String) → execution ≡ not_started e message → HasShortErrno e

  if-Sound :
      (test : Bool) {x y : Result RunnerError (Classified F)}
      → (test ≡ true → Sound x)
      → (test ≡ false → Sound y)
      → Sound (if test then x else y)
  if-Sound true holds fails = holds refl
  if-Sound false holds fails = fails refl

  option-Sound :
      {A : Type 0} (o : Option A) {x : Result RunnerError (Classified F)}
      {f : A → Result RunnerError (Classified F)}
      → (o ≡ none → Sound x)
      → ((a : A) → o ≡ some a → Sound (f a))
      → Sound (elim o [ none ↦ x | some a ↦ f a ])
  option-Sound none absent present = absent refl
  option-Sound (some a) absent present = present a refl

  none≢some : {o : Option ℤ} {a : ℤ} → o ≡ none → o ≡ some a → ⊥
  none≢some {o} {a} missing exited = ground (arith, missing, exited)

  short_of :
      {o : Option ℤ} (a : ℤ)
      → o ≡ some a
      → (b : ℤ) × (o ≡ some b) × (magnitude b < 10 ^ 10)
      → magnitude a < 10 ^ 10
  short_of {o} a exited (b, is_b, short) = ground (arith, exited, is_b, short)

  classify_outcome-Sound :
      (backend : ExecutionBackend) (timeout : F) (check : CommandCheck F) (outcome : ProcessOutcome)
      → text_size (backend_value backend) ≤ 64
      → py.is_finite timeout ≡ true
      → items_size py (int_items (sorted check.expected_exit_codes)) ≤ 3900
      → (outcome.timed_out ≡ false
          → (a : ℤ) × (outcome.exit_code ≡ some a) × (magnitude a < 10 ^ 10))
      → Sound (classify_outcome py decode backend timeout check outcome)
  unfolding classify_outcome failure_codes CheckStatus-discrete taxonomy failure_must_match_status
      decide
  classify_outcome-Sound backend timeout check outcome b t k exits =
      if-Sound outcome.timed_out
        (λ late.
          timed_out_as-Sound outcome _ (timeout_code outcome.failure_code)
            (timeout_failure-ok py timeout (backend_value backend) outcome.failure_code t b)
            (timed_out-IsTabled outcome.failure_code))
        (λ ended.
          option-Sound outcome.error
            (λ quiet.
              if-Sound (is_expected outcome.exit_code check.expected_exit_codes)
                (λ expected. (
                  _,
                  refl,
                  record { valid = tt; fits = refl; infrastructure = refl; not_skipped = refl },
                ))
                (λ unexpected.
                  option-Sound outcome.exit_code
                    (λ missing. absurd (none≢some missing (exits ended).1))
                    (λ a exited.
                      failed_exit-Sound a (sorted check.expected_exit_codes) outcome
                        (short_of a exited (exits ended)) k)))
            (λ message raised.
              classified_as-Sound CheckStatus.error outcome true _ Failures.output_capture
                (output_capture_failure-ok py (backend_value backend) b)
                (tabled CheckStatus.error _ refl refl refl) refl))

  backend_size : (backend : ExecutionBackend) → text_size (backend_value backend) ≤ 64
  unfolding backend_value text_size
  backend_size auto = omega arith
  backend_size local = omega arith
  backend_size container = omega arith

  exit_code_of :
      (n : ℕ) (trace : ProcessTrace) (a : ℤ)
      → trace.returncode ≡ some a
      → (execute_process decode n trace).timed_out ≡ false
      → (execute_process decode n trace).exit_code ≡ some a
  unfolding execute_process
  exit_code_of n trace a returned ended = rw ended returned

  outcome-exit_code :
      (backend : ExecutionBackend) (n : ℕ) (trace : ProcessTrace) (cleanup_error : Option String)
      (a : ℤ)
      → trace.returncode ≡ some a
      → (outcome_of py decode backend n trace cleanup_error).timed_out ≡ false
      → (outcome_of py decode backend n trace cleanup_error).exit_code ≡ some a
  unfolding clean_up
  outcome-exit_code auto n trace cleanup_error a returned = exit_code_of n trace a returned
  outcome-exit_code local n trace cleanup_error a returned = exit_code_of n trace a returned
  outcome-exit_code container n trace none a returned = exit_code_of n trace a returned
  outcome-exit_code container n trace (some message) a returned =
      elim (Bool-cases (execute_process decode n trace).timed_out) [
        | inl late ↦ rw late (λ ended. absurd (ground (arith, ended)))
        | inr ended ↦ rw ended (λ e. exit_code_of n trace a returned ended)
      ]

  -- If the timeout is finite, the expected codes take at most 3900 bytes, exit codes and `errno` have
  -- at most ten digits and an awaited process has an exit code, then every branch of the `try`
  -- statement over a command returns. The record that it gives is valid, its code is one that the
  -- status allows, the status is not "skipped", and the infrastructure flag is set exactly for a
  -- record of that impact.
  pub classify-Sound :
      (backend : ExecutionBackend) (max_output_chars : ℕ) (timeout : F) (check : CommandCheck F)
      (execution : Execution)
      → IsUsable check timeout execution
      → Sound (classify py decode backend max_output_chars timeout check execution)
  unfolding classify failure_codes CheckStatus-discrete taxonomy decide
  classify-Sound backend n timeout check (ran trace cleanup_error) u =
      let (a, returned, short) = u.exits trace cleanup_error refl in
      classify_outcome-Sound backend timeout check
        (outcome_of py decode backend n trace cleanup_error) (backend_size backend)
        u.timeout_is_finite u.codes_fit
        (λ ended. (a, outcome-exit_code backend n trace cleanup_error a returned ended, short))
  classify-Sound backend n timeout check (sandbox_refused message) u =
      classified_as-Sound CheckStatus.error (failed_launch message) true _ Failures.sandbox_runtime
        (sandbox_failure-ok py false) (tabled CheckStatus.error _ refl refl refl) refl
  classify-Sound backend n timeout check (not_started e message) u =
      let (fits, infrastructure) = launch-IsTabled e in
      classified_as-Sound CheckStatus.error (failed_launch message) true _ (tested_code e)
        (launch_failure-tested py e (backend_value backend) (u.short_errno e message refl)
          (backend_size backend))
        fits infrastructure
