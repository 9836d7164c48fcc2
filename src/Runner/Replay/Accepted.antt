-- ===== src/Runner/Replay/Accepted.antt =====
-- The loop of `run_capsule` in src/e2h/runner.py raises nothing, and its result passes the
-- validation of `RunResult`.
use e2h.Prelude.{
  ℕ, ◌≡◌, ◌≤◌, ap, sym, subst, refl, Bool, true, false, not, ◌||◌, String, Option, some, List, [],
  ◌∷◌, ◌++◌, ◌==◌, Bool-cases, inl, inr, arith, decide, if◌then◌else◌,
}
use Prim.Native.String.{count}
use e2h.Result.{Result, ok}
use e2h.Values.Data.{PyRuntime}
use e2h.Failures
use e2h.Failures.{code_eq, impact_eq, infrastructure_error, taxonomy}
use e2h.Failures.Record.{FailureRecord, validated_record}
use e2h.Failures.Accepted.Others.{skipped_failure-ok, working_directory_failure-ok}
use e2h.Failures.Consistent.Total.{IsValid-IsClassified}
use e2h.Runner.Results.{
  CheckStatus, CheckStatus-discrete, check_status_eq, Clock, CommandResult, OrderState, order_step,
  failure_must_match_status, failure_codes,
}
use e2h.Runner.Checks.{
  CommandCheck, TaskCapsule, ExecutionBackend, RunnerError, ResolvedPath, safe_child, relative_cwd,
  timeout_of,
}
use e2h.Runner.Classify.{Classified}
use e2h.Runner.Replay.{
  Observation, RunState, skipped_check, directory_missing, record_outcome, run_check,
  skipped_result, missing_result, command_result,
}
use e2h.Runner.Replay.Sound.{IsSound, IsUsable, classify-Sound}
use e2h.Runner.Replay.Order.{
  IsLinked, running, running-none_skipped, halted, skipping, order_step-executed,
  order_step-first_skipped, order_step-skipped,
}
use e2h.Runner.Replay.Invariant.{IsConsistent, extend-IsConsistent, validated_result-ok}

module _ {F : Type 0} (py : PyRuntime F) (decode : List ℕ → List ℕ) (clock : Clock F) where
  -- The iteration returns, and what held before it holds after it.
  abbrev pub Continues : List String → String → Result RunnerError (RunState F) → Type 0
  Continues ids check_id m =
      (s' : RunState F) × (m ≡ ok s') × IsConsistent py decode clock s' (ids ++ (check_id ∷ []))

  halt_link :
      (s : RunState F) (r : CommandResult F) (o : OrderState F) (keep_on : Bool)
      → s.halt ≡ not keep_on
      → s.blocked_by_check_id ≡ some r.id
      → count r.id ≤ 255
      → o.skipped_started ≡ false
      → o.previous ≡ some r
      → (r.status == CheckStatus.passed) ≡ false
      → (r.status == CheckStatus.skipped) ≡ false
      → IsLinked s o
  halt_link s r o true h b short none_yet before p k = running h none_yet
  halt_link s r o false h b short none_yet before p k = halted r h b short none_yet before p k

  directory_missing-Continues :
      (s : RunState F) (ids : List String) (check : CommandCheck F) (dir : ResolvedPath)
      (cwd : String) (c : IsConsistent py decode clock s ids)
      → count check.id ≤ 255
      → c.order.skipped_started ≡ false
      → Continues ids check.id (directory_missing py decode clock s check dir cwd)
  unfolding directory_missing failure_must_match_status failure_codes CheckStatus-discrete taxonomy
      decide
  directory_missing-Continues s ids check dir cwd c short none_yet =
      let (f, made, valid, is_code, unblocked) = working_directory_failure-ok py in
      let r = missing_result py decode clock check dir cwd f in
      let fits : failure_must_match_status CheckStatus.error (some f) ≡ ok tt = rw is_code refl in
      let accepted = validated_result-ok py decode clock r clock.is_duration-zero valid fits in
      let impact : (f.impact == infrastructure_error) ≡ true =
        rw (IsValid-IsClassified py f valid).impact (rw is_code refl) in
      rw (made, accepted)
        (
          _,
          refl,
          extend-IsConsistent py decode clock s _ ids r _ c refl (ground (arith, impact)) accepted
              valid (order_step-executed c.order r refl none_yet)
              (halt_link _ r _ check.continue_on_failure refl refl short none_yet refl refl refl),
        )

  record_outcome-Continues :
      (s : RunState F) (ids : List String) (check : CommandCheck F) (cwd : String)
      (seen : Observation F) (k : Classified F) (c : IsConsistent py decode clock s ids)
      → count check.id ≤ 255
      → s.halt ≡ false
      → clock.precedes seen.command_started seen.command_finished ≡ true
      → IsSound py decode k
      → Continues ids check.id (record_outcome py decode clock s check cwd seen k)
  unfolding record_outcome
  record_outcome-Continues s ids check cwd seen k c short on later sound =
      let r = command_result py decode clock check cwd seen k in
      let none_yet = running-none_skipped s c.order c.linked on in
      let accepted =
        validated_result-ok py decode clock r
          (clock.is_duration-between seen.command_started seen.command_finished later) sound.valid
          sound.fits in
      let step = order_step-executed c.order r sound.not_skipped none_yet in
      let infrastructure = ap (λ b. s.infrastructure_error || b) sound.infrastructure in
      elim (Bool-cases (k.status == CheckStatus.passed)) [
        | inl passed ↦
            rw (accepted, passed)
              (
                _,
                refl,
                extend-IsConsistent py decode clock s _ ids r _ c refl infrastructure accepted
                    sound.valid step (running on none_yet),
              )
        | inr not_passed ↦
            rw (accepted, not_passed)
              (
                _,
                refl,
                extend-IsConsistent py decode clock s _ ids r _ c refl infrastructure accepted
                    sound.valid step
                    (halt_link _ r _ check.continue_on_failure refl refl short none_yet refl
                      not_passed sound.not_skipped),
              )
      ]

  unmoved :
      (f : FailureRecord F) (b : Bool)
      → validated_record py f ≡ ok f
      → f.code ≡ Failures.skipped_after_failure
      → b ≡ (b || (f.impact == infrastructure_error))
  unfolding taxonomy decide
  unmoved f b valid is_code =
      rw (IsValid-IsClassified py f valid).impact (rw is_code (ground arith))

  -- A check that is skipped after the one with this id.
  skip_by-Continues :
      (s : RunState F) (ids : List String) (check : CommandCheck F) (cwd : String)
      (blocked_by : String) (c : IsConsistent py decode clock s ids)
      → count blocked_by ≤ 255
      → ((f : FailureRecord F)
          → f.caused_by_check_id ≡ some blocked_by
          → (o : OrderState F) × (order_step c.order (skipped_result py decode clock check cwd f)
              ≡ ok o)
            × (o.skipped_started ≡ true)
            × (o.blocking_check_id ≡ some blocked_by))
      → s.halt ≡ true
      → s.blocked_by_check_id ≡ some blocked_by
      → Continues ids check.id (skipped_check py decode clock s check cwd (some blocked_by))
  unfolding skipped_check failure_must_match_status failure_codes CheckStatus-discrete taxonomy
      decide
  skip_by-Continues s ids check cwd blocked_by c short next off b =
      let (f, made, valid, is_code, names) = skipped_failure-ok py blocked_by short in
      let r = skipped_result py decode clock check cwd f in
      let fits : failure_must_match_status CheckStatus.skipped (some f) ≡ ok tt = rw is_code refl in
      let accepted = validated_result-ok py decode clock r clock.is_duration-zero valid fits in
      let (o, step, started, blocking) = next f names in
      rw (made, accepted)
        (
          _,
          refl,
          extend-IsConsistent py decode clock s _ ids r o c refl
              (unmoved f s.infrastructure_error valid is_code) accepted valid step
              (skipping blocked_by off b short started blocking),
        )

  skipped_check-Continues :
      (s : RunState F) (ids : List String) (check : CommandCheck F) (cwd : String)
      (c : IsConsistent py decode clock s ids)
      → s.halt ≡ true
      → IsLinked s c.order
      → Continues ids check.id (skipped_check py decode clock s check cwd s.blocked_by_check_id)
  unfolding CheckStatus-discrete decide
  skipped_check-Continues s ids check cwd c off (running on none_yet) =
      absurd (ground (arith, off, on))
  skipped_check-Continues s ids check cwd c off (halted h h' b short none_yet before p q) =
      subst (λ o. Continues ids check.id (skipped_check py decode clock s check cwd o)) (sym b)
        (skip_by-Continues s ids check cwd h.id c short
          (λ f names. (
            _,
            order_step-first_skipped c.order _ h f refl refl names none_yet before p q,
            refl,
            refl,
          ))
          off b)
  skipped_check-Continues s ids check cwd c off (skipping blocked_by h b short started e) =
      subst (λ o. Continues ids check.id (skipped_check py decode clock s check cwd o)) (sym b)
        (skip_by-Continues s ids check cwd blocked_by c short
          (λ f names.
            (_, order_step-skipped c.order _ f blocked_by refl refl names started e, started, e))
          off b)

  if-Continues :
      (ids : List String) (check_id : String) (test : Bool) {x y : Result RunnerError (RunState F)}
      → (test ≡ true → Continues ids check_id x)
      → (test ≡ false → Continues ids check_id y)
      → Continues ids check_id (if test then x else y)
  if-Continues ids check_id true holds fails = holds refl
  if-Continues ids check_id false holds fails = fails refl

  module _ (resolve : ResolvedPath → String → Option ResolvedPath) where
    -- What one iteration needs of its check and of what it sees.
    pub record IsReady (capsule : TaskCapsule F) (workspace_root task_root : ResolvedPath)
        (seen : Observation F) (check : CommandCheck F) : Type 0 where
      pub id_fits : count check.id ≤ 255
      pub dir : ResolvedPath
      pub inside : safe_child resolve task_root check.cwd ≡ ok dir
      pub cwd : String
      pub named : relative_cwd workspace_root dir ≡ ok cwd
      pub clock_is_monotonic : clock.precedes seen.command_started seen.command_finished ≡ true
      pub usable : IsUsable py decode check (timeout_of capsule check) seen.execution

    pub run_check-Continues :
        (capsule : TaskCapsule F) (backend : ExecutionBackend)
        (workspace_root task_root : ResolvedPath) (seen : Observation F) (s : RunState F)
        (ids : List String) (check : CommandCheck F)
        → IsConsistent py decode clock s ids
        → IsReady capsule workspace_root task_root seen check
        → Continues ids check.id (
            run_check py decode clock resolve capsule backend workspace_root task_root seen s check)
    unfolding run_check
    run_check-Continues capsule backend workspace_root task_root seen s ids check c ready =
        rw (ready.inside, ready.named)
          (if-Continues ids check.id s.halt
            (λ off. skipped_check-Continues s ids check ready.cwd c off c.linked)
            (λ on.
              if-Continues ids check.id (not seen.is_directory)
                (λ absent.
                  directory_missing-Continues s ids check ready.dir ready.cwd c ready.id_fits
                    (running-none_skipped s c.order c.linked on))
                (λ present.
                  let (k, classified, sound) =
                    classify-Sound py decode backend capsule.max_output_chars
                      (timeout_of capsule check) check seen.execution ready.usable in
                  rw classified (
                    record_outcome-Continues s ids check ready.cwd seen k c ready.id_fits on
                      ready.clock_is_monotonic sound))))
