-- ===== src/Runner/Replay/Valid.antt =====
-- The end of `run_capsule` in src/e2h/runner.py: the `RunResult` that it builds is accepted.
use e2h.Prelude.{
  ℕ, suc, ◌≡◌, ◌≤◌, ap, sym, subst, refl, true, false, String, Option, none, some, List, [], ◌∷◌,
  ◌++◌, map, any, append-nil, append_assoc, ◌==◌, ==-refl, ≡→==, arith, ltb, all_unique, Eq,
  text_eq, number_eq, if◌then◌else◌,
}
use e2h.Dict.{same_items, items_within, sort_items, counter}
use e2h.Dict.Lookup.{same_items_intro}
use e2h.Result.{ok, rethrow, is_ok}
use e2h.Values.Data.{PyRuntime}
use e2h.Failures.{category_value, code_value, code_eq}
use e2h.Failures.Counts.{counted-IsDict}
use e2h.Failures.Record.{FailureRecord}
use e2h.Failures.Summary.{FailureSummary, summary_of}
use e2h.Failures.Consistent.Total.{failures_of, summary_of-accepted, summarize_failures-ok}
use e2h.Runner.Results.{
  Clock, DateTime, RunResult, RunStatus, run_status_eq, same_summary, same_option, has_not_passed,
  status_of_checks, order_start, order_steps, validated_run, result_must_be_consistent,
  failure_entry,
}
use e2h.Runner.Checks.{
  CommandCheck, TaskCapsule, ExecutionBackend, invalid_result, ResolvedPath, safe_child,
  select_backend,
}
use e2h.Runner.Replay.{
  Observation, RunState, run_start, run_status, built_result, run_checks, run_capsule,
}
use e2h.Runner.Replay.Invariant.{
  IsConsistent, start-IsConsistent, collect-AllAccepted, entries-AllValid,
}
use e2h.Runner.Replay.Accepted.{IsReady, run_check-Continues}

same_option_refl {ℓ} : {A : Type ℓ} ⦃e : Eq A⦄ (o : Option A) → same_option o o ≡ true
same_option_refl none = refl
same_option_refl (some a) = ==-refl a

counted-same :
    (keys : List String) → same_items (sort_items (counter keys)) (sort_items (counter keys)) ≡ true
counted-same keys = same_items_intro _ _ (counted-IsDict keys) (counted-IsDict keys) (λ k. refl)

same_summary-intro :
    (a : FailureSummary)
    → same_items a.by_category a.by_category ≡ true
    → same_items a.by_code a.by_code ≡ true
    → same_summary a a ≡ true
unfolding same_summary
same_summary-intro a h k = ground (
  arith,
  h,
  k,
  ==-refl a.total,
  ==-refl a.evaluation_failures,
  ==-refl a.infrastructure_errors,
  ==-refl a.not_evaluated_count,
  same_option_refl a.primary_check_id,
  same_option_refl a.primary_code,
)

-- The summary that is built is equal to itself: no key is counted twice.
same_summary_refl :
    {F : Type 0} (ps : List (String × FailureRecord F))
    → same_summary (summary_of ps) (summary_of ps) ≡ true
unfolding summary_of same_items items_within
same_summary_refl [] = same_summary-intro _ refl refl
same_summary_refl (p ∷ ps) =
    same_summary-intro (summary_of (p ∷ ps))
      (counted-same (map (λ q. category_value q.1.category) (p ∷ ps)))
      (counted-same (map (λ q. code_value q.1.code) (p ∷ ps)))

module _ {F : Type 0} (py : PyRuntime F) (decode : List ℕ → List ℕ) (clock : Clock F)
    (resolve : ResolvedPath → String → Option ResolvedPath) where
  -- Every iteration is ready, by its position.
  abbrev pub AllReady :
      TaskCapsule F
      → ResolvedPath
      → ResolvedPath
      → (ℕ → Observation F)
      → List (CommandCheck F)
      → Type 0
  AllReady capsule workspace_root task_root observe [] = Unit
  AllReady capsule workspace_root task_root observe (check ∷ checks) =
      IsReady py decode clock resolve capsule workspace_root task_root (observe 0) check
      × AllReady capsule workspace_root task_root (λ n. observe (suc n)) checks

  run_checks-IsConsistent :
      (capsule : TaskCapsule F) (backend : ExecutionBackend)
      (workspace_root task_root : ResolvedPath) (observe : ℕ → Observation F) (s : RunState F)
      (ids : List String) (checks : List (CommandCheck F))
      → IsConsistent py decode clock s ids
      → AllReady capsule workspace_root task_root observe checks
      → (s' : RunState F) × (run_checks py decode clock resolve capsule backend workspace_root
            task_root observe s checks
          ≡ ok s')
        × IsConsistent py decode clock s' (ids ++ map (λ check. check.id) checks)
  unfolding run_checks
  run_checks-IsConsistent capsule backend workspace_root task_root observe s ids [] c ready =
      (s, refl, subst (IsConsistent py decode clock s) (sym (append-nil ids)) c)
  run_checks-IsConsistent capsule backend workspace_root task_root observe s ids (check ∷ checks) c
        ready =
      let (s', ran, c') =
        run_check-Continues py decode clock resolve capsule backend workspace_root task_root
          (observe 0) s ids check c ready.0 in
      let (s'', rest, c'') =
        run_checks-IsConsistent capsule backend workspace_root task_root (λ n. observe (suc n)) s'
          (ids ++ (check.id ∷ [])) checks c' ready.1 in
      (
        s'',
        rw ran rest,
        subst (IsConsistent py decode clock s'')
            (append_assoc ids (check.id ∷ []) (map (λ k. k.id) checks)) c'',
      )

  run_status-consistent :
      (s : RunState F) (ids : List String)
      → IsConsistent py decode clock s ids
      → (run_status s == status_of_checks s.results) ≡ true
  unfolding status_of_checks
  run_status-consistent s ids c = ≡→== _ _ (
      ap
        (λ b.
          if b
          then RunStatus.error
          else if any has_not_passed s.results
          then RunStatus.failed
          else RunStatus.passed)
        c.infrastructure)

  -- What the start and the end of a run must be for its result to be accepted.
  pub record IsTimed (started_at finished_at : DateTime) (started_clock finished_clock : F)
      : Type 0 where
    pub started_aware : started_at.is_aware ≡ true
    pub finished_aware : finished_at.is_aware ≡ true
    pub in_order : started_at.instant ≤ finished_at.instant
    pub monotonic : clock.precedes started_clock finished_clock ≡ true

  built_result-valid :
      (capsule : TaskCapsule F) (s : RunState F) (ids : List String)
      (started_at finished_at : DateTime) (started_clock finished_clock : F)
      → IsConsistent py decode clock s ids
      → all_unique ids ≡ true
      → IsTimed started_at finished_at started_clock finished_clock
      → let r =
          built_result py decode clock capsule s
            (summary_of (failures_of py (map failure_entry s.results)))
            started_at
            finished_at
            started_clock
            finished_clock in
        validated_run py clock r ≡ ok r
  unfolding validated_run result_must_be_consistent
  built_result-valid capsule s ids started_at finished_at started_clock finished_clock c unique t =
      let entries = entries-AllValid py decode clock s.results c.accepted in
      let in_order : ltb finished_at.instant started_at.instant ≡ false =
        ground (arith, t.in_order) in
      rw
        (
          clock.is_duration-between started_clock finished_clock t.monotonic,
          collect-AllAccepted py decode clock s.results c.accepted,
          summary_of-accepted py (map failure_entry s.results) entries,
          t.started_aware,
          t.finished_aware,
          in_order,
          c.ids_match,
          unique,
          c.ordered,
          summarize_failures-ok py (map failure_entry s.results) entries,
          same_summary_refl (failures_of py (map failure_entry s.results)),
          run_status-consistent s ids c,
        )
        refl

  -- Take a capsule with distinct check ids, a workspace and a working directory that exist and
  -- resolve, a backend that can be selected, and clocks that do not run backwards. Let every check
  -- be ready: its directory resolves inside the workspace, its id has at most 255 characters, and
  -- its command is usable as `classify-Sound` demands. Then `run_capsule` returns: no record, command
  -- result or run result that it builds is refused by its own validators. There is one result for
  -- each check, in the order of the capsule, the results are in the order that the validator of
  -- `RunResult` demands, and the status is the one that the results give.
  pub run_capsule-valid :
      (capsule : TaskCapsule F) (backend selected : ExecutionBackend)
      (workspace_root task_root : ResolvedPath) (observe : ℕ → Observation F)
      (started_at finished_at : DateTime) (started_clock finished_clock : F)
      → safe_child resolve workspace_root capsule.working_directory ≡ ok task_root
      → select_backend backend capsule.has_sandbox ≡ ok selected
      → all_unique (map (λ check. check.id) capsule.commands) ≡ true
      → IsTimed started_at finished_at started_clock finished_clock
      → AllReady capsule workspace_root task_root observe capsule.commands
      → (r : RunResult F) × (run_capsule py decode clock resolve capsule backend workspace_root true
            true observe started_at finished_at started_clock finished_clock
          ≡ ok r)
        × (map (λ check. check.id) r.checks ≡ map (λ check. check.id) capsule.commands)
        × (is_ok (order_steps order_start r.checks) ≡ true)
        × ((r.status == status_of_checks r.checks) ≡ true)
  unfolding run_capsule
  run_capsule-valid capsule backend selected workspace_root task_root observe started_at finished_at
        started_clock finished_clock inside chosen unique timed ready =
      let (s, ran, c) =
        run_checks-IsConsistent capsule selected workspace_root task_root observe run_start []
          capsule.commands (start-IsConsistent py decode clock) ready in
      let summarized =
        summarize_failures-ok py (map failure_entry s.results)
          (entries-AllValid py decode clock s.results c.accepted) in
      let valid =
        built_result-valid capsule s _ started_at finished_at started_clock finished_clock c unique
          timed in
      (
        built_result py decode clock capsule s
            (summary_of (failures_of py (map failure_entry s.results))) started_at finished_at
            started_clock finished_clock,
        rw (inside, chosen, ran, summarized) (ap (λ m. rethrow invalid_result m) valid),
        c.ids_match,
        ap is_ok c.ordered,
        run_status-consistent s _ c,
      )
