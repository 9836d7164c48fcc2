-- ===== src/Runner/Replay/Halted.antt =====
-- The loop of `run_capsule` in src/e2h/runner.py after a check has halted it.
use e2h.Prelude.{
  ℕ, suc, ◌≡◌, ◌∙◌, ap, sym, refl, true, String, Option, none, some, List, [], ◌∷◌, ◌++◌, map, all,
  append-nil, append_assoc, ◌==◌, ≡→==, inl, inr, arith,
}
use e2h.Result.{ok, Result-cases}
use e2h.Values.Data.{PyRuntime}
use e2h.Failures.Builders.{skipped_failure}
use e2h.Runner.Results.{CheckStatus, check_status_eq, Clock, CommandResult, validated_result}
use e2h.Runner.Checks.{
  CommandCheck, TaskCapsule, ExecutionBackend, ResolvedPath, safe_child, relative_cwd,
}
use e2h.Runner.Replay.{Observation, RunState, skipped_check, skipped_result, run_check, run_checks}

module _ {F : Type 0} (py : PyRuntime F) (decode : List ℕ → List ℕ) (clock : Clock F) where
  validated_result-same : (r r' : CommandResult F) → validated_result py clock r ≡ ok r' → r ≡ r'
  unfolding validated_result
  validated_result-same r r' h = ground (arith, h)

  -- One more skipped result, and nothing else.
  abbrev Skips : RunState F → String → RunState F → Type 0
  Skips s check_id s' =
      (r : CommandResult F) × (s'.results ≡ s.results ++ (r ∷ []))
      × (r.id ≡ check_id)
      × (r.status ≡ CheckStatus.skipped)
      × (s'.halt ≡ s.halt)

  skipped_check-Skips :
      (s s' : RunState F) (check : CommandCheck F) (cwd : String) (blocked_by : Option String)
      → skipped_check py decode clock s check cwd blocked_by ≡ ok s'
      → Skips s check.id s'
  unfolding skipped_check
  skipped_check-Skips s s' check cwd none h = absurd (ground (arith, h))
  skipped_check-Skips s s' check cwd (some blocked_by) h =
      elim (Result-cases (skipped_failure py blocked_by)) [
        | inr (problem, refused) ↦ absurd (ground (arith, h, refused))
        | inl (f, made) ↦
            elim (Result-cases
              (validated_result py clock (skipped_result py decode clock check cwd f))) [
                | inr (problem, refused) ↦ absurd (ground (arith, h, made, refused))
                | inl (r, accepted) ↦
                    let same =
                      validated_result-same (skipped_result py decode clock check cwd f) r
                        accepted in
                    (
                      r,
                      ground (arith, h, made, accepted),
                      sym (ap (λ k. k.id) same),
                      sym (ap (λ k. k.status) same),
                      ground (arith, h, made, accepted),
                    )
              ]
      ]

  module _ (resolve : ResolvedPath → String → Option ResolvedPath) where
    run_check-Skips :
        (capsule : TaskCapsule F) (backend : ExecutionBackend)
        (workspace_root task_root : ResolvedPath) (seen : Observation F) (s s' : RunState F)
        (check : CommandCheck F)
        → s.halt ≡ true
        → run_check py decode clock resolve capsule backend workspace_root task_root seen s check
          ≡ ok s'
        → Skips s check.id s'
    unfolding run_check
    run_check-Skips capsule backend workspace_root task_root seen s s' check off h =
        elim (Result-cases (safe_child resolve task_root check.cwd)) [
          | inr (problem, refused) ↦ absurd (ground (arith, h, refused))
          | inl (dir, inside) ↦ elim (Result-cases (relative_cwd workspace_root dir)) [
            | inr (problem, refused) ↦ absurd (ground (arith, h, inside, refused))
            | inl (cwd, named) ↦
                skipped_check-Skips s s' check cwd s.blocked_by_check_id
                  (ground (arith, h, inside, named, off))
          ]
        ]

    -- Once a check has halted the run, whatever the remaining checks would see: if the loop returns,
    -- it has added to the earlier results one skipped result for each remaining check, in order.
    pub run_checks-halted :
        (capsule : TaskCapsule F) (backend : ExecutionBackend)
        (workspace_root task_root : ResolvedPath) (observe : ℕ → Observation F) (s s' : RunState F)
        (checks : List (CommandCheck F))
        → s.halt ≡ true
        → run_checks py decode clock resolve capsule backend workspace_root task_root observe s
            checks
          ≡ ok s'
        → (skips : List (CommandResult F)) × (s'.results ≡ s.results ++ skips)
          × (map (λ r. r.id) skips ≡ map (λ check. check.id) checks)
          × (all (λ r. r.status == CheckStatus.skipped) skips ≡ true)
    unfolding run_checks
    run_checks-halted capsule backend workspace_root task_root observe s s' [] off h =
        ([], ground (arith, h, append-nil s.results), refl, refl)
    run_checks-halted capsule backend workspace_root task_root observe s s' (check ∷ checks) off h =
        elim (Result-cases (
          run_check py decode clock resolve capsule backend workspace_root task_root (observe 0) s
            check)) [
              | inr (problem, refused) ↦ absurd (ground (arith, h, refused))
              | inl (next, ran) ↦
                  let (r, added, id, skipped, still) =
                    run_check-Skips capsule backend workspace_root task_root (observe 0) s next
                      check off ran in
                  let (skips, rest, ids, all_skipped) =
                    run_checks-halted capsule backend workspace_root task_root
                      (λ n. observe (suc n)) next s' checks (still ∙ off)
                      (ground (arith, h, ran)) in
                  (
                    r ∷ skips,
                    rest ∙ ap (λ l. l ++ skips) added ∙ append_assoc s.results (r ∷ []) skips,
                    ap (λ i. i ∷ map (λ k. k.id) skips) id ∙ ap (λ l. check.id ∷ l) ids,
                    ground (arith, ≡→== r.status CheckStatus.skipped skipped, all_skipped),
                  )
            ]
