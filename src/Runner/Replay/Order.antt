-- ===== src/Runner/Replay/Order.antt =====
-- How the loop of `run_capsule` in src/e2h/runner.py and the order that the validator of
-- `RunResult` demands go together.
use e2h.Prelude.{
  ◌≡◌, ◌≤◌, ◌∙◌, ap, sym, refl, true, false, String, some, List, [], ◌∷◌, ◌++◌, ◌==◌, text_eq,
  ==-refl, arith,
}
use Prim.Native.String.{count}
use e2h.Result.{ok, ◌>>=◌, bind_ok, bind_assoc}
use e2h.Failures.Record.{FailureRecord}
use e2h.Runner.Results.{
  CheckStatus, check_status_eq, CommandResult, OrderState, names_blocking, start_skipped,
  skipped_step, order_step, order_steps,
}
use e2h.Runner.Replay.{RunState}

module _ {F : Type 0} where
  -- How the loop's variables and those of the validator go together after the same results.
  pub data IsLinked (s : RunState F) (o : OrderState F) : Type 0 where
    running : s.halt ≡ false → o.skipped_started ≡ false → IsLinked s o
    halted :
        (r : CommandResult F)
        → s.halt ≡ true
        → s.blocked_by_check_id ≡ some r.id
        → count r.id ≤ 255
        → o.skipped_started ≡ false
        → o.previous ≡ some r
        → (r.status == CheckStatus.passed) ≡ false
        → (r.status == CheckStatus.skipped) ≡ false
        → IsLinked s o
    skipping :
        (blocked_by : String)
        → s.halt ≡ true
        → s.blocked_by_check_id ≡ some blocked_by
        → count blocked_by ≤ 255
        → o.skipped_started ≡ true
        → o.blocking_check_id ≡ some blocked_by
        → IsLinked s o

  pub running-none_skipped :
      (s : RunState F) (o : OrderState F)
      → IsLinked s o
      → s.halt ≡ false
      → o.skipped_started ≡ false
  running-none_skipped s o (running h none_yet) k = none_yet
  running-none_skipped s o (halted r h b short none_yet before p q) k = none_yet
  running-none_skipped s o (skipping b h e short started blocking) k = ground (arith, h, k)

  -- A result that is no skipped one is accepted while nothing was skipped.
  pub order_step-executed :
      (o : OrderState F) (r : CommandResult F)
      → (r.status == CheckStatus.skipped) ≡ false
      → o.skipped_started ≡ false
      → order_step o r ≡ ok (record o { previous = some r })
  unfolding order_step
  order_step-executed o r executed none_yet = rw (executed, none_yet) refl

  order_steps-append :
      (o : OrderState F) (rs qs : List (CommandResult F))
      → order_steps o (rs ++ qs) ≡ (order_steps o rs >>= λ o'. order_steps o' qs)
  unfolding order_steps
  order_steps-append o [] qs = refl
  order_steps-append o (r ∷ rs) qs =
      ap (λ k. order_step o r >>= k) (λ i o'. order_steps-append o' rs qs i)
      ∙ sym (bind_assoc (order_step o r) (λ o'. order_steps o' rs) (λ o'. order_steps o' qs))

  -- The validator accepts one more result if its step does.
  pub order_steps-last :
      (o : OrderState F) (rs : List (CommandResult F)) (r : CommandResult F) {o' : OrderState F}
      → order_steps o rs ≡ ok o'
      → order_steps o (rs ++ (r ∷ [])) ≡ order_step o' r
  unfolding order_steps
  order_steps-last o rs r {o'} h =
      order_steps-append o rs (r ∷ [])
      ∙ ap (λ m. m >>= λ p. order_steps p (r ∷ [])) h
      ∙ bind_ok (order_step o' r)

  -- The first skipped result is accepted after the check that halted, if it names that check.
  pub order_step-first_skipped :
      (o : OrderState F) (r halting : CommandResult F) (f : FailureRecord F)
      → (r.status == CheckStatus.skipped) ≡ true
      → r.failure ≡ some f
      → f.caused_by_check_id ≡ some halting.id
      → o.skipped_started ≡ false
      → o.previous ≡ some halting
      → (halting.status == CheckStatus.passed) ≡ false
      → (halting.status == CheckStatus.skipped) ≡ false
      → order_step o r
        ≡ ok (record {
          previous = some r;
          skipped_started = true;
          blocking_check_id = some halting.id;
        })
  unfolding order_step skipped_step start_skipped names_blocking
  order_step-first_skipped o r halting f skipped failed names none_yet before p s =
      rw (skipped, none_yet, before, p, s, failed, names, ==-refl halting.id) refl

  -- So is a later one that names the same check.
  pub order_step-skipped :
      (o : OrderState F) (r : CommandResult F) (f : FailureRecord F) (blocked_by : String)
      → (r.status == CheckStatus.skipped) ≡ true
      → r.failure ≡ some f
      → f.caused_by_check_id ≡ some blocked_by
      → o.skipped_started ≡ true
      → o.blocking_check_id ≡ some blocked_by
      → order_step o r ≡ ok (record o { previous = some r })
  unfolding order_step skipped_step names_blocking
  order_step-skipped o r f blocked_by skipped failed names started blocked =
      rw (skipped, started, failed, blocked, names, ==-refl blocked_by) refl
