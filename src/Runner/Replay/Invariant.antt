-- ===== src/Runner/Replay/Invariant.antt =====
-- What holds between two iterations of the loop of `run_capsule` in src/e2h/runner.py.
use e2h.Prelude.{
  ℕ, ◌≡◌, ◌∙◌, ap, refl, true, ◌||◌, String, Option, none, some, List, [], ◌∷◌, ◌++◌, map, any,
  any-append, arith,
}
use e2h.Result.{ok, collect}
use e2h.Values.Data.{PyRuntime}
use e2h.Failures.Record.{FailureRecord}
use e2h.Failures.Consistent.Total.{AllValid}
use e2h.Runner.Results.{
  Clock, CommandResult, OrderState, order_start, order_step, order_steps, validated_failure,
  validated_result, failure_must_match_status, failure_entry, is_infrastructure,
}
use e2h.Runner.Replay.{RunState, run_start}
use e2h.Runner.Replay.Sound.{FailureIsValid}
use e2h.Runner.Replay.Order.{IsLinked, running, order_steps-last}

module _ {F : Type 0} (py : PyRuntime F) (decode : List ℕ → List ℕ) (clock : Clock F) where
  -- Every result passes its validation, and the record in it passes its own.
  abbrev pub AllAccepted : List (CommandResult F) → Type 0
  AllAccepted [] = Unit
  AllAccepted (r ∷ rs) =
      (validated_result py clock r ≡ ok r) × FailureIsValid py decode r.failure × AllAccepted rs

  AllAccepted-last :
      (rs : List (CommandResult F)) (r : CommandResult F)
      → AllAccepted rs
      → validated_result py clock r ≡ ok r
      → FailureIsValid py decode r.failure
      → AllAccepted (rs ++ (r ∷ []))
  AllAccepted-last [] r h v f = (v, f, tt)
  AllAccepted-last (x ∷ rs) r h v f = (h.0, h.1, AllAccepted-last rs r h.2 v f)

  pub collect-AllAccepted :
      (rs : List (CommandResult F))
      → AllAccepted rs
      → collect (validated_result py clock) rs ≡ ok rs
  collect-AllAccepted [] h = refl
  collect-AllAccepted (r ∷ rs) h = rw (h.0, collect-AllAccepted rs h.2) refl

  AllValid-cons :
      (check_id : String) (failure : Option (FailureRecord F))
      (rest : List (String × Option (FailureRecord F)))
      → FailureIsValid py decode failure
      → AllValid py rest
      → AllValid py ((check_id, failure) ∷ rest)
  AllValid-cons check_id none rest f h = h
  AllValid-cons check_id (some failure) rest f h = (f, h)

  pub entries-AllValid :
      (rs : List (CommandResult F)) → AllAccepted rs → AllValid py (map failure_entry rs)
  entries-AllValid [] h = tt
  entries-AllValid (r ∷ rs) h = AllValid-cons r.id r.failure _ h.1 (entries-AllValid rs h.2)

  validated_failure-ok :
      (failure : Option (FailureRecord F))
      → FailureIsValid py decode failure
      → validated_failure py failure ≡ ok tt
  validated_failure-ok none f = refl
  validated_failure-ok (some failure) f = rw f refl

  pub validated_result-ok :
      (r : CommandResult F)
      → clock.is_duration r.duration_seconds ≡ true
      → FailureIsValid py decode r.failure
      → failure_must_match_status r.status r.failure ≡ ok tt
      → validated_result py clock r ≡ ok r
  unfolding validated_result
  validated_result-ok r d f m = rw (d, validated_failure-ok r.failure f, m) refl

  ids_of-last :
      (rs : List (CommandResult F)) (r : CommandResult F)
      → map (λ check. check.id) (rs ++ (r ∷ [])) ≡ map (λ check. check.id) rs ++ (r.id ∷ [])
  ids_of-last [] r = refl
  ids_of-last (x ∷ rs) r = ap (λ ids. x.id ∷ ids) (ids_of-last rs r)

  -- The loop's variables after the checks with these ids.
  pub record IsConsistent (s : RunState F) (ids : List String) : Type 0 where
    pub ids_match : map (λ check. check.id) s.results ≡ ids
    pub accepted : AllAccepted s.results
    pub infrastructure : s.infrastructure_error ≡ any is_infrastructure s.results
    pub order : OrderState F
    pub ordered : order_steps order_start s.results ≡ ok order
    pub linked : IsLinked s order

  pub start-IsConsistent : IsConsistent run_start []
  unfolding order_steps
  start-IsConsistent = record {
    ids_match = refl;
    accepted = tt;
    infrastructure = refl;
    order = order_start;
    ordered = refl;
    linked = running refl refl;
  }

  -- One more result keeps it.
  pub extend-IsConsistent :
      (s s' : RunState F) (ids : List String) (r : CommandResult F) (o : OrderState F)
      (c : IsConsistent s ids)
      → s'.results ≡ s.results ++ (r ∷ [])
      → s'.infrastructure_error ≡ (s.infrastructure_error || is_infrastructure r)
      → validated_result py clock r ≡ ok r
      → FailureIsValid py decode r.failure
      → order_step c.order r ≡ ok o
      → IsLinked s' o
      → IsConsistent s' (ids ++ (r.id ∷ []))
  extend-IsConsistent s s' ids r o c appended infrastructure v f step linked = record {
    ids_match = rw appended (ids_of-last s.results r ∙ ap (λ l. l ++ (r.id ∷ [])) c.ids_match);
    accepted = rw appended (AllAccepted-last s.results r c.accepted v f);
    infrastructure = ground (
      arith,
      infrastructure,
      c.infrastructure,
      ap (any is_infrastructure) appended,
      any-append is_infrastructure s.results (r ∷ []),
    );
    order = o;
    ordered = rw appended (order_steps-last order_start s.results r c.ordered ∙ step);
    linked = linked;
  }
