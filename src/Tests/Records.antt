-- ===== src/Tests/Records.antt =====
-- Records and summaries of failures.
use e2h.Prelude.{
  ℕ, ◌≡◌, refl, String, Option, none, some, List, [], ◌∷◌, ℤ, pos, negsuc, ltb, length, arith,
  if◌then◌else◌,
}
use e2h.Result.{ok, err}
use e2h.Values.Data.{dict}
use e2h.Values.Size.{json_size, items_size, text_size}
use e2h.Failures
use e2h.Failures.{code_eq, taxonomy}
use e2h.Failures.Record.{
  FailureRecord, details_too_large, max_details_bytes, validated_record,
  details_must_be_bounded_json, validate_detail_value, check_id_too_long,
  taxonomy_must_be_consistent, caused_by_must_fit,
}
use e2h.Values.Compatible.{validate_json_compatible}
use e2h.Failures.Builders.{
  OsError, OsErrorClass, unexpected_exit_failure, timeout_failure, launch_failure, skipped_failure,
  int_items,
}
use e2h.Failures.Summary.{summarize_failures, summary_of, primary_of}
use e2h.Failures.Accepted.Exits.{
  exit_failure_details, exit_failure_record, unexpected_exit_failure-size,
  unexpected_exit_failure-too_many, unexpected_exit_failure-ok,
}
use e2h.Failures.Accepted.Others.{
  Classifies, timeout_code, launch_code, timeout_failure-ok, launch_failure-ok, skipped_failure-ok,
}
use e2h.Failures.Primary.{IsPrimary, primary_of-IsPrimary}
use e2h.Failures.Consistent.Total.{failures_of, summarize_failures-ok}
use e2h.Tests.Samples.{whole_seconds, missing_directory}

abbrev two_failures : List (String × Option (FailureRecord ℕ))
two_failures = ("lint", none) ∷ ("build", some missing_directory) ∷ []

summarize_failures-ok_example :
    summarize_failures whole_seconds two_failures
    ≡ ok (summary_of (failures_of whole_seconds two_failures))
unfolding validated_record taxonomy details_must_be_bounded_json validate_json_compatible
    validate_detail_value json_size check_id_too_long taxonomy_must_be_consistent caused_by_must_fit
summarize_failures-ok_example = summarize_failures-ok whole_seconds two_failures (refl, tt)

primary_of-IsPrimary_example :
    IsPrimary (("build", missing_directory) ∷ []) (primary_of ("build", missing_directory) [])
primary_of-IsPrimary_example = primary_of-IsPrimary ("build", missing_directory) []

unexpected_exit_failure-size_example :
    unexpected_exit_failure whole_seconds (negsuc 8) (pos 0 ∷ []) ≡ (
      if ltb max_details_bytes (
        json_size whole_seconds (dict (exit_failure_details whole_seconds (negsuc 8) (pos 0 ∷ []))))
      then err details_too_large
      else ok (exit_failure_record whole_seconds (negsuc 8) (pos 0 ∷ [])))
unexpected_exit_failure-size_example =
    unexpected_exit_failure-size whole_seconds (negsuc 8) (pos 0 ∷ [])

abbrev replicate : ℕ → ℤ → List ℤ
replicate ℕ.zero c = []
replicate (ℕ.suc n) c = c ∷ replicate n c

length-replicate : (n : ℕ) (c : ℤ) → length (replicate n c) ≡ n
length-replicate ℕ.zero c = refl
length-replicate (ℕ.suc n) c = omega (arith, length-replicate n c)

unexpected_exit_failure-too_many_example :
    unexpected_exit_failure whole_seconds (pos 1) (replicate 4096 (pos 0)) ≡ err details_too_large
unexpected_exit_failure-too_many_example =
    unexpected_exit_failure-too_many whole_seconds (pos 1) (replicate 4096 (pos 0))
      (omega (arith, length-replicate 4096 (pos 0)))

unexpected_exit_failure-ok_example :
    unexpected_exit_failure whole_seconds (pos 1) (pos 0 ∷ [])
    ≡ ok (exit_failure_record whole_seconds (pos 1) (pos 0 ∷ []))
unfolding items_size int_items
unexpected_exit_failure-ok_example =
    unexpected_exit_failure-ok whole_seconds (pos 1) (pos 0 ∷ []) (omega arith) (omega arith)

timeout_failure-ok_example :
    Classifies whole_seconds (timeout_failure whole_seconds 30 "local" none) (timeout_code none)
unfolding text_size
timeout_failure-ok_example = timeout_failure-ok whole_seconds 30 "local" none refl (omega arith)

abbrev not_found : OsError
not_found = record { class = OsErrorClass.file_not_found; errno = some (pos 2) }

launch_failure-ok_example :
    Classifies whole_seconds
      (launch_failure whole_seconds not_found "local")
      (launch_code OsErrorClass.file_not_found (some (pos 2)))
unfolding text_size
launch_failure-ok_example =
    launch_failure-ok whole_seconds not_found "local" (λ number h. ground (arith, h)) (omega arith)

skipped_failure-ok_example :
    (r : FailureRecord ℕ) × (skipped_failure whole_seconds "build" ≡ ok r)
    × (validated_record whole_seconds r ≡ ok r)
    × (r.code ≡ Failures.skipped_after_failure)
    × (r.caused_by_check_id ≡ some "build")
skipped_failure-ok_example = skipped_failure-ok whole_seconds "build" (omega arith)
