-- ===== src/Failures/Accepted/Exits.antt =====
-- `unexpected_exit_failure` of src/e2h/failures.py: when its record passes the validation.
use e2h.Prelude.{
  ℕ, suc, ◌^◌, ◌≤◌, ◌<◌, ◌≡◌, refl, String, none, List, [], ◌∷◌, ℤ, pos, negsuc, magnitude,
  is_negative, ltb, length, arith, text_eq, if◌then◌else◌,
}
use e2h.Result.{ok, err}
use e2h.Values.Data.{Value, dict, Entries, entry, text, PyRuntime, is_plain}
use e2h.Values.Compatible.{validate_json_compatible, validate_items}
use e2h.Values.Size.{json_size}
use e2h.Failures
use e2h.Failures.{
  FailureCode, FailureCode-discrete, FailureCategory-discrete, FailureImpact-discrete,
  Retryability-discrete, code_category, code_impact, code_retryability, code_eq,
}
use e2h.Failures.Record.{
  details_too_large, FailureRecord, validate_detail_value, validate_detail_items,
  taxonomy_must_be_consistent, caused_by_must_fit, check_id_too_long, max_details_bytes,
}
use e2h.Failures.Builders.{exit_details, int_items, unexpected_exit_failure}
use e2h.Failures.Accepted.{IsWellFormed, IsCanonical, classified, make_record-size}
use e2h.Failures.{taxonomy}
use e2h.Values.Size.{items_size, int_size-le, int_size-pos}

module _ {F : Type 0} (py : PyRuntime F) where
  int_items-compatible :
      (ns : List ℤ) (d : ℕ) → d ≤ 128 → validate_items py (int_items ns) d ≡ ok tt
  unfolding validate_items int_items
  int_items-compatible [] d h = refl
  int_items-compatible (n ∷ ns) d h = ground (arith, int_items-compatible ns d h)

  int_items-allowed : (ns : List ℤ) → validate_detail_items py (int_items ns) ≡ ok tt
  unfolding validate_detail_items int_items
  int_items-allowed [] = refl
  int_items-allowed (n ∷ ns) = int_items-allowed ns

  exit_details-IsCanonical : (a : ℤ) (ns : List ℤ) → IsCanonical py (exit_details py a ns)
  unfolding validate_json_compatible validate_detail_value exit_details is_plain
  exit_details-IsCanonical a ns = record {
    compatible = rw (int_items-compatible ns 2 (omega arith));
    allowed = rw (
      py.casefold-plain "actual_exit_code" refl,
      py.casefold-plain "expected_exit_codes" refl,
      int_items-allowed ns,
    );
  }

  -- The details of a failed exit: a signal's number is added to those of any exit.
  abbrev pub exit_failure_details : ℤ → List ℤ → Entries F
  exit_failure_details a ns =
      if is_negative a
      then entry (text "signal") (Value.int (pos (magnitude a))) (exit_details py a ns)
      else exit_details py a ns

  abbrev pub exit_failure_code : ℤ → FailureCode
  exit_failure_code a =
      if is_negative a then Failures.signal_termination else Failures.unexpected_exit

  signal_details-IsCanonical :
      (s a : ℤ) (ns : List ℤ)
      → IsCanonical py (entry (text "signal") (Value.int s) (exit_details py a ns))
  unfolding validate_json_compatible validate_detail_value exit_details is_plain
  signal_details-IsCanonical s a ns =
      let c = exit_details-IsCanonical a ns in
      record { compatible = c.compatible; allowed = rw (py.casefold-plain "signal" refl) c.allowed }

  abbrev pub exit_failure_summary : ℤ → String
  exit_failure_summary a =
      if is_negative a
      then "command was terminated by a signal"
      else "command returned an unexpected exit code"

  abbrev pub exit_failure_record : ℤ → List ℤ → FailureRecord F
  exit_failure_record a ns =
      classified py (exit_failure_code a) (exit_failure_summary a) (exit_failure_details a ns) none
        []

  exit_failure-IsWellFormed : (a : ℤ) (ns : List ℤ) → IsWellFormed (exit_failure_record a ns)
  unfolding taxonomy taxonomy_must_be_consistent caused_by_must_fit check_id_too_long
  exit_failure-IsWellFormed (pos n) ns = record {
    summary_fits = refl;
    check_id_fits = refl;
    causes_fit = refl;
    consistent = refl;
  }
  exit_failure-IsWellFormed (negsuc n) ns = record {
    summary_fits = refl;
    check_id_fits = refl;
    causes_fit = refl;
    consistent = refl;
  }

  -- A failed exit is classified by the sign of its code; the record is refused exactly when the
  -- JSON text of its details, which lists every expected code, passes 4096 bytes.
  pub unexpected_exit_failure-size :
      (a : ℤ) (ns : List ℤ)
      → unexpected_exit_failure py a ns ≡ (
          if ltb max_details_bytes (json_size py (dict (exit_failure_details a ns)))
          then err details_too_large
          else ok (exit_failure_record a ns))
  unfolding unexpected_exit_failure taxonomy
  unexpected_exit_failure-size (pos n) ns =
      make_record-size py Failures.unexpected_exit _ _ none []
        (exit_failure-IsWellFormed (pos n) ns) (exit_details-IsCanonical (pos n) ns)
  unexpected_exit_failure-size (negsuc n) ns =
      make_record-size py Failures.signal_termination _ _ none []
        (exit_failure-IsWellFormed (negsuc n) ns)
        (signal_details-IsCanonical (pos (suc n)) (negsuc n) ns)

  items_size-ge : (ns : List ℤ) → length ns ≤ items_size py (int_items ns)
  unfolding items_size int_items
  items_size-ge [] = omega arith
  items_size-ge (n ∷ ns) = omega (arith, items_size-ge ns, int_size-pos n)

  -- With at least 4096 expected exit codes, the classification of any failed exit is refused because
  -- its details are too large.
  pub unexpected_exit_failure-too_many :
      (a : ℤ) (ns : List ℤ)
      → max_details_bytes ≤ length ns
      → unexpected_exit_failure py a ns ≡ err details_too_large
  unfolding exit_details json_size
  unexpected_exit_failure-too_many (pos n) ns h =
      ground (arith, unexpected_exit_failure-size (pos n) ns, items_size-ge ns)
  unexpected_exit_failure-too_many (negsuc n) ns h =
      ground (arith, unexpected_exit_failure-size (negsuc n) ns, items_size-ge ns)

  -- An exit code of at most ten digits, with expected codes that take at most 3900 bytes, is
  -- classified by its sign.
  pub unexpected_exit_failure-ok :
      (a : ℤ) (ns : List ℤ)
      → magnitude a < 10 ^ 10
      → items_size py (int_items ns) ≤ 3900
      → unexpected_exit_failure py a ns ≡ ok (exit_failure_record a ns)
  unfolding exit_details json_size
  unexpected_exit_failure-ok (pos n) ns h k =
      ground (arith, unexpected_exit_failure-size (pos n) ns, int_size-le 9 (pos n))
  unexpected_exit_failure-ok (negsuc n) ns h k = ground (
    arith,
    unexpected_exit_failure-size (negsuc n) ns,
    int_size-le 9 (negsuc n),
    int_size-le 9 (pos (suc n)),
  )
