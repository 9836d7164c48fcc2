-- ===== src/Failures/Accepted/Others.antt =====
-- The other constructors of src/e2h/failures.py: their records always pass the validation.
use e2h.Prelude.{
  subst, ◌==◌, number_eq, ◌^◌, ◌≤◌, ◌<◌, ◌≡◌, refl, Bool, true, false, ◌||◌, String, Option, none,
  some, List, [], ◌∷◌, ℤ, pos, negsuc, magnitude, ltb, length, arith, text_eq, if◌then◌else◌,
  Bool-cases, Option-cases, inl, inr,
}
use Prim.Native.String.{count}
use e2h.Result.{Result, ok}
use e2h.Values.Data.{Value, dict, Entries, entry, end, text, PyRuntime, is_plain}
use e2h.Values.Compatible.{validate_json_compatible}
use e2h.Values.Size.{json_size}
use e2h.Failures
use e2h.Failures.{
  FailureCode, FailureCode-discrete, FailureCategory-discrete, FailureImpact-discrete,
  Retryability-discrete, code_category, code_impact, code_retryability, code_eq,
}
use e2h.Failures.Record.{
  FailureError, FailureRecord, validated_record, validate_detail_value, taxonomy_must_be_consistent,
  caused_by_must_fit, check_id_too_long, max_details_bytes,
}
use e2h.Failures.Builders.{make_record, timeout_failure, timeout_details}
use e2h.Failures.{taxonomy}
use e2h.Values.Size.{int_size-le, text_size}
use e2h.Failures.Builders.{
  OsError, OsErrorClass, errno_is, is_not_found, is_denied, launch_details, launch_failure,
  output_capture_failure, working_directory_failure, sandbox_failure, skipped_failure,
}
use e2h.Failures.Accepted.{IsWellFormed, IsCanonical, classified, make_record-ok}

-- How a timeout is classified, given the infrastructure code of the process outcome.
abbrev pub timeout_code : Option FailureCode → FailureCode
timeout_code (some Failures.sandbox_cleanup) = Failures.sandbox_cleanup
timeout_code (some Failures.output_capture) = Failures.output_capture
timeout_code _ = Failures.timeout

-- How a launch error is classified: by its class, or by one of three error numbers of POSIX,
-- no such file (2), not permitted (1) and access denied (13).
abbrev pub launch_code : OsErrorClass → Option ℤ → FailureCode
launch_code OsErrorClass.file_not_found number = Failures.command_not_found
launch_code OsErrorClass.permission_error (some (pos n)) =
    if n == 2 then Failures.command_not_found else Failures.permission_denied
launch_code OsErrorClass.permission_error number = Failures.permission_denied
launch_code OsErrorClass.other_os_error (some (pos n)) =
    if n == 1
    then Failures.permission_denied
    else if n == 2
    then Failures.command_not_found
    else if n == 13
    then Failures.permission_denied
    else Failures.process_launch_error
launch_code OsErrorClass.other_os_error number = Failures.process_launch_error

-- The code that the tests of the source lead to
abbrev pub tested_code : OsError → FailureCode
tested_code e =
    if is_not_found e
    then Failures.command_not_found
    else if is_denied e
    then Failures.permission_denied
    else Failures.process_launch_error

tested_code-launch_code :
    (kind : OsErrorClass) (number : Option ℤ)
    → tested_code (record { class = kind; errno = number }) ≡ launch_code kind number
unfolding is_not_found is_denied errno_is
tested_code-launch_code OsErrorClass.file_not_found number = refl
tested_code-launch_code OsErrorClass.permission_error none = refl
tested_code-launch_code OsErrorClass.permission_error (some (pos n)) = ground arith
tested_code-launch_code OsErrorClass.permission_error (some (negsuc n)) = refl
tested_code-launch_code OsErrorClass.other_os_error none = refl
tested_code-launch_code OsErrorClass.other_os_error (some (pos n)) = ground arith
tested_code-launch_code OsErrorClass.other_os_error (some (negsuc n)) = refl

-- The `errno` of an `OSError` has at most ten digits.
abbrev pub HasShortErrno : OsError → Type 0
HasShortErrno e = (number : ℤ) → e.errno ≡ some number → magnitude number < 10 ^ 10

module _ {F : Type 0} (py : PyRuntime F) where
  timeout_details-IsCanonical :
      (x : F) (backend : String)
      → py.is_finite x ≡ true
      → IsCanonical py (timeout_details py x backend)
  unfolding validate_json_compatible validate_detail_value timeout_details is_plain
  timeout_details-IsCanonical x backend h = record {
    compatible = rw h;
    allowed = rw (h, py.casefold-plain "timeout_seconds" refl, py.casefold-plain "backend" refl);
  }

  timeout_details-fit :
      (x : F) (backend : String)
      → py.is_finite x ≡ true
      → text_size backend ≤ 64
      → json_size py (dict (timeout_details py x backend)) ≤ max_details_bytes
  unfolding timeout_details json_size
  timeout_details-fit x backend h k = ground (arith, py.float_size-le x)

  -- The call returns a valid record of this code that names no blocking check.
  abbrev pub Classifies : Result FailureError (FailureRecord F) → FailureCode → Type 0
  Classifies result code =
      (r : FailureRecord F) × (result ≡ ok r)
      × (validated_record py r ≡ ok r)
      × (r.code ≡ code)
      × (r.caused_by_check_id ≡ none)

  accepted :
      (code : FailureCode) (summary : String) (d : Entries F) (causes : List FailureCode)
      → (ltb (count summary) 1 || ltb 255 (count summary)) ≡ false
      → ltb 10 (length causes) ≡ false
      → taxonomy_must_be_consistent (classified py code summary d none causes) ≡ ok tt
      → IsCanonical py d
      → json_size py (dict d) ≤ max_details_bytes
      → Classifies
          (make_record py
            (code_category code)
            code
            (code_impact code)
            (code_retryability code)
            summary
            d
            none
            causes)
          code
  unfolding check_id_too_long make_record
  accepted code summary d causes s c t canonical fits =
      let w : IsWellFormed (classified py code summary d none causes) = record {
        summary_fits = s;
        check_id_fits = refl;
        causes_fit = c;
        consistent = t;
      } in
      let made = make_record-ok py code summary d none causes w canonical fits in
      (_, made, made, refl, refl)

  -- A timeout with a finite limit, on a backend whose name takes at most 64 bytes, gives a valid
  -- record, of the infrastructure code if that is one of the two that the classification knows.
  pub timeout_failure-ok :
      (x : F) (backend : String) (c : Option FailureCode)
      → py.is_finite x ≡ true
      → text_size backend ≤ 64
      → Classifies (timeout_failure py x backend c) (timeout_code c)
  unfolding timeout_failure taxonomy taxonomy_must_be_consistent caused_by_must_fit
  timeout_failure-ok x backend none h k =
      accepted Failures.timeout _ _ [] refl refl refl (timeout_details-IsCanonical x backend h)
        (timeout_details-fit x backend h k)
  timeout_failure-ok x backend (some Failures.sandbox_cleanup) h k =
      accepted Failures.sandbox_cleanup _ _ (Failures.timeout ∷ []) refl refl refl
        (timeout_details-IsCanonical x backend h) (timeout_details-fit x backend h k)
  timeout_failure-ok x backend (some Failures.output_capture) h k =
      accepted Failures.output_capture _ _ (Failures.timeout ∷ []) refl refl refl
        (timeout_details-IsCanonical x backend h) (timeout_details-fit x backend h k)
  timeout_failure-ok x backend c h k =
      accepted Failures.timeout _ _ [] refl refl refl (timeout_details-IsCanonical x backend h)
        (timeout_details-fit x backend h k)

  backend_details-IsCanonical :
      (backend : String) → IsCanonical py (entry (text "backend") (Value.str backend) end)
  unfolding validate_json_compatible validate_detail_value is_plain
  backend_details-IsCanonical backend = record {
    compatible = refl;
    allowed = rw (py.casefold-plain "backend" refl);
  }

  launch_details-IsCanonical :
      (e : OsError) (backend : String) → IsCanonical py (launch_details py e backend)
  unfolding validate_json_compatible validate_detail_value launch_details is_plain
  launch_details-IsCanonical e backend = elim (Option-cases e.errno) [
    | inl none_set ↦ rw none_set (backend_details-IsCanonical backend)
    | inr (number, set) ↦ rw set (record {
      compatible = refl;
      allowed = rw (py.casefold-plain "backend" refl, py.casefold-plain "errno" refl);
    })
  ]

  launch_details-fit :
      (e : OsError) (backend : String)
      → HasShortErrno e
      → text_size backend ≤ 64
      → json_size py (dict (launch_details py e backend)) ≤ max_details_bytes
  unfolding launch_details json_size
  launch_details-fit e backend short k = elim (Option-cases e.errno) [
    | inl none_set ↦ rw none_set (ground arith)
    | inr (number, set) ↦ rw set (ground (arith, int_size-le 9 number, short number set))
  ]

  pub launch_failure-tested :
      (e : OsError) (backend : String)
      → HasShortErrno e
      → text_size backend ≤ 64
      → Classifies (launch_failure py e backend) (tested_code e)
  unfolding launch_failure taxonomy taxonomy_must_be_consistent caused_by_must_fit
  launch_failure-tested e backend short k =
      let c = launch_details-IsCanonical e backend in
      let f = launch_details-fit e backend short k in
      elim (Bool-cases (is_not_found e)) [
        | inl missing ↦ rw missing (accepted Failures.command_not_found _ _ [] refl refl refl c f)
        | inr found ↦ elim (Bool-cases (is_denied e)) [
          | inl denied ↦
              rw (found, denied) (accepted Failures.permission_denied _ _ [] refl refl refl c f)
          | inr other ↦
              rw (found, other) (accepted Failures.process_launch_error _ _ [] refl refl refl c f)
        ]
      ]

  -- A launch error whose `errno` has at most ten digits, on a backend whose name takes at most 64
  -- bytes, gives a valid record. Its code says that the command was not found for a
  -- `FileNotFoundError` or the number 2, else that permission was denied for a `PermissionError` or
  -- the numbers 1 and 13, else that the launch failed.
  pub launch_failure-ok :
      (e : OsError) (backend : String)
      → HasShortErrno e
      → text_size backend ≤ 64
      → Classifies (launch_failure py e backend) (launch_code e.class e.errno)
  launch_failure-ok e backend short k =
      subst (Classifies (launch_failure py e backend)) (tested_code-launch_code e.class e.errno)
        (launch_failure-tested e backend short k)

  pub output_capture_failure-ok :
      (backend : String)
      → text_size backend ≤ 64
      → Classifies (output_capture_failure py backend) Failures.output_capture
  unfolding output_capture_failure taxonomy taxonomy_must_be_consistent caused_by_must_fit json_size
  output_capture_failure-ok backend k =
      accepted Failures.output_capture _ _ [] refl refl refl (backend_details-IsCanonical backend)
        (omega arith)

  pub working_directory_failure-ok :
      Classifies (working_directory_failure py) Failures.working_directory_missing
  unfolding working_directory_failure taxonomy taxonomy_must_be_consistent caused_by_must_fit
      json_size validate_json_compatible validate_detail_value
  working_directory_failure-ok =
      accepted Failures.working_directory_missing _ _ [] refl refl refl
        (record { compatible = refl; allowed = refl }) (omega arith)

  pub sandbox_failure-ok :
      (configuration : Bool)
      → Classifies
          (sandbox_failure py configuration)
          (if configuration then Failures.sandbox_configuration else Failures.sandbox_runtime)
  unfolding sandbox_failure taxonomy taxonomy_must_be_consistent caused_by_must_fit json_size
      validate_json_compatible validate_detail_value
  sandbox_failure-ok true =
      accepted Failures.sandbox_configuration _ _ [] refl refl refl
        (record { compatible = refl; allowed = refl }) (omega arith)
  sandbox_failure-ok false =
      accepted Failures.sandbox_runtime _ _ [] refl refl refl
        (record { compatible = refl; allowed = refl }) (omega arith)

  -- For an id of at most 255 characters, the record of a skipped check is valid and names that
  -- check.
  pub skipped_failure-ok :
      (check_id : String)
      → count check_id ≤ 255
      → (r : FailureRecord F) × (skipped_failure py check_id ≡ ok r)
        × (validated_record py r ≡ ok r)
        × (r.code ≡ Failures.skipped_after_failure)
        × (r.caused_by_check_id ≡ some check_id)
  unfolding skipped_failure make_record check_id_too_long taxonomy taxonomy_must_be_consistent
      caused_by_must_fit json_size validate_json_compatible validate_detail_value
  skipped_failure-ok check_id h =
      let w : IsWellFormed (
          classified py Failures.skipped_after_failure
            "check was skipped after an earlier check failed" Entries.end (some check_id) []) =
        record {
          summary_fits = refl;
          check_id_fits = ground arith;
          causes_fit = refl;
          consistent = refl;
        } in
      let made =
        make_record-ok py Failures.skipped_after_failure _ _ _ _ w
          (record { compatible = refl; allowed = refl }) (omega arith) in
      (_, made, made, refl, refl)
