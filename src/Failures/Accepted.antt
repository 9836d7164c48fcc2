-- ===== src/Failures/Accepted.antt =====
-- The records that src/e2h/failures.py builds pass the validation of `FailureRecord`, but for
-- details that are too large.
pub mod Exits
pub mod Others
use e2h.Prelude.{
  ℕ, zero, suc, ◌+◌, ◌*◌, ◌^◌, ◌≤◌, ◌<◌, ◌≡◌, refl, Bool, true, false, ◌||◌, String, Option, none,
  some, List, [], ◌∷◌, ℤ, pos, negsuc, magnitude, is_negative, leb, ltb, length, arith, text_eq,
  contains, if◌then◌else◌, Bool-cases, inl, inr,
}
use Prim.Native.String.{count}
use e2h.Result.{Result, ok, err, is_ok, ◌>>=◌}
use e2h.Values.Data.{Value, dict, Items, Entries, entry, text, PyRuntime, is_plain}
use e2h.Values.Compatible.{validate_json_compatible, validate_items}
use e2h.Values.Size.{json_size}
use e2h.Failures
use e2h.Failures.{
  FailureCode, FailureCode-discrete, FailureCategory-discrete, FailureImpact-discrete,
  Retryability-discrete, code_category, code_impact, code_retryability, code_eq,
}
use e2h.Failures.Record.{
  FailureError, details_too_large, FailureRecord, validated_record, validate_detail_value,
  validate_detail_items, details_must_be_bounded_json, taxonomy_must_be_consistent,
  caused_by_must_fit, check_id_too_long, max_details_bytes, forbidden_detail_keys,
}
use e2h.Failures.Builders.{
  exit_details, int_items, make_record, unexpected_exit_failure, timeout_failure, timeout_details,
}

-- The constraints of a record other than those on its details.
pub record IsWellFormed {F : Type 0} (r : FailureRecord F) : Type 0 where
  pub summary_fits : (ltb (count r.summary) 1 || ltb 255 (count r.summary)) ≡ false
  pub check_id_fits : check_id_too_long r.caused_by_check_id ≡ false
  pub causes_fit : ltb 10 (length r.causes) ≡ false
  pub consistent : taxonomy_must_be_consistent r ≡ ok tt

module _ {F : Type 0} (py : PyRuntime F) where
  -- The details hold canonical JSON with no forbidden key.
  pub record IsCanonical (d : Entries F) : Type 0 where
    pub compatible : validate_json_compatible py (dict d) 0 ≡ ok tt
    pub allowed : validate_detail_value py (dict d) ≡ ok tt

  -- Once the rest is checked, the size of the details decides.
  pub validated-size :
      (r : FailureRecord F)
      → IsWellFormed r
      → IsCanonical r.details
      → validated_record py r ≡ (
          if ltb max_details_bytes (json_size py (dict r.details))
          then err details_too_large
          else ok r)
  unfolding validated_record details_must_be_bounded_json
  validated-size r w c =
      rw (w.summary_fits, w.check_id_fits, w.causes_fit, w.consistent, c.compatible, c.allowed)
        (ground arith)

  -- The record of a code, with the classification that the taxonomy gives it.
  abbrev pub classified :
      FailureCode → String → Entries F → Option String → List FailureCode → FailureRecord F
  classified code summary details caused_by causes = record {
    category = code_category code;
    code = code;
    impact = code_impact code;
    retryability = code_retryability code;
    summary = summary;
    details = details;
    caused_by_check_id = caused_by;
    causes = causes;
  }

  pub make_record-size :
      (code : FailureCode) (summary : String) (d : Entries F) (caused_by : Option String)
      (causes : List FailureCode)
      → IsWellFormed (classified code summary d caused_by causes)
      → IsCanonical d
      → make_record py
          (code_category code)
          code
          (code_impact code)
          (code_retryability code)
          summary
          d
          caused_by
          causes
        ≡ (if ltb max_details_bytes (json_size py (dict d))
            then err details_too_large
            else ok (classified code summary d caused_by causes))
  unfolding make_record
  make_record-size code summary d caused_by causes w c = validated-size _ w c

  pub make_record-ok :
      (code : FailureCode) (summary : String) (d : Entries F) (caused_by : Option String)
      (causes : List FailureCode)
      → IsWellFormed (classified code summary d caused_by causes)
      → IsCanonical d
      → json_size py (dict d) ≤ max_details_bytes
      → make_record py
          (code_category code)
          code
          (code_impact code)
          (code_retryability code)
          summary
          d
          caused_by
          causes
        ≡ ok (classified code summary d caused_by causes)
  make_record-ok code summary d caused_by causes w c h =
      ground (arith, make_record-size code summary d caused_by causes w c)
