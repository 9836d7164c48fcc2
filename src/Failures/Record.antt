-- ===== src/Failures/Record.antt =====
-- `FailureRecord` of src/e2h/failures.py and the checks that its construction runs.
use Prim.Native.String.{count}
use e2h.Prelude.{
  ℕ, Bool, false, not, ◌||◌, String, Option, none, some, List, [], ◌∷◌, ◌==◌, ltb, length, text_eq,
  contains, all_unique,
}
use e2h.Result.{Result, ok, err, ◌>>◌, refuse, rethrow}
use e2h.Values.Data.{
  Value, null, bool, int, float, str, list, dict, opaque, Items, nil, cons, Entries, end, entry,
  text, other_key, PyRuntime,
}
use e2h.Values.Compatible.{validate_json_compatible}
use e2h.Values.Size.{json_size}
use e2h.Failures.{
  FailureCategory, FailureCode, skipped_after_failure, FailureImpact, Retryability, code_category,
  code_impact, code_retryability, category_eq, code_eq, impact_eq, retryability_eq,
}

-- The messages of the `ValueError`s.
pub data FailureError : Type 0 where
  not_canonical : FailureError
  raw_output_key : FailureError
  details_too_large : FailureError
  bad_summary_length : FailureError
  bad_check_id_length : FailureError
  too_many_causes : FailureError
  wrong_category : FailureError
  wrong_impact : FailureError
  wrong_retryability : FailureError
  cause_repeats_code : FailureError
  causes_not_unique : FailureError
  missing_caused_by : FailureError
  unexpected_caused_by : FailureError

-- `_MAX_DETAILS_BYTES`
abbrev pub max_details_bytes : ℕ
max_details_bytes = 4096

-- `_FORBIDDEN_DETAIL_KEYS`
abbrev pub forbidden_detail_keys : List String
forbidden_detail_keys = "stdout" ∷ "stderr" ∷ "output_text" ∷ "raw_output" ∷ []

module _ {F : Type 0} (py : PyRuntime F) where
  unfoldable mutual
    pub validate_detail_value : Value F → Result FailureError (Unit {0})
    validate_detail_value null = ok tt
    validate_detail_value (bool b) = ok tt
    validate_detail_value (int n) = ok tt
    validate_detail_value (str s) = ok tt
    validate_detail_value (float x) = refuse (not (py.is_finite x)) not_canonical
    validate_detail_value (list xs) = validate_detail_items xs
    validate_detail_value (dict d) = validate_detail_entries d
    validate_detail_value opaque = err not_canonical

    pub validate_detail_items : Items F → Result FailureError (Unit {0})
    validate_detail_items nil = ok tt
    validate_detail_items (cons x xs) = validate_detail_value x >> validate_detail_items xs

    pub validate_detail_entries : Entries F → Result FailureError (Unit {0})
    validate_detail_entries end = ok tt
    validate_detail_entries (entry other_key v d) = err not_canonical
    validate_detail_entries (entry (text k) v d) = do
      refuse (contains (py.casefold k) forbidden_detail_keys) raw_output_key
      validate_detail_value v
      validate_detail_entries d

-- `schema_version` is the constant "0.1".
pub record FailureRecord (F : Type 0) : Type 0 where
  pub category : FailureCategory
  pub code : FailureCode
  pub impact : FailureImpact
  pub retryability : Retryability
  pub summary : String
  pub details : Entries F
  pub caused_by_check_id : Option String
  pub causes : List FailureCode

-- `Field(default=None, max_length=255)`
unfoldable pub check_id_too_long : Option String → Bool
check_id_too_long none = false
check_id_too_long (some check_id) = ltb 255 (count check_id)

-- The `if self.code is SKIPPED_AFTER_FAILURE` at the end of the model validator.
unfoldable pub caused_by_must_fit : FailureCode → Option String → Result FailureError (Unit {0})
caused_by_must_fit skipped_after_failure none = err missing_caused_by
caused_by_must_fit skipped_after_failure (some check_id) = ok tt
caused_by_must_fit _ none = ok tt
caused_by_must_fit _ (some check_id) = err unexpected_caused_by

-- `taxonomy_and_causes_must_be_consistent`
unfoldable pub taxonomy_must_be_consistent :
    {F : Type 0} → FailureRecord F → Result FailureError (Unit {0})
taxonomy_must_be_consistent r = do
  refuse (not (r.category == code_category r.code)) wrong_category
  refuse (not (r.impact == code_impact r.code)) wrong_impact
  refuse (not (r.retryability == code_retryability r.code)) wrong_retryability
  refuse (contains r.code r.causes) cause_repeats_code
  refuse (not (all_unique r.causes)) causes_not_unique
  caused_by_must_fit r.code r.caused_by_check_id

module _ {F : Type 0} (py : PyRuntime F) where
  -- `details_must_be_bounded_json`
  unfoldable pub details_must_be_bounded_json : Entries F → Result FailureError (Unit {0})
  details_must_be_bounded_json details = do
    rethrow (λ e. not_canonical) (validate_json_compatible py (dict details) 0)
    validate_detail_value py (dict details)
    refuse (ltb max_details_bytes (json_size py (dict details))) details_too_large

  -- `FailureRecord(...)`: the field constraints, then the model validator.
  unfoldable pub validated_record : FailureRecord F → Result FailureError (FailureRecord F)
  validated_record r = do
    refuse (ltb (count r.summary) 1 || ltb 255 (count r.summary)) bad_summary_length
    details_must_be_bounded_json r.details
    refuse (check_id_too_long r.caused_by_check_id) bad_check_id_length
    refuse (ltb 10 (length r.causes)) too_many_causes
    taxonomy_must_be_consistent r
    ok r
