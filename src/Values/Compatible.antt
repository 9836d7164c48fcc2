-- ===== src/Values/Compatible.antt =====
-- src/e2h/document.py, `_validate_json_compatible`. A value of the model holds no cycle, so the
-- test on the identities of the open containers has nothing to find.
use e2h.Prelude.{ℕ, suc, ltb, if◌then◌else◌}
use e2h.Result.{Result, ok, err, ◌>>◌, refuse}
use e2h.Values.Data.{
  Value, null, bool, int, float, str, list, dict, opaque, Items, nil, cons, Entries, end, entry,
  text, other_key, PyRuntime,
}

-- `_MAX_DOCUMENT_STRUCTURE_DEPTH`
abbrev pub depth_limit : ℕ
depth_limit = 128

pub data Unsupported : Type 0 where
  too_deep non_finite non_text_key unsupported_type : Unsupported

module _ {F : Type 0} (py : PyRuntime F) where
  unfoldable mutual
    pub validate_json_compatible : Value F → ℕ → Result Unsupported (Unit {0})
    validate_json_compatible null depth = refuse (ltb depth_limit depth) too_deep
    validate_json_compatible (bool b) depth = refuse (ltb depth_limit depth) too_deep
    validate_json_compatible (int n) depth = refuse (ltb depth_limit depth) too_deep
    validate_json_compatible (str s) depth = refuse (ltb depth_limit depth) too_deep
    validate_json_compatible (float x) depth = do
      refuse (ltb depth_limit depth) too_deep
      if py.is_finite x then ok tt else err non_finite
    validate_json_compatible (list xs) depth = do
      refuse (ltb depth_limit depth) too_deep
      validate_items xs (suc depth)
    validate_json_compatible (dict d) depth = do
      refuse (ltb depth_limit depth) too_deep
      validate_entries d (suc depth)
    validate_json_compatible opaque depth = do
      refuse (ltb depth_limit depth) too_deep
      err unsupported_type

    pub validate_items : Items F → ℕ → Result Unsupported (Unit {0})
    validate_items nil depth = ok tt
    validate_items (cons x xs) depth = validate_json_compatible x depth >> validate_items xs depth

    pub validate_entries : Entries F → ℕ → Result Unsupported (Unit {0})
    validate_entries end depth = ok tt
    validate_entries (entry (text k) v d) depth =
        validate_json_compatible v depth >> validate_entries d depth
    validate_entries (entry other_key v d) depth = err non_text_key
