-- ===== src/Schema/Metadata.antt =====
-- `_validate_metadata` of src/e2h/models.py. Its `_validate_json_compatible` tests the same values
-- as the one of src/e2h/document.py, to the same depth, and is not written twice.
use e2h.Result.{Result, ok, rethrow, ◌>>◌}
use e2h.Values.Data.{Value, PyRuntime}
use e2h.Values.Compatible.{validate_json_compatible}
use e2h.Schema.Texts.{SchemaError, bad_metadata}

unfoldable pub validate_metadata :
    {F : Type 0} → PyRuntime F → Value F → Result SchemaError (Value F)
unfolding validate_json_compatible
validate_metadata py value = do
  rethrow (λ e. bad_metadata) (validate_json_compatible py value 0)
  ok value
