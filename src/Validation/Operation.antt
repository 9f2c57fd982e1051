-- ===== src/Validation/Operation.antt =====
-- packages/mandate/src/operation.ts: `validateExactOperation`.
use virtual_haibin.Prelude.{String, Bool, ◌||◌, Option, some, List, [], ◌∷◌, ◌==◌}
use virtual_haibin.Mandate.{ExactOperation}
use virtual_haibin.Validation.{
  Json, object, Fields, get, has_only, Checked, valid, invalid, ◌>>=◌, ◌>>◌, ensure, text_field,
}
use virtual_haibin.Validation.Patterns.{matches_resource, matches_dataset_id}

-- What is wrong with an operation.
pub data OperationProblem : Type 0 where
  not_an_object unexpected_field bad_method bad_resource bad_operation bad_dataset_id :
      OperationProblem

abbrev pub operation_fields : List String
operation_fields = "method" ∷ "resource" ∷ "operation" ∷ "datasetId" ∷ []

unfoldable pub is_method : String → Bool
is_method value = value == "POST"

unfoldable pub is_report_operation : String → Bool
is_report_operation value = value == "summarize" || value == "export"

unfoldable pub validate_operation_fields : Fields → Checked OperationProblem ExactOperation
validate_operation_fields fields = do
  ensure (has_only operation_fields fields) unexpected_field
  method ← text_field is_method (get "method" fields) bad_method
  resource ← text_field matches_resource (get "resource" fields) bad_resource
  operation ← text_field is_report_operation (get "operation" fields) bad_operation
  dataset_id ← text_field matches_dataset_id (get "datasetId" fields) bad_dataset_id
  valid (record {
    method = method;
    resource = resource;
    operation = operation;
    dataset_id = dataset_id;
  })

unfoldable pub validate_exact_operation : Option Json → Checked OperationProblem ExactOperation
validate_exact_operation (some (object fields)) = validate_operation_fields fields
validate_exact_operation _ = invalid not_an_object
