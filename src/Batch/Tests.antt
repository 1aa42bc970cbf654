-- ===== src/Batch/Tests.antt =====
-- Runs of src/sn/batch/BatchOperations.ts at concrete batches.
use now_sdk_ext_core.Common.{
  ℕ, ◌+◌, ◌<◌, Bool, true, false, [], ◌∷◌, Option, none, some, String, ◌≡◌, ◌⊎◌, ◌↔◌, refl, length,
  Text, codes, trim, map, inr, ◌==◌, if◌then◌else◌,
}
use now_sdk_ext_core.Batch.Loop.{batch_loop}
use now_sdk_ext_core.Batch.References.{
  Json, substitute, replace_all, put, resolve_variable_references,
}
use now_sdk_ext_core.Batch.Create.{
  BatchCreateOperation, BatchCreateOptions, CreateError, PostOutcome, responded, bad_status,
  batch_create, create_step, created_id, batch_create_all, batch_create_transaction,
}
use now_sdk_ext_core.Batch.Update as Update
use now_sdk_ext_core.Batch.Queries as Query
use now_sdk_ext_core.Batch.Queries.{
  QueryUpdateOptions, QueryDeleteOptions, QueryResult, get_query, put_record, delete_record, blank,
  matching_records, put_accepted, delete_accepted, query_update, query_delete,
}
use now_sdk_ext_core.Batch.Queries.Laws.{OnlyLooks, query_dry_run}
use now_sdk_ext_core.Batch.Queries.Confirmed.{
  Executes, query_delete_confirmed, query_update_confirmed,
}
use now_sdk_ext_core.Batch.Update.{
  BatchUpdateOperation, BatchUpdateOptions, PutOutcome, batch_update, batch_update_all,
}

-- Record data that is its own JSON.
abbrev verbatim : Json Text
verbatim = record { stringify = λ t. t; parse = λ t. some t }

abbrev cannot_parse : Text
cannot_parse = codes "Unexpected token"

abbrev operation : BatchCreateOperation Text
operation = record { table = "incident"; record_data = codes "x"; save_as = some (codes "parent") }

abbrev child : BatchCreateOperation Text
child = record { table = "task"; record_data = codes "p=${parent}"; save_as = none }

-- The instance creates the first record, and refuses the second.
abbrev answers : ℕ → String → Text → PostOutcome
answers i table sent =
    if i == 0
    then responded (some (record { status = 201; sys_id = some (codes "7f") }))
    else responded (some (record { status = 403; sys_id = none }))

abbrev batch : Option Bool → BatchCreateOptions Text
batch transaction = record {
  operations = operation ∷ child ∷ child ∷ [];
  transaction = transaction;
}

batch_create_run :
    (batch_create verbatim cannot_parse answers (batch none)).errors
    ≡ record { operation_index = 1; table = "task"; error = bad_status (some 403) } ∷ []
unfolding batch_create batch_loop create_step resolve_variable_references created_id put
batch_create_run = refl

references_run :
    resolve_variable_references verbatim (codes "p=${parent}") ((codes "parent", codes "7f") ∷ [])
    ≡ some (codes "p=7f")
unfolding resolve_variable_references substitute replace_all
references_run = refl

batch_create_transaction_example :
    let r = batch_create verbatim cannot_parse answers (batch none) in
    ((r.success ≡ true) × (r.created_count ≡ 3) × (r.errors ≡ []))
    ⊎ ((e : CreateError) × (r.success ≡ false)
        × (r.errors ≡ e ∷ [])
        × (e.operation_index ≡ r.created_count)
        × (r.created_count < 3))
batch_create_transaction_example =
    batch_create_transaction verbatim cannot_parse answers (batch none) refl

batch_create_all_example :
    let r = batch_create verbatim cannot_parse answers (batch (some false)) in
    (r.created_count + length r.errors ≡ 3) × ((r.success ≡ true) ↔ (r.created_count ≡ 3))
batch_create_all_example = batch_create_all verbatim cannot_parse answers (batch (some false)) refl

abbrev change : BatchUpdateOperation Text
change = record { table = "incident"; sys_id = "1"; record_data = codes "x" }

abbrev changes : BatchUpdateOptions Text
changes = record { updates = change ∷ change ∷ []; stop_on_error = none }

abbrev throws_once : ℕ → String → String → Text → PutOutcome
throws_once i table id sent =
    if i == 0
    then Update.threw (codes "timeout")
    else Update.responded (some (record { status = 200; has_result = true }))

batch_update_all_example :
    (batch_update throws_once changes).updated_count
      + length (batch_update throws_once changes).errors
    ≡ 2
batch_update_all_example = batch_update_all throws_once changes refl

-- An instance with two incidents, the second of which cannot be deleted.
abbrev two_incidents : Query.Instance Text
two_incidents = record {
  find = λ table query limit. Query.found (some (200, some ("a" ∷ "b" ∷ [])));
  put_at = λ i table id fields. Query.answered (some 200);
  delete_at = λ i table id. if i == 0 then Query.answered (some 204) else Query.answered (some 403);
}

abbrev deletion : Option Bool → QueryDeleteOptions
deletion confirm = record {
  table = codes "incident";
  query = codes "active=false";
  confirm = confirm;
  limit = none;
}

abbrev closing : Text × Text
closing = (codes "state", codes "7")

abbrev closure : Option Bool → QueryUpdateOptions Text
closure confirm = record {
  table = codes "incident";
  query = codes "active=false";
  data_fields = some (closing ∷ []);
  confirm = confirm;
  limit = none;
}

query_dry_run_example :
    OnlyLooks (query_update two_incidents (closure none))
    × OnlyLooks (query_delete two_incidents (deletion (some false)))
query_dry_run_example =
    query_dry_run two_incidents (closure none) (deletion (some false)) (λ e. cc) (λ e. cc)

named : (blank (codes "incident") ≡ false) × (blank (codes "active=false") ≡ false)
unfolding trim
named = (refl, refl)

matched : matching_records (Query.found (some (200, some ("a" ∷ "b" ∷ [])))) ≡ inr ("a" ∷ "b" ∷ [])
unfolding matching_records
matched = refl

query_delete_confirmed_example :
    (r : QueryResult) × ((query_delete two_incidents (deletion (some true))).result ≡ inr r)
    × ((query_delete two_incidents (deletion (some true))).sent
        ≡ get_query (codes "incident") (codes "active=false") 200
          ∷ map (λ id. delete_record (codes "incident") id) ("a" ∷ "b" ∷ []))
    × Executes delete_accepted
        (λ i id. two_incidents.delete_at i (codes "incident") id)
        ("a" ∷ "b" ∷ [])
        r
query_delete_confirmed_example =
    query_delete_confirmed two_incidents (deletion (some true)) ("a" ∷ "b" ∷ []) named.0 named.1
      refl matched

query_update_confirmed_example :
    (r : QueryResult) × ((query_update two_incidents (closure (some true))).result ≡ inr r)
    × ((query_update two_incidents (closure (some true))).sent
        ≡ get_query (codes "incident") (codes "active=false") 200
          ∷ map (λ id. put_record (codes "incident") id (closing ∷ [])) ("a" ∷ "b" ∷ []))
    × Executes put_accepted
        (λ i id. two_incidents.put_at i (codes "incident") id (closing ∷ []))
        ("a" ∷ "b" ∷ [])
        r
query_update_confirmed_example =
    query_update_confirmed two_incidents (closure (some true)) closing [] ("a" ∷ "b" ∷ []) named.0
      named.1 refl refl matched
