-- ===== src/Batch/Queries.antt =====
-- src/sn/batch/QueryBatchOperations.ts: updates and deletes of what a query matches. Progress
-- messages, logging and the time taken are not modelled. What the methods send is listed in order,
-- and the answer to the write at index i is the instance's `put_at i` or `delete_at i`.
pub mod Laws
pub mod Confirmed
use now_sdk_ext_core.Common.{
  ℕ, zero, suc, ◌+◌, min, Bool, true, false, not, ◌||◌, List, [], ◌∷◌, ◌++◌, map, Option, none,
  some, String, Text, trim, length, if◌then◌else◌, or_else, ◌==◌, ◌⊎◌, inl, inr,
}
use now_sdk_ext_core.Batch.Create.{Failure, bad_status, exception}

abbrev pub default_limit : ℕ
default_limit = 200

abbrev pub max_limit : ℕ
max_limit = 10000

pub record QueryUpdateOptions (D : Type 0) : Type 0 where
  pub table : Text
  pub query : Text
  pub data_fields : Option (List (Text × D))
  pub confirm : Option Bool
  pub limit : Option ℕ

pub record QueryDeleteOptions : Type 0 where
  pub table : Text
  pub query : Text
  pub confirm : Option Bool
  pub limit : Option ℕ

pub record ItemError : Type 0 where
  pub sys_id : String
  pub error : Failure

-- QueryUpdateResult, and QueryDeleteResult with its count of deletions.
pub record QueryResult : Type 0 where
  pub dry_run : Bool
  pub match_count : ℕ
  pub done_count : ℕ
  pub success : Bool
  pub errors : List ItemError

-- What the methods throw.
pub data QueryError : Type 0 where
  table_required query_required data_required : QueryError
  find_threw : Text → QueryError
  find_failed : Option ℕ → QueryError

pub data FindOutcome : Type 0 where
  find_raised : Text → FindOutcome
  found : Option (ℕ × Option (List String)) → FindOutcome

-- The answer to a write: an exception, or a response with its status, or no response.
pub data WriteOutcome : Type 0 where
  raised : Text → WriteOutcome
  answered : Option ℕ → WriteOutcome

pub record Instance (D : Type 0) : Type 0 where
  pub find : Text → Text → ℕ → FindOutcome
  pub put_at : ℕ → Text → String → List (Text × D) → WriteOutcome
  pub delete_at : ℕ → Text → String → WriteOutcome

pub data Sent (D : Type 0) : Type 0 where
  get_query : Text → Text → ℕ → Sent D
  put_record : Text → String → List (Text × D) → Sent D
  delete_record : Text → String → Sent D

pub record Run (D : Type 0) : Type 0 where
  pub sent : List (Sent D)
  pub result : QueryError ⊎ QueryResult

-- `!text || text.trim().length === 0`
abbrev pub blank : Text → Bool
blank t = length (trim t) == 0

abbrev pub limit_of : Option ℕ → ℕ
limit_of limit = min (or_else limit default_limit) max_limit

-- `confirm !== true`
abbrev pub is_dry_run : Option Bool → Bool
is_dry_run confirm = not (or_else confirm false)

-- `_findMatchingRecords`
unfoldable pub matching_records : FindOutcome → QueryError ⊎ List String
matching_records (find_raised message) = inl (find_threw message)
matching_records (found none) = inl (find_failed none)
matching_records (found (some (status, none))) = inl (find_failed (some status))
matching_records (found (some (status, some ids))) =
    if status == 200 then inr ids else inl (find_failed (some status))

abbrev pub put_accepted : ℕ → Bool
put_accepted status = status == 200

abbrev pub delete_accepted : ℕ → Bool
delete_accepted status = status == 200 || status == 204

-- What the loop over the records keeps.
pub record Written : Type 0 where
  pub written : List String
  pub count : ℕ
  pub errors : List ItemError

abbrev pub fail_item : String → Failure → Written → Written
fail_item id why s = record s { errors = s.errors ++ record { sys_id = id; error = why } ∷ [] }

-- What the answer to a write adds.
unfoldable pub tally : (ℕ → Bool) → String → WriteOutcome → Written → Written
tally accepted id (raised message) s = fail_item id (exception message) s
tally accepted id (answered none) s = fail_item id (bad_status none) s
tally accepted id (answered (some status)) s =
    if accepted status
    then record s { count = s.count + 1 }
    else fail_item id (bad_status (some status)) s

unfoldable pub write_all :
    (ℕ → Bool) → (ℕ → String → WriteOutcome) → ℕ → List String → Written → Written
unfolding tally
write_all accepted send i [] s = s
write_all accepted send i (id ∷ ids) s =
    let sent_one = record s { written = s.written ++ id ∷ [] } in
    write_all accepted send (i + 1) ids (tally accepted id (send i id) sent_one)

abbrev pub preview : ℕ → QueryResult
preview match_count = record {
  dry_run = true;
  match_count = match_count;
  done_count = 0;
  success = true;
  errors = [];
}

abbrev pub executed : ℕ → Written → QueryResult
executed match_count s = record {
  dry_run = false;
  match_count = match_count;
  done_count = s.count;
  success = length s.errors == 0;
  errors = s.errors;
}

abbrev pub nothing_written : Written
nothing_written = record { written = []; count = 0; errors = [] }

abbrev pub refused : {D : Type 0} → QueryError → Run D
refused e = record { sent = []; result = inl e }

module _ {D : Type 0} (inst : Instance D) where
  -- Steps 2 and 3 of `queryUpdate`, after the query was sent.
  unfoldable pub update_matching :
      QueryUpdateOptions D → List (Text × D) → Sent D → QueryError ⊎ List String → Run D
  unfolding write_all
  update_matching o fields query (inl e) = record { sent = query ∷ []; result = inl e }
  update_matching o fields query (inr ids) =
      let send : ℕ → String → WriteOutcome = λ i id. inst.put_at i o.table id fields in
      let written = write_all put_accepted send 0 ids nothing_written in
      if is_dry_run o.confirm
      then record { sent = query ∷ []; result = inr (preview (length ids)) }
      else record {
        sent = query ∷ map (λ id. put_record o.table id fields) written.written;
        result = inr (executed (length ids) written);
      }

  unfoldable pub query_update : QueryUpdateOptions D → Run D
  unfolding update_matching matching_records
  query_update o =
      let limit = limit_of o.limit in
      if blank o.table
      then refused table_required
      else if blank o.query
      then refused query_required
      else elim (or_else o.data_fields []) [
        | [] ↦ refused data_required
        | field ∷ fields ↦
            update_matching o (field ∷ fields) (get_query o.table o.query limit)
              (matching_records (inst.find o.table o.query limit))
      ]

  -- Steps 2 and 3 of `queryDelete`.
  unfoldable pub delete_matching : QueryDeleteOptions → Sent D → QueryError ⊎ List String → Run D
  unfolding write_all
  delete_matching o query (inl e) = record { sent = query ∷ []; result = inl e }
  delete_matching o query (inr ids) =
      let send : ℕ → String → WriteOutcome = λ i id. inst.delete_at i o.table id in
      let written = write_all delete_accepted send 0 ids nothing_written in
      if is_dry_run o.confirm
      then record { sent = query ∷ []; result = inr (preview (length ids)) }
      else record {
        sent = query ∷ map (λ id. delete_record o.table id) written.written;
        result = inr (executed (length ids) written);
      }

  unfoldable pub query_delete : QueryDeleteOptions → Run D
  unfolding delete_matching matching_records
  query_delete o =
      let limit = limit_of o.limit in
      if blank o.table
      then refused table_required
      else if blank o.query
      then refused query_required
      else delete_matching o (get_query o.table o.query limit)
          (matching_records (inst.find o.table o.query limit))
