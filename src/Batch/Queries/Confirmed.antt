-- ===== src/Batch/Queries/Confirmed.antt =====
-- The updates and deletes by query of src/sn/batch/QueryBatchOperations.ts that are confirmed.
use now_sdk_ext_core.Common.{
  ℕ, ◌+◌, Bool, true, false, List, [], ◌∷◌, map, some, String, Text, length, ◌==◌, ◌≡◌, inr, ◌↔◌,
  refl, sym, arith,
}
use now_sdk_ext_core.Batch.Queries.{
  QueryUpdateOptions, QueryDeleteOptions, ItemError, QueryResult, WriteOutcome, Instance, get_query,
  put_record, delete_record, blank, limit_of, is_dry_run, matching_records, put_accepted,
  delete_accepted, write_all, executed, nothing_written, update_matching, query_update,
  delete_matching, query_delete,
}
use now_sdk_ext_core.Batch.Queries.Laws.{failing, write_all_lem}

-- The result of a run that wrote to all the records: it counts those, the errors are the records
-- whose write failed, in order, and the count is of the others.
pub record Executes (accepted : ℕ → Bool) (send : ℕ → String → WriteOutcome) (ids : List String)
    (r : QueryResult) : Type 0 where
  pub for_real : r.dry_run ≡ false
  pub counted : r.match_count ≡ length ids
  pub failures : map (λ e. e.sys_id) r.errors ≡ failing accepted send 0 ids
  pub others : r.done_count + length (failing accepted send 0 ids) ≡ length ids
  pub succeeds : (r.success ≡ true) ↔ (failing accepted send 0 ids ≡ [])

length-map : {A B : Type 0} (f : A → B) (xs : List A) → length (map f xs) ≡ length xs
length-map f [] = refl
length-map f (x ∷ xs) = omega (arith, length-map f xs)

empty_iff :
    (es : List ItemError) (ids : List String)
    → map (λ e. e.sys_id) es ≡ ids
    → ((length es == 0) ≡ true) ↔ (ids ≡ [])
empty_iff [] ids h = (λ e. sym h, λ e. refl)
empty_iff (e ∷ es) [] h = absurd (cc)
empty_iff (e ∷ es) (id ∷ ids) h = (λ q. absurd (ground arith), λ q. absurd (cc))

written_all :
    (accepted : ℕ → Bool) (send : ℕ → String → WriteOutcome) (ids : List String)
    → ((write_all accepted send 0 ids nothing_written).written ≡ ids)
      × Executes accepted send ids
          (executed (length ids) (write_all accepted send 0 ids nothing_written))
written_all accepted send ids =
    let (w, f, c) = write_all_lem accepted send 0 ids nothing_written in
    (
      w,
      record {
        for_real = refl;
        counted = refl;
        failures = f;
        others = omega (arith, c);
        succeeds = empty_iff _ _ f;
      },
    )

module _ {D : Type 0} (inst : Instance D) where
  -- A confirmed delete with a table and a query that are not blank sends its query, with the limit
  -- (200 by default, at most 10000), and then one delete for each record that matched, in order;
  -- it counts those that succeeded, and its errors are the records whose delete failed, in order;
  -- it succeeds exactly when none failed.
  pub query_delete_confirmed :
      (o : QueryDeleteOptions) (ids : List String)
      → blank o.table ≡ false
      → blank o.query ≡ false
      → o.confirm ≡ some true
      → matching_records (inst.find o.table o.query (limit_of o.limit)) ≡ inr ids
      → (r : QueryResult) × ((query_delete inst o).result ≡ inr r)
        × ((query_delete inst o).sent
            ≡ get_query o.table o.query (limit_of o.limit)
              ∷ map (λ id. delete_record o.table id) ids)
        × Executes delete_accepted (λ i id. inst.delete_at i o.table id) ids r
  unfolding query_delete delete_matching
  query_delete_confirmed o ids t q c m =
      let (w, executes) = written_all delete_accepted (λ i id. inst.delete_at i o.table id) ids in
      let go : is_dry_run o.confirm ≡ false = rw c refl in
      (_, rw t (rw q (rw m (rw go refl))), rw t (rw q (rw m (rw go (rw w refl)))), executes)

  -- A confirmed update with a table and a query that are not blank and some field to set sends its
  -- query, with the limit (200 by default, at most 10000), and then one update with those fields
  -- for each record that matched, in order; it counts those that succeeded, and its errors are the
  -- records whose update failed, in order; it succeeds exactly when none failed.
  pub query_update_confirmed :
      (o : QueryUpdateOptions D) (field : Text × D) (fields : List (Text × D)) (ids : List String)
      → blank o.table ≡ false
      → blank o.query ≡ false
      → o.data_fields ≡ some (field ∷ fields)
      → o.confirm ≡ some true
      → matching_records (inst.find o.table o.query (limit_of o.limit)) ≡ inr ids
      → (r : QueryResult) × ((query_update inst o).result ≡ inr r)
        × ((query_update inst o).sent
            ≡ get_query o.table o.query (limit_of o.limit)
              ∷ map (λ id. put_record o.table id (field ∷ fields)) ids)
        × Executes put_accepted (λ i id. inst.put_at i o.table id (field ∷ fields)) ids r
  unfolding query_update update_matching
  query_update_confirmed o field fields ids t q d c m =
      let (w, executes) =
        written_all put_accepted (λ i id. inst.put_at i o.table id (field ∷ fields)) ids in
      let go : is_dry_run o.confirm ≡ false = rw c refl in
      (
        _,
        rw t (rw q (rw d (rw m (rw go refl)))),
        rw t (rw q (rw d (rw m (rw go (rw w refl))))),
        executes,
      )
