-- ===== src/Batch/Update.antt =====
-- `batchUpdate` of src/sn/batch/BatchOperations.ts. Progress messages, logging and the time taken
-- are not modelled. The instance's answer to the update at index i is `put i`.
use now_sdk_ext_core.Common.{
  ℕ, ◌+◌, Bool, true, false, ◌&&◌, List, [], ◌∷◌, ◌++◌, Option, none, some, String, or_else,
  if◌then◌else◌, ◌==◌, length, ◌≡◌, inl, inr, refl, arith, Bool-cases,
}
use now_sdk_ext_core.Batch.Loop.{batch_loop, StepLaws, Tallied, StepLaws-Tallied, batch_loop_all}
use now_sdk_ext_core.Batch.Create.{Failure, bad_status, exception}
use now_sdk_ext_core.Common.{Text}

pub record BatchUpdateOperation (D : Type 0) : Type 0 where
  pub table : String
  pub sys_id : String
  pub record_data : D

pub record BatchUpdateOptions (D : Type 0) : Type 0 where
  pub updates : List (BatchUpdateOperation D)
  pub stop_on_error : Option Bool

pub record UpdateError : Type 0 where
  pub update_index : ℕ
  pub table : String
  pub sys_id : String
  pub error : Failure

pub record BatchUpdateResult : Type 0 where
  pub success : Bool
  pub updated_count : ℕ
  pub errors : List UpdateError

-- A response: its status, and whether its body has a result.
pub record UpdateResponse : Type 0 where
  pub status : ℕ
  pub has_result : Bool

pub data PutOutcome : Type 0 where
  threw : Text → PutOutcome
  responded : Option UpdateResponse → PutOutcome

pub record Updating : Type 0 where
  pub updated_count : ℕ
  pub errors : List UpdateError

unfoldable pub is_updated : Option UpdateResponse → Bool
is_updated none = false
is_updated (some response) = response.status == 200 && response.has_result

abbrev pub status_of : Option UpdateResponse → Option ℕ
status_of none = none
status_of (some response) = some response.status

abbrev pub nothing_updated : Updating
nothing_updated = record { updated_count = 0; errors = [] }

abbrev pub no_errors : List UpdateError → Bool
no_errors [] = true
no_errors (_ ∷ _) = false

module _ {D : Type 0} where
  unfoldable pub fail : ℕ → BatchUpdateOperation D → Failure → Updating → Updating × Bool
  fail i update error s = (
    record s {
      errors =
          s.errors
          ++ record {
            update_index = i;
            table = update.table;
            sys_id = update.sys_id;
            error = error;
          }
            ∷ [];
    },
    true,
  )

  -- What follows the response to one update, and whether the update failed.
  unfoldable pub after_put : ℕ → BatchUpdateOperation D → PutOutcome → Updating → Updating × Bool
  unfolding fail
  after_put i update (threw message) s = fail i update (exception message) s
  after_put i update (responded response) s =
      if is_updated response
      then (record s { updated_count = s.updated_count + 1 }, false)
      else fail i update (bad_status (status_of response)) s

module _ {D : Type 0} (put : ℕ → String → String → D → PutOutcome) where
  unfoldable pub update_step : ℕ → BatchUpdateOperation D → Updating → Updating × Bool
  unfolding after_put
  update_step i update s =
      after_put i update (put i update.table update.sys_id update.record_data) s

  unfoldable pub batch_update : BatchUpdateOptions D → BatchUpdateResult
  batch_update options =
      let end =
        batch_loop (or_else options.stop_on_error false) update_step 0 options.updates
          nothing_updated in
      record {
        success = no_errors end.errors;
        updated_count = end.updated_count;
        errors = end.errors;
      }

  after_put-Tallied :
      (i : ℕ) (update : BatchUpdateOperation D) (o : PutOutcome) (s : Updating)
      → Tallied
          (λ (c : Updating). c.updated_count)
          (λ c. c.errors)
          (λ (e : UpdateError). e.update_index)
          i
          s
          (after_put i update o s)
  unfolding after_put
  after_put-Tallied i update (threw message) s = inr (_, refl, refl, refl, refl)
  after_put-Tallied i update (responded response) s = elim (Bool-cases (is_updated response)) [
    | inl e ↦ rw e (inl (refl, refl, refl))
    | inr e ↦ rw e (inr (_, refl, refl, refl, refl))
  ]

  update_step-StepLaws :
      StepLaws (λ s. s.updated_count) (λ s. s.errors) (λ e. e.update_index) update_step
  unfolding update_step
  update_step-StepLaws = StepLaws-Tallied _ _ _ update_step (λ i update s.
      after_put-Tallied i update (put i update.table update.sys_id update.record_data) s)

  -- A batch of updates that is not told to stop at an error runs every update: those that
  -- succeeded and the errors together are as many as the updates.
  pub batch_update_all :
      (options : BatchUpdateOptions D)
      → or_else options.stop_on_error false ≡ false
      → (batch_update options).updated_count + length (batch_update options).errors
        ≡ length options.updates
  unfolding batch_update
  batch_update_all options e =
      let end : Updating = batch_loop false update_step 0 options.updates nothing_updated in
      let total =
        batch_loop_all (λ (c : Updating). c.updated_count) (λ c. c.errors)
          (λ (x : UpdateError). x.update_index) update_step update_step-StepLaws 0 options.updates
          nothing_updated in
      let total' : end.updated_count + length end.errors ≡ length options.updates = omega arith in
      rw e total'
