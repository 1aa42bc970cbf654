-- ===== src/Batch/Create.antt =====
-- `batchCreate` of src/sn/batch/BatchOperations.ts. Progress messages, logging and the time taken
-- are not modelled. The instance's answer to the operation at index i is `post i`.
use now_sdk_ext_core.Common.{
  ℕ, ◌+◌, ◌<◌, Bool, true, false, ◌||◌, List, [], ◌∷◌, ◌++◌, Option, none, some, String, or_else,
  if◌then◌else◌, ◌==◌, length, Text, ◌≡◌, ◌⊎◌, ◌↔◌, inl, inr, refl, arith, Option-cases,
}
use now_sdk_ext_core.Batch.Loop.{
  batch_loop, StepLaws, Tallied, StepLaws-Tallied, batch_loop_all, batch_loop_stops, Ended,
  complete, stopped,
}
use now_sdk_ext_core.Batch.References.{Json, SysIds, resolve_variable_references, put}

pub record BatchCreateOperation (D : Type 0) : Type 0 where
  pub table : String
  pub record_data : D
  pub save_as : Option Text

pub record BatchCreateOptions (D : Type 0) : Type 0 where
  pub operations : List (BatchCreateOperation D)
  pub transaction : Option Bool

-- Why an operation failed: the status of its response (none is `unknown`), or what was thrown.
pub data Failure : Type 0 where
  bad_status : Option ℕ → Failure
  exception : Text → Failure

pub record CreateError : Type 0 where
  pub operation_index : ℕ
  pub table : String
  pub error : Failure

pub record BatchCreateResult : Type 0 where
  pub success : Bool
  pub created_count : ℕ
  pub sys_ids : SysIds
  pub errors : List CreateError

-- A response: its status, and the sys_id of the record in its body where there is one.
pub record CreateResponse : Type 0 where
  pub status : ℕ
  pub sys_id : Option Text

-- What `TableAPIRequest.post` comes to: an exception, or a response, which may be missing.
pub data PostOutcome : Type 0 where
  threw : Text → PostOutcome
  responded : Option CreateResponse → PostOutcome

pub record Creation : Type 0 where
  pub created_count : ℕ
  pub sys_ids : SysIds
  pub errors : List CreateError

-- An empty text is falsy.
abbrev pub non_empty : Option Text → Option Text
non_empty none = none
non_empty (some []) = none
non_empty (some (c ∷ s)) = some (c ∷ s)

-- The sys_id of a response that reports a creation.
unfoldable pub created_id : Option CreateResponse → Option Text
created_id none = none
created_id (some response) =
    if response.status == 200 || response.status == 201 then non_empty response.sys_id else none

abbrev pub status_of : Option CreateResponse → Option ℕ
status_of none = none
status_of (some response) = some response.status

abbrev pub save : Option Text → Text → SysIds → SysIds
save none id ids = ids
save (some key) id ids = put key id ids

module _ {D : Type 0} (json : Json D) (parse_error : Text)
    (post : ℕ → String → D → PostOutcome) where
  unfoldable pub fail : ℕ → BatchCreateOperation D → Failure → Creation → Creation × Bool
  fail i op error s = (
    record s {
      errors = s.errors ++ record { operation_index = i; table = op.table; error = error } ∷ [];
    },
    true,
  )

  unfoldable pub after_post : ℕ → BatchCreateOperation D → PostOutcome → Creation → Creation × Bool
  unfolding fail
  after_post i op (threw message) s = fail i op (exception message) s
  after_post i op (responded response) s = elim (created_id response) [
    | none ↦ fail i op (bad_status (status_of response)) s
    | some id ↦ (
      record s {
        created_count = s.created_count + 1;
        sys_ids = save (non_empty op.save_as) id s.sys_ids;
      },
      false,
    )
  ]

  -- One operation, and whether it failed. Data that cannot be read back throws before the post.
  unfoldable pub create_step : ℕ → BatchCreateOperation D → Creation → Creation × Bool
  unfolding after_post
  create_step i op s = elim (resolve_variable_references json op.record_data s.sys_ids) [
    | none ↦ fail i op (exception parse_error) s
    | some resolved ↦ after_post i op (post i op.table resolved) s
  ]

  abbrev pub nothing_created : Creation
  nothing_created = record { created_count = 0; sys_ids = []; errors = [] }

  abbrev pub no_errors : List CreateError → Bool
  no_errors [] = true
  no_errors (_ ∷ _) = false

  unfoldable pub batch_create : BatchCreateOptions D → BatchCreateResult
  batch_create options =
      let end =
        batch_loop (or_else options.transaction true) create_step 0 options.operations
          nothing_created in
      record {
        success = no_errors end.errors;
        created_count = end.created_count;
        sys_ids = end.sys_ids;
        errors = end.errors;
      }

  abbrev Counted : ℕ → Creation → Creation × Bool → Type 0
  Counted i s r =
      Tallied (λ (c : Creation). c.created_count) (λ c. c.errors)
        (λ (e : CreateError). e.operation_index) i s r

  after_post-Counted :
      (i : ℕ) (op : BatchCreateOperation D) (o : PostOutcome) (s : Creation)
      → Counted i s (after_post i op o s)
  unfolding after_post
  after_post-Counted i op (threw message) s = inr (_, refl, refl, refl, refl)
  after_post-Counted i op (responded response) s = elim (Option-cases (created_id response)) [
    | inl e ↦ rw (e, after_post) (inr (_, refl, refl, refl, refl))
    | inr (id, e) ↦ rw (e, after_post) (inl (refl, refl, refl))
  ]

  create_step-Counted :
      (i : ℕ) (op : BatchCreateOperation D) (s : Creation) → Counted i s (create_step i op s)
  unfolding create_step
  create_step-Counted i op s =
      elim (Option-cases (resolve_variable_references json op.record_data s.sys_ids)) [
        | inl e ↦ rw (e, create_step) (inr (_, refl, refl, refl, refl))
        | inr (d, e) ↦ rw (e, create_step) (after_post-Counted i op (post i op.table d) s)
      ]

  create_step-StepLaws :
      StepLaws (λ s. s.created_count) (λ s. s.errors) (λ e. e.operation_index) create_step
  create_step-StepLaws = StepLaws-Tallied _ _ _ create_step create_step-Counted

  all_iff :
      (t : Creation) {n : ℕ}
      → t.created_count + length t.errors ≡ n
      → (no_errors t.errors ≡ true) ↔ (t.created_count ≡ n)
  all_iff t h = grind arith

  -- A batch that stops at its first error, as its result shows it.
  abbrev AtMostOne : List (BatchCreateOperation D) → Creation → Type 0
  AtMostOne ops t =
      ((no_errors t.errors ≡ true) × (t.created_count ≡ length ops) × (t.errors ≡ []))
      ⊎ ((e : CreateError) × (no_errors t.errors ≡ false)
          × (t.errors ≡ e ∷ [])
          × (e.operation_index ≡ t.created_count)
          × (t.created_count < length ops))

  how-Ended :
      (ops : List (BatchCreateOperation D)) (t : Creation)
      → Ended
          (λ (c : Creation). c.created_count)
          (λ c. c.errors)
          (λ (x : CreateError). x.operation_index)
          create_step
          create_step-StepLaws
          0
          ops
          nothing_created
          t
      → AtMostOne ops t
  how-Ended ops t (complete d es) = inl (rw es refl, omega arith, es)
  how-Ended ops t (stopped e lt es at) = inr (e, rw es refl, es, omega arith, omega arith)

  -- Without a transaction every operation is run: the creations and the errors together are as
  -- many as the operations, and the batch succeeds exactly when all were created.
  pub batch_create_all :
      (options : BatchCreateOptions D)
      → options.transaction ≡ some false
      → ((batch_create options).created_count + length (batch_create options).errors
          ≡ length options.operations)
        × (((batch_create options).success ≡ true)
            ↔ ((batch_create options).created_count ≡ length options.operations))
  unfolding batch_create
  batch_create_all options e =
      let total =
        batch_loop_all (λ (c : Creation). c.created_count) (λ c. c.errors)
          (λ (x : CreateError). x.operation_index) create_step create_step-StepLaws 0
          options.operations nothing_created in
      let end : Creation = batch_loop false create_step 0 options.operations nothing_created in
      let total' : end.created_count + length end.errors ≡ length options.operations =
        omega arith in
      rw e (total', all_iff end total')

  -- In a transaction, which is the default, either every operation created its record and there is
  -- no error, or the batch stopped at its only error, whose index is the number of operations that
  -- had created theirs.
  pub batch_create_transaction :
      (options : BatchCreateOptions D)
      → or_else options.transaction true ≡ true
      → (((batch_create options).success ≡ true)
          × ((batch_create options).created_count ≡ length options.operations)
          × ((batch_create options).errors ≡ []))
        ⊎ ((e : CreateError) × ((batch_create options).success ≡ false)
            × ((batch_create options).errors ≡ e ∷ [])
            × (e.operation_index ≡ (batch_create options).created_count)
            × ((batch_create options).created_count < length options.operations))
  unfolding batch_create
  batch_create_transaction options e = rw e (
      how-Ended options.operations _ (
        batch_loop_stops (λ (c : Creation). c.created_count) (λ c. c.errors)
          (λ (x : CreateError). x.operation_index) create_step create_step-StepLaws 0
          options.operations nothing_created))
