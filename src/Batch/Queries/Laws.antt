-- ===== src/Batch/Queries/Laws.antt =====
-- The writes of the updates and deletes by query of src/sn/batch/QueryBatchOperations.ts, and that a dry run has none.
use now_sdk_ext_core.Common.{
  ℕ, ◌+◌, Bool, true, false, List, [], ◌∷◌, ◌++◌, map, append_assoc, append-nil, Option, none, some,
  String, Text, length, if◌then◌else◌, or_else, ◌≡◌, ◌≢◌, ◌⊎◌, inl, inr, refl, sym, ap, arith,
  Bool-cases, All,
}
use now_sdk_ext_core.Batch.Queries.{
  QueryUpdateOptions, QueryDeleteOptions, QueryResult, QueryError, WriteOutcome, raised, answered,
  Instance, Sent, get_query, put_record, delete_record, Run, blank, limit_of, is_dry_run,
  matching_records, Written, tally, write_all, preview, refused, data_required, update_matching,
  query_update, delete_matching, query_delete,
}

-- Whether the answer to a write is a success.
abbrev pub succeeded : (ℕ → Bool) → WriteOutcome → Bool
succeeded accepted (raised message) = false
succeeded accepted (answered none) = false
succeeded accepted (answered (some status)) = accepted status

-- The records whose write does not succeed.
abbrev pub failing : (ℕ → Bool) → (ℕ → String → WriteOutcome) → ℕ → List String → List String
failing accepted send i [] = []
failing accepted send i (id ∷ ids) =
    if succeeded accepted (send i id)
    then failing accepted send (i + 1) ids
    else id ∷ failing accepted send (i + 1) ids

module _ (accepted : ℕ → Bool) where
  abbrev failed_ids : Written → List String
  failed_ids s = map (λ e. e.sys_id) s.errors

  map-append : {A B : Type 0} (f : A → B) (xs ys : List A) → map f (xs ++ ys) ≡ map f xs ++ map f ys
  map-append f [] ys = refl
  map-append f (x ∷ xs) ys = ap (λ r. f x ∷ r) (map-append f xs ys)

  -- One answer counts, or adds the record to the errors.
  tally_cases :
      (id : String) (outcome : WriteOutcome) (s : Written)
      → ((tally accepted id outcome s).written ≡ s.written)
        × (((succeeded accepted outcome ≡ true)
              × ((tally accepted id outcome s).count ≡ s.count + 1)
              × ((tally accepted id outcome s).errors ≡ s.errors))
            ⊎ ((succeeded accepted outcome ≡ false)
                × ((tally accepted id outcome s).count ≡ s.count)
                × (failed_ids (tally accepted id outcome s) ≡ failed_ids s ++ id ∷ [])))
  unfolding tally
  tally_cases id (raised message) s =
      (refl, inr (refl, refl, map-append (λ e. e.sys_id) s.errors _))
  tally_cases id (answered none) s = (refl, inr (refl, refl, map-append (λ e. e.sys_id) s.errors _))
  tally_cases id (answered (some status)) s = elim (Bool-cases (accepted status)) [
    | inl e ↦ rw e (refl, inl (refl, refl, refl))
    | inr e ↦ rw e (refl, inr (refl, refl, map-append (λ e. e.sys_id) s.errors _))
  ]

  pub write_all_lem :
      (send : ℕ → String → WriteOutcome) (i : ℕ) (ids : List String) (s : Written)
      → ((write_all accepted send i ids s).written ≡ s.written ++ ids)
        × (failed_ids (write_all accepted send i ids s)
            ≡ failed_ids s ++ failing accepted send i ids)
        × ((write_all accepted send i ids s).count + length (failing accepted send i ids)
            ≡ s.count + length ids)
  unfolding write_all
  write_all_lem send i [] s = (sym (append-nil s.written), sym (append-nil (failed_ids s)), refl)
  write_all_lem send i (id ∷ ids) s =
      let s' = tally accepted id (send i id) (record s { written = s.written ++ id ∷ [] }) in
      let (w, f, c) = write_all_lem send (i + 1) ids s' in
      let (w', cases) = tally_cases id (send i id) (record s { written = s.written ++ id ∷ [] }) in
      (
        rw w (rw w' (append_assoc s.written (id ∷ []) ids)),
        elim cases [
          | inl (ok, _, same) ↦ rw ok (rw f (rw same refl))
          | inr (bad, _, more) ↦ rw bad (rw f (rw more (append_assoc (failed_ids s) (id ∷ []) _)))
        ],
        elim cases [
          | inl (ok, counted, _) ↦ rw ok (omega (arith, c, counted))
          | inr (bad, counted, _) ↦ rw bad (omega (arith, c, counted))
        ],
      )

abbrev pub IsQuery : {D : Type 0} → Sent D → Type 0
IsQuery (get_query table query limit) = Unit
IsQuery (put_record table id fields) = ⊥
IsQuery (delete_record table id) = ⊥

-- A run that only looks: it sends no write, and what it returns counts none.
abbrev pub OnlyLooks : {D : Type 0} → Run D → Type 0
OnlyLooks run =
    All IsQuery run.sent
    × ((r : QueryResult) → run.result ≡ inr r → (r.dry_run ≡ true) × (r.done_count ≡ 0))

dry : (confirm : Option Bool) → confirm ≢ some true → is_dry_run confirm ≡ true
dry none h = refl
dry (some true) h = absurd (h refl)
dry (some false) h = refl

module _ {D : Type 0} (inst : Instance D) where
  refused-OnlyLooks : (e : QueryError) → OnlyLooks {D = D} (refused e)
  refused-OnlyLooks e = (tt, λ r q. absurd (cc))

  update_matching-OnlyLooks :
      (o : QueryUpdateOptions D) (fields : List (Text × D)) (table query : Text) (limit : ℕ)
      (matching : QueryError ⊎ List String)
      → is_dry_run o.confirm ≡ true
      → OnlyLooks (update_matching inst o fields (get_query table query limit) matching)
  unfolding update_matching
  update_matching-OnlyLooks o fields table query limit (inl e) h = ((tt, tt), λ r q. absurd (cc))
  update_matching-OnlyLooks o fields table query limit (inr ids) h = rw h (
    (tt, tt),
    λ r q.
        let same : preview (length ids) ≡ r = cc in
        (ap (λ r. r.dry_run) (sym same), ap (λ r. r.done_count) (sym same)),
  )

  delete_matching-OnlyLooks :
      (o : QueryDeleteOptions) (table query : Text) (limit : ℕ)
      (matching : QueryError ⊎ List String)
      → is_dry_run o.confirm ≡ true
      → OnlyLooks (delete_matching inst o (get_query table query limit) matching)
  unfolding delete_matching
  delete_matching-OnlyLooks o table query limit (inl e) h = ((tt, tt), λ r q. absurd (cc))
  delete_matching-OnlyLooks o table query limit (inr ids) h = rw h (
    (tt, tt),
    λ r q.
        let same : preview (length ids) ≡ r = cc in
        (ap (λ r. r.dry_run) (sym same), ap (λ r. r.done_count) (sym same)),
  )

  update-OnlyLooks :
      (o : QueryUpdateOptions D) → o.confirm ≢ some true → OnlyLooks (query_update inst o)
  unfolding query_update
  update-OnlyLooks o h = elim (Bool-cases (blank o.table)) [
    | inl e ↦ rw e (refused-OnlyLooks _)
    | inr e ↦ elim (Bool-cases (blank o.query)) [
      | inl f ↦ rw e (rw f (refused-OnlyLooks _))
      | inr f ↦ rw e (rw f (fields_cases (or_else o.data_fields [])))
    ]
  ]
    where
      fields_cases :
          (all : List (Text × D))
          → OnlyLooks {D = D} (elim all [
            | [] ↦ refused data_required
            | field ∷ fields ↦
                update_matching inst o
                  (field ∷ fields)
                  (get_query o.table o.query (limit_of o.limit))
                  (matching_records (inst.find o.table o.query (limit_of o.limit)))
          ])
      fields_cases [] = refused-OnlyLooks _
      fields_cases (field ∷ fields) =
          update_matching-OnlyLooks o (field ∷ fields) o.table o.query (limit_of o.limit) _
            (dry o.confirm h)

  delete-OnlyLooks :
      (o : QueryDeleteOptions) → o.confirm ≢ some true → OnlyLooks (query_delete inst o)
  unfolding query_delete
  delete-OnlyLooks o h = elim (Bool-cases (blank o.table)) [
    | inl e ↦ rw e (refused-OnlyLooks _)
    | inr e ↦ elim (Bool-cases (blank o.query)) [
      | inl f ↦ rw e (rw f (refused-OnlyLooks _))
      | inr f ↦ rw e (
          rw f (delete_matching-OnlyLooks o o.table o.query (limit_of o.limit) _ (dry o.confirm h)))
    ]
  ]

  -- Unless its `confirm` is true, an update or a delete by query sends no write, and what it
  -- returns is a dry run that counts none.
  pub query_dry_run :
      (u : QueryUpdateOptions D) (d : QueryDeleteOptions)
      → u.confirm ≢ some true
      → d.confirm ≢ some true
      → OnlyLooks (query_update inst u) × OnlyLooks (query_delete inst d)
  query_dry_run u d h k = (update-OnlyLooks u h, delete-OnlyLooks d k)
