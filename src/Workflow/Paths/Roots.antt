-- ===== src/Workflow/Paths/Roots.antt =====
-- The roots of the search of `findBackEdges`, src/sn/workflow/WorkflowStructure.ts, are the activities.
use now_sdk_ext_core.Common.{
  Bool, true, false, not, List, [], ◌∷◌, ◌++◌, Option, none, some, String, ◌≡◌, ◌≢◌, inl, inr, refl,
  sym, ap, Bool-cases, Option-cases, keys, In, In-append_left, In-append_right, In-append_cases,
  In-filter_to, In-filter_from, eq_iff, sort_by, In-sort_by, filter,
}
use text.Mathlib.Text.{◌==◌ as str_eq}
use now_sdk_ext_core.Workflow.Structure.{Wiring, truthy, reads_before, has_activity, has_attribute}
use now_sdk_ext_core.Workflow.Paths.{
  find_begin, first_begin, head, begin_by_layout, is_begin, has_incoming, search_roots, as_list,
}
use now_sdk_ext_core.Workflow.Paths.Closed.{has_activity-In}

module _ (locale_less : String → String → Bool) (w : Wiring) where
  first_begin-In : (ids : List String) (id : String) → first_begin w ids ≡ some id → In id ids
  first_begin-In [] id e = absurd (cc)
  first_begin-In (k ∷ ids) id e = elim (Bool-cases (has_attribute w k "begin" "true")) [
    | inl q ↦ let same : k ≡ id = cc (rw q at e) in inl (sym same)
    | inr q ↦ inr (first_begin-In ids id (rw q at e))
  ]

  pub head-In : (ids : List String) (id : String) → head ids ≡ some id → In id ids
  head-In [] id e = absurd (cc)
  head-In (k ∷ ids) id e = let same : k ≡ id = cc in inl (sym same)

  begin_by_layout-In :
      (id : String) → begin_by_layout locale_less w ≡ some id → In id (keys w.activities)
  begin_by_layout-In id e = elim (Option-cases (first_begin w (keys w.activities))) [
    | inr (k, q) ↦
        let same : k ≡ id = cc (rw (q, begin_by_layout) at e) in
        rw (← same) (first_begin-In (keys w.activities) k q)
    | inl q ↦
        (In-sort_by (reads_before locale_less w) id (keys w.activities)).0
          (head-In _ id (rw (q, begin_by_layout) at e))
  ]

  -- Begin is an activity.
  pub find_begin-In : (id : String) → find_begin locale_less w ≡ some id → In id (keys w.activities)
  unfolding find_begin
  find_begin-In id e = elim (Option-cases (truthy w.data_.start)) [
    | inl q ↦ begin_by_layout-In id (rw (q, find_begin) at e)
    | inr (k, q) ↦ elim (Bool-cases (has_activity w k)) [
      | inl r ↦
          let same : k ≡ id = cc (rw r at (rw (q, find_begin) at e)) in
          rw (← same) (has_activity-In w k r)
      | inr r ↦ begin_by_layout-In id (rw r at (rw (q, find_begin) at e))
    ]
  ]

  as_list-In :
      (start : Option String)
      → ((id : String) → start ≡ some id → In id (keys w.activities))
      → (n : String) → In n (as_list start)
      → In n (keys w.activities)
  as_list-In none known n h = absurd h
  as_list-In (some id) known n h = elim (Bool-cases (str_eq id "")) [
    | inl e ↦ absurd (rw e at h)
    | inr e ↦ elim (rw e at h) [ inl same ↦ rw same (known id refl) | inr x ↦ absurd x ]
  ]

  is_begin-In :
      (start : Option String) (n : String)
      → start ≢ some ""
      → is_begin locale_less w start n ≡ true
      → In n (as_list start)
  is_begin-In none n named e = absurd (cc)
  is_begin-In (some id) n named e = elim (Bool-cases (str_eq id "")) [
    | inl q ↦ absurd (named (ap some ((eq_iff id "").0 q)))
    | inr q ↦ rw q (inl ((eq_iff n id).0 e))
  ]

  module _ (start : Option String) where
    abbrev rest : List String
    rest =
        sort_by (reads_before locale_less w)
          (filter (λ a. not (is_begin locale_less w start a)) (keys w.activities))

    abbrev halves : List String
    halves =
        filter (λ a. not (has_incoming locale_less w a)) rest
        ++ filter (has_incoming locale_less w) rest

    rest-In : (id : String) → In id rest → In id (keys w.activities)
    rest-In id h =
        (In-filter_to _ id (keys w.activities)
          ((In-sort_by (reads_before locale_less w) id _).0 h)).0

    -- The roots are the activities.
    pub search_roots-In :
        ((id : String) → start ≡ some id → In id (keys w.activities))
        → (n : String) → In n (search_roots locale_less w start)
        → In n (keys w.activities)
    unfolding search_roots
    search_roots-In known n h = elim (In-append_cases n (as_list start) halves h) [
      | inl m ↦ as_list-In start known n m
      | inr m ↦
          elim (In-append_cases n (filter (λ a. not (has_incoming locale_less w a)) rest) _ m) [
            | inl l ↦ rest-In n (In-filter_to _ n rest l).0
            | inr r ↦ rest-In n (In-filter_to _ n rest r).0
          ]
    ]

    In-halves : (n : String) → In n rest → In n halves
    In-halves n h = elim (Bool-cases (has_incoming locale_less w n)) [
      | inl e ↦ In-append_right n _ _ (In-filter_from _ n rest h e)
      | inr e ↦ In-append_left n _ _ (In-filter_from _ n rest h (rw e refl))
    ]

    In-rest :
        (n : String) → In n (keys w.activities) → is_begin locale_less w start n ≡ false → In n rest
    In-rest n h e =
        (In-sort_by (reads_before locale_less w) n _).1
          (In-filter_from _ n (keys w.activities) h (rw e refl))

    pub In-search_roots :
        start ≢ some ""
        → (n : String) → In n (keys w.activities)
        → In n (search_roots locale_less w start)
    unfolding search_roots
    In-search_roots named n h = elim (Bool-cases (is_begin locale_less w start n)) [
      | inl e ↦ In-append_left n (as_list start) halves (is_begin-In start n named e)
      | inr e ↦ In-append_right n (as_list start) halves (In-halves n (In-rest n h e))
    ]
