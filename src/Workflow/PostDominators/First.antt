-- ===== src/Workflow/PostDominators/First.antt =====
-- The sets that `computePostDominators` of src/sn/workflow/WorkflowStructure.ts begins with.
use now_sdk_ext_core.Common.{
  true, List, [], ◌∷◌, ◌++◌, String, ◌≡◌, ◌≢◌, ◌⊎◌, inl, inr, refl, sym, eq_iff, Bool-cases, In,
  In-append_left, In-append_right, In-append_cases, In-set_add_all_right, In-set_add_all_cases,
  Nodup-set_add_all, Map, insert, lookup,
}
use text.Mathlib.Text.{◌==◌ as str_eq}
use now_sdk_ext_core.Workflow.PostDominators.{workflow_exit, set_of, all_ids, fill, first_sets}
use now_sdk_ext_core.Workflow.PostDominators.Merge.{common_cases, set_of-insert}
use now_sdk_ext_core.Workflow.PostDominators.Settle.{leave, IsFlow, Good}

-- Every set at first is full, or as it was before.
fill_cases :
    (full ns : List String) (pdom : Map (List String)) (n : String)
    → (set_of (fill full ns pdom) n ≡ full) ⊎ (set_of (fill full ns pdom) n ≡ set_of pdom n)
fill_cases full [] pdom n = inr refl
fill_cases full (m ∷ ns) pdom n = elim (fill_cases full ns (insert m full pdom) n) [
  | inl e ↦ inl e
  | inr e ↦
      let found = set_of-insert m n full pdom in
      elim (Bool-cases (str_eq m n)) [
        | inl q ↦ let found' = rw q at found in inl (cc)
        | inr q ↦ let found' = rw q at found in inr (cc)
      ]
]

fill-In :
    (full ns : List String) (pdom : Map (List String)) (n : String)
    → In n ns
    → set_of (fill full ns pdom) n ≡ full
fill-In full [] pdom n m = absurd m
fill-In full (k ∷ ns) pdom n (inr m) = fill-In full ns (insert k full pdom) n m
fill-In full (k ∷ ns) pdom n (inl same) = elim (fill_cases full ns (insert k full pdom) n) [
  | inl e ↦ e
  | inr e ↦
      let found = set_of-insert k n full pdom in
      let q : str_eq k n ≡ true = (eq_iff k n).1 (sym same) in let found' = rw q at found in cc
]

module _ (succ : String → List String) (ids : List String) (flow : IsFlow succ ids) where
  pub In-all_ids : (n : String) → In n ids → In n (all_ids ids)
  In-all_ids n m =
      In-set_add_all_right str_eq eq_iff n [] (ids ++ workflow_exit ∷ [])
        (In-append_left n ids (workflow_exit ∷ []) m)

  pub all_ids_cases : (n : String) → In n (all_ids ids) → In n ids ⊎ (n ≡ workflow_exit)
  all_ids_cases n m = elim (In-set_add_all_cases str_eq eq_iff n [] (ids ++ workflow_exit ∷ []) m) [
    | inl x ↦ absurd x
    | inr m' ↦ elim (In-append_cases n ids (workflow_exit ∷ []) m') [
      | inl there ↦ inl there
      | inr (inl e) ↦ inr e
      | inr (inr x) ↦ absurd x
    ]
  ]

  exit_known : In workflow_exit (all_ids ids)
  exit_known =
      In-set_add_all_right str_eq eq_iff workflow_exit [] (ids ++ workflow_exit ∷ [])
        (In-append_right workflow_exit ids (workflow_exit ∷ []) (inl refl))

  first_at_exit : set_of (first_sets ids) workflow_exit ≡ workflow_exit ∷ []
  first_at_exit =
      set_of-insert workflow_exit workflow_exit (workflow_exit ∷ []) (fill (all_ids ids) ids [])

  first_else :
      (n : String)
      → n ≢ workflow_exit
      → set_of (first_sets ids) n ≡ set_of (fill (all_ids ids) ids []) n
  first_else n other =
      let found = set_of-insert workflow_exit n (workflow_exit ∷ []) (fill (all_ids ids) ids []) in
      elim (Bool-cases (str_eq workflow_exit n)) [
        | inl e ↦ absurd (other (sym ((eq_iff workflow_exit n).0 e)))
        | inr e ↦ rw e at found
      ]

  first_at : (n : String) → In n ids → set_of (first_sets ids) n ≡ all_ids ids
  first_at n m =
      let other : n ≢ workflow_exit = λ e. flow.apart (rw e at m) in
      let found = fill-In (all_ids ids) ids [] n m in rw (first_else n other) found

  -- What a set at first is.
  first_is :
      (n : String)
      → (set_of (first_sets ids) n ≡ all_ids ids)
        ⊎ (set_of (first_sets ids) n ≡ workflow_exit ∷ [])
        ⊎ (set_of (first_sets ids) n ≡ [])
  unfolding set_of lookup
  first_is n = elim (Bool-cases (str_eq n workflow_exit)) [
    | inl e ↦
        let same : n ≡ workflow_exit = (eq_iff n workflow_exit).0 e in
        inr (inl (rw same first_at_exit))
    | inr e ↦
        let other : n ≢ workflow_exit = λ q. cc ((eq_iff n workflow_exit).1 q, e) in
        let found = first_else n other in
        elim (fill_cases (all_ids ids) ids [] n) [ inl q ↦ inl (cc) | inr q ↦ inr (inr (cc)) ]
  ]

  first_bounded : (n x : String) → In x (set_of (first_sets ids) n) → In x (all_ids ids)
  first_bounded n x h = elim (first_is n) [
    | inl e ↦ rw e at h
    | inr (inl e) ↦ elim (rw e at h) [ inl q ↦ rw q exit_known | inr z ↦ absurd z ]
    | inr (inr e) ↦ absurd (rw e at h)
  ]

  pub first_sets-Good : Good succ ids (first_sets ids)
  first_sets-Good = record {
    nodup = λ n. elim (first_is n) [
      | inl e ↦ rw e (Nodup-set_add_all str_eq eq_iff [] (ids ++ workflow_exit ∷ []) tt)
      | inr (inl e) ↦ rw e (λ x. x, tt)
      | inr (inr e) ↦ rw e tt
    ];
    bounded = first_bounded;
    marker = first_at_exit;
    post = λ n x there h. rw (first_at n there) (elim (common_cases succ (first_sets ids) n x h) [
      | inl e ↦ rw e (In-all_ids n there)
      | inr every ↦ let (t, follows) = flow.goes_on n there in first_bounded t x (every t follows)
    ]);
    complete = λ n x there known none_avoids. elim there [
      | inl m ↦ rw (first_at n m) known
      | inr e ↦ elim (Bool-cases (str_eq x workflow_exit)) [
        | inl q ↦ rw e (rw first_at_exit (inl ((eq_iff x workflow_exit).0 q)))
        | inr q ↦
            absurd (none_avoids (rw e (leave (λ same. cc ((eq_iff x workflow_exit).1 same, q)))))
      ]
    ];
  }
