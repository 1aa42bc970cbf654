-- ===== src/Workflow/Outline/Turns.antt =====
-- A turn of the loop of `buildOutline`, src/sn/workflow/WorkflowStructure.ts, numbers what it shows.
use now_sdk_ext_core.Common.{
  ℕ, ◌+◌, ◌<◌, Bool, true, false, not, ◌&&◌, ◌||◌, List, [], ◌∷◌, ◌++◌, append-nil, Option, none,
  some, String, ◌≡◌, inl, inr, refl, sym, ap, arith, if◌then◌else◌, is_some, length, ltb, ◌==◌,
  Bool-cases, any, filter, In, In-filter_to, lookup, In-map_cases,
}
use text.Mathlib.Text.{◌==◌ as str_eq}
use now_sdk_ext_core.Workflow.Structure.{is_end, is_join}
use now_sdk_ext_core.Workflow.Paths.{StructureExit}
use now_sdk_ext_core.Workflow.PostDominators.{workflow_exit, contains}
use now_sdk_ext_core.Workflow.Build.{WorkflowStructure}
use now_sdk_ext_core.Workflow.Merges.{forward_reach_set, merge_of, splits}
use now_sdk_ext_core.Workflow.OutlineItems.{
  Step, OutlineItem, OutlineItems, step_item, goto_item, rejoin, no_items, item, Numbers, Sequence,
}
use now_sdk_ext_core.Workflow.Outline.{
  after_item, first_target, is_single, longest, placed, main_of, without_main, merge_for,
  inner_stops, is_direct, is_decision, go_on, split_step,
}
use now_sdk_ext_core.Workflow.Outline.Steps.{steps, item_steps, branch_steps, Numbering}
use now_sdk_ext_core.Workflow.Outline.Lines.{Known, Added, Meets, both, run_branches-Added}

-- The chosen exits are among those that they are chosen from.
pick_In :
    {A : Type 0} (b : Bool) (x best e : A) (es : List A)
    → In x ((if b then e else best) ∷ es)
    → In x (best ∷ (e ∷ es))
pick_In true x best e es h = inr h
pick_In false x best e es (inl q) = inl q
pick_In false x best e es (inr h) = inr (inr h)

module _ (s : WorkflowStructure) where
  placed-In :
      (i : ℕ) (es : List StructureExit) (p : ℕ × StructureExit) → In p (placed s i es) → In p.1 es
  placed-In i [] p h = h
  placed-In i (e ∷ es) p (inl q) = inl (ap (λ p. p.1) q)
  placed-In i (e ∷ es) p (inr h) = inr (placed-In (i + 1) es p h)

  longest-In :
      (best : ℕ × StructureExit) (es : List (ℕ × StructureExit))
      → In (longest s best es) (best ∷ es)
  longest-In best [] = inl refl
  longest-In best (e ∷ es) =
      let longer =
        ltb (length (forward_reach_set s (first_target s best.1)))
          (length (forward_reach_set s (first_target s e.1))) in
      pick_In longer (longest s best (e ∷ es)) best e es
        (longest-In (if longer then e else best) es)

  main_of-In :
      (merge : String) (decision : Bool) (branching : List StructureExit) (p : ℕ × StructureExit)
      → main_of s merge decision branching ≡ some p
      → In p.1 branching
  main_of-In merge decision branching p h =
      elim (Bool-cases (str_eq merge workflow_exit && decision && ltb 1 (length branching))) [
        | inr q ↦ absurd (cc (rw q at h))
        | inl q ↦
            chosen (filter (λ p. is_single s p.1) (placed s 0 branching)) (λ r m. m) (rw q at h)
      ]
    where
      chosen :
          (singles : List (ℕ × StructureExit))
          → ((r : ℕ × StructureExit)
              → In r singles
              → In r (filter (λ p. is_single s p.1) (placed s 0 branching)))
          → (elim singles [ [] ↦ none | e ∷ es ↦ some (longest s e es) ]) ≡ some p
          → In p.1 branching
      chosen [] listed e = absurd (cc)
      chosen (r ∷ rs) listed e =
          let same : longest s r rs ≡ p = cc in
          let m = listed (longest s r rs) (longest-In r rs) in
          rw (← same) (placed-In 0 branching _ (In-filter_to _ _ (placed s 0 branching) m).0)

  without_main-In :
      (main : Option (ℕ × StructureExit)) (branching : List StructureExit) (e : StructureExit)
      → In e (without_main s main branching)
      → In e branching
  without_main-In none branching e h = h
  without_main-In (some (i, x)) branching e h =
      let (p, m, same) = In-map_cases {A = ℕ × StructureExit} (λ p. p.1) e _ h in
      rw same (placed-In 0 branching p (In-filter_to _ p (placed s 0 branching) m).0)

module _ (s : WorkflowStructure) (ids : List String) where
  -- All that an exit leads to are activities.
  abbrev pub LeadsTo : StructureExit → Type 0
  LeadsTo e = (t : String) → In t e.forward → In t ids

  pub first_target-Known : (e : StructureExit) → LeadsTo e → Known ids (first_target s e)
  first_target-Known e h = of_list e.forward h
    where
      of_list :
          (ts : List String)
          → ((t : String) → In t ts → In t ids)
          → Known ids (elim ts [ [] ↦ "" | t ∷ _ ↦ t ])
      of_list [] h = inr (inr refl)
      of_list (t ∷ ts) h = inl (h t (inl refl))

  after-Added :
      (x : OutlineItem) (numbers : Numbers) (found : Option (OutlineItems × Numbers))
      → item_steps x ≡ []
      → Added ids steps numbers found
      → Added ids steps numbers (after_item x found)
  unfolding steps
  after-Added x numbers found h (b, after, e, shown, v) =
      (item x b, after, rw e refl, rw h shown, v)

  pub nothing_more :
      (items : OutlineItems) (numbers : Numbers)
      → steps items ≡ []
      → Numbering ids numbers
      → Added ids steps numbers (some (items, numbers))
  nothing_more items numbers h v = (items, numbers, refl, rw h (sym (append-nil numbers)), v)

  module _ (bound : ℕ) (rec : Sequence) (meets : Meets ids bound rec) (n : String)
      (stops ahead : List String) where
    go_on-Added :
        (main : Option (ℕ × StructureExit)) (merge : String) (branching : List StructureExit)
        (any_direct : Bool) (numbers : Numbers)
        → ((p : ℕ × StructureExit) → main ≡ some p → LeadsTo p.1)
        → Known ids merge
        → Numbering ids numbers
        → length ids < bound + length numbers
        → Added ids steps numbers
            (go_on s rec n stops ahead main merge branching any_direct numbers)
    unfolding go_on steps
    go_on-Added (some (i, e)) merge branching any_direct numbers leads known v enough =
        meets (first_target s e) stops ahead false numbers
          (first_target-Known e (leads (i, e) refl)) v enough
    go_on-Added none merge branching any_direct numbers leads known v enough =
        let onward = meets merge stops ahead false numbers known v enough in
        elim (Bool-cases (str_eq merge workflow_exit || contains merge stops)) [
          | inl e ↦ rw e (nothing_more no_items numbers refl v)
          | inr e ↦ elim (Bool-cases (is_some (lookup merge numbers))) [
            | inl f ↦ rw e (rw f (nothing_more (item (goto_item merge) no_items) numbers refl v))
            | inr f ↦
                elim (Bool-cases (
                  any splits branching
                  && not (is_join s.wiring merge)
                  && not (is_end s.wiring merge))) [
                    | inl k ↦ rw e (rw f (rw k (after-Added (rejoin true) numbers _ refl onward)))
                    | inr k ↦ elim (Bool-cases (not (length branching == 0) && not any_direct)) [
                      | inl l ↦
                          rw e
                            (rw f (rw k (rw l (after-Added (rejoin false) numbers _ refl onward))))
                      | inr l ↦ rw e (rw f (rw k (rw l onward)))
                    ]
                  ]
          ]
        ]

    -- What a step that has its number shows, beside itself, is numbered.
    abbrev pub Stepped : Step → Numbers → Option (OutlineItems × Numbers) → Type 0
    Stepped step numbers found =
        (items : OutlineItems) × (after : Numbers) × (rest : Numbers) × (found
          ≡ some (items, after))
        × (steps items ≡ (step.activity, step.number) ∷ rest)
        × (after ≡ numbers ++ rest)
        × Numbering ids after

    module _ (merges : Known ids (merge_of s n)) where
      merge_for-Known : Known ids (merge_for s n stops)
      merge_for-Known =
          elim (Bool-cases (
            not (str_eq (merge_of s n) workflow_exit)
            && is_end s.wiring (merge_of s n)
            && not (contains (merge_of s n) stops))) [
              | inl e ↦ rw e (inr (inl refl))
              | inr e ↦ rw e merges
            ]

      pub split_step-Stepped :
          (live : List StructureExit) (step : Step) (numbers : Numbers)
          → ((e : StructureExit) → In e live → LeadsTo e)
          → Numbering ids numbers
          → length ids < bound + length numbers
          → Stepped step numbers (split_step s rec n stops ahead live step numbers)
      unfolding split_step steps
      split_step-Stepped live step numbers leads v enough =
          let merge = merge_for s n stops in
          let inner = inner_stops s merge stops in
          let branching = filter (λ e. not (is_direct s inner e)) live in
          let main = main_of s merge (is_decision s n) branching in
          let leads' =
            λ (e : StructureExit) (h : In e branching). leads e (In-filter_to _ e live h).0 in
          let (b, r, after, e, shown, v') =
            both ids branch_steps steps (λ b r. item (step_item _ b) r) numbers _ _
              (run_branches-Added ids bound rec meets inner _ (is_decision s n)
                (without_main s main branching) numbers
                (λ e h. leads' e (without_main-In s main branching e h)) v enough)
              (λ mid w more.
                go_on-Added main merge branching _ mid
                  (λ p q. leads' p.1 (main_of-In s merge (is_decision s n) branching p q))
                  merge_for-Known w (omega arith)) in
          (item (step_item _ b) r, after, branch_steps b ++ steps r, e, refl, shown, v')
