-- ===== src/Workflow/Outline/Laws.antt =====
-- What `buildOutline` of src/sn/workflow/WorkflowStructure.ts shows and numbers.
use now_sdk_ext_core.Common.{
  ℕ, zero, suc, ◌+◌, ◌<◌, Bool, true, false, ◌||◌, List, [], ◌∷◌, ◌++◌, append_assoc, append-nil,
  some, String, ◌≡◌, inl, inr, refl, sym, ap, arith, if◌then◌else◌, is_some, length, length-append,
  Bool-cases, filter, In, In-filter_to, lookup, insert,
}
use text.Mathlib.Text.{◌==◌ as str_eq}
use now_sdk_ext_core.Workflow.Structure.{is_end}
use now_sdk_ext_core.Workflow.Paths.{StructureExit}
use now_sdk_ext_core.Workflow.PostDominators.{workflow_exit, contains}
use now_sdk_ext_core.Workflow.Build.{WorkflowStructure}
use now_sdk_ext_core.Workflow.Merges.{exits_from, merge_of}
use now_sdk_ext_core.Workflow.OutlineItems.{
  Step, step_item, end_item, goto_item, rejoins_below, no_items, item, no_branches, Numbers,
  Sequence,
}
use now_sdk_ext_core.Workflow.Outline.{
  first_target, is_single, is_live, is_decision, plain_step, numbered_step, sequence,
}
use now_sdk_ext_core.Workflow.Outline.Steps.{
  steps, Numbering, Numbering-length, Numbering-next, insert_fresh,
}
use now_sdk_ext_core.Workflow.Outline.Lines.{Known, Added, Meets}
use now_sdk_ext_core.Workflow.Outline.Turns.{
  LeadsTo, first_target-Known, nothing_more, Stepped, split_step-Stepped,
}

module _ (s : WorkflowStructure) (ids : List String) where
  module _ (bound : ℕ) (rec : Sequence) (meets : Meets ids bound rec) (n : String)
      (stops ahead : List String) (merges : Known ids (merge_of s n)) where
    numbered_step-Stepped :
        (live : List StructureExit) (step : Step) (numbers : Numbers)
        → ((e : StructureExit) → In e live → LeadsTo s ids e)
        → Numbering ids numbers
        → length ids < bound + length numbers
        → Stepped s ids bound rec meets n stops ahead step numbers
            (numbered_step s rec n stops ahead live step numbers)
    unfolding numbered_step steps
    numbered_step-Stepped [] step numbers leads v enough = (
      item (step_item step no_branches) no_items,
      numbers,
      [],
      refl,
      refl,
      sym (append-nil numbers),
      v,
    )
    numbered_step-Stepped (x ∷ []) step numbers leads v enough = elim (Bool-cases (is_single s x)) [
      | inr q ↦ rw q (
          split_step-Stepped s ids bound rec meets n stops ahead merges (x ∷ []) step numbers leads
            v enough)
      | inl q ↦
          let (b, after, e, shown, v') =
            meets (first_target s x) stops ahead false numbers
              (first_target-Known s ids x (leads x (inl refl))) v enough in
          elim (Bool-cases (is_decision s n)) [
            | inl d ↦ rw q (
                rw d (
                  item
                      (step_item (record step { main_exit = some (x.name, x.condition) })
                        no_branches)
                      b,
                  after,
                  steps b,
                  rw e refl,
                  refl,
                  shown,
                  v',
                ))
            | inr d ↦ rw q (
                rw d
                  (item (step_item step no_branches) b, after, steps b, rw e refl, refl, shown, v'))
          ]
    ]
    numbered_step-Stepped (x ∷ (y ∷ live)) step numbers leads v enough =
        split_step-Stepped s ids bound rec meets n stops ahead merges (x ∷ (y ∷ live)) step numbers
          leads v enough

  module _ (merges : (n : String) → In n ids → Known ids (merge_of s n))
      (leads : (n : String) (e : StructureExit) → In e (exits_from s n) → LeadsTo s ids e) where
    Known-In :
        (n : String) → (str_eq n "" || str_eq n workflow_exit) ≡ false → Known ids n → In n ids
    Known-In n e (inl m) = m
    Known-In n e (inr (inl q)) = absurd (cc (rw q at e))
    Known-In n e (inr (inr q)) = absurd (cc (rw q at e))

    -- A turn that gives a number.
    numbered_turn :
        (bound : ℕ) (rec : Sequence) (meets : Meets ids bound rec) (n : String)
        (stops ahead : List String) (numbers : Numbers)
        → In n ids
        → is_some (lookup n numbers) ≡ false
        → Numbering ids numbers
        → length ids < suc bound + length numbers
        → Added ids steps numbers (
            numbered_step s rec n stops ahead
              (filter (is_live s) (exits_from s n))
              (plain_step s n (length numbers + 1))
              (insert n (length numbers + 1) numbers))
    numbered_turn bound rec meets n stops ahead numbers there fresh v enough =
        let one = insert_fresh n (length numbers + 1) numbers fresh in
        let size : length (insert n (length numbers + 1) numbers)
            ≡ length (numbers ++ (n, length numbers + 1) ∷ []) =
          ap length one in
        let (items, after, rest, e, shows, shown, v') =
          numbered_step-Stepped bound rec meets n stops ahead (merges n there)
            (filter (is_live s) (exits_from s n)) (plain_step s n (length numbers + 1))
            (insert n (length numbers + 1) numbers)
            (λ x m. leads n x (In-filter_to _ x (exits_from s n) m).0)
            (Numbering-next ids numbers n v there fresh)
            (omega (arith, size, length-append numbers ((n, length numbers + 1) ∷ []))) in
        (
          items,
          after,
          e,
          rw shows (rw shown (rw one (append_assoc numbers ((n, length numbers + 1) ∷ []) rest))),
          v',
        )

    pub sequence-Meets : (fuel : ℕ) → Meets ids fuel (sequence s fuel)
    unfolding sequence steps
    sequence-Meets zero n stops ahead first numbers known v enough =
        absurd (omega (arith, Numbering-length ids numbers v))
    sequence-Meets (suc fuel) n stops ahead first numbers known v enough =
        elim (Bool-cases (str_eq n "" || str_eq n workflow_exit)) [
          | inl e ↦ rw e (nothing_more s ids no_items numbers refl v)
          | inr e ↦ elim (Bool-cases (contains n stops)) [
            | inl f ↦ rw e (rw f (below first))
            | inr f ↦ elim (Bool-cases (is_end s.wiring n)) [
              | inl k ↦
                  rw e
                    (rw f (rw k (nothing_more s ids (item (end_item n) no_items) numbers refl v)))
              | inr k ↦ elim (Bool-cases (is_some (lookup n numbers) || contains n ahead)) [
                | inl l ↦ rw e (
                    rw f (
                      rw k
                        (rw l (nothing_more s ids (item (goto_item n) no_items) numbers refl v))))
                | inr l ↦ rw e (
                    rw f (
                      rw k (
                        rw l (
                          numbered_turn fuel (sequence s fuel) (sequence-Meets fuel) n stops ahead
                            numbers (Known-In n e known) (ground arith) v (omega arith)))))
              ]
            ]
          ]
        ]
      where
        below :
            (first : Bool)
            → Added ids steps numbers
                (some ((if first then item rejoins_below no_items else no_items), numbers))
        below true = nothing_more s ids (item rejoins_below no_items) numbers refl v
        below false = nothing_more s ids no_items numbers refl v
