-- ===== src/Workflow/Outline/Lines.antt =====
-- `buildOutline` of src/sn/workflow/WorkflowStructure.ts: lanes and branches number what they show.
use now_sdk_ext_core.Common.{
  ℕ, ◌+◌, ◌≤◌, ◌<◌, Bool, true, List, [], ◌∷◌, ◌++◌, append_assoc, append-nil, Option, some, String,
  ◌≡◌, ◌⊎◌, inl, inr, refl, sym, ap, arith, length, length-append, In,
}
use now_sdk_ext_core.Workflow.Paths.{StructureExit}
use now_sdk_ext_core.Workflow.PostDominators.{workflow_exit}
use now_sdk_ext_core.Workflow.OutlineItems.{no_lanes, lane, no_branches, branch, Numbers, Sequence}
use now_sdk_ext_core.Workflow.Outline.{then_with, run_lanes, run_branches}
use now_sdk_ext_core.Workflow.Outline.Steps.{steps, lane_steps, branch_steps, Numbering}

module _ (ids : List String) where
  -- Where a sequence may start: at an activity, or nowhere.
  abbrev pub Known : String → Type 0
  Known n = In n ids ⊎ (n ≡ workflow_exit) ⊎ (n ≡ "")

  -- Something was found, and the numbers given on the way are those of what it shows.
  abbrev pub Added : {B : Type 0} → (B → Numbers) → Numbers → Option (B × Numbers) → Type 0
  Added {B} shown numbers found =
      (b : B) × (after : Numbers) × (found ≡ some (b, after))
      × (after ≡ numbers ++ shown b)
      × Numbering ids after

  abbrev pub Meets : ℕ → Sequence → Type 0
  Meets bound rec =
      (n : String) (stops ahead : List String) (first : Bool) (numbers : Numbers)
      → Known n
      → Numbering ids numbers
      → length ids < bound + length numbers
      → Added steps numbers (rec n stops ahead first numbers)

  pub Added-length :
      {B : Type 0} (shown : B → Numbers) (b : B) (numbers after : Numbers)
      → after ≡ numbers ++ shown b
      → length numbers ≤ length after
  Added-length shown b numbers after e =
      let size : length after ≡ length (numbers ++ shown b) = ap length e in
      omega (arith, size, length-append numbers (shown b))

  -- What two runs, one after the other, come to.
  pub both :
      {A B C : Type 0} (shown_a : A → Numbers) (shown_b : B → Numbers) (join : A → B → C)
      (numbers : Numbers) (found : Option (A × Numbers)) (next : Numbers → Option (B × Numbers))
      → Added shown_a numbers found
      → ((after : Numbers)
          → Numbering ids after
          → length numbers ≤ length after
          → Added shown_b after (next after))
      → (a : A) × (b : B) × (after : Numbers) × (then_with {B = C × Numbers} found (λ one.
            then_with {B = C × Numbers}
              (next one.1)
              (λ others. some (join one.0 others.0, others.1)))
          ≡ some (join a b, after))
        × (after ≡ numbers ++ (shown_a a ++ shown_b b))
        × Numbering ids after
  both shown_a shown_b join numbers found next (a, mid, e, shown, v) follow =
      let (b, after, e', shown', v') = follow mid v (Added-length shown_a a numbers mid shown) in
      (
        a,
        b,
        after,
        rw e (rw e' refl),
        rw shown' (rw shown (append_assoc numbers (shown_a a) (shown_b b))),
        v',
      )

  module _ (bound : ℕ) (rec : Sequence) (meets : Meets bound rec) (stops ahead : List String) where
    pub run_lanes-Added :
        (ts : List String) (numbers : Numbers)
        → ((t : String) → In t ts → In t ids)
        → Numbering ids numbers
        → length ids < bound + length numbers
        → Added lane_steps numbers (run_lanes rec stops ahead ts numbers)
    unfolding run_lanes lane_steps
    run_lanes-Added [] numbers listed v enough =
        (no_lanes, numbers, refl, sym (append-nil numbers), v)
    run_lanes-Added (t ∷ ts) numbers listed v enough =
        let (a, b, after, e, shown, v') =
          both steps lane_steps lane numbers (rec t stops ahead true numbers)
            (run_lanes rec stops ahead ts)
            (meets t stops ahead true numbers (inl (listed t (inl refl))) v enough)
            (λ mid w more. run_lanes-Added ts mid (λ u m. listed u (inr m)) w (omega arith)) in
        (lane a b, after, e, shown, v')

    pub run_branches-Added :
        (decision : Bool) (es : List StructureExit) (numbers : Numbers)
        → ((e : StructureExit) → In e es → (t : String) → In t e.forward → In t ids)
        → Numbering ids numbers
        → length ids < bound + length numbers
        → Added branch_steps numbers (run_branches rec stops ahead decision es numbers)
    unfolding run_branches branch_steps
    run_branches-Added decision [] numbers listed v enough =
        (no_branches, numbers, refl, sym (append-nil numbers), v)
    run_branches-Added decision (x ∷ es) numbers listed v enough =
        let (a, b, after, e, shown, v') =
          both lane_steps branch_steps (branch _ x.condition) numbers
            (run_lanes rec stops ahead x.forward numbers) (run_branches rec stops ahead decision es)
            (run_lanes-Added x.forward numbers (listed x (inl refl)) v enough)
            (λ mid w more.
              run_branches-Added decision es mid (λ u m. listed u (inr m)) w (omega arith)) in
        (branch _ x.condition a b, after, e, shown, v')
