-- ===== src/Workflow/Outline.antt =====
-- `buildOutline` of src/sn/workflow/WorkflowStructure.ts: the block tree of a workflow. What its loop
-- pushes is listed in order; a step has what the source sets on it before its item is read.
pub mod Steps
pub mod Lines
pub mod Turns
pub mod Laws
pub mod Shown
pub mod Joins
use now_sdk_ext_core.Common.{
  ℕ, zero, suc, ◌+◌, Bool, true, false, not, ◌&&◌, ◌||◌, List, [], ◌∷◌, ◌++◌, map, Option, none,
  some, String, if◌then◌else◌, or_else, is_some, any, filter, length, ltb, ◌==◌, set_add,
  set_add_all, Map, lookup, insert, keys, sort_by,
}
use text.Mathlib.Text.{◌==◌ as str_eq}
use now_sdk_ext_core.Workflow.Structure.{
  Wiring, truthy, concat, is_end, is_join, exits_of, incoming_of, reads_before,
}
use now_sdk_ext_core.Workflow.Paths.{StructureExit}
use now_sdk_ext_core.Workflow.PostDominators.{workflow_exit, contains}
use now_sdk_ext_core.Workflow.Build.{WorkflowStructure}
use now_sdk_ext_core.Workflow.OutlineItems.{
  Step, OutlineItem, step_item, end_item, goto_item, rejoins_below, rejoin, OutlineItems, no_items,
  item, Lanes, no_lanes, lane, Branches, no_branches, branch, Numbers, Sequence, WorkflowOutline,
}
use now_sdk_ext_core.Workflow.Merges.{exits_from, forward_reach_set, merge_of, splits}

abbrev pub then_with : {A B : Type 0} → Option A → (A → Option B) → Option B
then_with none f = none
then_with (some a) f = f a

module _ (rec : Sequence) (stops ahead : List String) where
  unfoldable pub run_lanes : List String → Numbers → Option (Lanes × Numbers)
  run_lanes [] numbers = some (no_lanes, numbers)
  run_lanes (t ∷ ts) numbers =
      then_with (rec t stops ahead true numbers)
        (λ one. then_with (run_lanes ts one.1) (λ others. some (lane one.0 others.0, others.1)))

  unfoldable pub run_branches : Bool → List StructureExit → Numbers → Option (Branches × Numbers)
  unfolding run_lanes
  run_branches decision [] numbers = some (no_branches, numbers)
  run_branches decision (e ∷ es) numbers =
      let exit : Option String = if decision then some e.name else none in
      then_with (run_lanes e.forward numbers) (λ one.
        then_with (run_branches decision es one.1)
          (λ others. some (branch exit e.condition one.0 others.0, others.1)))

-- What follows an item.
abbrev pub after_item :
    OutlineItem → Option (OutlineItems × Numbers) → Option (OutlineItems × Numbers)
after_item first found = then_with found (λ rest. some (item first rest.0, rest.1))

module _ (s : WorkflowStructure) where
  abbrev pub first_target : StructureExit → String
  first_target e = elim e.forward [ [] ↦ "" | t ∷ _ ↦ t ]

  abbrev pub is_single : StructureExit → Bool
  is_single e = length e.forward == 1

  -- `single.reduce(…)`: the exit whose target reaches most, the first of those. An exit carries its
  -- place among the branching ones, by which the source's `e === main` tells it.
  abbrev pub longest : ℕ × StructureExit → List (ℕ × StructureExit) → ℕ × StructureExit
  longest best [] = best
  longest best (e ∷ es) =
      let longer =
        ltb (length (forward_reach_set s (first_target best.1)))
          (length (forward_reach_set s (first_target e.1))) in
      longest (if longer then e else best) es

  abbrev pub placed : ℕ → List StructureExit → List (ℕ × StructureExit)
  placed i [] = []
  placed i (e ∷ es) = (i, e) ∷ placed (i + 1) es

  -- `main`, where one is chosen.
  abbrev pub main_of : String → Bool → List StructureExit → Option (ℕ × StructureExit)
  main_of merge decision branching =
      let singles = filter (λ p. is_single p.1) (placed 0 branching) in
      if str_eq merge workflow_exit && decision && ltb 1 (length branching)
      then elim singles [ [] ↦ none | e ∷ es ↦ some (longest e es) ]
      else none

  abbrev pub without_main : Option (ℕ × StructureExit) → List StructureExit → List StructureExit
  without_main none branching = branching
  without_main (some (i, e)) branching =
      map (λ p. p.1) (filter (λ p. not (p.0 == i)) (placed 0 branching))

  abbrev pub merge_for : String → List String → String
  merge_for n stops =
      let merge = merge_of s n in
      if not (str_eq merge workflow_exit) && is_end s.wiring merge && not (contains merge stops)
      then workflow_exit
      else merge

  abbrev pub inner_stops : String → List String → List String
  inner_stops merge stops = if str_eq merge workflow_exit then stops else set_add str_eq stops merge

  abbrev pub is_direct : List String → StructureExit → Bool
  is_direct inner e = is_single e && contains (first_target e) inner

  abbrev pub is_live : StructureExit → Bool
  is_live e = elim e.forward [ [] ↦ false | _ ∷ _ ↦ true ]

  abbrev pub is_dead : StructureExit → Bool
  is_dead e = not (is_live e) && (elim e.loop [ [] ↦ true | _ ∷ _ ↦ false ])

  abbrev pub is_decision : String → Bool
  is_decision n = ltb 1 (length (exits_of s.wiring n))

  abbrev pub plain_step : String → ℕ → Step
  plain_step n number = record {
    activity = n;
    number = number;
    loops = concat (map (λ e. map (λ t. (e.name, t)) e.loop) (exits_from s n));
    dead_exits = map (λ e. (e.name, e.condition)) (filter is_dead (exits_from s n));
    decision = is_decision n;
    direct_exits = [];
    main_exit = none;
  }

  module _ (rec : Sequence) (n : String) (stops ahead : List String) where
    -- After the branches of a step: on along the main exit, or at the merge point.
    unfoldable pub go_on :
        Option (ℕ × StructureExit)
        → String
        → List StructureExit
        → Bool
        → Numbers
        → Option (OutlineItems × Numbers)
    go_on (some (i, e)) merge branching any_direct numbers =
        rec (first_target e) stops ahead false numbers
    go_on none merge branching any_direct numbers =
        let onward = rec merge stops ahead false numbers in
        if str_eq merge workflow_exit || contains merge stops
        then some (no_items, numbers)
        else if is_some (lookup merge numbers)
        then some (item (goto_item merge) no_items, numbers)
        else if any splits branching && not (is_join s.wiring merge) && not (is_end s.wiring merge)
        then after_item (rejoin true) onward
        else if not (length branching == 0) && not any_direct
        then after_item (rejoin false) onward
        else onward

    -- A step from which more than one line leads.
    unfoldable pub split_step :
        List StructureExit → Step → Numbers → Option (OutlineItems × Numbers)
    unfolding run_branches go_on
    split_step live step numbers =
        let merge = merge_for n stops in
        let inner = inner_stops merge stops in
        let direct = filter (is_direct inner) live in
        let branching = filter (λ e. not (is_direct inner e)) live in
        let main = main_of merge (is_decision n) branching in
        let main_ahead : List String = elim main [
          | none ↦ ahead
          | some p ↦ set_add_all str_eq ahead (forward_reach_set s (first_target p.1))
        ] in
        let main_exit : Option (String × String) = elim main [
          | none ↦ none
          | some p ↦ some (p.1.name, p.1.condition)
        ] in
        let step' = record step {
          direct_exits = map (λ e. e.name) direct;
          main_exit = main_exit;
        } in
        then_with
          (run_branches rec inner main_ahead (is_decision n) (without_main main branching) numbers)
          (λ side.
            after_item (step_item step' side.0)
              (go_on main merge branching (not (length direct == 0)) side.1))

    -- A step that has its number, by how many lines lead from it.
    unfoldable pub numbered_step :
        List StructureExit → Step → Numbers → Option (OutlineItems × Numbers)
    numbered_step [] step numbers = some (item (step_item step no_branches) no_items, numbers)
    numbered_step (e ∷ []) step numbers =
        let step' =
          if is_decision n then record step { main_exit = some (e.name, e.condition) } else step in
        if is_single e
        then after_item (step_item step' no_branches)
            (rec (first_target e) stops ahead false numbers)
        else split_step (e ∷ []) step numbers
    numbered_step (e ∷ (f ∷ live)) step numbers = split_step (e ∷ (f ∷ live)) step numbers

  unfoldable pub sequence : ℕ → Sequence
  sequence zero n stops ahead first numbers = none
  sequence (suc fuel) n stops ahead first numbers =
      let number = length numbers + 1 in
      let rest =
        numbered_step (sequence fuel) n stops ahead (filter is_live (exits_from s n))
          (plain_step n number) (insert n number numbers) in
      if str_eq n "" || str_eq n workflow_exit
      then some (no_items, numbers)
      else if contains n stops
      then some ((if first then item rejoins_below no_items else no_items), numbers)
      else if is_end s.wiring n
      then some (item (end_item n) no_items, numbers)
      else if is_some (lookup n numbers) || contains n ahead
      then some (item (goto_item n) no_items, numbers)
      else rest

module _ (locale_less : String → String → Bool) (s : WorkflowStructure) where
  abbrev pub orphans : List String
  orphans =
      sort_by (reads_before locale_less s.wiring)
        (filter (λ a. not (contains a s.reachable)) (keys s.wiring.activities))

  abbrev pub orphan_roots : List String
  orphan_roots =
      filter (λ a. not (any (λ i. contains i.0 orphans) (incoming_of s.wiring a))) orphans

  -- Each nesting and each turn of the loop in it gives a number to another activity.
  abbrev pub outline_fuel : ℕ
  outline_fuel = length (keys s.wiring.activities) + 1

  abbrev pub outline_main : Option (OutlineItems × Numbers)
  outline_main = elim (truthy s.begin) [
    | none ↦ some (no_items, [])
    | some id ↦ sequence s outline_fuel id [] [] true []
  ]

  -- The loop over the orphans: one that has a number is passed over.
  unfoldable pub outline_orphans : List String → Numbers → Option (Lanes × Numbers)
  outline_orphans [] numbers = some (no_lanes, numbers)
  outline_orphans (root ∷ roots) numbers = elim (is_some (lookup root numbers)) [
    | true ↦ outline_orphans roots numbers
    | false ↦ then_with (sequence s outline_fuel root [] [] true numbers) (λ one.
        then_with (outline_orphans roots one.1) (λ others. some (lane one.0 others.0, others.1)))
  ]

  unfoldable pub build_outline : Option WorkflowOutline
  build_outline = then_with outline_main (λ main.
      then_with (outline_orphans (orphan_roots ++ orphans) main.1)
        (λ others. some (record { main = main.0; unreachable = others.0; numbers = others.1 })))
