-- ===== src/Workflow/Tests.antt =====
-- Runs of src/sn/workflow/WorkflowStructure.ts on a small workflow.
use now_sdk_ext_core.Common.{
  ◌⊎◌, ℕ, ◌++◌, Bool, false, List, [], ◌∷◌, map, Option, none, some, String, ◌≡◌, refl, lookup,
  insert, sort_by, keys, inl, inr, In,
}
use now_sdk_ext_core.Workflow.Models.{
  WorkflowExport, WorkflowExportActivity, WorkflowExportExit, WorkflowExportTransition,
}
use now_sdk_ext_core.Workflow.Structure.{wire, raw_edges_of}
use now_sdk_ext_core.Workflow.Explore.{Walk}
use now_sdk_ext_core.Workflow.BackEdges.{Marks, explore_frames, advance}
use now_sdk_ext_core.Workflow.Build.{WorkflowStructure, build}
use now_sdk_ext_core.Workflow.Paths.{
  Edge, raw_graph, targets_of, targets_until_join, reach_until_join, find_begin, find_back_edges,
  reach, forward, forward_reach,
}
use now_sdk_ext_core.Workflow.BackEdges.Invariant.{raw_targets}
use now_sdk_ext_core.Workflow.Paths.Reach.{Finds, reach_lem}
use now_sdk_ext_core.Workflow.Paths.Loops.{find_back_edges-acyclic}
use now_sdk_ext_core.Workflow.Build.Laws.{NamesMerges, build_lem}
use now_sdk_ext_core.Workflow.Merges.{merge_of, immediate_of}
use now_sdk_ext_core.Workflow.Outline.Joins.{SharedJoin, merge_of_lem}
use now_sdk_ext_core.Workflow.Paths.{structure_exits}
use now_sdk_ext_core.Common.Regex.{test_i}
use now_sdk_ext_core.Workflow.OutlineItems.{WorkflowOutline}
use now_sdk_ext_core.Workflow.Outline.{
  build_outline, outline_orphans, sequence, numbered_step, split_step, run_branches, run_lanes,
  go_on,
}
use now_sdk_ext_core.Workflow.Outline.Steps.{steps, lane_steps, Numbering}
use now_sdk_ext_core.Workflow.Outline.Shown.{build_outline_lem}
use now_sdk_ext_core.Workflow.PostDominators.{workflow_exit, post_dominators, immediate}

abbrev never : String → String → Bool
never a b = false

abbrev exit : String → WorkflowExportExit
exit id = record { sys_id = id; name = some id; condition = none; order = none }

abbrev activity : String → List String → WorkflowExportActivity
activity id exits = record {
  sys_id = id;
  name = some id;
  type_sys_id = "t";
  type = none;
  x = none;
  y = none;
  variables = none;
  exits = some (map exit exits);
}

abbrev transition : String → String → String → WorkflowExportTransition
transition from exit to = record { from = from; exit = some exit; to = to }

-- A decision whose one exit leads on, and whose other leads by a review back to it or on.
abbrev review : WorkflowExport
review = record {
  start = some "b";
  activity_types = none;
  activities = some (
      activity "b" ("go" ∷ [])
      ∷ activity "d" ("yes" ∷ "no" ∷ [])
      ∷ activity "r" ("back" ∷ "on" ∷ [])
      ∷ activity "e" []
      ∷ []);
  transitions = some (
      transition "b" "go" "d"
      ∷ transition "d" "yes" "e"
      ∷ transition "d" "no" "r"
      ∷ transition "r" "back" "d"
      ∷ transition "r" "on" "e"
      ∷ []);
}

-- `d` closes the loop at `r`, and the paths from `d` come together at `e`.
abbrev looping :
    Option WorkflowStructure → List (String × String × String) × Option String × List String
looping none = ([], none, [])
looping (some s) = (s.back_edges, lookup "d" s.ipdom, s.reachable)

-- What `build` makes of it.
looping-build :
    looping (build never review) ≡ (("r", "back", "d") ∷ [], some "e", "b" ∷ "d" ∷ "r" ∷ "e" ∷ [])
unfolding build find_back_edges find_begin wire lookup insert explore_frames sort_by advance reach
    post_dominators forward immediate
looping-build = refl

ids_are : keys (wire never review).activities ≡ "b" ∷ "d" ∷ "r" ∷ "e" ∷ []
unfolding wire insert lookup
ids_are = refl

no_empty : ¬ In "" (keys (wire never review).activities)
no_empty h = elim (rw ids_are at h) [
  | inl e ↦ absurd (cc)
  | inr (inl e) ↦ absurd (cc)
  | inr (inr (inl e)) ↦ absurd (cc)
  | inr (inr (inr (inl e))) ↦ absurd (cc)
  | inr (inr (inr (inr q))) ↦ q
]

no_marker : ¬ In workflow_exit (keys (wire never review).activities)
no_marker h = elim (rw ids_are at h) [
  | inl e ↦ absurd (cc)
  | inr (inl e) ↦ absurd (cc)
  | inr (inr (inl e)) ↦ absurd (cc)
  | inr (inr (inr (inl e))) ↦ absurd (cc)
  | inr (inr (inr (inr q))) ↦ q
]

abbrev loop_edge : List Edge
loop_edge = ("r", "back", "d") ∷ []

reach_lem_example :
    Finds (targets_of (wire never review)) "b" (reach (wire never review) (some "b"))
    × Finds (targets_until_join (wire never review)) "b" (reach_until_join (wire never review) "b")
    × Finds
        (forward (wire never review) loop_edge)
        "b"
        (forward_reach (wire never review) loop_edge "b")
unfolding lookup wire insert
reach_lem_example = reach_lem never review loop_edge "b" refl (λ e. cc)

find_back_edges-acyclic_example :
    (m : Marks String String) × (find_back_edges never
        (wire never review)
        (find_begin never (wire never review))
      ≡ some m)
    × ((u t : String)
        → In t (forward (wire never review) m.back_edges u)
        → ¬ Walk (forward (wire never review) m.back_edges) t u)
    × ((u exit t : String)
        → In (u, exit, t) m.back_edges
        → In (exit, t) (raw_edges_of (wire never review) u)
          × Walk (raw_targets (raw_graph (wire never review))) t u)
find_back_edges-acyclic_example = find_back_edges-acyclic never review no_empty

build_lem_example :
    (s : WorkflowStructure) × (build never review ≡ some s)
    × (s.wiring ≡ wire never review)
    × (s.begin ≡ find_begin never (wire never review))
    × (reach s.wiring s.begin ≡ some s.reachable)
    × NamesMerges s
build_lem_example = build_lem never review no_empty no_marker

-- The numbers that an outline gives.
abbrev shown_numbers : Option WorkflowStructure → List (String × ℕ)
shown_numbers none = []
shown_numbers (some s) = elim (build_outline never s) [ none ↦ [] | some o ↦ o.numbers ]

shown_numbers-build :
    shown_numbers (build never review) ≡ ("b", 1) ∷ ("d", 2) ∷ ("r", 3) ∷ ("e", 4) ∷ []
unfolding build find_back_edges find_begin wire lookup insert explore_frames sort_by advance reach
    post_dominators forward immediate build_outline outline_orphans sequence numbered_step
    split_step run_branches run_lanes go_on merge_of structure_exits forward_reach test_i
shown_numbers-build = refl

build_outline_lem_example :
    (s : WorkflowStructure) × (o : WorkflowOutline) × (build never review ≡ some s)
    × (build_outline never s ≡ some o)
    × (o.numbers ≡ steps o.main ++ lane_steps o.unreachable)
    × Numbering (keys s.wiring.activities) o.numbers
build_outline_lem_example = build_outline_lem never review no_empty no_marker

merge_of_lem_example :
    (s : WorkflowStructure) × (build never review ≡ some s)
    × ((n : String)
        → In n (keys s.wiring.activities)
        → (merge_of s n ≡ immediate_of s n) ⊎ SharedJoin s n (merge_of s n))
merge_of_lem_example = merge_of_lem never review no_empty no_marker
