-- ===== src/Workflow/Merges.antt =====
-- `mergeOf` and `distances` of src/sn/workflow/WorkflowStructure.ts: where the paths that leave an
-- activity come back together. A search that ran out of fuel would count as having found nothing;
-- none of those here does.
pub mod Distances
use now_sdk_ext_core.Common.{
  ℕ, zero, suc, ◌+◌, Bool, true, false, not, ◌&&◌, ◌||◌, List, [], ◌∷◌, ◌++◌, map, Option, none,
  some, String, if◌then◌else◌, or_else, is_some, any, all, filter, length, ltb, Map, lookup, insert,
  keys, sort_by,
}
use text.Mathlib.Text.{◌==◌ as str_eq}
use now_sdk_ext_core.Workflow.Structure.{Wiring, is_join, concat}
use now_sdk_ext_core.Workflow.Paths.{
  StructureExit, head, targets_of, reach, structure_exits, forward_reach,
}
use now_sdk_ext_core.Workflow.PostDominators.{workflow_exit, contains}
use now_sdk_ext_core.Workflow.Build.{WorkflowStructure}

-- The depths that are known, and the frontier after the next.
abbrev pub add_target : ℕ → String → Map ℕ × List String → Map ℕ × List String
add_target depth t (depths, next) =
    if is_some (lookup t depths) then (depths, next) else (insert t depth depths, next ++ t ∷ [])

abbrev pub add_targets : ℕ → List String → Map ℕ × List String → Map ℕ × List String
add_targets depth [] found = found
add_targets depth (t ∷ ts) found = add_targets depth ts (add_target depth t found)

abbrev pub scan_frontier : Wiring → List String → Map ℕ × List String → Map ℕ × List String
scan_frontier w [] found = found
scan_frontier w (n ∷ frontier) (depths, next) =
    scan_frontier w frontier
      (add_targets (or_else (lookup n depths) 0 + 1) (targets_of w n) (depths, next))

-- `while (frontier.length)`, on fuel; none means that it ran out.
unfoldable pub spread : Wiring → ℕ → List String → Map ℕ → Option (Map ℕ)
spread w zero frontier depths = none
spread w (suc fuel) [] depths = some depths
spread w (suc fuel) (n ∷ frontier) depths =
    let found = scan_frontier w (n ∷ frontier) (depths, []) in spread w fuel found.1 found.0

-- A round that goes on has reached another activity.
unfoldable pub distances : Wiring → String → Option (Map ℕ)
unfolding spread
distances w root = spread w (length (keys w.activities) + 2) (root ∷ []) ((root, 0) ∷ [])

-- Several lines on one exit run in parallel.
abbrev pub splits : StructureExit → Bool
splits e = ltb 1 (length e.forward)

module _ (s : WorkflowStructure) where
  abbrev pub exits_from : String → List StructureExit
  exits_from n = structure_exits s.wiring s.back_edges n

  abbrev pub reach_set : String → List String
  reach_set n = or_else (reach s.wiring (some n)) []

  abbrev pub forward_reach_set : String → List String
  forward_reach_set n = or_else (forward_reach s.wiring s.back_edges n) []

  abbrev pub immediate_of : String → String
  immediate_of n = or_else (lookup n s.ipdom) workflow_exit

  -- The Joins that every line reaches and that are not past the merge point.
  abbrev pub common_joins : String → String → List String
  common_joins n merge =
      let reaches = map reach_set (concat (map (λ e. e.forward) (exits_from n))) in
      let later : List String = if str_eq merge workflow_exit then [] else reach_set merge in
      filter (λ j. is_join s.wiring j && not (contains j later) && all (contains j) reaches)
        (keys s.wiring.activities)

  abbrev pub nearer : Map ℕ → String → String → Bool
  nearer depths a b = ltb (or_else (lookup a depths) 1000000) (or_else (lookup b depths) 1000000)

  abbrev pub closest_join : String → List String → String → String
  closest_join n joins merge =
      or_else (head (sort_by (nearer (or_else (distances s.wiring n) [])) joins)) merge

  unfoldable pub merge_of : String → String
  merge_of n =
      let merge = immediate_of n in
      if any splits (exits_from n) && (str_eq merge workflow_exit || not (is_join s.wiring merge))
      then closest_join n (common_joins n merge) merge
      else merge
