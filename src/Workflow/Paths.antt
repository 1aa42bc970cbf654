-- ===== src/Workflow/Paths.antt =====
-- src/sn/workflow/WorkflowStructure.ts: where the paths of a workflow begin, which edges loop back,
-- and what a path reaches. `edgeKey` joins an edge's three ids to one text; here they are a triple.
pub mod Closed
pub mod Paired
pub mod Reach
pub mod Roots
pub mod Loops
use now_sdk_ext_core.Common.{
  ℕ, suc, ◌+◌, Bool, true, false, not, ◌&&◌, ◌||◌, List, [], ◌∷◌, ◌++◌, map, Option, none, some,
  String, if◌then◌else◌, or_else, is_some, any, filter, Map, lookup, keys, values, sort_by,
}
use text.Mathlib.Text.{◌==◌ as str_eq}
use now_sdk_ext_core.Workflow.Models.{WorkflowExport}
use now_sdk_ext_core.Workflow.Structure.{
  Exit, Activity, Wiring, truthy, concat, reads_before, has_activity, has_attribute, incoming_of,
  out_of, exits_of, is_join, raw_edges_of,
}
use now_sdk_ext_core.Workflow.Explore.{explore, unseen}
use now_sdk_ext_core.Workflow.BackEdges.{Graph, Marks, no_marks, same_edge, explore_roots}
use now_sdk_ext_core.Workflow.BackEdges.Measure.{fresh}

abbrev pub Edge : Type 0
Edge = String × String × String

pub record StructureExit : Type 0 where
  pub sys_id : String
  pub name : String
  pub condition : String
  pub forward : List String
  pub loop : List String

abbrev pub first_begin : Wiring → List String → Option String
first_begin w [] = none
first_begin w (id ∷ rest) =
    if has_attribute w id "begin" "true" then some id else first_begin w rest

abbrev pub head : {A : Type 0} → List A → Option A
head [] = none
head (x ∷ xs) = some x

-- `root ? [root] : []`
abbrev pub as_list : Option String → List String
as_list none = []
as_list (some id) = if str_eq id "" then [] else id ∷ []

-- What the search for back edges walks.
abbrev pub raw_graph : Wiring → Graph String String
raw_graph w = record { same = str_eq; same_exit = str_eq; raw_edges = raw_edges_of w }

module _ (locale_less : String → String → Bool) (w : Wiring) where
  abbrev pub begin_by_layout : Option String
  begin_by_layout = elim (first_begin w (keys w.activities)) [
    | some id ↦ some id
    | none ↦ head (sort_by (reads_before locale_less w) (keys w.activities))
  ]

  unfoldable pub find_begin : Option String
  find_begin = elim (truthy w.data_.start) [
    | none ↦ begin_by_layout
    | some start ↦ if has_activity w start then some start else begin_by_layout
  ]

  -- `a !== this.begin`
  abbrev pub is_begin : Option String → String → Bool
  is_begin none id = false
  is_begin (some start) id = str_eq id start

  abbrev pub has_incoming : String → Bool
  has_incoming id = elim (incoming_of w id) [ [] ↦ false | _ ∷ _ ↦ true ]

  -- The roots of the search: Begin, the activities nothing leads to, and those left over.
  unfoldable pub search_roots : Option String → List String
  search_roots start =
      let rest =
        sort_by (reads_before locale_less w)
          (filter (λ a. not (is_begin start a)) (keys w.activities)) in
      as_list start ++ (filter (λ a. not (has_incoming a)) rest ++ filter has_incoming rest)

  -- `findBackEdges`, with fuel for every activity and edge.
  unfoldable pub find_back_edges : Option String → Option (Marks String String)
  unfolding search_roots explore_roots
  find_back_edges start =
      let fuel = fresh (raw_graph w) (keys w.activities) no_marks + 1 in
      explore_roots (raw_graph w) fuel (search_roots start) no_marks

-- The loop of the three searches from a root, with fuel for every target of the nodes; none where
-- the source throws, at a node that is not there.
unfoldable pub reach_by :
    List String → (String → Bool) → (String → List String) → List String → Option (List String)
unfolding explore
reach_by nodes there succ todo =
    explore str_eq there succ (suc (suc (unseen str_eq succ nodes []))) [] todo

module _ (w : Wiring) where
  -- `_out.get(n)` is there.
  abbrev pub is_wired : String → Bool
  is_wired n = is_some (lookup n w.out)

  -- Every transition from an activity.
  abbrev pub targets_of : String → List String
  targets_of id = concat (values (out_of w id))

  abbrev pub targets_until_join : String → List String
  targets_until_join id = if is_join w id then [] else targets_of id

  unfoldable pub reach : Option String → Option (List String)
  unfolding reach_by
  reach root = reach_by (keys w.out) is_wired targets_of (as_list root)

  unfoldable pub reach_until_join : String → Option (List String)
  unfolding reach_by
  reach_until_join root =
      reach_by (keys w.out) (λ n. is_join w n || is_wired n) targets_until_join (root ∷ [])

  module _ (back_edges : List Edge) where
    abbrev pub is_back : String → String → String → Bool
    is_back from exit to = any (same_edge (raw_graph w) (from, exit, to)) back_edges

    -- Of an id that is no activity, where the source throws, nothing; the searches stop there.
    abbrev pub known_exits : String → List (String × String × String)
    known_exits id = elim (lookup id w.activities) [
      | none ↦ []
      | some a ↦
          let known = map (λ e. (e.sys_id, e.name, e.condition)) a.exits in
          if is_some (lookup "?" (out_of w id)) then known ++ ("?", "?", "") ∷ [] else known
    ]

    abbrev pub structure_exit : String → (String × String × String) → StructureExit
    structure_exit id (exit, name, condition) =
        let targets = or_else (lookup exit (out_of w id)) [] in
        record {
          sys_id = exit;
          name = name;
          condition = condition;
          forward = filter (λ t. not (is_back id exit t)) targets;
          loop = filter (λ t. is_back id exit t) targets;
        }

    unfoldable pub structure_exits : String → List StructureExit
    structure_exits id = map (structure_exit id) (known_exits id)

    unfoldable pub forward : String → List String
    unfolding structure_exits
    forward id = concat (map (λ e. e.forward) (structure_exits id))

    unfoldable pub forward_reach : String → Option (List String)
    unfolding reach_by forward
    forward_reach root =
        reach_by (keys w.activities) (λ n. has_activity w n && is_wired n) forward (root ∷ [])
