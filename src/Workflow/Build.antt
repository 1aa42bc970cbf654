-- ===== src/Workflow/Build.antt =====
-- The constructor of WorkflowStructure, src/sn/workflow/WorkflowStructure.ts, as a whole.
pub mod Laws
use now_sdk_ext_core.Common.{
  ℕ, Bool, List, [], ◌∷◌, Option, none, some, String, Map, lookup, insert, keys,
}
use now_sdk_ext_core.Workflow.Models.{WorkflowExport}
use now_sdk_ext_core.Workflow.Structure.{Wiring, truthy, wire}
use now_sdk_ext_core.Workflow.BackEdges.{Marks}
use now_sdk_ext_core.Workflow.Paths.{Edge, find_begin, find_back_edges, reach, forward}
use now_sdk_ext_core.Workflow.PostDominators.{workflow_exit, immediate, post_dominators}

pub record WorkflowStructure : Type 0 where
  pub wiring : Wiring
  pub begin : Option String
  pub back_edges : List Edge
  pub reachable : List String
  pub ipdom : Map String

-- `forward(n).length ? forward(n) : [WORKFLOW_EXIT]`
unfoldable pub follows : Wiring → List Edge → String → List String
follows w back n = elim (forward w back n) [ [] ↦ workflow_exit ∷ [] | s ∷ rest ↦ s ∷ rest ]

-- The last loop of `computePostDominators`.
abbrev pub set_immediates : Map (List String) → List String → Map String → Map String
set_immediates pdom [] ipdom = ipdom
set_immediates pdom (n ∷ ids) ipdom = elim (truthy (immediate pdom n)) [
  | none ↦ set_immediates pdom ids ipdom
  | some c ↦ set_immediates pdom ids (insert n c ipdom)
]

-- None where a loop runs out of fuel.
unfoldable pub build : (String → String → Bool) → WorkflowExport → Option WorkflowStructure
unfolding follows
build locale_less data_ =
    let w = wire locale_less data_ in
    let start = find_begin locale_less w in
    let ids = keys w.activities in
    elim (find_back_edges locale_less w start) [
      | none ↦ none
      | some m ↦ elim (reach w start) [
        | none ↦ none
        | some reachable ↦ elim (post_dominators (follows w m.back_edges) ids) [
          | none ↦ none
          | some pdom ↦ some (record {
            wiring = w;
            begin = start;
            back_edges = m.back_edges;
            reachable = reachable;
            ipdom = set_immediates pdom ids [];
          })
        ]
      ]
    ]
