-- ===== src/Workflow/PostDominators.antt =====
-- `computePostDominators` of src/sn/workflow/WorkflowStructure.ts: the largest sets such that what an
-- activity has beside itself, all that follows it has.
pub mod Merge
pub mod Settle
pub mod Loop
pub mod First
pub mod Laws
use now_sdk_ext_core.Common.{
  ℕ, zero, suc, ◌+◌, Bool, true, false, not, ◌&&◌, ◌||◌, List, [], ◌∷◌, ◌++◌, map, Option, none,
  some, String, if◌then◌else◌, or_else, any, all, filter, length, ◌==◌, set_add, set_add_all, Map,
  lookup, insert,
}
use text.Mathlib.Text.{◌==◌ as str_eq}

-- The marker for paths that never come back together.
abbrev pub workflow_exit : String
workflow_exit = "__exit__"

abbrev pub contains : String → List String → Bool
contains x s = any (str_eq x) s

-- `pdom.get(n)`; it is there for every activity and for the marker.
unfoldable pub set_of : Map (List String) → String → List String
set_of pdom n = or_else (lookup n pdom) []

-- `new Set([...ids, WORKFLOW_EXIT])`
abbrev pub all_ids : List String → List String
all_ids ids = set_add_all str_eq [] (ids ++ workflow_exit ∷ [])

abbrev pub fill : List String → List String → Map (List String) → Map (List String)
fill full [] pdom = pdom
fill full (n ∷ ids) pdom = fill full ids (insert n full pdom)

abbrev pub first_sets : List String → Map (List String)
first_sets ids = insert workflow_exit (workflow_exit ∷ []) (fill (all_ids ids) ids [])

-- What all of the sets have, in the order of the first.
abbrev pub in_all : List (List String) → List String
in_all [] = []
in_all (s ∷ rest) = filter (λ x. all (contains x) (s ∷ rest)) s

abbrev pub differs : List String → List String → Bool
differs new old = not (length new == length old) || any (λ x. not (contains x old)) new

-- The first of the others that has all the others.
abbrev pub first_with_all : Map (List String) → List String → List String → Option String
first_with_all pdom strict [] = none
first_with_all pdom strict (c ∷ rest) =
    if all (λ o. contains o (set_of pdom c)) strict then some c else first_with_all pdom strict rest

unfoldable pub immediate : Map (List String) → String → Option String
unfolding set_of
immediate pdom n =
    let strict = filter (λ x. not (str_eq x n)) (set_of pdom n) in first_with_all pdom strict strict

-- Each pass that changes the sets makes one smaller.
abbrev pub sizes : List String → Map (List String) → ℕ
sizes [] pdom = 0
sizes (n ∷ rest) pdom = length (set_of pdom n) + sizes rest pdom

module _ (succ : String → List String) where
  unfoldable pub common : Map (List String) → String → List String
  unfolding set_of
  common pdom n = set_add str_eq (in_all (map (set_of pdom) (succ n))) n

  -- One turn of `for (const n of ids)`, with `changed`.
  unfoldable pub visit_node : String → Map (List String) × Bool → Map (List String) × Bool
  unfolding common
  visit_node n (pdom, changed) =
      if differs (common pdom n) (set_of pdom n)
      then (insert n (common pdom n) pdom, true)
      else (pdom, changed)

  abbrev pub pass : List String → Map (List String) × Bool → Map (List String) × Bool
  pass [] state = state
  pass (n ∷ rest) state = pass rest (visit_node n state)

  -- `while (changed)`, on fuel; none means that it ran out.
  unfoldable pub settle_sets : List String → ℕ → Map (List String) → Option (Map (List String))
  unfolding visit_node
  settle_sets ids zero pdom = none
  settle_sets ids (suc fuel) pdom =
      let (pdom', changed) = pass ids (pdom, false) in
      elim changed [ true ↦ settle_sets ids fuel pdom' | false ↦ some pdom' ]

  unfoldable pub post_dominators : List String → Option (Map (List String))
  unfolding settle_sets
  post_dominators ids = settle_sets ids (sizes ids (first_sets ids) + 1) (first_sets ids)
