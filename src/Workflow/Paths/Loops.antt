-- ===== src/Workflow/Paths/Loops.antt =====
-- The back edges that `findBackEdges` of src/sn/workflow/WorkflowStructure.ts finds are its loops.
use now_sdk_ext_core.Common.{
  ◌+◌, Bool, true, not, List, [], ◌∷◌, ◌++◌, map, some, String, ◌≡◌, ◌⊎◌, inl, inr, ap, Bool-cases,
  Option-cases, lookup, keys, In, In-append_left, In-append_right, In-append_cases, In-filter_to,
  arith, eq_iff, eq_refl, if◌then◌else◌, or_else, is_some, any-true, filter, In-map, In-map_cases,
}
use now_sdk_ext_core.Workflow.Models.{WorkflowExport}
use now_sdk_ext_core.Workflow.Structure.{Wiring, Activity, wire, out_of, raw_edges_of}
use now_sdk_ext_core.Workflow.Explore.{Walk}
use now_sdk_ext_core.Workflow.BackEdges.{IsLawful, Marks, no_marks, same_edge}
use now_sdk_ext_core.Workflow.BackEdges.Invariant.{raw_targets}
use now_sdk_ext_core.Workflow.BackEdges.Acyclic.{Outcome, explore_roots-Outcome, acyclic}
use now_sdk_ext_core.Workflow.BackEdges.Measure.{fresh}
use now_sdk_ext_core.Workflow.Paths.{
  Edge, StructureExit, raw_graph, find_begin, search_roots, find_back_edges, structure_exits,
  forward, is_back, known_exits, structure_exit,
}
use now_sdk_ext_core.Workflow.Paths.Reach.{forward_known}
use now_sdk_ext_core.Workflow.Paths.Roots.{find_begin-In, search_roots-In, In-search_roots}
use now_sdk_ext_core.Workflow.Paths.Closed.{
  Closed, wire-Closed, raw_edges-In, raw_edges_from, exit_order, In-concat_map_cases,
}

raw_graph-IsLawful : (w : Wiring) → IsLawful (raw_graph w)
raw_graph-IsLawful w = record { same_iff = eq_iff; same_exit_iff = eq_iff }

same_edge_refl : (w : Wiring) (u e t : String) → same_edge (raw_graph w) (u, e, t) (u, e, t) ≡ true
same_edge_refl w u e t = rw (eq_refl u) (rw (eq_refl e) (eq_refl t))

-- What a forward target comes from.
module _ (w : Wiring) (back : List Edge) where
  known_exits-In :
      (id exit name condition : String)
      → In (exit, name, condition) (known_exits w back id)
      → In exit (exit_order w id)
  known_exits-In id exit name condition h = elim (Option-cases (lookup id w.activities)) [
    | inl q ↦ absurd (rw (q, In) at h)
    | inr (a, q) ↦ rw (q, In) (listed a (rw (q, In) at h))
  ]
    where
      own :
          (a : Activity)
          → In {A = String × String × String}
              (exit, name, condition)
              (map (λ e. (e.sys_id, e.name, e.condition)) a.exits)
          → In exit (map (λ e. e.sys_id) a.exits)
      own a m =
          let (e, m', same) = In-map_cases _ (exit, name, condition) a.exits m in
          let same_exit : exit ≡ e.sys_id = ap (λ p. p.0) same in
          rw same_exit (In-map (λ e. e.sys_id) e a.exits m')

      listed :
          (a : Activity)
          → In {A = String × String × String}
              (exit, name, condition)
              (if is_some (lookup "?" (out_of w id))
                then map (λ e. (e.sys_id, e.name, e.condition)) a.exits ++ ("?", "?", "") ∷ []
                else map (λ e. (e.sys_id, e.name, e.condition)) a.exits)
          → In exit (map (λ e. e.sys_id) a.exits ++ "?" ∷ [])
      listed a m = elim (Bool-cases (is_some (lookup "?" (out_of w id)))) [
        | inr q ↦ In-append_left exit _ ("?" ∷ []) (own a (rw q at m))
        | inl q ↦
            elim (In-append_cases (exit, name, condition) _ (("?", "?", "") ∷ []) (rw q at m)) [
              | inl l ↦ In-append_left exit _ ("?" ∷ []) (own a l)
              | inr (inl same) ↦ In-append_right exit _ ("?" ∷ []) (inl (ap (λ p. p.0) same))
              | inr (inr x) ↦ absurd x
            ]
      ]

  pub forward_edge :
      (u t : String)
      → In t (forward w back u)
      → (e : String) × In (e, t) (raw_edges_of w u) × ¬ In (u, e, t) back
  unfolding forward structure_exits
  forward_edge u t h =
      let (x, listed, m) =
        In-concat_map_cases {A = StructureExit} {B = String} _ t (structure_exits w back u) h in
      let ((exit, name, condition), known, same) =
        In-map_cases (structure_exit w back u) x (known_exits w back u) listed in
      let m' : In t
          (filter (λ t. not (is_back w back u exit t)) (or_else (lookup exit (out_of w u)) [])) =
        rw same at m in
      let (target, not_back) = In-filter_to _ t _ m' in
      (
        exit,
        raw_edges_from w u exit t (known_exits-In u exit name condition known) target,
        λ b. cc (
          any-true (same_edge (raw_graph w) (u, exit, t)) (u, exit, t) back b
              (same_edge_refl w u exit t),
          not_back,
        ),
      )

module _ (locale_less : String → String → Bool) (w : Wiring) where
  -- What `findBackEdges` leaves.
  pub find_back_edges-Outcome :
      Closed w
      → ¬ In "" (keys w.activities)
      → (m : Marks String String) × (find_back_edges locale_less w (find_begin locale_less w)
          ≡ some m)
        × Outcome (raw_graph w) (search_roots locale_less w (find_begin locale_less w)) m
  unfolding find_back_edges
  find_back_edges-Outcome closed named =
      explore_roots-Outcome (raw_graph w) (raw_graph-IsLawful w) (keys w.activities)
        (search_roots locale_less w (find_begin locale_less w))
        (fresh (raw_graph w) (keys w.activities) no_marks + 1) (raw_edges-In w closed)
        (search_roots-In locale_less w (find_begin locale_less w) (find_begin-In locale_less w))
        (omega arith)

  forward_known_roots :
      ¬ In "" (keys w.activities)
      → (back : List Edge) (n : String)
      → In n (search_roots locale_less w (find_begin locale_less w)) ⊎ (forward w back n ≡ [])
  forward_known_roots named back n = elim (forward_known w back n) [
    | inr e ↦ inr e
    | inl h ↦ inl (
        In-search_roots locale_less w (find_begin locale_less w)
          (λ e. named (find_begin-In locale_less w "" e)) n h)
  ]

-- In an export with no activity of an empty id, the search for back edges ends; the edges that it
-- leaves lead round no loop, whatever the transitions are; and each edge that it marks is an edge
-- of the workflow that closes a loop: a walk leads from its target back to its source.
pub find_back_edges-acyclic :
    (locale_less : String → String → Bool) (data_ : WorkflowExport)
    → ¬ In "" (keys (wire locale_less data_).activities)
    → (m : Marks String String) × (find_back_edges locale_less
          (wire locale_less data_)
          (find_begin locale_less (wire locale_less data_))
        ≡ some m)
      × ((u t : String)
          → In t (forward (wire locale_less data_) m.back_edges u)
          → ¬ Walk (forward (wire locale_less data_) m.back_edges) t u)
      × ((u exit t : String)
          → In (u, exit, t) m.back_edges
          → In (exit, t) (raw_edges_of (wire locale_less data_) u)
            × Walk (raw_targets (raw_graph (wire locale_less data_))) t u)
find_back_edges-acyclic locale_less data_ named =
    let w = wire locale_less data_ in
    let (m, e, outcome) =
      find_back_edges-Outcome locale_less w (wire-Closed locale_less data_) named in
    (
      m,
      e,
      acyclic (raw_graph w) (search_roots locale_less w (find_begin locale_less w)) m outcome
          (forward w m.back_edges) (forward_known_roots locale_less w named m.back_edges)
          (forward_edge w m.back_edges),
      outcome.inv.loops,
    )
