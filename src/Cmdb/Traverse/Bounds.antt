-- ===== src/Cmdb/Traverse/Bounds.antt =====
-- The search of `traverseGraph` ends, and stays within its limits of nodes and depth.
use now_sdk_ext_core.Common.{
  ℕ, zero, suc, ◌+◌, ◌-◌, ◌≤◌, ◌<◌, min, max, List, [], ◌∷◌, Option, none, some, String, ◌≡◌, inl,
  inr, refl, ap, arith, length, length-append, leb, All, All-append, or_else, Bool-cases,
  Option-cases,
}
use now_sdk_ext_core.Cmdb.Models.{
  CmdbCiRecord, GraphNode, GraphTraversalResult, TableApi, Result, ok, throws, sys_id_required,
  ci_not_found, TraverseGraphOptions,
}
use now_sdk_ext_core.Cmdb.Lookup.{CiCache, lookup_ci, is_blank}
use now_sdk_ext_core.Cmdb.Traverse.{
  Search, Settings, node_of, add_node, add_nodes, limit_nodes, fetch_new, expand, Round, stop,
  again, round, next_round, search, initial, fuel_for, settings_of, result_of, traverse_graph,
}

-- What the search keeps to: its queue never stands for more than the nodes still allowed, no node
-- lies deeper than the limit, and every entry of the queue has a depth within the limit.
pub record IsBounded (max_depth max_nodes : ℕ) (s : Search) : Type 0 where
  pub count : length s.nodes ≤ max 1 max_nodes
  pub deep : All (λ (n : GraphNode). n.depth ≤ max_depth) s.nodes

-- What holds of the state after a round.
abbrev pub After : (Search → Type 0) → Round → Type 0
After P (stop s) = P s
After P (again s) = P s

-- The rounds still to come.
abbrev pub measure : ℕ → Search → ℕ
measure max_nodes s = length s.queue + (max_nodes - length s.nodes)

-- A round that does not stop the search leaves fewer rounds to come.
abbrev pub Shrinks : ℕ → ℕ → Round → Type 0
Shrinks max_nodes n (stop s) = Unit
Shrinks max_nodes n (again s) = measure max_nodes s < n

module _ (d m : ℕ) where
  add_nodes-IsBounded :
      (cis : List CmdbCiRecord) (depth : ℕ) (s : Search)
      → depth ≤ d
      → IsBounded d m s
      → IsBounded d m (add_nodes m cis depth s)
  unfolding add_nodes
  add_nodes-IsBounded [] depth s h b = b
  add_nodes-IsBounded (ci ∷ cis) depth s h b = elim (Bool-cases (leb m (length s.nodes))) [
    | inl full ↦ rw full (record { count = b.count; deep = b.deep })
    | inr room ↦ rw room (
        add_nodes-IsBounded cis depth (add_node ci depth s) h (record {
          count = ground (arith, b.count, length-append s.nodes (node_of ci depth ∷ []));
          deep = All-append _ s.nodes (node_of ci depth ∷ []) b.deep (h, tt);
        }))
  ]

  add_nodes-measure :
      (cis : List CmdbCiRecord) (depth : ℕ) (s : Search)
      → measure m (add_nodes m cis depth s) ≤ measure m s
  unfolding add_nodes
  add_nodes-measure [] depth s = omega arith
  add_nodes-measure (ci ∷ cis) depth s = elim (Bool-cases (leb m (length s.nodes))) [
    | inl full ↦ rw full (omega arith)
    | inr room ↦ rw room (grown (add_nodes-measure cis depth (add_node ci depth s)) (ground arith))
  ]
    where
      grown :
          measure m (add_nodes m cis depth (add_node ci depth s)) ≤ measure m (add_node ci depth s)
          → length s.nodes < m
          → measure m (add_nodes m cis depth (add_node ci depth s)) ≤ measure m s
      grown h k = omega (
        arith,
        length-append s.nodes (node_of ci depth ∷ []),
        length-append s.queue ((ci.sys_id, depth) ∷ []),
      )

module _ (api : TableApi) (settings : Settings) where
  expand-IsBounded :
      (id : String) (depth : ℕ) (s : Search)
      → depth < settings.max_depth
      → IsBounded settings.max_depth settings.max_nodes s
      → IsBounded settings.max_depth settings.max_nodes (expand api settings id depth s)
  unfolding expand
  expand-IsBounded id depth s h b =
      fetch_new-IsBounded _ (depth + 1) _ (omega arith) (record { count = b.count; deep = b.deep })
    where
      fetch_new-IsBounded :
          (ids : List String) (depth : ℕ) (s : Search)
          → depth ≤ settings.max_depth
          → IsBounded settings.max_depth settings.max_nodes s
          → IsBounded settings.max_depth settings.max_nodes (fetch_new api settings ids depth s)
      fetch_new-IsBounded [] depth s h b = b
      fetch_new-IsBounded (id ∷ ids) depth s h b =
          add_nodes-IsBounded settings.max_depth settings.max_nodes _ depth _ h
            (record { count = b.count; deep = b.deep })

  expand-measure :
      (id : String) (depth : ℕ) (s : Search)
      → measure settings.max_nodes (expand api settings id depth s) ≤ measure settings.max_nodes s
  unfolding expand
  expand-measure id depth s = fetch_new-measure _ (depth + 1) _
    where
      fetch_new-measure :
          (ids : List String) (depth : ℕ) (s : Search)
          → measure settings.max_nodes (fetch_new api settings ids depth s)
            ≤ measure settings.max_nodes s
      fetch_new-measure [] depth s = omega arith
      fetch_new-measure (id ∷ ids) depth s =
          add_nodes-measure settings.max_depth settings.max_nodes _ depth _

  next_round-IsBounded :
      (queue : List (String × ℕ)) (s : Search)
      → IsBounded settings.max_depth settings.max_nodes s
      → After (IsBounded settings.max_depth settings.max_nodes) (next_round api settings queue s)
  unfolding next_round round limit_nodes
  next_round-IsBounded [] s b = b
  next_round-IsBounded ((id, depth) ∷ queue) s b =
      elim (Bool-cases (leb settings.max_depth depth)) [
        | inl far ↦ rw far (record { count = b.count; deep = b.deep })
        | inr near ↦ elim (Bool-cases (leb settings.max_nodes (length s.nodes))) [
          | inl full ↦ rw (near, full) (record { count = b.count; deep = b.deep })
          | inr room ↦
              rw (near, room)
                (expand-IsBounded id depth (record s { queue = queue }) (ground arith)
                  (record { count = b.count; deep = b.deep }))
        ]
      ]

  next_round-Shrinks :
      (queue : List (String × ℕ)) (s : Search)
      → queue ≡ s.queue
      → Shrinks settings.max_nodes (measure settings.max_nodes s) (next_round api settings queue s)
  unfolding next_round round
  next_round-Shrinks [] s e = tt
  next_round-Shrinks ((id, depth) ∷ queue) s e =
      let shorter : suc (length queue) ≡ length s.queue = ap length e in
      elim (Bool-cases (leb settings.max_depth depth)) [
        | inl far ↦ rw far (omega arith)
        | inr near ↦ elim (Bool-cases (leb settings.max_nodes (length s.nodes))) [
          | inl full ↦ rw (near, full) tt
          | inr room ↦
              rw (near, room) (omega (arith, expand-measure id depth (record s { queue = queue })))
        ]
      ]

  -- With more fuel than rounds to come, the search ends.
  search_total :
      (fuel : ℕ) (s : Search)
      → measure settings.max_nodes s < fuel
      → (s' : Search) × (search fuel api settings s ≡ some s')
  unfolding search
  search_total zero s h = absurd (omega arith)
  search_total (suc fuel) s h =
      go (next_round api settings s.queue s) refl (next_round-Shrinks s.queue s refl)
        (λ t. search_total fuel t)
    where
      go :
          (r : Round)
          → next_round api settings s.queue s ≡ r
          → Shrinks settings.max_nodes (measure settings.max_nodes s) r
          → ((t : Search)
              → measure settings.max_nodes t < fuel
              → (s' : Search) × (search fuel api settings t ≡ some s'))
          → (s' : Search) × (search (suc fuel) api settings s ≡ some s')
      go (stop t) e shrinks ih = (t, rw (e, search))
      go (again t) e shrinks ih = let (s', found) = ih t (omega arith) in (s', rw (e, search) found)

  search-IsBounded :
      (fuel : ℕ) (s s' : Search)
      → IsBounded settings.max_depth settings.max_nodes s
      → search fuel api settings s ≡ some s'
      → IsBounded settings.max_depth settings.max_nodes s'
  unfolding search
  search-IsBounded zero s s' b e = absurd (cc)
  search-IsBounded (suc fuel) s s' b e =
      go (next_round api settings s.queue s) refl (next_round-IsBounded s.queue s b)
        (λ t. search-IsBounded fuel t s')
    where
      go :
          (r : Round)
          → next_round api settings s.queue s ≡ r
          → After (IsBounded settings.max_depth settings.max_nodes) r
          → ((t : Search)
              → IsBounded settings.max_depth settings.max_nodes t
              → search fuel api settings t ≡ some s'
              → IsBounded settings.max_depth settings.max_nodes s')
          → IsBounded settings.max_depth settings.max_nodes s'
      go (stop t) q kept ih = let same : t ≡ s' = ground arith in rw (← same) kept
      go (again t) q kept ih = ih t kept (rw (q, search) at e)

initial-IsBounded :
    (settings : Settings) (id : String) (ci : CmdbCiRecord) (cache : CiCache)
    → IsBounded settings.max_depth settings.max_nodes (initial id ci cache)
unfolding initial
initial-IsBounded settings id ci cache = record { count = omega arith; deep = (omega arith, tt) }

initial-measure :
    (settings : Settings) (id : String) (ci : CmdbCiRecord) (cache : CiCache)
    → measure settings.max_nodes (initial id ci cache) < fuel_for settings
unfolding initial
initial-measure settings id ci cache = omega arith

-- `traverseGraph` always ends: with two rounds more than the nodes allowed, the fuel never runs
-- out, whatever the instance answers.
pub traverse_graph_total :
    (api : TableApi) (options : TraverseGraphOptions)
    → (r : Result GraphTraversalResult) × (traverse_graph api options ≡ some r)
unfolding traverse_graph
traverse_graph_total api options = elim (Bool-cases (is_blank options.ci_sys_id)) [
  | inl blank ↦ (throws sys_id_required, rw blank)
  | inr given ↦ elim (Option-cases (lookup_ci api options.ci_sys_id []).0) [
    | inl e ↦ (throws (ci_not_found options.ci_sys_id), rw (given, e))
    | inr (ci, e) ↦
        let settings = settings_of options in
        let cache = (lookup_ci api options.ci_sys_id []).1 in
        let (s, found) =
          search_total api settings (fuel_for settings) (initial options.ci_sys_id ci cache)
            (initial-measure settings options.ci_sys_id ci cache) in
        (ok (result_of settings ci s), rw given (rw e (rw found)))
  ]
]

abbrev nodes_of : Option (Result GraphTraversalResult) → List GraphNode
nodes_of (some (ok g)) = g.nodes
nodes_of (some (throws e)) = []
nodes_of none = []

-- A traversal that returns has no more nodes than were asked for (200 by default, at most 1000,
-- and always the root), and none deeper than was asked for (3 by default, at most 5).
pub traverse_graph_bounds :
    (api : TableApi) (options : TraverseGraphOptions) (g : GraphTraversalResult)
    → traverse_graph api options ≡ some (ok g)
    → (length g.nodes ≤ max 1 (min (or_else options.max_nodes 200) 1000))
      × All (λ (n : GraphNode). n.depth ≤ min (or_else options.max_depth 3) 5) g.nodes
unfolding traverse_graph
traverse_graph_bounds api options g h = elim (Bool-cases (is_blank options.ci_sys_id)) [
  | inl blank ↦ absurd (cc (rw blank at h))
  | inr given ↦ elim (Option-cases (lookup_ci api options.ci_sys_id []).0) [
    | inl e ↦ absurd (cc (rw (given, e) at h))
    | inr (ci, e) ↦
        let settings = settings_of options in
        let start = initial options.ci_sys_id ci (lookup_ci api options.ci_sys_id []).1 in
        let (s, found) =
          search_total api settings (fuel_for settings) start (
            initial-measure settings options.ci_sys_id ci (lookup_ci api options.ci_sys_id []).1) in
        let b =
          search-IsBounded api settings (fuel_for settings) start s
            (initial-IsBounded settings options.ci_sys_id ci (lookup_ci api options.ci_sys_id []).1)
            found in
        let returned : some (ok (result_of settings ci s)) ≡ some (ok g) =
          rw found at (rw e at (rw given at h)) in
        let same : s.nodes ≡ g.nodes = ap nodes_of returned in rw (← same) (b.count, b.deep)
  ]
]
