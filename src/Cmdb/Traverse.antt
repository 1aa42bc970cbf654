-- ===== src/Cmdb/Traverse.antt =====
-- `traverseGraph` of src/sn/cmdb/CMDBRelationships.ts: a breadth-first search over the instance.
pub mod Bounds
use mathlib.Core.Option
use text.Mathlib.Text.{◌==◌ as str_eq}
use now_sdk_ext_core.Common.{
  ℕ, zero, suc, ◌+◌, min, Bool, true, false, not, ◌||◌, ◌&&◌, List, [], ◌∷◌, ◌++◌, Option, none,
  some, String, or_else, if◌then◌else◌, length, leb, any,
}
use now_sdk_ext_core.Cmdb.Models.{
  TraversalDirection, upstream, downstream, both, TraverseGraphOptions, CmdbCiRecord,
  CmdbRelationshipRecord, GraphNode, GraphEdge, TruncationReason, node_limit, depth_limit,
  GraphTraversalResult, TableApi, Result, ok, throws, sys_id_required, ci_not_found,
}
use now_sdk_ext_core.Cmdb.Lookup.{
  CiCache, lookup_ci, batch_lookup_cis, parent_role, child_role, query_relationships,
  extract_sys_id, extract_display_value, is_blank, looks_down, looks_up,
}

abbrev pub max_depth_allowed : ℕ
max_depth_allowed = 5

abbrev pub max_nodes_allowed : ℕ
max_nodes_allowed = 1000

-- The local variables of the search. The queue has its front at the head.
pub record Search : Type 0 where
  pub nodes : List GraphNode
  pub edges : List GraphEdge
  pub visited : List String
  pub queue : List (String × ℕ)
  pub api_call_count : ℕ
  pub truncated : Bool
  pub truncation_reason : Option TruncationReason
  pub depth_limited : Bool
  pub cache : CiCache

-- What the search reads and does not change.
pub record Settings : Type 0 where
  pub direction : TraversalDirection
  pub max_depth : ℕ
  pub max_nodes : ℕ
  pub relation_type : Option String

unfoldable pub node_of : CmdbCiRecord → ℕ → GraphNode
node_of ci depth = record {
  sys_id = ci.sys_id;
  name = or_else ci.name "";
  class_name = or_else ci.sys_class_name "";
  depth = depth;
}

unfoldable pub edge_of : CmdbRelationshipRecord → GraphEdge
edge_of rel = record {
  parent_sys_id = extract_sys_id rel.parent;
  child_sys_id = extract_sys_id rel.child;
  type_name = extract_display_value rel.type;
  relationship_sys_id = rel.sys_id;
}

-- The end of a relationship that is not the current node.
unfoldable pub related_id : String → CmdbRelationshipRecord → String
related_id sys_id rel =
    if str_eq (extract_sys_id rel.parent) sys_id
    then extract_sys_id rel.child
    else extract_sys_id rel.parent

abbrev pub has_visited : List String → String → Bool
has_visited visited id = any (λ v. str_eq v id) visited

-- The loop over the relationships of a node: the ids that were not visited before, in order.
unfoldable pub new_ids : String → List CmdbRelationshipRecord → List String → List String
new_ids sys_id [] visited = []
new_ids sys_id (rel ∷ rels) visited =
    let id = related_id sys_id rel in
    let old = new_ids sys_id rels visited in
    let new = id ∷ new_ids sys_id rels (visited ++ id ∷ []) in
    if has_visited visited id then old else new

-- The relationships of a node in the directions asked for, and the number of queries.
unfoldable pub relationships_of : TableApi → Settings → String → List CmdbRelationshipRecord × ℕ
relationships_of api settings sys_id =
    let down =
      if looks_down settings.direction
      then query_relationships api sys_id parent_role 100 settings.relation_type
      else [] in
    let up =
      if looks_up settings.direction
      then query_relationships api sys_id child_role 100 settings.relation_type
      else [] in
    (
      down ++ up,
      (if looks_down settings.direction then 1 else 0)
          + (if looks_up settings.direction then 1 else 0),
    )

unfoldable pub limit_nodes : ℕ → Search → Search
limit_nodes max_nodes s = record s {
  truncated = true;
  truncation_reason = some (node_limit max_nodes);
}

unfoldable pub add_node : CmdbCiRecord → ℕ → Search → Search
unfolding node_of
add_node ci depth s = record s {
  nodes = s.nodes ++ node_of ci depth ∷ [];
  queue = s.queue ++ (ci.sys_id, depth) ∷ [];
}

-- The loop over the CI records of a batch, up to the node limit.
unfoldable pub add_nodes : ℕ → List CmdbCiRecord → ℕ → Search → Search
unfolding add_node limit_nodes
add_nodes max_nodes [] depth s = s
add_nodes max_nodes (ci ∷ cis) depth s =
    let more = add_nodes max_nodes cis depth (add_node ci depth s) in
    if leb max_nodes (length s.nodes) then limit_nodes max_nodes s else more

abbrev pub is_empty : List String → Bool
is_empty [] = true
is_empty (_ ∷ _) = false

-- The batch fetch of the new ids.
unfoldable pub fetch_new : TableApi → Settings → List String → ℕ → Search → Search
fetch_new api settings ids depth s =
    let (cis, cache) = batch_lookup_cis api ids s.cache in
    let fetched = record s { api_call_count = s.api_call_count + 1; cache = cache } in
    if is_empty ids then s else add_nodes settings.max_nodes cis depth fetched

unfoldable pub edges_of : List CmdbRelationshipRecord → List GraphEdge
unfolding edge_of
edges_of [] = []
edges_of (rel ∷ rels) = edge_of rel ∷ edges_of rels

-- A round that looks at a node's relationships.
unfoldable pub expand : TableApi → Settings → String → ℕ → Search → Search
unfolding fetch_new
expand api settings sys_id depth s =
    let (rels, calls) = relationships_of api settings sys_id in
    let ids = new_ids sys_id rels s.visited in
    fetch_new api settings ids (depth + 1) (record s {
      edges = s.edges ++ edges_of rels;
      visited = s.visited ++ ids;
      api_call_count = s.api_call_count + calls;
    })

-- What a round of the search does next: `break`, or the next round.
pub data Round : Type 0 where
  stop again : Search → Round

-- A round of the search for the node at the front of the queue, which has been taken off.
unfoldable pub round : TableApi → Settings → String → ℕ → Search → Round
round api settings sys_id depth s =
    if leb settings.max_depth depth
    then again (record s { depth_limited = true })
    else if leb settings.max_nodes (length s.nodes)
    then stop (limit_nodes settings.max_nodes s)
    else again (expand api settings sys_id depth s)

-- The test of the loop, and `queue.shift()`.
unfoldable pub next_round : TableApi → Settings → List (String × ℕ) → Search → Round
next_round api settings [] s = stop s
next_round api settings ((sys_id, depth) ∷ queue) s =
    round api settings sys_id depth (record s { queue = queue })

-- `while (queue.length > 0)`, on fuel; none means that the fuel ran out.
unfoldable pub search : ℕ → TableApi → Settings → Search → Option Search
search zero api settings s = none
search (suc fuel) api settings s = elim (next_round api settings s.queue s) [
  | stop s' ↦ some s'
  | again s' ↦ search fuel api settings s'
]

unfoldable pub settings_of : TraverseGraphOptions → Settings
settings_of options = record {
  direction = or_else options.direction downstream;
  max_depth = min (or_else options.max_depth 3) max_depth_allowed;
  max_nodes = min (or_else options.max_nodes 200) max_nodes_allowed;
  relation_type = options.relation_type;
}

unfoldable pub initial : String → CmdbCiRecord → CiCache → Search
unfolding node_of
initial sys_id root cache = record {
  nodes = node_of root 0 ∷ [];
  edges = [];
  visited = sys_id ∷ [];
  queue = (sys_id, 0) ∷ [];
  api_call_count = 0;
  truncated = false;
  truncation_reason = none;
  depth_limited = false;
  cache = cache;
}

-- The end of the method: a depth that was cut off is reported unless the nodes were.
unfoldable pub result_of : Settings → CmdbCiRecord → Search → GraphTraversalResult
result_of settings root s =
    let by_depth = s.depth_limited && not s.truncated in
    record {
      root_ci = root;
      nodes = s.nodes;
      edges = s.edges;
      api_call_count = s.api_call_count;
      truncated = if by_depth then true else s.truncated;
      truncation_reason =
          if by_depth then some (depth_limit settings.max_depth) else s.truncation_reason;
    }

-- Each round takes an entry off the queue, each entry but the first stands for a node below the
-- limit, and the last round finds the queue empty.
abbrev pub fuel_for : Settings → ℕ
fuel_for settings = settings.max_nodes + 2

unfoldable pub traverse_graph :
    TableApi → TraverseGraphOptions → Option (Result GraphTraversalResult)
unfolding initial settings_of result_of
traverse_graph api options =
    let settings = settings_of options in
    if is_blank options.ci_sys_id
    then some (throws sys_id_required)
    else let (root, cache) = lookup_ci api options.ci_sys_id [] in
      elim root [
        | none ↦ some (throws (ci_not_found options.ci_sys_id))
        | some ci ↦
            Option.map (λ s. ok (result_of settings ci s))
              (search (fuel_for settings) api settings (initial options.ci_sys_id ci cache))
      ]
