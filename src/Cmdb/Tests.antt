-- ===== src/Cmdb/Tests.antt =====
-- Runs of src/sn/cmdb/CMDBRelationships.ts on a small instance.
use now_sdk_ext_core.Common.{
  ℕ, true, List, [], ◌∷◌, Option, none, some, String, ◌≡◌, refl, ◌≤◌, All, if◌then◌else◌, trim,
}
use text.Mathlib.Text.{◌==◌ as str_eq}
use now_sdk_ext_core.Cmdb.Models.{
  TraverseGraphOptions, CmdbCiRecord, CmdbRelationshipRecord, plain, GraphNode,
  GraphTraversalResult, TableApi, Response, Result, ok, depth_limit,
}
use now_sdk_ext_core.Cmdb.Traverse.{
  traverse_graph, search, next_round, round, expand, new_ids, relationships_of, related_id,
  add_nodes, add_node, edge_of, edges_of, fetch_new, initial, limit_nodes, node_of, result_of,
  settings_of,
}
use now_sdk_ext_core.Cmdb.Lookup.{
  lookup_ci, cached, rows, query_relationships, extract_sys_id, batch_lookup_cis, cached_items,
  join_comma, cache_all, extract_display_value, fetch_chunks,
}
use now_sdk_ext_core.Cmdb.Traverse.Bounds.{traverse_graph_bounds, traverse_graph_total}

abbrev ci : String → CmdbCiRecord
ci id = record { sys_id = id; name = some id; sys_class_name = none }

abbrev relation : String → String → CmdbRelationshipRecord
relation parent child = record {
  sys_id = "r";
  parent = plain parent;
  child = plain child;
  type = plain "Runs on";
}

abbrev ok_rows : {A : Type 0} → List A → Option (Response A)
ok_rows rows = some (record { status = 200; result = some rows })

-- An instance where `a` stands above `b`.
abbrev two_cis : TableApi
two_cis = record {
  get_cis = λ query limit.
      if str_eq query "sys_id=a" then ok_rows (ci "a" ∷ []) else ok_rows (ci "b" ∷ []);
  rel_rows = λ query limit.
      if str_eq query "parent=a" then ok_rows (relation "a" "b" ∷ []) else ok_rows [];
}

abbrev from_a : TraverseGraphOptions
from_a = record {
  ci_sys_id = "a";
  direction = none;
  max_depth = some 1;
  relation_type = none;
  max_nodes = some 9;
}

abbrev node : String → ℕ → GraphNode
node id depth = record { sys_id = id; name = id; class_name = ""; depth = depth }

abbrev found : GraphTraversalResult
found = record {
  root_ci = ci "a";
  nodes = node "a" 0 ∷ node "b" 1 ∷ [];
  edges =
      record {
        parent_sys_id = "a";
        child_sys_id = "b";
        type_name = "Runs on";
        relationship_sys_id = "r";
      }
      ∷ [];
  api_call_count = 2;
  truncated = true;
  truncation_reason = some (depth_limit 1);
}

traverse_graph_run : traverse_graph two_cis from_a ≡ some (ok found)
unfolding traverse_graph trim lookup_ci cached rows query_relationships extract_sys_id
    batch_lookup_cis cached_items join_comma cache_all extract_display_value fetch_chunks search
    next_round round expand new_ids relationships_of related_id add_nodes add_node edge_of edges_of
    fetch_new initial limit_nodes node_of result_of settings_of
traverse_graph_run = refl

traverse_graph_bounds_example :
    (2 ≤ 9) × All (λ (n : GraphNode). n.depth ≤ 1) (node "a" 0 ∷ node "b" 1 ∷ [])
traverse_graph_bounds_example = traverse_graph_bounds two_cis from_a found traverse_graph_run

traverse_graph_total_example :
    (r : Result GraphTraversalResult) × (traverse_graph two_cis from_a ≡ some r)
traverse_graph_total_example = traverse_graph_total two_cis from_a
