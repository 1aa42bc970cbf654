-- ===== src/Cmdb/Lookup.antt =====
-- The private queries of src/sn/cmdb/CMDBRelationships.ts, with the cache of CI records, and
-- `getRelationships`.
use Prim.Native.String
use text.Mathlib.Text.{◌==◌ as str_eq}
use now_sdk_ext_core.Common.{
  ℕ, zero, suc, Bool, true, false, not, List, [], ◌∷◌, ◌++◌, Option, none, some, String, or_else,
  is_some, if◌then◌else◌, filter, length, take, drop, ◌==◌, Text, codes, trim,
}
use now_sdk_ext_core.Cmdb.Models.{
  TraversalDirection, upstream, downstream, both, GetRelationshipsOptions, CmdbCiRecord, Reference,
  plain, linked, CmdbRelationshipRecord, Relationship, RelationshipsResult, Response, TableApi,
  Result, ok, throws, sys_id_required, ci_not_found,
}

-- `_ciCache`. The program never iterates over it, so the order of entries does not matter.
abbrev pub CiCache : Type 0
CiCache = List (String × CmdbCiRecord)

unfoldable pub cached : String → CiCache → Option CmdbCiRecord
cached id [] = none
cached id ((k, ci) ∷ cache) = if str_eq k id then some ci else cached id cache

-- The rows of a response with status 200, as every query reads it.
unfoldable pub rows : {A : Type 0} → Option (Response A) → Option (List A)
rows none = none
rows (some response) = if response.status == 200 then response.result else none

unfoldable pub lookup_ci : TableApi → String → CiCache → Option CmdbCiRecord × CiCache
lookup_ci api sys_id cache = elim (cached sys_id cache) [
  | some ci ↦ (some ci, cache)
  | none ↦ elim (rows (api.get_cis (String.◌++◌ "sys_id=" sys_id) 1)) [
    | none ↦ (none, cache)
    | some found ↦ elim found [ [] ↦ (none, cache) | ci ∷ rest ↦ (some ci, (sys_id, ci) ∷ cache) ]
  ]
]

-- The items of `sysIds` that are cached, in order.
unfoldable pub cached_items : List String → CiCache → List CmdbCiRecord
cached_items [] cache = []
cached_items (id ∷ ids) cache = elim (cached id cache) [
  | some ci ↦ ci ∷ cached_items ids cache
  | none ↦ cached_items ids cache
]

unfoldable pub cache_all : List CmdbCiRecord → CiCache → CiCache
cache_all [] cache = cache
cache_all (ci ∷ cis) cache = cache_all cis ((ci.sys_id, ci) ∷ cache)

unfoldable pub join_comma : List String → String
join_comma [] = ""
join_comma (id ∷ []) = id
join_comma (id ∷ (next ∷ ids)) = String.◌++◌ id (String.◌++◌ "," (join_comma (next ∷ ids)))

abbrev pub chunk_size : ℕ
chunk_size = 50

-- The loop over chunks of the uncached ids. Each round but the last takes a full chunk, so the
-- number of ids bounds the rounds.
unfoldable pub fetch_chunks :
    ℕ → TableApi → List String → List CmdbCiRecord → CiCache → List CmdbCiRecord × CiCache
fetch_chunks zero api ids results cache = (results, cache)
fetch_chunks (suc fuel) api [] results cache = (results, cache)
fetch_chunks (suc fuel) api (id ∷ ids) results cache =
    let chunk = take chunk_size (id ∷ ids) in
    let found =
      or_else (rows (api.get_cis (String.◌++◌ "sys_idIN" (join_comma chunk)) (length chunk))) [] in
    fetch_chunks fuel api (drop chunk_size (id ∷ ids)) (results ++ found) (cache_all found cache)

unfoldable pub batch_lookup_cis : TableApi → List String → CiCache → List CmdbCiRecord × CiCache
unfolding fetch_chunks
batch_lookup_cis api sys_ids cache =
    let uncached = filter (λ id. not (is_some (cached id cache))) sys_ids in
    fetch_chunks (length uncached) api uncached (cached_items sys_ids cache) cache

pub data Role : Type 0 where
  parent_role child_role : Role

abbrev pub role_name : Role → String
role_name parent_role = "parent"
role_name child_role = "child"

-- `if (relationType)`: a missing and an empty text add nothing.
abbrev pub type_clause : Option String → String
type_clause none = ""
type_clause (some String.[]) = ""
type_clause (some (String.◌∷◌ c s)) = String.◌++◌ "^type.name=" (String.◌∷◌ c s)

unfoldable pub query_relationships :
    TableApi → String → Role → ℕ → Option String → List CmdbRelationshipRecord
query_relationships api sys_id role limit relation_type =
    or_else
      (rows (
        api.rel_rows
          (String.◌++◌ (role_name role)
            (String.◌++◌ "=" (String.◌++◌ sys_id (type_clause relation_type))))
          limit))
      []

unfoldable pub extract_sys_id : Reference → String
extract_sys_id (plain s) = s
extract_sys_id (linked value display) = value

-- `field.display_value || field.value || ''`
unfoldable pub extract_display_value : Reference → String
extract_display_value (plain s) = s
extract_display_value (linked value none) = value
extract_display_value (linked value (some String.[])) = value
extract_display_value (linked value (some (String.◌∷◌ c s))) = String.◌∷◌ c s

-- `!ciSysId || ciSysId.trim().length === 0`
abbrev pub is_nil : Text → Bool
is_nil [] = true
is_nil (_ ∷ _) = false

abbrev pub is_blank : String → Bool
is_blank s = is_nil (trim (codes s))

abbrev pub looks_down : TraversalDirection → Bool
looks_down downstream = true
looks_down both = true
looks_down upstream = false

abbrev pub looks_up : TraversalDirection → Bool
looks_up upstream = true
looks_up both = true
looks_up downstream = false

-- The loop over the relationships of one direction; a related CI that is not found is left out.
unfoldable pub related :
    TableApi
    → TraversalDirection
    → (CmdbRelationshipRecord → Reference)
    → List CmdbRelationshipRecord
    → CiCache
    → List Relationship × CiCache
related api direction end [] cache = ([], cache)
related api direction end (rel ∷ rels) cache =
    let (found, cache') = lookup_ci api (extract_sys_id (end rel)) cache in
    let (rest, cache'') = related api direction end rels cache' in
    elim found [
      | none ↦ (rest, cache'')
      | some ci ↦ (
        record {
          related_ci = ci;
          direction = direction;
          type_name = extract_display_value rel.type;
          relationship_sys_id = rel.sys_id;
        }
            ∷ rest,
        cache'',
      )
    ]

-- The two halves of `getRelationships`, each when its direction is asked for.
unfoldable pub related_in :
    TableApi → GetRelationshipsOptions → CiCache → List Relationship × CiCache
unfolding related
related_in api options cache =
    let direction = or_else options.direction both in
    let limit : ℕ = or_else options.limit 100 in
    let down =
      if looks_down direction
      then query_relationships api options.ci_sys_id parent_role limit options.relation_type
      else [] in
    let up =
      if looks_up direction
      then query_relationships api options.ci_sys_id child_role limit options.relation_type
      else [] in
    let (below, cache') = related api downstream (λ r. r.child) down cache in
    let (above, cache'') = related api upstream (λ r. r.parent) up cache' in
    (below ++ above, cache'')

unfoldable pub get_relationships :
    TableApi → GetRelationshipsOptions → CiCache → Result RelationshipsResult × CiCache
unfolding related_in
get_relationships api options cache =
    if is_blank options.ci_sys_id
    then (throws sys_id_required, cache)
    else let (root, cache') = lookup_ci api options.ci_sys_id cache in
      elim root [
        | none ↦ (throws (ci_not_found options.ci_sys_id), cache')
        | some ci ↦
            let (relationships, cache'') = related_in api options cache' in
            (ok (record { ci = ci; relationships = relationships }), cache'')
      ]
