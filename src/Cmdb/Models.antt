-- ===== src/Cmdb/Models.antt =====
-- src/sn/cmdb/CMDBModels.ts, and the answers of the table API that CMDBRelationships reads.
use now_sdk_ext_core.Common.{ℕ, Bool, List, Option, String}

pub data TraversalDirection : Type 0 where
  upstream downstream both : TraversalDirection

pub record GetRelationshipsOptions : Type 0 where
  pub ci_sys_id : String
  pub direction : Option TraversalDirection
  pub relation_type : Option String
  pub limit : Option ℕ

pub record TraverseGraphOptions : Type 0 where
  pub ci_sys_id : String
  pub direction : Option TraversalDirection
  pub max_depth : Option ℕ
  pub relation_type : Option String
  pub max_nodes : Option ℕ

pub record CmdbCiRecord : Type 0 where
  pub sys_id : String
  pub name : Option String
  pub sys_class_name : Option String

-- A reference field: its text, or an object with a value and maybe a display value.
pub data Reference : Type 0 where
  plain : String → Reference
  linked : String → Option String → Reference

pub record CmdbRelationshipRecord : Type 0 where
  pub sys_id : String
  pub parent : Reference
  pub child : Reference
  pub type : Reference

pub record GraphNode : Type 0 where
  pub sys_id : String
  pub name : String
  pub class_name : String
  pub depth : ℕ

pub record GraphEdge : Type 0 where
  pub parent_sys_id : String
  pub child_sys_id : String
  pub type_name : String
  pub relationship_sys_id : String

pub record Relationship : Type 0 where
  pub related_ci : CmdbCiRecord
  pub direction : TraversalDirection
  pub type_name : String
  pub relationship_sys_id : String

pub record RelationshipsResult : Type 0 where
  pub ci : CmdbCiRecord
  pub relationships : List Relationship

-- The texts of `truncationReason`, with the limit that each names.
pub data TruncationReason : Type 0 where
  node_limit depth_limit : ℕ → TruncationReason

pub record GraphTraversalResult : Type 0 where
  pub root_ci : CmdbCiRecord
  pub nodes : List GraphNode
  pub edges : List GraphEdge
  pub api_call_count : ℕ
  pub truncated : Bool
  pub truncation_reason : Option TruncationReason

-- A response: its status, and the rows of its body where there are any.
pub record Response (A : Type 0) : Type 0 where
  pub status : ℕ
  pub result : Option (List A)

-- `TableAPIRequest.get` on cmdb_ci and on cmdb_rel_ci, by sysparm_query and sysparm_limit. An
-- instance answers the same query alike throughout one call of the methods below.
pub record TableApi : Type 0 where
  pub get_cis : String → ℕ → Option (Response CmdbCiRecord)
  pub rel_rows : String → ℕ → Option (Response CmdbRelationshipRecord)

-- The errors that the methods throw.
pub data CmdbError : Type 0 where
  sys_id_required : CmdbError
  ci_not_found : String → CmdbError

pub data Result (A : Type 0) : Type 0 where
  ok : A → Result A
  throws : CmdbError → Result A
