-- ===== src/Workflow/Models.antt =====
-- An exported workflow, src/sn/workflow/WorkflowModels.ts: the fields that its structure is rebuilt
-- from. A field that the constructor of WorkflowStructure gives a default is optional.
use now_sdk_ext_core.Common.{List, Option, String, Bool, Map, ℤ}

pub record WorkflowExportVariable : Type 0 where
  pub element : String
  pub value : String

pub record WorkflowExportActivityType : Type 0 where
  pub sys_class_name : String
  pub attributes : Option String
  pub waits : Option Bool

pub record WorkflowExportExit : Type 0 where
  pub sys_id : String
  pub name : Option String
  pub condition : Option String
  pub order : Option ℤ

pub record WorkflowExportActivity : Type 0 where
  pub sys_id : String
  pub name : Option String
  pub type_sys_id : String
  pub type : Option String
  pub x : Option ℤ
  pub y : Option ℤ
  pub variables : Option (List WorkflowExportVariable)
  pub exits : Option (List WorkflowExportExit)

pub record WorkflowExportTransition : Type 0 where
  pub from : String
  pub exit : Option String
  pub to : String

pub record WorkflowExport : Type 0 where
  -- `version.start`
  pub start : Option String
  pub activity_types : Option (Map WorkflowExportActivityType)
  pub activities : Option (List WorkflowExportActivity)
  pub transitions : Option (List WorkflowExportTransition)
