-- ===== src/Workflow/OutlineItems.antt =====
-- The block tree that `buildOutline` of src/sn/workflow/WorkflowStructure.ts makes of a workflow.
use now_sdk_ext_core.Common.{ℕ, Bool, List, Option, String, Map}

-- OutlineStep, without its branches.
pub record Step : Type 0 where
  pub activity : String
  pub number : ℕ
  pub loops : List (String × String)
  pub dead_exits : List (String × String)
  pub decision : Bool
  pub direct_exits : List String
  pub main_exit : Option (String × String)

mutual
  pub data OutlineItem : Type 0 where
    step_item : Step → Branches → OutlineItem
    end_item goto_item : String → OutlineItem
    rejoins_below : OutlineItem
    rejoin : Bool → OutlineItem

  pub data OutlineItems : Type 0 where
    no_items : OutlineItems
    item : OutlineItem → OutlineItems → OutlineItems

  pub data Lanes : Type 0 where
    no_lanes : Lanes
    lane : OutlineItems → Lanes → Lanes

  -- A branch: its exit, its condition and its lanes.
  pub data Branches : Type 0 where
    no_branches : Branches
    branch : Option String → String → Lanes → Branches → Branches

abbrev pub Numbers : Type 0
Numbers = Map ℕ

-- `sequence`, in the middle of its loop: from where, its stops, the steps ahead, whether nothing was
-- shown yet, and the numbers given. None means that the fuel ran out.
abbrev pub Sequence : Type 0
Sequence = String → List String → List String → Bool → Numbers → Option (OutlineItems × Numbers)

pub record WorkflowOutline : Type 0 where
  pub main : OutlineItems
  pub unreachable : Lanes
  pub numbers : Numbers
