-- ===== src/Workflow/Structure.antt =====
-- src/sn/workflow/WorkflowStructure.ts: what its constructor reads from an export, and what the
-- methods on one activity answer. A method on an activity that is not there, on which the source
-- throws, answers as if nothing led from it.
use now_sdk_ext_core.Common.{
  Bool, true, false, not, ◌&&◌, ◌||◌, List, [], ◌∷◌, ◌++◌, map, Option, none, some, String,
  if◌then◌else◌, or_else, is_some, Map, lookup, insert, map_values, sort_by, ℤ, pos, ltb_int, codes,
  is_space,
}
use now_sdk_ext_core.Common.Regex.{Regex, seq, alt, star, char, at_start, lit, lit_char, test_i}
use text.Mathlib.Text.{◌==◌ as str_eq}
use now_sdk_ext_core.Workflow.Models.{
  WorkflowExportVariable, WorkflowExportActivityType, WorkflowExportExit, WorkflowExportActivity,
  WorkflowExportTransition, WorkflowExport,
}

-- An exit and an activity as the constructor keeps them.
pub record Exit : Type 0 where
  pub sys_id : String
  pub name : String
  pub condition : String
  pub order : Option ℤ

pub record Activity : Type 0 where
  pub name : String
  pub type_sys_id : String
  pub type : String
  pub x : Option ℤ
  pub y : Option ℤ
  pub variables : List WorkflowExportVariable
  pub exits : List Exit

-- `activities`, `_out` and `_incoming`, with the export.
pub record Wiring : Type 0 where
  pub data_ : WorkflowExport
  pub activities : Map Activity
  pub out : Map (Map (List String))
  pub incoming_edges : Map (List (String × String))

-- Text of no length is as good as none.
abbrev pub truthy : Option String → Option String
truthy none = none
truthy (some s) = if str_eq s "" then none else some s

-- `||` on comparisons: the second decides where the first puts neither first.
abbrev pub order_then : ℤ → ℤ → Bool → Bool
order_then a b later = if ltb_int a b then true else if ltb_int b a then false else later

abbrev pub load_exit : WorkflowExportExit → Exit
load_exit e = record {
  sys_id = e.sys_id;
  name = or_else e.name "";
  condition = or_else e.condition "";
  order = e.order;
}

abbrev pub concat : {A : Type 0} → List (List A) → List A
concat [] = []
concat (xs ∷ rest) = xs ++ concat rest

-- `localeCompare` puts its first argument before its second.
module _ (locale_less : String → String → Bool) where
  abbrev pub exit_less : Exit → Exit → Bool
  exit_less x y =
      order_then (or_else x.order (pos 0)) (or_else y.order (pos 0)) (locale_less x.name y.name)

  abbrev pub load_activity : WorkflowExportActivity → Activity
  load_activity a = record {
    name = or_else a.name "";
    type_sys_id = a.type_sys_id;
    type = or_else a.type "";
    x = a.x;
    y = a.y;
    variables = or_else a.variables [];
    exits = sort_by exit_less (map load_exit (or_else a.exits []));
  }

  -- The loop over the activities.
  abbrev pub load_activities : List WorkflowExportActivity → Wiring → Wiring
  load_activities [] w = w
  load_activities (a ∷ rest) w = load_activities rest (record w {
    activities = insert a.sys_id (load_activity a) w.activities;
    out = insert a.sys_id [] w.out;
    incoming_edges = insert a.sys_id [] w.incoming_edges;
  })

  -- Canvas reading order: `compare(a, b) < 0`
  unfoldable pub reads_before : Wiring → String → String → Bool
  reads_before w a b = elim (lookup a w.activities) [
    | none ↦ false
    | some x ↦ elim (lookup b w.activities) [
      | none ↦ false
      | some y ↦
          order_then (or_else x.y (pos 0)) (or_else y.y (pos 0))
            (order_then (or_else x.x (pos 0)) (or_else y.x (pos 0)) (locale_less x.name y.name))
    ]
  ]

  -- The loop that sorts the targets of each exit.
  abbrev pub sort_targets : Wiring → Wiring
  sort_targets w = record w { out = map_values (map_values (sort_by (reads_before w))) w.out }

abbrev pub has_activity : Wiring → String → Bool
has_activity w id = is_some (lookup id w.activities)

-- The loop over the transitions: one whose ends are not both there is passed over.
unfoldable pub wire_transition : WorkflowExportTransition → Wiring → Wiring
wire_transition t w =
    let exits = or_else (lookup t.from w.out) [] in
    let exit = or_else (truthy t.exit) "?" in
    let targets = or_else (lookup exit exits) [] ++ t.to ∷ [] in
    let sources = or_else (lookup t.to w.incoming_edges) [] ++ (t.from, exit) ∷ [] in
    if has_activity w t.from && has_activity w t.to
    then record w {
      out = insert t.from (insert exit targets exits) w.out;
      incoming_edges = insert t.to sources w.incoming_edges;
    }
    else w

abbrev pub wire_transitions : List WorkflowExportTransition → Wiring → Wiring
wire_transitions [] w = w
wire_transitions (t ∷ rest) w = wire_transitions rest (wire_transition t w)

abbrev pub unwired : WorkflowExport → Wiring
unwired data_ = record { data_ = data_; activities = []; out = []; incoming_edges = [] }

-- The constructor, as far as the three loops.
unfoldable pub wire : (String → String → Bool) → WorkflowExport → Wiring
unfolding reads_before wire_transition
wire locale_less data_ =
    let loaded = load_activities locale_less (or_else data_.activities []) (unwired data_) in
    sort_targets locale_less (wire_transitions (or_else data_.transitions []) loaded)

module _ (w : Wiring) where
  -- `activityTypes?.[activities.get(sysId)?.typeSysId]`; a key that is undefined is that text.
  abbrev pub type_of : String → Option WorkflowExportActivityType
  type_of id =
      let key : String = elim (lookup id w.activities) [
        | none ↦ "undefined"
        | some a ↦ a.type_sys_id
      ] in
      lookup key (or_else w.data_.activity_types [])

  abbrev pub attributes_of : String → String
  attributes_of id = elim (type_of id) [ none ↦ "" | some t ↦ or_else t.attributes "" ]

  abbrev pub incoming_of : String → List (String × String)
  incoming_of id = or_else (lookup id w.incoming_edges) []

  abbrev pub out_of : String → Map (List String)
  out_of id = or_else (lookup id w.out) []

  -- `/(^|,)\s*<key>\s*=\s*<value>/i`
  abbrev pub attribute_regex : String → String → Regex
  attribute_regex key value = seq (alt at_start (lit_char b',')) (
      seq (star (char is_space)) (
        seq (lit key) (
          seq (star (char is_space))
            (seq (lit_char b'=') (seq (star (char is_space)) (lit value))))))

  abbrev pub has_attribute : String → String → String → Bool
  has_attribute id key value = test_i (attribute_regex key value) (codes (attributes_of id))

  abbrev pub exits_of : String → List Exit
  exits_of id = elim (lookup id w.activities) [ none ↦ [] | some a ↦ a.exits ]

  abbrev pub is_type : String → String → Bool
  is_type id type = elim (lookup id w.activities) [ none ↦ false | some a ↦ str_eq a.type type ]

  abbrev pub is_end : String → Bool
  is_end id =
      has_attribute id "end" "true"
      || (is_type id "End" && (elim (exits_of id) [ [] ↦ true | _ ∷ _ ↦ false ]))

  abbrev pub is_join : String → Bool
  is_join id = has_attribute id "generate" "join" || is_type id "Join"

  abbrev pub is_designer : String → Bool
  is_designer id = elim (type_of id) [
    | none ↦ false
    | some t ↦ str_eq t.sys_class_name "wf_element_activity"
  ]

  -- `waits(sysId)`; the variable is the first of that name.
  abbrev pub told_not_to_wait : List WorkflowExportVariable → Bool
  told_not_to_wait [] = false
  told_not_to_wait (v ∷ rest) =
      if str_eq v.element "wait_for_completion"
      then str_eq v.value "0" || str_eq v.value "false"
      else told_not_to_wait rest

  abbrev pub activity_waits : String → Bool
  activity_waits id =
      let type_waits : Bool = elim (type_of id) [ none ↦ false | some t ↦ or_else t.waits false ] in
      let told : Bool = elim (lookup id w.activities) [
        | none ↦ false
        | some a ↦ told_not_to_wait a.variables
      ] in
      type_waits && not told

  abbrev pub name_of : String → List Exit → String
  name_of exit [] = "?"
  name_of exit (e ∷ rest) = if str_eq e.sys_id exit then e.name else name_of exit rest

  abbrev pub exit_name : String → String → String
  exit_name from exit = name_of exit (exits_of from)

  -- Each exit of an activity in order, then "?", with where it leads.
  abbrev pub raw_edges_of : String → List (String × String)
  raw_edges_of id =
      let order = map (λ e. e.sys_id) (exits_of id) ++ "?" ∷ [] in
      concat (map (λ exit. map (λ to. (exit, to)) (or_else (lookup exit (out_of id)) [])) order)
