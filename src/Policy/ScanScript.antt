-- ===== src/Policy/ScanScript.antt =====
-- src/policy/ScanScript.ts: the scan of a server-side script for calls that write. The parser
-- (acorn) is a parameter; its syntax tree is a value of JavaScript data.
pub mod Laws
pub mod Walk
use Prim.Native.String
use text.Mathlib.Text.{◌==◌}
use now_sdk_ext_core.Common.{
  Bool, true, false, not, ◌&&◌, ◌||◌, List, [], ◌∷◌, ◌++◌, Option, none, some, String,
  if◌then◌else◌, any, set_add_all, Text, trim,
}
use now_sdk_ext_core.Policy.Types.{Verb, write, execute}

-- A value in the tree. `scalar` is a number, a regular expression or null; `missing` is undefined.
mutual
  pub data Value : Type 0 where
    missing scalar : Value
    string : String → Value
    flag : Bool → Value
    array : Items → Value
    object : Fields → Value

  pub data Fields : Type 0 where
    end : Fields
    field : String → Value → Fields → Fields

  pub data Items : Type 0 where
    nil : Items
    cons : Value → Items → Items

-- `record[key]`
unfoldable pub get : String → Fields → Value
get key end = missing
get key (field k v fs) = if k == key then v else get key fs

-- The properties of a value that is read as a record: what is no object has none of those read.
abbrev pub members : Value → Fields
members (object fs) = fs
members _ = end

abbrev pub text_of : Value → String
text_of (string s) = s
text_of _ = ""

abbrev pub is_string : Value → String → Bool
is_string (string s) t = s == t
is_string _ t = false

abbrev pub is_true : Value → Bool
is_true (flag b) = b
is_true _ = false

abbrev pub is_text : Value → Bool
is_text (string s) = true
is_text _ = false

unfoldable pub mutating_methods : List String
mutating_methods =
    "insert" ∷ "update" ∷ "updateMultiple" ∷ "deleteRecord" ∷ "deleteMultiple"
    ∷ "insertWithReferences" ∷ "updateWithReferences" ∷ "setValue" ∷ "setWorkflow"
    ∷ "savePreference" ∷ "setPreference" ∷ "setCurrentApplicationId" ∷ []

unfoldable pub opaque_calls : List String
opaque_calls = "eval" ∷ "Function" ∷ "GlideEvaluator" ∷ []

unfoldable pub is_mutating : String → Bool
unfolding mutating_methods
is_mutating name = any (λ m. m == name) mutating_methods

unfoldable pub is_opaque : String → Bool
unfolding opaque_calls
is_opaque name = any (λ m. m == name) opaque_calls

-- The variables of `scanScript` that the visitor writes.
pub record Scan : Type 0 where
  pub reasons : List String
  pub escalated : Bool

unfoldable pub add_reason : String → Scan → Scan
add_reason reason st = record st { reasons = st.reasons ++ reason ∷ [] }

unfoldable pub escalate : String → Scan → Scan
escalate reason st = record { reasons = st.reasons ++ reason ∷ []; escalated = true }

abbrev pub opaque_call : String → String
opaque_call name = String.◌++◌ "calls " (String.◌++◌ name "(), whose contents cannot be inspected")

abbrev pub opaque_member : String → String
opaque_member name =
    String.◌++◌ "calls ." (String.◌++◌ name "(), whose contents cannot be inspected")

abbrev pub mutating_call : String → String
mutating_call name = String.◌++◌ "calls ." (String.◌++◌ name "()")

abbrev pub runtime_call : String
runtime_call = "calls a method chosen at runtime, which cannot be resolved"

-- `callee.computed === true`: the name is a literal, or it cannot be known.
unfoldable pub judge_computed : Fields → Scan → Scan
judge_computed property st =
    if is_string (get "type" property) "Literal" && is_text (get "value" property)
    then (if is_mutating (text_of (get "value" property))
        then add_reason (mutating_call (text_of (get "value" property))) st
        else st)
    else escalate runtime_call st

unfoldable pub judge_named : String → Scan → Scan
judge_named name st =
    let st' = if is_mutating name then add_reason (mutating_call name) st else st in
    if is_opaque name then escalate (opaque_member name) st' else st'

unfoldable pub judge_member : Fields → Scan → Scan
judge_member callee st =
    if is_true (get "computed" callee)
    then judge_computed (members (get "property" callee)) st
    else if is_string (get "type" (members (get "property" callee))) "Identifier"
    then judge_named (text_of (get "name" (members (get "property" callee)))) st
    else st

unfoldable pub judge : Fields → Scan → Scan
judge callee st =
    if is_string (get "type" callee) "Identifier" && is_opaque (text_of (get "name" callee))
    then escalate (opaque_call (text_of (get "name" callee))) st
    else if is_string (get "type" callee) "MemberExpression"
    then judge_member callee st
    else st

-- The visitor. A callee that is falsy has no properties, so nothing is said of it.
unfoldable pub visit : Fields → Scan → Scan
visit node st =
    if is_string (get "type" node) "CallExpression"
    then judge (members (get "callee" node)) st
    else st

-- `visit` is called where `typeof record.type === "string"`.
unfoldable pub enter : Fields → Scan → Scan
enter node st = if is_text (get "type" node) then visit node st else st

unfoldable pub is_skipped : String → Bool
is_skipped key = key == "type" || key == "start" || key == "end" || key == "loc"

unfoldable mutual
  pub walk : Value → Scan → Scan
  walk missing st = st
  walk scalar st = st
  walk (string s) st = st
  walk (flag b) st = st
  walk (array xs) st = walk_items xs st
  walk (object fs) st = walk_fields fs (enter fs st)

  pub walk_items : Items → Scan → Scan
  walk_items nil st = st
  walk_items (cons x xs) st = walk_items xs (walk x st)

  pub walk_fields : Fields → Scan → Scan
  walk_fields end st = st
  walk_fields (field key v fs) st =
      let below = walk v st in walk_fields fs (if is_skipped key then st else below)

pub data Grammar : Type 0 where
  es5 latest : Grammar

-- `parse(script, { ecmaVersion })` of acorn; none where it throws.
abbrev pub Parser : Type 0
Parser = Grammar → Text → Option Value

-- The loosest grammar that works, ES5 first.
unfoldable pub parse_script : Parser → Text → Option Value
parse_script parse script = elim (parse es5 script) [
  | some ast ↦ some ast
  | none ↦ parse latest script
]

pub record ScriptScanResult : Type 0 where
  pub verbs : List Verb
  pub reasons : List String
  pub escalated : Bool

abbrev pub nothing_found : ScriptScanResult
nothing_found = record { verbs = []; reasons = []; escalated = false }

abbrev pub write_result : List String → Bool → ScriptScanResult
write_result reasons escalated = record {
  verbs = write ∷ [];
  reasons = reasons;
  escalated = escalated;
}

abbrev pub start : Scan
start = record { reasons = []; escalated = false }

unfoldable pub result_of : Scan → ScriptScanResult
result_of st = elim st.reasons [
  | [] ↦ nothing_found
  | reason ∷ reasons ↦ write_result (set_add_all ◌==◌ [] (reason ∷ reasons)) st.escalated
]

abbrev pub is_blank : Text → Bool
is_blank [] = true
is_blank (_ ∷ _) = false

unfoldable pub scan_script : Parser → Text → ScriptScanResult
unfolding result_of parse_script
scan_script parse script =
    if is_blank (trim script) then nothing_found else elim (parse_script parse script) [
      | none ↦ write_result ("the script could not be parsed, so its effects are unknown" ∷ []) true
      | some ast ↦ result_of (walk ast start)
    ]

-- What a background script needs in total.
unfoldable pub requirement_for_script : Parser → Text → List Verb
requirement_for_script parse script = execute ∷ (scan_script parse script).verbs
