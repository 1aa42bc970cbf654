-- ===== src/Policy/Tests.antt =====
-- Runs of the policy, src/policy, at concrete requests, scripts and environments.
use now_sdk_ext_core.Common.{
  true, false, List, [], ◌∷◌, none, some, String, Text, codes, text_eq, ◌≡◌, refl, inl, inr, ◌⊎◌,
  In, ◌↔◌, any, trim, or_else, split, All, ends_with,
}
use now_sdk_ext_core.Policy.Types.{
  Verb, write, execute, Requirement, instance_target, PolicyLayer, deny,
}
use now_sdk_ext_core.Policy.Ladder.{
  Policy, initial, install_policy, check_requirement, resolve_verb, deny_layer, grant_layer,
  default_layer, first_missing,
}
use now_sdk_ext_core.Policy.Ladder.Laws.{
  check_requirement-allowed_iff, check_requirement_refused, deny_layer-check_requirement,
  resolve_verb-Resolved, is_gated, Granted, Speaks, Abstain, Resolved,
}
use now_sdk_ext_core.Policy.Env.{
  Environment, all_token, tokens_of, verb_of, parse_verb_list, deny_from_environment, deny_of,
  sort_tokens, malformed_name, valid,
}
use now_sdk_ext_core.Policy.Env.Laws.{deny_from_environment_closed}
use now_sdk_ext_core.Policy.Env.Verbs.{Names, says, parse_verb_list-joined}
use now_sdk_ext_core.Policy.Floor.{str, has_key, path_is}
use now_sdk_ext_core.Policy.Classify.{
  Platform, HttpRequest, classify, requirement_of, script_rule, floor_rules, base_verbs,
  normalize_query,
}
use now_sdk_ext_core.Policy.Classify.Laws.{FloorAsks, classify-verbs_iff, classify-floor}
use now_sdk_ext_core.Policy.Classify.Paths.{floor_refused, FloorAsks-path}
use now_sdk_ext_core.Policy.Classify.Queries.{delete_all-classify}
use now_sdk_ext_core.Policy.ScanScript as Scan
use now_sdk_ext_core.Policy.ScanScript.{
  Value, Parser, Fields, end, field, object, string, scalar, array, nil, cons, parse_script,
  scan_script, requirement_for_script, is_mutating, mutating_methods, is_skipped, es5, latest,
}
use now_sdk_ext_core.Policy.ScanScript.Laws.{Suspect, named_method}
use now_sdk_ext_core.Policy.ScanScript.Walk.{
  Contains, IsCall, requirement_for_script-Suspect, requirement_for_script-quiet,
}

-- A platform whose URLs are normal already.
abbrev plain_platform : Platform
plain_platform = record { pathname = λ t. some t; decode_uri_component = λ t. some t }

abbrev request_of : String → String → HttpRequest
request_of method path = record {
  path = some (codes path);
  query = none;
  fields = none;
  method = some (codes method);
  requires = none;
}

abbrev run_script : HttpRequest
run_script = request_of "POST" "/sys.scripts.do"

abbrev list_incidents : HttpRequest
list_incidents = request_of "GET" "/api/now/table/incident"

abbrev add_incident : HttpRequest
add_incident = request_of "POST" "/api/now/table/incident"

abbrev delete_by_form : HttpRequest
delete_by_form = record list_incidents {
  fields = some (("sysparm_delete_all", str (codes "true")) ∷ []);
}

abbrev all_granted : List PolicyLayer
all_granted = grant_layer "config" (write ∷ execute ∷ []) ∷ []

abbrev read_only_layers : List PolicyLayer
read_only_layers = deny_layer "read only" (write ∷ []) ∷ all_granted

abbrev needs_write : Requirement
needs_write = record { verbs = execute ∷ write ∷ []; target = instance_target }

abbrev guarded : Policy
guarded = record { layers = read_only_layers; installed = true; remediation_writer = none }

script_listed : In script_rule floor_rules
unfolding floor_rules
script_listed = inl refl

script_matches :
    script_rule.matches (or_else run_script.path []) (normalize_query run_script) ≡ true
unfolding path_is ends_with
script_matches = refl

floor_refused_example :
    (check_requirement
      (install_policy (deny_layer "no scripts" (execute ∷ []) ∷ all_granted) initial)
      (requirement_of (classify plain_platform run_script))).allowed
    ≡ false
floor_refused_example =
    floor_refused plain_platform run_script script_rule execute initial "no scripts" (execute ∷ [])
      all_granted script_listed refl script_matches (inl refl) (inl refl)

check_requirement-allowed_iff_example : ((check_requirement guarded needs_write).allowed ≡ true) ↔ (
    (is_gated guarded needs_write ≡ false)
    ⊎ All (λ v. Granted read_only_layers v) (execute ∷ write ∷ []))
check_requirement-allowed_iff_example = check_requirement-allowed_iff guarded needs_write

needs_write_refused : (check_requirement guarded needs_write).allowed ≡ false
unfolding check_requirement resolve_verb deny_layer grant_layer first_missing
needs_write_refused = refl

check_requirement_refused_example :
    (v : Verb) × In v (execute ∷ write ∷ [])
    × (Speaks read_only_layers v deny (check_requirement guarded needs_write).deciding_layer
        ⊎ (Abstain v read_only_layers
            × ((check_requirement guarded needs_write).deciding_layer ≡ default_layer)))
check_requirement_refused_example =
    check_requirement_refused guarded needs_write needs_write_refused

deny_layer-check_requirement_example :
    (check_requirement (install_policy read_only_layers initial) needs_write).allowed ≡ false
deny_layer-check_requirement_example =
    deny_layer-check_requirement initial "read only" (write ∷ []) all_granted needs_write write
      (inl refl) (inr (inl refl)) refl

resolve_verb-Resolved_example : Resolved read_only_layers execute
resolve_verb-Resolved_example = resolve_verb-Resolved read_only_layers execute

resolve_verb_run : resolve_verb read_only_layers execute ≡ (true, "config")
unfolding resolve_verb deny_layer grant_layer
resolve_verb_run = refl

-- A typing error in the list.
abbrev misspelt : Environment
misspelt name = some (codes "write, exec")

misspelt_plain : any (text_eq all_token) (tokens_of (codes "write, exec")) ≡ false
unfolding tokens_of split trim
misspelt_plain = refl

misspelt_listed : In (codes "exec") (tokens_of (codes "write, exec"))
unfolding tokens_of split trim
misspelt_listed = inr (inl refl)

misspelt_odd : verb_of (codes "exec") ≡ none
unfolding verb_of
misspelt_odd = refl

misspelt_layer : (deny_from_environment misspelt).0 ≡ some (deny_layer malformed_name valid)
unfolding deny_from_environment deny_of parse_verb_list sort_tokens tokens_of verb_of trim split
misspelt_layer = refl

deny_from_environment_closed_example :
    (check_requirement
      (install_policy (deny_layer malformed_name valid ∷ all_granted) initial)
      (record { verbs = execute ∷ []; target = instance_target })).allowed
    ≡ false
unfolding trim
deny_from_environment_closed_example =
    deny_from_environment_closed misspelt (codes "write, exec") (codes "exec") initial
      (deny_layer malformed_name valid) all_granted
      (record { verbs = execute ∷ []; target = instance_target }) execute refl refl misspelt_plain
      misspelt_listed misspelt_odd misspelt_layer (inl refl) refl

parse_verb_list-joined_example :
    In write (parse_verb_list (some (codes "exec, WRITE"))).verbs
    ↔ ((q : Text) × In q (codes "exec" ∷ codes " WRITE" ∷ []) × Names write (says q))
parse_verb_list-joined_example =
    parse_verb_list-joined (codes "exec") (codes " WRITE" ∷ []) write refl

classify-verbs_iff_example :
    In write (classify plain_platform add_incident).verbs
    ↔ (In write (base_verbs add_incident) ⊎ FloorAsks plain_platform add_incident write)
classify-verbs_iff_example = classify-verbs_iff plain_platform add_incident write

script_asks : FloorAsks plain_platform run_script execute
script_asks =
    FloorAsks-path plain_platform run_script script_rule execute script_listed refl script_matches
      (inl refl)

classify-floor_example :
    In execute (classify plain_platform run_script).verbs
    × ((classify plain_platform run_script).target ≡ instance_target)
classify-floor_example = classify-floor plain_platform run_script execute script_asks

delete_all_there : has_key "sysparm_delete_all" (or_else delete_by_form.fields []) ≡ true
unfolding has_key
delete_all_there = refl

delete_all-classify_example :
    In write (classify plain_platform delete_by_form).verbs
    × ((classify plain_platform delete_by_form).target ≡ instance_target)
delete_all-classify_example =
    delete_all-classify plain_platform delete_by_form (inr delete_all_there)

-- `gr.insert()`
abbrev insert_call : Fields
insert_call = field "type" (string "CallExpression") (
    field "callee"
      (object (
        field "type" (string "MemberExpression") (
          field "property"
            (object (field "type" (string "Identifier") (field "name" (string "insert") end)))
            end)))
      end)

abbrev insert_program : Value
insert_program =
    object
      (field "type" (string "Program") (field "body" (array (cons (object insert_call) nil)) end))

abbrev parses : Value → Parser
parses ast grammar script = some ast

abbrev insert_script : Text
insert_script = codes "gr.insert();"

insert-Suspect : Suspect insert_call
unfolding Scan.get is_mutating mutating_methods
insert-Suspect = named_method refl refl refl refl (inl refl)

insert_found : Contains Suspect insert_program
unfolding is_skipped
insert_found = inr (inr (inl (refl, inl (inl insert-Suspect))))

requirement_for_script-Suspect_example :
    requirement_for_script (parses insert_program) insert_script ≡ execute ∷ write ∷ []
unfolding trim parse_script
requirement_for_script-Suspect_example =
    requirement_for_script-Suspect (parses insert_program) insert_script refl insert_program refl
      insert_found

-- `new Function`, with its arguments left out: no CallExpression.
abbrev new_function : Fields
new_function = field "type" (string "NewExpression") (
    field "callee"
      (object (field "type" (string "Identifier") (field "name" (string "Function") end))) end)

abbrev quiet_statement : Fields
quiet_statement =
    field "type" (string "ExpressionStatement") (field "expression" (object new_function) end)

abbrev quiet_program : Value
quiet_program =
    object (
      field "type" (string "Program")
        (field "body" (array (cons (object quiet_statement) nil)) end))

new_function_quiet : ¬ Contains IsCall (object new_function)
unfolding Scan.get
new_function_quiet (inl e) = absurd (cc)
new_function_quiet (inr (inl (shown, h))) = h
new_function_quiet (inr (inr (inl (shown, inl e)))) = absurd (cc)
new_function_quiet (inr (inr (inl (shown, inr (inl (deep, h)))))) = h
new_function_quiet (inr (inr (inl (shown, inr (inr (inl (deep, h))))))) = h
new_function_quiet (inr (inr (inl (shown, inr (inr (inr h)))))) = h
new_function_quiet (inr (inr (inr h))) = h

quiet_statement_quiet : ¬ Contains IsCall (object quiet_statement)
unfolding Scan.get
quiet_statement_quiet (inl e) = absurd (cc)
quiet_statement_quiet (inr (inl (shown, h))) = h
quiet_statement_quiet (inr (inr (inl (shown, h)))) = new_function_quiet h
quiet_statement_quiet (inr (inr (inr h))) = h

quiet_no-IsCall : ¬ Contains IsCall quiet_program
unfolding Scan.get
quiet_no-IsCall (inl e) = absurd (cc)
quiet_no-IsCall (inr (inl (shown, h))) = h
quiet_no-IsCall (inr (inr (inl (shown, inl h)))) = quiet_statement_quiet h
quiet_no-IsCall (inr (inr (inl (shown, inr h)))) = h
quiet_no-IsCall (inr (inr (inr h))) = h

requirement_for_script-quiet_example :
    requirement_for_script (parses quiet_program) insert_script ≡ execute ∷ []
unfolding trim parse_script
requirement_for_script-quiet_example =
    requirement_for_script-quiet (parses quiet_program) insert_script refl quiet_program refl
      quiet_no-IsCall
