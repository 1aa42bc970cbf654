-- ===== src/Policy/Classify.antt =====
-- src/policy/internal/Classify.ts: what permission a request needs. The floor's rules, the
-- spellings of its path, and the join with what is declared and with the default.
pub mod Laws
pub mod Paths
pub mod Queries
use now_sdk_ext_core.Common.{
  ℕ, Bool, true, false, not, ◌&&◌, ◌||◌, List, [], ◌∷◌, ◌++◌, map, Option, none, some, String,
  or_else, if◌then◌else◌, any, set_add, set_add_all, Text, codes, text_eq, to_lower_case, before,
  ◌==◌, length,
}
use now_sdk_ext_core.Common.{drop}
use now_sdk_ext_core.Policy.Types.{
  Verb, write, execute, verb_eq, Target, instance_target, Requirement,
}
use now_sdk_ext_core.Common.Regex.{alt, ahead, at_end, char, lit, lit_char, plus, opt}
use now_sdk_ext_core.Policy.Floor.{
  QueryValue, Query, get, has_key, FloorRule, path_is, path_matches, ◌then◌, app_client_route,
  not_get, table_path, form_path, is_form_delete, scheduled_tables, deletes_when_done,
}

-- `/[^/]+/`
abbrev segment_chars : ℕ → Bool
segment_chars c = not (c == b'/')

abbrev pub script_rule : FloorRule
script_rule = record {
  why = "background script execution";
  verbs = execute ∷ [];
  methods = none;
  matches = λ p q. path_is "/sys.scripts.do" p;
}

abbrev pub delete_all_rule : FloorRule
delete_all_rule = record {
  why = "sysparm_delete_all";
  verbs = write ∷ [];
  methods = none;
  matches = λ p q. has_key "sysparm_delete_all" q;
}

abbrev pub delete_when_done_rule : FloorRule
delete_when_done_rule = record {
  why = "sysparm_delete_when_done";
  verbs = write ∷ [];
  methods = none;
  matches = λ p q. deletes_when_done (get "sysparm_delete_when_done" q);
}

-- Any change of a scheduled job is a write.
abbrev pub job_write_rule : FloorRule
job_write_rule = record {
  why =
      "scheduled job (sys_trigger or a sysauto table) — persisting a job outlives the request that made it";
  verbs = write ∷ [];
  methods = some not_get;
  matches = λ p q. table_path scheduled_tables p;
}

-- Inserting or changing one schedules server-side script.
abbrev pub job_execute_rule : FloorRule
job_execute_rule = record {
  why =
      "scheduled job — inserting or changing one schedules server-side script (its condition or script)";
  verbs = execute ∷ [];
  methods = some (codes "post" ∷ codes "put" ∷ codes "patch" ∷ []);
  matches = λ p q. table_path scheduled_tables p;
}

abbrev pub job_form_rule : FloorRule
job_form_rule = record {
  why = "scheduled job form submit — inserting or changing one schedules server-side script";
  verbs = write ∷ execute ∷ [];
  methods = some (codes "post" ∷ []);
  matches = λ p q. form_path scheduled_tables p && not (is_form_delete q);
}

-- The un-lowerable minimums, `FLOOR`.
unfoldable pub floor_rules : List FloorRule
floor_rules =
    script_rule
    ∷ record {
      why = "flow designer test run";
      verbs = execute ∷ [];
      methods = some not_get;
      matches = λ p q.
          path_matches
            (lit "/api/now/processflow/"
              then alt (lit "flow") (lit "action/action_types")
              then lit "/"
              then plus (char segment_chars)
              then lit "/test"
              then opt (lit "/")
              then at_end)
            p;
    }
    ∷ record {
      why = "flow designer debug run";
      verbs = execute ∷ [];
      methods = some not_get;
      matches = λ p q.
          path_matches
            (lit "/api/now/processflow/debug/" then alt (lit "start") (lit "command") then lit "/")
            p;
    }
    ∷ record {
      why = "store application install (issued as a GET)";
      verbs = write ∷ [];
      methods = none;
      matches = λ p q. app_client_route (lit "app" then plus (lit "/") then lit "install") p;
    }
    ∷ record {
      why = "store application update (issued as a GET)";
      verbs = write ∷ [];
      methods = none;
      matches = λ p q. app_client_route (lit "app" then plus (lit "/") then lit "update") p;
    }
    ∷ record {
      why = "store application repair (issued as a GET)";
      verbs = write ∷ [];
      methods = none;
      matches = λ p q. app_client_route (lit "app" then plus (lit "/") then lit "repair") p;
    }
    ∷ record {
      why = "plugin activation, repair or rollback, demo data load or store sync (issued as a GET)";
      verbs = write ∷ [];
      methods = none;
      matches = λ p q.
          app_client_route
            (alt
              (lit "plugin"
                then plus (lit "/")
                then alt (lit "activate") (alt (lit "repair") (lit "rollback")))
              (alt (lit "loaddemodata") (lit "sync_apps")))
            p;
    }
    ∷ job_write_rule
    ∷ job_execute_rule
    ∷ job_form_rule
    ∷ delete_all_rule
    ∷ delete_when_done_rule
    ∷ []

-- What classification reads of an `HTTPRequest`. `path` is none where it is no string; `query`
-- and `fields` are none where they are null, undefined or no object. The target of what is
-- declared may be missing.
pub record Declared : Type 0 where
  pub verbs : List Verb
  pub target : Option Target

pub record HttpRequest : Type 0 where
  pub path : Option Text
  pub query : Option Query
  pub fields : Option Query
  pub method : Option Text
  pub requires : Option Declared

-- One round of the loop over the form fields: a key that is there already is kept.
unfoldable pub add_field : String → QueryValue → Query → Query
add_field key value out = if has_key key out then out else out ++ (key, value) ∷ []

unfoldable pub add_fields : Query → Query → Query
unfolding add_field
add_fields out [] = out
add_fields out ((key, value) ∷ fields) = add_fields (add_field key value out) fields

unfoldable pub normalize_query : HttpRequest → Query
unfolding add_fields
normalize_query request = add_fields (or_else request.query []) (or_else request.fields [])

-- The platform's `new URL(text, "http://policy.invalid").pathname` and `decodeURIComponent`;
-- none where they throw.
pub record Platform : Type 0 where
  pub pathname : Text → Option Text
  pub decode_uri_component : Text → Option Text

-- `text.replace(/;[^/]*/g, "")`: whether a parameter is being skipped.
unfoldable pub without_params : Bool → Text → Text
without_params skipping [] = []
without_params skipping (c ∷ s) =
    let kept = c ∷ without_params false s in
    let skipped = without_params true s in
    if c == b';' then skipped else if c == b'/' then kept else if skipping then skipped else kept

-- `text.replace(/\\/g, "/")`
abbrev pub forward_slashes : Text → Text
forward_slashes s = map (λ c. if c == b'\\' then b'/' else c) s

abbrev pub suffix_of : Text → Text
suffix_of path = drop (length (before b'?' path)) path

-- The loop over the candidates; one that does not resolve is skipped.
unfoldable pub add_spellings : Platform → Text → List Text → List Text → List Text
add_spellings platform suffix spellings [] = spellings
add_spellings platform suffix spellings (candidate ∷ candidates) =
    add_spellings platform suffix
      (elim (platform.pathname (forward_slashes candidate)) [
        | some resolved ↦ set_add text_eq spellings (resolved ++ suffix)
        | none ↦ spellings
      ])
      candidates

unfoldable pub path_spellings : Platform → Text → List Text
path_spellings platform path =
    let part = before b'?' path in
    let decoded = or_else (platform.decode_uri_component part) part in
    add_spellings platform (suffix_of path) (path ∷ [])
      (part ∷ decoded ∷ without_params false part ∷ without_params false decoded ∷ [])

-- `(request.method ?? "get").toLowerCase()`
abbrev pub method_of : HttpRequest → Text
method_of request = to_lower_case (or_else request.method (codes "get"))

-- `!rule.methods || rule.methods.includes(method)`
abbrev pub applies_to : Option (List Text) → Text → Bool
applies_to none method = true
applies_to (some methods) method = any (text_eq method) methods

abbrev pub rule_matches : FloorRule → Text → List Text → Query → Bool
rule_matches rule method paths query =
    applies_to rule.methods method && any (λ path. rule.matches path query) paths

pub record Floor : Type 0 where
  pub verbs : List Verb
  pub reasons : List String

-- One round of the loop over the rules.
unfoldable pub floor_step : Text → List Text → Query → FloorRule → Floor → Floor
floor_step method paths query rule found =
    if rule_matches rule method paths query
    then record {
      verbs = set_add_all verb_eq found.verbs rule.verbs;
      reasons = found.reasons ++ rule.why ∷ [];
    }
    else found

unfoldable pub floor_from : Text → List Text → Query → List FloorRule → Floor → Floor
floor_from method paths query [] found = found
floor_from method paths query (rule ∷ rules) found =
    floor_from method paths query rules (floor_step method paths query rule found)

unfoldable pub floor_for : Platform → HttpRequest → Floor
unfolding floor_from floor_step path_spellings add_spellings without_params normalize_query
floor_for platform request =
    floor_from (method_of request) (path_spellings platform (or_else request.path []))
      (normalize_query request) floor_rules (record { verbs = []; reasons = [] })

unfoldable pub verb_default : Option Text → List Verb
verb_default method =
    if text_eq (to_lower_case (or_else method (codes "get"))) (codes "get") then [] else write ∷ []

pub record Classified : Type 0 where
  pub verbs : List Verb
  pub target : Target
  pub reasons : List String

abbrev pub base_verbs : HttpRequest → List Verb
base_verbs request = elim request.requires [
  | some declared ↦ declared.verbs
  | none ↦ verb_default request.method
]

abbrev pub declared_target : HttpRequest → Target
declared_target request = elim request.requires [
  | some declared ↦ or_else declared.target instance_target
  | none ↦ instance_target
]

abbrev pub has_verbs : List Verb → Bool
has_verbs [] = false
has_verbs (_ ∷ _) = true

unfoldable pub classify : Platform → HttpRequest → Classified
classify platform request =
    let floor = floor_for platform request in
    record {
      verbs = set_add_all verb_eq (set_add_all verb_eq [] (base_verbs request)) floor.verbs;
      target = if has_verbs floor.verbs then instance_target else declared_target request;
      reasons = floor.reasons;
    }

-- A classification read as the requirement that `checkRequirement` takes.
unfoldable pub requirement_of : Classified → Requirement
requirement_of c = record { verbs = c.verbs; target = c.target }
