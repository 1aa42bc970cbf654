-- ===== src/Policy/Floor.antt =====
-- The floor of src/policy/internal/Classify.ts: its rules, the query that they read and the
-- spellings of a path that they are matched against.
use now_sdk_ext_core.Common.{
  ℕ, Bool, true, false, not, ◌&&◌, ◌||◌, List, [], ◌∷◌, Option, String, if◌then◌else◌, Text, codes,
  text_eq, to_lower_case, before, ends_with, ◌==◌,
}
use text.Mathlib.Text.{◌==◌ as str_eq}
use now_sdk_ext_core.Policy.Types.{Verb}
use now_sdk_ext_core.Common.Regex.{
  Regex, char, seq, alt, star, ahead, not_ahead, at_start, at_end, test, test_i, lit, plus, opt,
  is_digit, is_word, slashes, one_of,
}

-- A value of a query: a number stands by its text, which is never empty and never spells a
-- Boolean; `other` is null or an object.
pub data QueryValue : Type 0 where
  undefined : QueryValue
  str : Text → QueryValue
  number : ℕ → QueryValue
  boolean : Bool → QueryValue
  other : QueryValue

-- A plain object: its own enumerable properties in order.
abbrev pub Query : Type 0
Query = List (String × QueryValue)

-- `q[key]`
unfoldable pub get : String → Query → QueryValue
get key [] = undefined
get key ((k, v) ∷ q) = if str_eq k key then v else get key q

-- `key in q`
unfoldable pub has_key : String → Query → Bool
has_key key [] = false
has_key key ((k, v) ∷ q) = str_eq k key || has_key key q

pub record FloorRule : Type 0 where
  pub why : String
  pub verbs : List Verb
  pub methods : Option (List Text)
  pub matches : Text → Query → Bool

-- `path.split("?")[0]`
abbrev pub path_part : Text → Text
path_part path = before b'?' path

unfoldable pub path_is : String → Text → Bool
path_is needle path = ends_with (path_part path) (codes needle)

unfoldable pub path_matches : Regex → Text → Bool
path_matches pattern path = test pattern (path_part path)

unfoldable pub path_matches_i : Regex → Text → Bool
path_matches_i pattern path = test_i pattern (path_part path)

infixr 60 ◌then◌
abbrev pub ◌then◌ : Regex → Regex → Regex
a then b = seq a b

-- `(?:v\d+/+)?`
abbrev pub version : Regex
version = opt (lit "v" then plus (char is_digit) then slashes)

abbrev pub route_end : Regex
route_end = not_ahead (char (λ c. is_word c || c == b'-'))

unfoldable pub app_client_route : Regex → Text → Bool
unfolding path_matches_i
app_client_route route = path_matches_i (
    lit "/api"
    then slashes
    then lit "sn_appclient"
    then slashes
    then version
    then lit "appmanager"
    then slashes
    then route
    then route_end)

abbrev pub not_get : List Text
not_get = codes "post" ∷ codes "put" ∷ codes "patch" ∷ codes "delete" ∷ []

unfoldable pub table_path : Regex → Text → Bool
unfolding path_matches_i
table_path tables = path_matches_i (
    lit "/api"
    then slashes
    then lit "now"
    then slashes
    then version
    then lit "table"
    then slashes
    then tables
    then alt (ahead (char (λ c. c == b'/' || c == b';' || c == b'?' || c == b'#'))) at_end)

unfoldable pub form_path : Regex → Text → Bool
unfolding path_matches_i
form_path tables = path_matches_i (
    alt at_start (lit "/")
    then not_ahead (star (char is_word) then lit "_list.do")
    then tables
    then lit ".do"
    then alt (ahead (char (λ c. c == b';' || c == b'?' || c == b'#'))) at_end)

-- `q["sys_action"] === "sysverb_delete"`
abbrev pub is_text : QueryValue → Text → Bool
is_text (str s) t = text_eq s t
is_text _ t = false

unfoldable pub is_form_delete : Query → Bool
unfolding get
is_form_delete q = is_text (get "sys_action" q) (codes "sysverb_delete")

abbrev pub scheduled_job_tables : List Regex
scheduled_job_tables =
    lit "sn_itom_tag_policy"
    ∷ lit "discovery_schedule"
    ∷ lit "wf_workflow_schedule"
    ∷ lit "scheduled_data_import"
    ∷ lit "scheduled_import_set"
    ∷ lit "scheduled_data_export"
    ∷ lit "sys_atf_schedule"
    ∷ lit "sys_flow_trigger_auto_script"
    ∷ lit "sys_api_stats_script"
    ∷ lit "sys_broadcast_message"
    ∷ lit "cert_audit"
    ∷ lit "promin_job"
    ∷ lit "ml_training_request_schedule"
    ∷ lit "cds_client_schedule"
    ∷ lit "sys_error_agg_schedule"
    ∷ lit "cmdb_policy_scheduled_job"
    ∷ lit "sn_cmdb_ws_reconcile_duplicate_template_schedule"
    ∷ lit "sys_cs_timer_event"
    ∷ []

-- `sys_trigger|sysauto(?:_\w+)?|…`
abbrev pub scheduled_tables : Regex
scheduled_tables = one_of (
    lit "sys_trigger"
    ∷ (lit "sysauto" then opt (lit "_" then plus (char is_word)))
    ∷ scheduled_job_tables)

-- The text of a primitive value; an object has none.
digit_text : Bool → Text
digit_text true = codes "true"
digit_text false = codes "false"

-- `sysparm_delete_when_done` is set to anything but "false" or an empty text.
unfoldable pub deletes_when_done : QueryValue → Bool
unfolding digit_text
deletes_when_done undefined = false
deletes_when_done (str s) = not (text_eq (to_lower_case s) (codes "false")) && not (text_eq s [])
deletes_when_done (number n) = true
deletes_when_done (boolean b) = not (text_eq (digit_text b) (codes "false"))
deletes_when_done other = false
