-- ===== src/Policy/Env.antt =====
-- src/policy/PolicyEnv.ts: the layers that environment variables install. An environment is a
-- function from names; a warning is the list of tokens that its message names.
pub mod Laws
pub mod Verbs
use now_sdk_ext_core.Common.{
  Bool, true, false, ◌||◌, List, [], ◌∷◌, map, Option, none, some, String, if◌then◌else◌, any,
  filter, Text, codes, text_eq, to_lower_case, trim, split,
}
use now_sdk_ext_core.Policy.Types.{Verb, write, execute, PolicyLayer}
use now_sdk_ext_core.Policy.Ladder.{deny_layer, grant_layer}

abbrev pub deny_env : String
deny_env = "NEX_POLICY_DENY"

abbrev pub allow_env : String
allow_env = "NEX_POLICY_ALLOW"

abbrev pub all_token : Text
all_token = codes "all"

abbrev pub valid : List Verb
valid = write ∷ execute ∷ []

pub record ParsedVerbs : Type 0 where
  pub verbs : List Verb
  pub unknown : List Text

abbrev pub is_blank : Text → Bool
is_blank [] = true
is_blank (_ ∷ _) = false

-- `VALID.includes(token)`, with the verb that the token spells.
unfoldable pub verb_of : Text → Option Verb
verb_of token =
    if text_eq token (codes "write")
    then some write
    else if text_eq token (codes "execute")
    then some execute
    else none

unfoldable pub tokens_of : Text → List Text
tokens_of raw =
    filter (λ t. if is_blank t then false else true)
      (map (λ t. to_lower_case (trim t)) (split b',' raw))

-- The loop that sorts the tokens into verbs and unknown ones.
unfoldable pub sort_tokens : List Text → ParsedVerbs
sort_tokens [] = record { verbs = []; unknown = [] }
sort_tokens (token ∷ tokens) =
    let rest = sort_tokens tokens in
    elim (verb_of token) [
      | some verb ↦ record { verbs = verb ∷ rest.verbs; unknown = rest.unknown }
      | none ↦ record { verbs = rest.verbs; unknown = token ∷ rest.unknown }
    ]

unfoldable pub parse_verb_list : Option Text → ParsedVerbs
parse_verb_list none = record { verbs = []; unknown = [] }
parse_verb_list (some raw) =
    if any (text_eq all_token) (tokens_of raw)
    then record { verbs = valid; unknown = [] }
    else sort_tokens (tokens_of raw)

abbrev pub Environment : Type 0
Environment = String → Option Text

abbrev pub Warning : Type 0
Warning = List Text

abbrev pub malformed_name : String
malformed_name = "NEX_POLICY_DENY (malformed, failing closed)"

unfoldable pub deny_of : List Verb → List Text → Option PolicyLayer × List Warning
deny_of verbs [] = (some (deny_layer deny_env verbs), [])
deny_of verbs (token ∷ tokens) = (some (deny_layer malformed_name valid), (token ∷ tokens) ∷ [])

-- `raw.trim().length === 0` is tested before the list is parsed.
unfoldable pub deny_from_environment : Environment → Option PolicyLayer × List Warning
unfolding deny_of
deny_from_environment env = elim (env deny_env) [
  | none ↦ (none, [])
  | some raw ↦
      if is_blank (trim raw)
      then (none, [])
      else let parsed = parse_verb_list (some raw) in deny_of parsed.verbs parsed.unknown
]

abbrev pub warning_of : List Text → List Warning
warning_of [] = []
warning_of (token ∷ tokens) = (token ∷ tokens) ∷ []

unfoldable pub allow_of : List Verb → List Text → Option PolicyLayer × List Warning
allow_of [] unknown = (none, warning_of unknown)
allow_of (verb ∷ verbs) unknown = (some (grant_layer allow_env (verb ∷ verbs)), warning_of unknown)

unfoldable pub allow_from_environment : Environment → Option PolicyLayer × List Warning
unfolding allow_of
allow_from_environment env = elim (env allow_env) [
  | none ↦ (none, [])
  | some raw ↦
      if is_blank (trim raw)
      then (none, [])
      else let parsed = parse_verb_list (some raw) in allow_of parsed.verbs parsed.unknown
]
