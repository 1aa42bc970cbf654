-- ===== src/Policy/Env/Laws.antt =====
-- What src/policy/PolicyEnv.ts makes of a malformed deny list.
use now_sdk_ext_core.Common.{
  false, List, [], ◌∷◌, none, some, ◌≡◌, inl, inr, refl, In, any, Option-cases, Text, text_eq, trim,
}
use now_sdk_ext_core.Policy.Types.{Verb, write, execute, Requirement, instance_target, PolicyLayer}
use now_sdk_ext_core.Policy.Ladder.{Policy, install_policy, check_requirement, deny_layer}
use now_sdk_ext_core.Policy.Ladder.Laws.{deny_layer-check_requirement}
use now_sdk_ext_core.Policy.Env.{
  deny_env, all_token, valid, malformed_name, verb_of, tokens_of, sort_tokens, parse_verb_list,
  Environment, deny_from_environment, is_blank, deny_of,
}

sort_tokens-unknown :
    (ts : List Text) (t : Text) → In t ts → verb_of t ≡ none → In t (sort_tokens ts).unknown
unfolding sort_tokens
sort_tokens-unknown [] t h e = h
sort_tokens-unknown (u ∷ ts) t (inl s) e =
    let none_here : verb_of u ≡ none = rw (← s) e in rw (none_here, sort_tokens) (inl s)
sort_tokens-unknown (u ∷ ts) t (inr h) e = elim (Option-cases (verb_of u)) [
  | inl n ↦ rw (n, sort_tokens) (inr (sort_tokens-unknown ts t h e))
  | inr (v, y) ↦ rw (y, sort_tokens) (sort_tokens-unknown ts t h e)
]

deny_of_unknown :
    (vs : List Verb) (us : List Text) (t : Text)
    → In t us
    → (deny_of vs us).0 ≡ some (deny_layer malformed_name valid)
unfolding deny_of
deny_of_unknown vs [] t h = absurd h
deny_of_unknown vs (u ∷ us) t h = refl

deny_of_known :
    (vs : List Verb) (us : List Text)
    → us ≡ []
    → deny_of vs us ≡ (some (deny_layer deny_env vs), [])
unfolding deny_of
deny_of_known vs [] h = refl
deny_of_known vs (u ∷ us) h = absurd (cc)

pub In-valid : (v : Verb) → In v valid
In-valid write = inl refl
In-valid execute = inr (inl refl)

-- One token that spells no verb makes the layer deny both verbs, whatever else the variable holds
-- (the token `all` apart).
deny_from_environment_unknown :
    (env : Environment) (raw t : Text)
    → env deny_env ≡ some raw
    → is_blank (trim raw) ≡ false
    → any (text_eq all_token) (tokens_of raw) ≡ false
    → In t (tokens_of raw)
    → verb_of t ≡ none
    → (deny_from_environment env).0 ≡ some (deny_layer malformed_name valid)
unfolding deny_from_environment parse_verb_list
deny_from_environment_unknown env raw t set full plain listed odd =
    rw (set, deny_from_environment)
      (rw (full, deny_from_environment)
        (rw (plain, deny_from_environment, parse_verb_list)
          (deny_of_unknown _ _ t (sort_tokens-unknown (tokens_of raw) t listed odd))))

-- Failing closed: if NEX_POLICY_DENY is not blank, does not hold the token `all` and holds one
-- token that spells no verb, then with its layer at the top every requirement on the instance that
-- needs some verb is refused, whatever the layers below.
pub deny_from_environment_closed :
    (env : Environment) (raw t : Text) (p : Policy) (top : PolicyLayer) (below : List PolicyLayer)
    (r : Requirement) (v : Verb)
    → env deny_env ≡ some raw
    → is_blank (trim raw) ≡ false
    → any (text_eq all_token) (tokens_of raw) ≡ false
    → In t (tokens_of raw)
    → verb_of t ≡ none
    → (deny_from_environment env).0 ≡ some top
    → In v r.verbs
    → r.target ≡ instance_target
    → (check_requirement (install_policy (top ∷ below) p) r).allowed ≡ false
deny_from_environment_closed env raw t p top below r v set full plain listed odd layer needs on =
    let e : deny_layer malformed_name valid ≡ top =
      cc (deny_from_environment_unknown env raw t set full plain listed odd, layer) in
    rw (← e) (deny_layer-check_requirement p malformed_name valid below r v (In-valid v) needs on)
