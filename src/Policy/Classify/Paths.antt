-- ===== src/Policy/Classify/Paths.antt =====
-- The spellings of a path, and what a floor rule that matches it comes to under a deny layer.
use now_sdk_ext_core.Common.{
  true, false, List, [], ◌∷◌, ◌++◌, String, ◌≡◌, inl, inr, refl, arith, In, any, any-true,
  Option-cases, text_eq_iff, or_else, In-set_add_all_left, Text, text_eq,
}
use now_sdk_ext_core.Policy.Types.{Verb, PolicyLayer}
use now_sdk_ext_core.Policy.Ladder.{Policy, install_policy, check_requirement, deny_layer}
use now_sdk_ext_core.Policy.Ladder.Laws.{deny_layer-check_requirement}
use now_sdk_ext_core.Policy.Floor.{FloorRule}
use now_sdk_ext_core.Policy.Classify.{
  Platform, HttpRequest, floor_rules, normalize_query, suffix_of, add_spellings, path_spellings,
  forward_slashes, method_of, requirement_of, applies_to, classify,
}
use now_sdk_ext_core.Policy.Classify.Laws.{FloorAsks, classify-floor}

-- The path as given is always among the spellings: normalizing adds spellings and removes none.
add_spellings-keeps :
    (platform : Platform) (suffix : Text) (candidates spellings : List Text) (path : Text)
    → In path spellings
    → In path (add_spellings platform suffix spellings candidates)
unfolding add_spellings
add_spellings-keeps platform suffix [] spellings path h = h
add_spellings-keeps platform suffix (c ∷ cs) spellings path h =
    add_spellings-keeps platform suffix cs _ path
      (elim (Option-cases (platform.pathname (forward_slashes c))) [
        | inl e ↦ rw (e, add_spellings) h
        | inr (resolved, e) ↦
            rw (e, add_spellings)
              (In-set_add_all_left text_eq text_eq_iff path spellings ((resolved ++ suffix) ∷ []) h)
      ])

path_spellings_self : (platform : Platform) (path : Text) → In path (path_spellings platform path)
unfolding path_spellings
path_spellings_self platform path =
    add_spellings-keeps platform (suffix_of path) _ (path ∷ []) path (inl refl)

-- A floor rule that applies to the method and matches the path as it is written asks for its
-- verbs, whatever the platform makes of the path.
pub FloorAsks-path :
    (platform : Platform) (request : HttpRequest) (rule : FloorRule) (v : Verb)
    → In rule floor_rules
    → applies_to rule.methods (method_of request) ≡ true
    → rule.matches (or_else request.path []) (normalize_query request) ≡ true
    → In v rule.verbs
    → FloorAsks platform request v
FloorAsks-path platform request rule v listed method matched asks =
    let path : Text = or_else request.path [] in
    let some_path : any (λ s. rule.matches s (normalize_query request))
          (path_spellings platform path)
        ≡ true =
      any-true _ path (path_spellings platform path) (path_spellings_self platform path) matched in
    record { rule = rule; listed = listed; matched = ground arith; asks = asks }

-- A request that a floor rule matches by its method and by its path as written is refused, under a
-- deny layer at the top that denies one of the rule's verbs, whatever the request declares of
-- itself, whatever the platform makes of its path and whatever the layers below grant.
pub floor_refused :
    (platform : Platform) (request : HttpRequest) (rule : FloorRule) (v : Verb) (p : Policy)
    (name : String) (denied : List Verb) (below : List PolicyLayer)
    → In rule floor_rules
    → applies_to rule.methods (method_of request) ≡ true
    → rule.matches (or_else request.path []) (normalize_query request) ≡ true
    → In v rule.verbs
    → In v denied
    → (check_requirement
        (install_policy (deny_layer name denied ∷ below) p)
        (requirement_of (classify platform request))).allowed
      ≡ false
unfolding requirement_of
floor_refused platform request rule v p name denied below listed method matched asks denies =
    let (needed, on) =
      classify-floor platform request v
        (FloorAsks-path platform request rule v listed method matched asks) in
    deny_layer-check_requirement p name denied below _ v denies needed on
