-- ===== src/Policy/Classify/Laws.antt =====
-- What src/policy/internal/Classify.ts promises: the join of the tiers, and a floor that no
-- declaration lowers.
use now_sdk_ext_core.Common.{
  true, List, [], ◌∷◌, ◌≡◌, ◌⊎◌, inl, inr, refl, ◌↔◌, In, Bool-cases, or_else, set_add_all,
  In-set_add_all_left, In-set_add_all_right, In-set_add_all_cases, Text,
}
use now_sdk_ext_core.Policy.Types.{Verb, verb_eq, verb_eq_iff, instance_target}
use now_sdk_ext_core.Policy.Floor.{Query, FloorRule}
use now_sdk_ext_core.Policy.Classify.{
  Platform, HttpRequest, Floor, floor_rules, normalize_query, path_spellings, method_of,
  rule_matches, floor_step, floor_from, floor_for, base_verbs, has_verbs, classify,
}

-- A rule of the list matches and asks for the verb.
pub record Asks (method : Text) (paths : List Text) (query : Query) (rules : List FloorRule)
    (v : Verb) : Type 0 where
  pub rule : FloorRule
  pub listed : In rule rules
  pub matched : rule_matches rule method paths query ≡ true
  pub asks : In v rule.verbs

module _ (method : Text) (paths : List Text) (query : Query) where
  Asks-cons :
      (rule : FloorRule) (rules : List FloorRule) (v : Verb)
      → Asks method paths query rules v
      → Asks method paths query (rule ∷ rules) v
  Asks-cons rule rules v a = record {
    rule = a.rule;
    listed = inr a.listed;
    matched = a.matched;
    asks = a.asks;
  }

  -- A round keeps the verbs that it has, and adds those of a rule that matches.
  floor_step-keeps :
      (rule : FloorRule) (found : Floor) (v : Verb)
      → In v found.verbs
      → In v (floor_step method paths query rule found).verbs
  unfolding floor_step
  floor_step-keeps rule found v h = elim (Bool-cases (rule_matches rule method paths query)) [
    | inl e ↦
        rw (e, floor_step) (In-set_add_all_left verb_eq verb_eq_iff v found.verbs rule.verbs h)
    | inr e ↦ rw (e, floor_step) h
  ]

  floor_step-adds :
      (rule : FloorRule) (found : Floor) (v : Verb)
      → rule_matches rule method paths query ≡ true
      → In v rule.verbs
      → In v (floor_step method paths query rule found).verbs
  unfolding floor_step
  floor_step-adds rule found v e h =
      rw (e, floor_step) (In-set_add_all_right verb_eq verb_eq_iff v found.verbs rule.verbs h)

  floor_step-only :
      (rule : FloorRule) (found : Floor) (v : Verb)
      → In v (floor_step method paths query rule found).verbs
      → In v found.verbs ⊎ ((rule_matches rule method paths query ≡ true) × In v rule.verbs)
  unfolding floor_step
  floor_step-only rule found v h = elim (Bool-cases (rule_matches rule method paths query)) [
    | inl e ↦
        elim (In-set_add_all_cases verb_eq verb_eq_iff v found.verbs rule.verbs
          (rw (e, floor_step) at h)) [ inl o ↦ inl o | inr n ↦ inr (e, n) ]
    | inr e ↦ inl (rw (e, floor_step) at h)
  ]

  floor_from-keeps :
      (rules : List FloorRule) (found : Floor) (v : Verb)
      → In v found.verbs
      → In v (floor_from method paths query rules found).verbs
  unfolding floor_from
  floor_from-keeps [] found v h = h
  floor_from-keeps (rule ∷ rules) found v h =
      floor_from-keeps rules _ v (floor_step-keeps rule found v h)

  floor_from-adds :
      (rules : List FloorRule) (found : Floor) (v : Verb)
      → Asks method paths query rules v
      → In v (floor_from method paths query rules found).verbs
  unfolding floor_from
  floor_from-adds [] found v a = absurd a.listed
  floor_from-adds (rule ∷ rules) found v a = elim a.listed [
    | inl s ↦
        floor_from-keeps rules _ v
          (floor_step-adds rule found v (rw (← s) a.matched) (rw (← s) a.asks))
    | inr h ↦
        floor_from-adds rules _ v
          (record { rule = a.rule; listed = h; matched = a.matched; asks = a.asks })
  ]

  floor_from-only :
      (rules : List FloorRule) (found : Floor) (v : Verb)
      → In v (floor_from method paths query rules found).verbs
      → In v found.verbs ⊎ Asks method paths query rules v
  unfolding floor_from
  floor_from-only [] found v h = inl h
  floor_from-only (rule ∷ rules) found v h = elim (floor_from-only rules _ v h) [
    | inr a ↦ inr (Asks-cons rule rules v a)
    | inl old ↦ elim (floor_step-only rule found v old) [
      | inl o ↦ inl o
      | inr (e, n) ↦ inr (record { rule = rule; listed = inl refl; matched = e; asks = n })
    ]
  ]

abbrev pub FloorAsks : Platform → HttpRequest → Verb → Type 0
FloorAsks platform request v =
    Asks (method_of request) (path_spellings platform (or_else request.path []))
      (normalize_query request) floor_rules v

pub floor_for_iff :
    (platform : Platform) (request : HttpRequest) (v : Verb)
    → In v (floor_for platform request).verbs ↔ FloorAsks platform request v
unfolding floor_for
floor_for_iff platform request v = (
  λ h. elim (floor_from-only _ _ _ floor_rules _ v h) [ inl x ↦ absurd x | inr a ↦ a ],
  λ a. floor_from-adds _ _ _ floor_rules _ v a,
)

-- A request needs exactly the verbs that are declared for it (or, where nothing is declared, the
-- default for its method), and those of every floor rule that matches it.
pub classify-verbs_iff :
    (platform : Platform) (request : HttpRequest) (v : Verb)
    → In v (classify platform request).verbs
      ↔ (In v (base_verbs request) ⊎ FloorAsks platform request v)
unfolding classify
classify-verbs_iff platform request v =
    let base : List Verb = set_add_all verb_eq [] (base_verbs request) in
    let floor : List Verb = (floor_for platform request).verbs in
    (
      λ h. elim (In-set_add_all_cases verb_eq verb_eq_iff v base floor h) [
        | inl b ↦ elim (In-set_add_all_cases verb_eq verb_eq_iff v [] (base_verbs request) b) [
          | inl x ↦ absurd x
          | inr d ↦ inl d
        ]
        | inr f ↦ inr ((floor_for_iff platform request v).0 f)
      ],
      λ w. elim w [
        | inl b ↦
            In-set_add_all_left verb_eq verb_eq_iff v base floor
              (In-set_add_all_right verb_eq verb_eq_iff v [] (base_verbs request) b)
        | inr a ↦
            In-set_add_all_right verb_eq verb_eq_iff v base floor
              ((floor_for_iff platform request v).1 a)
      ],
    )

has_verbs_of_In : (vs : List Verb) (v : Verb) → In v vs → has_verbs vs ≡ true
has_verbs_of_In [] v h = absurd h
has_verbs_of_In (x ∷ xs) v h = refl

-- A verb that the floor asks for is needed of the instance, whatever target was declared.
pub classify-floor :
    (platform : Platform) (request : HttpRequest) (v : Verb)
    → FloorAsks platform request v
    → In v (classify platform request).verbs
      × ((classify platform request).target ≡ instance_target)
unfolding classify
classify-floor platform request v a =
    let listed : has_verbs (floor_for platform request).verbs ≡ true =
      has_verbs_of_In _ v ((floor_for_iff platform request v).1 a) in
    ((classify-verbs_iff platform request v).1 (inr a), rw listed)
