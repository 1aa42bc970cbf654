-- ===== src/Policy/Ladder/Laws.antt =====
-- What the ladder of src/policy/Policy.ts decides, against the order of its layers.
use now_sdk_ext_core.Common.{
  Bool, true, false, not, ◌&&◌, List, [], ◌∷◌, ◌++◌, none, some, String, ◌≡◌, ◌⊎◌, inl, inr, refl,
  ap, ◌↔◌, arith, In, All, any, any-true, Bool-cases, Option-cases, All-In,
}
use now_sdk_ext_core.Policy.Types.{
  Verb, Requirement, instance_target, LayerAnswer, grant, deny, abstain, PolicyLayer, verb_eq,
  verb_eq_iff, is_instance,
}
use now_sdk_ext_core.Policy.Ladder.{
  Policy, default_layer, install_policy, resolve_verb, first_missing, check_requirement, deny_layer,
  is_empty,
}

-- Every layer of a list abstains on the verb.
abbrev pub Abstain : Verb → List PolicyLayer → Type 0
Abstain v ls = All (λ l. l.answer v ≡ abstain) ls

-- The highest layer with an opinion on the verb gives this answer.
pub record Speaks (layers : List PolicyLayer) (v : Verb) (answer : LayerAnswer) (name : String)
    : Type 0 where
  pub above : List PolicyLayer
  pub layer : PolicyLayer
  pub below : List PolicyLayer
  pub ladder : layers ≡ above ++ layer ∷ below
  pub silent : Abstain v above
  pub speaks : layer.answer v ≡ answer
  pub named : layer.name ≡ name

Speaks-cons :
    (l : PolicyLayer) (ls : List PolicyLayer) (v : Verb) (a : LayerAnswer) (n : String)
    → l.answer v ≡ abstain
    → Speaks ls v a n
    → Speaks (l ∷ ls) v a n
Speaks-cons l ls v a n quiet s = record {
  above = l ∷ s.above;
  layer = s.layer;
  below = s.below;
  ladder = ap (λ r. l ∷ r) s.ladder;
  silent = (quiet, s.silent);
  speaks = s.speaks;
  named = s.named;
}

Speaks-here :
    (l : PolicyLayer) (ls : List PolicyLayer) (v : Verb) (a : LayerAnswer)
    → l.answer v ≡ a
    → Speaks (l ∷ ls) v a l.name
Speaks-here l ls v a e = record {
  above = [];
  layer = l;
  below = ls;
  ladder = refl;
  silent = tt;
  speaks = e;
  named = refl;
}

LayerAnswer-cases : (a : LayerAnswer) → (a ≡ grant) ⊎ (a ≡ deny) ⊎ (a ≡ abstain)
LayerAnswer-cases grant = inl refl
LayerAnswer-cases deny = inr (inl refl)
LayerAnswer-cases abstain = inr (inr refl)

-- The result of `resolveVerb`, by what the ladder says.
abbrev pub Resolved : List PolicyLayer → Verb → Type 0
Resolved ls v =
    (((resolve_verb ls v).0 ≡ true) × Speaks ls v grant (resolve_verb ls v).1)
    ⊎ (((resolve_verb ls v).0 ≡ false) × Speaks ls v deny (resolve_verb ls v).1)
    ⊎ (((resolve_verb ls v).0 ≡ false) × Abstain v ls × ((resolve_verb ls v).1 ≡ default_layer))

-- A verb is granted, or denied, by the highest layer that does not abstain on it, whose name is
-- reported; where every layer abstains it is refused in the name of the default layer.
pub resolve_verb-Resolved : (ls : List PolicyLayer) (v : Verb) → Resolved ls v
unfolding resolve_verb
resolve_verb-Resolved [] v = inr (inr (refl, tt, refl))
resolve_verb-Resolved (l ∷ ls) v = elim (LayerAnswer-cases (l.answer v)) [
  | inl e ↦ rw (e, resolve_verb) (inl (refl, Speaks-here l ls v grant e))
  | inr (inl e) ↦ rw (e, resolve_verb) (inr (inl (refl, Speaks-here l ls v deny e)))
  | inr (inr e) ↦
      rw (e, resolve_verb)
        (elim (resolve_verb-Resolved ls v) [
          | inl (g, s) ↦ inl (g, Speaks-cons l ls v grant _ e s)
          | inr (inl (g, s)) ↦ inr (inl (g, Speaks-cons l ls v deny _ e s))
          | inr (inr (g, q, n)) ↦ inr (inr (g, (refl, q), n))
        ])
]

-- `grant` has been given to the verb by the layer with the highest opinion.
abbrev pub IsGranted : List PolicyLayer → Verb → Type 0
IsGranted ls v = (resolve_verb ls v).0 ≡ true

first_missing-eq-none_iff :
    (ls : List PolicyLayer) (vs : List Verb)
    → (first_missing ls vs ≡ none) ↔ All (λ v. IsGranted ls v) vs
unfolding first_missing
first_missing-eq-none_iff ls [] = (λ _. tt, λ _. refl)
first_missing-eq-none_iff ls (v ∷ vs) = ground (arith, first_missing-eq-none_iff ls vs)

first_missing-eq-some :
    (ls : List PolicyLayer) (vs : List Verb) (v : Verb) (n : String)
    → first_missing ls vs ≡ some (v, n)
    → In v vs × (resolve_verb ls v ≡ (false, n))
unfolding first_missing
first_missing-eq-some ls [] v n h = absurd (cc)
first_missing-eq-some ls (w ∷ vs) v n h = elim (Bool-cases (resolve_verb ls w).0) [
  | inl e ↦ let (m, r) = first_missing-eq-some ls vs v n (ground arith) in (inr m, r)
  | inr e ↦ (inl (ground arith), ground arith)
]

-- Converse: the highest opinion is what `resolveVerb` finds.
resolve_verb-above :
    (above below : List PolicyLayer) (l : PolicyLayer) (v : Verb)
    → Abstain v above
    → l.answer v ≡ grant
    → resolve_verb (above ++ l ∷ below) v ≡ (true, l.name)
unfolding resolve_verb
resolve_verb-above [] below l v q e = ground arith
resolve_verb-above (k ∷ above) below l v q e =
    rw (q.0, resolve_verb) (resolve_verb-above above below l v q.1 e)

-- Some layer grants the verb, and every layer above it abstains.
abbrev pub Granted : List PolicyLayer → Verb → Type 0
Granted ls v = (n : String) × Speaks ls v grant n

IsGranted-Granted : (ls : List PolicyLayer) (v : Verb) → IsGranted ls v → Granted ls v
IsGranted-Granted ls v g = elim (resolve_verb-Resolved ls v) [
  | inl (e, s) ↦ (_, s)
  | inr (inl (e, s)) ↦ absurd (cc)
  | inr (inr (e, q, d)) ↦ absurd (cc)
]

Granted-IsGranted : (ls : List PolicyLayer) (v : Verb) → Granted ls v → IsGranted ls v
Granted-IsGranted ls v (n, s) =
    let e : resolve_verb (s.above ++ s.layer ∷ s.below) v ≡ (true, s.layer.name) =
      resolve_verb-above s.above s.below s.layer v s.silent s.speaks in
    rw s.ladder (ap (λ t. t.0) e)

All-imp {κ κ'} :
    {P : Verb → Type κ} {Q : Verb → Type κ'} (f : (v : Verb) → P v → Q v) (vs : List Verb)
    → All P vs
    → All Q vs
All-imp f [] h = tt
All-imp f (v ∷ vs) h = (f v h.0, All-imp f vs h.1)

-- Whether the check looks at the ladder at all.
abbrev pub is_gated : Policy → Requirement → Bool
is_gated p r = p.installed && not (is_empty r.verbs) && is_instance r.target

-- A check allows exactly when it is not gated (no policy, no verb, or another target than the
-- instance), or when every required verb is granted by a layer above which all abstain.
pub check_requirement-allowed_iff :
    (p : Policy) (r : Requirement)
    → ((check_requirement p r).allowed ≡ true)
      ↔ ((is_gated p r ≡ false) ⊎ All (λ v. Granted p.layers v) r.verbs)
unfolding check_requirement
check_requirement-allowed_iff p r = (to, from)
  where
    missing_iff : (first_missing p.layers r.verbs ≡ none) ↔ All (λ v. Granted p.layers v) r.verbs
    missing_iff = (
      λ e.
          All-imp (IsGranted-Granted p.layers) r.verbs
            ((first_missing-eq-none_iff p.layers r.verbs).0 e),
      λ g.
          (first_missing-eq-none_iff p.layers r.verbs).1
            (All-imp (Granted-IsGranted p.layers) r.verbs g),
    )

    to :
        (check_requirement p r).allowed ≡ true
        → (is_gated p r ≡ false) ⊎ All (λ v. Granted p.layers v) r.verbs
    to h = elim (Option-cases (first_missing p.layers r.verbs)) [
      | inl e ↦ inr (missing_iff.0 e)
      | inr (m, e) ↦ inl (ground arith)
    ]

    from :
        (is_gated p r ≡ false) ⊎ All (λ v. Granted p.layers v) r.verbs
        → (check_requirement p r).allowed ≡ true
    from (inl e) = ground arith
    from (inr g) = let e : first_missing p.layers r.verbs ≡ none = missing_iff.1 g in ground arith

-- A refusal names the layer that decided against one of the required verbs: the highest layer with
-- an opinion on it, which denies it, or the default layer where every layer abstains.
pub check_requirement_refused :
    (p : Policy) (r : Requirement)
    → (check_requirement p r).allowed ≡ false
    → (v : Verb) × In v r.verbs
      × (Speaks p.layers v deny (check_requirement p r).deciding_layer
          ⊎ (Abstain v p.layers × ((check_requirement p r).deciding_layer ≡ default_layer)))
unfolding check_requirement
check_requirement_refused p r h = elim (Option-cases (first_missing p.layers r.verbs)) [
  | inl e ↦ absurd (ground arith)
  | inr ((v, n), e) ↦
      let (listed, res) = first_missing-eq-some p.layers r.verbs v n e in
      let g : is_gated p r ≡ true = ground arith in
      let same : (check_requirement p r).deciding_layer ≡ n = ground arith in
      (v, listed, rw same (refused_by v n res))
]
  where
    refused_by :
        (v : Verb) (n : String)
        → resolve_verb p.layers v ≡ (false, n)
        → Speaks p.layers v deny n ⊎ (Abstain v p.layers × (n ≡ default_layer))
    refused_by v n res = elim (rw res at (resolve_verb-Resolved p.layers v)) [
      | inl (g, s) ↦ absurd (cc)
      | inr (inl (g, s)) ↦ inl s
      | inr (inr (g, q, d)) ↦ inr (q, d)
    ]

-- A deny layer at the top cannot be granted past: while a policy with it is installed, every
-- requirement on the instance that contains a denied verb is refused, whatever the layers below.
pub deny_layer-check_requirement :
    (p : Policy) (name : String) (denied : List Verb) (below : List PolicyLayer) (r : Requirement)
    (v : Verb)
    → In v denied
    → In v r.verbs
    → r.target ≡ instance_target
    → (check_requirement (install_policy (deny_layer name denied ∷ below) p) r).allowed ≡ false
unfolding check_requirement install_policy
deny_layer-check_requirement p name denied below r v d m t =
    elim (Option-cases (first_missing (deny_layer name denied ∷ below) r.verbs)) [
      | inl e ↦
          absurd
            (denied_not_granted (All-In _ v r.verbs ((first_missing-eq-none_iff _ r.verbs).0 e) m))
      | inr ((w, n), e) ↦ ground (arith, some_verb r.verbs m)
    ]
  where
    denied_not_granted : IsGranted (deny_layer name denied ∷ below) v → ⊥
    denied_not_granted g =
        let e : any (verb_eq v) denied ≡ true =
          any-true (verb_eq v) v denied d ((verb_eq_iff v v).1 refl) in
        unfold resolve_verb deny_layer in ground arith

    some_verb : (vs : List Verb) → In v vs → is_empty vs ≡ false
    some_verb [] h = absurd h
    some_verb (x ∷ xs) h = refl
