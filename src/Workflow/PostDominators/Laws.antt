-- ===== src/Workflow/PostDominators/Laws.antt =====
-- What `computePostDominators` of src/sn/workflow/WorkflowStructure.ts finds.
use now_sdk_ext_core.Common.{
  ◌+◌, true, false, not, List, [], ◌∷◌, none, some, String, ◌≡◌, ◌≢◌, ◌⊎◌, inl, inr, ◌↔◌, refl, sym,
  eq_iff, arith, Bool-cases, all, filter, In, In-filter_to, In-filter_from, all-true, all-In, Map,
}
use text.Mathlib.Text.{◌==◌ as str_eq}
use now_sdk_ext_core.Workflow.PostDominators.{
  workflow_exit, contains, set_of, all_ids, first_sets, first_with_all, immediate, common, sizes,
  post_dominators,
}
use now_sdk_ext_core.Workflow.PostDominators.Merge.{
  contains-In, contains-true, common_cases, Nodup-common,
}
use now_sdk_ext_core.Workflow.PostDominators.Settle.{Avoiding, leave, pass_on, IsFlow, Good}
use now_sdk_ext_core.Workflow.PostDominators.First.{first_sets-Good, all_ids_cases}
use now_sdk_ext_core.Workflow.PostDominators.Loop.{same-fills, settle_sets-total}

module _ (succ : String → List String) (ids : List String) where
  -- Every path from `n` out of the workflow passes `x`.
  abbrev pub PostDominates : String → String → Type 0
  PostDominates x n = In x (all_ids ids) × ¬ Avoiding succ ids x n

  -- The sets hold for each activity what post-dominates it.
  abbrev pub HoldsPostDominators : Map (List String) → Type 0
  HoldsPostDominators pdom =
      (n x : String) → In n ids ⊎ (n ≡ workflow_exit) → In x (set_of pdom n) ↔ PostDominates x n

  -- An activity's post-dominator, other than itself.
  abbrev pub Strict : String → String → Type 0
  Strict n x = (x ≢ n) × PostDominates x n

  -- A strict post-dominator that all the others post-dominate.
  abbrev pub Nearest : String → String → Type 0
  Nearest n c = Strict n c × ((o : String) → Strict n o → PostDominates o c)

module _ (succ : String → List String) (ids : List String) (flow : IsFlow succ ids) where
  module _ (pdom : Map (List String)) (good : Good succ ids pdom)
      (fixed : (n x : String) → In n ids → In x (set_of pdom n) → In x (common succ pdom n)) where
    -- What an activity has, no path avoids.
    none_avoids : (x n : String) → Avoiding succ ids x n → ¬ In x (set_of pdom n)
    none_avoids x n (leave other) h = elim (rw (good.marker) at h) [ inl e ↦ other e | inr z ↦ z ]
    none_avoids x n (pass_on {s} other there follows path) h =
        elim (common_cases succ pdom n x (fixed n x there h)) [
          | inl e ↦ other e
          | inr every ↦ none_avoids x s path (every s follows)
        ]

    holds : HoldsPostDominators succ ids pdom
    holds n x there = (
      λ h. (good.bounded n x h, λ path. none_avoids x n path h),
      λ p. good.complete n x there p.0 p.1,
    )

  pub post_dominators-total :
      (pdom : Map (List String)) × (post_dominators succ ids ≡ some pdom)
      × HoldsPostDominators succ ids pdom
  unfolding post_dominators
  post_dominators-total =
      let (pdom, e, good, settled) =
        settle_sets-total succ ids flow (sizes ids (first_sets ids) + 1) (first_sets ids)
          (omega arith) (first_sets-Good succ ids flow) in
      let fixed = λ (n x : String) (there : In n ids) (h : In x (set_of pdom n)).
        same-fills (common succ pdom n) (set_of pdom n) (Nodup-common succ pdom n good.nodup)
          (λ y. good.post n y there) (settled n there) x h in
      (pdom, e, holds pdom good fixed)

  module _ (pdom : Map (List String)) (h : HoldsPostDominators succ ids pdom) (n : String)
      (there : In n ids) where
    abbrev strict : List String
    strict = filter (λ x. not (str_eq x n)) (set_of pdom n)

    strict_to : (x : String) → In x strict → Strict succ ids n x
    strict_to x m =
        let (known, other) = In-filter_to _ x (set_of pdom n) m in
        (λ e. cc ((eq_iff x n).1 e, other), (h n x (inl there)).0 known)

    strict_from : (x : String) → Strict succ ids n x → In x strict
    strict_from x (other, p) =
        In-filter_from _ x (set_of pdom n) ((h n x (inl there)).1 p)
          (elim (Bool-cases (str_eq x n)) [
            | inl e ↦ absurd (other ((eq_iff x n).0 e))
            | inr e ↦ rw e refl
          ])

    first_with_all-some :
        (cs : List String) (c : String)
        → first_with_all pdom strict cs ≡ some c
        → In c cs × (all (λ o. contains o (set_of pdom c)) strict ≡ true)
    first_with_all-some [] c e = absurd (cc)
    first_with_all-some (k ∷ cs) c e =
        elim (Bool-cases (all (λ o. contains o (set_of pdom k)) strict)) [
          | inl q ↦ let same : k ≡ c = cc (rw q at e) in (inl (sym same), rw (← same) q)
          | inr q ↦ let (m, r) = first_with_all-some cs c (rw q at e) in (inr m, r)
        ]

    first_with_all-none :
        (cs : List String)
        → first_with_all pdom strict cs ≡ none
        → (c : String) → In c cs
        → all (λ o. contains o (set_of pdom c)) strict ≡ false
    first_with_all-none [] e c m = absurd m
    first_with_all-none (k ∷ cs) e c m =
        elim (Bool-cases (all (λ o. contains o (set_of pdom k)) strict)) [
          | inl q ↦ absurd (cc (rw q at e))
          | inr q ↦ elim m [
            | inl same ↦ rw same q
            | inr m' ↦ first_with_all-none cs (rw q at e) c m'
          ]
        ]

    pub immediate-Nearest :
        ((c : String) → immediate pdom n ≡ some c → Nearest succ ids n c)
        × (immediate pdom n ≡ none → (c : String) → ¬ Nearest succ ids n c)
    unfolding immediate
    immediate-Nearest = (
      λ c e.
          let (m, every) = first_with_all-some strict c e in
          let s = strict_to c m in
          (
            s,
            λ o q. (h c o (all_ids_cases succ ids flow c s.1.0)).0 (
                contains-In o (set_of pdom c)
                  (all-In (λ o. contains o (set_of pdom c)) o strict every (strict_from o q))),
          ),
      λ e c (s, nearest).
          let missing = first_with_all-none strict e c (strict_from c s) in
          let every : all (λ o. contains o (set_of pdom c)) strict ≡ true =
            all-true (λ o. contains o (set_of pdom c)) strict
              (λ o m.
                contains-true o (set_of pdom c)
                  ((h c o (all_ids_cases succ ids flow c s.1.0)).1 (nearest o (strict_to o m)))) in
          cc,
    )
