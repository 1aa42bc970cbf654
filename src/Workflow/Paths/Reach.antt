-- ===== src/Workflow/Paths/Reach.antt =====
-- What `reach`, `reachUntilJoin` and `forwardReach` of src/sn/workflow/WorkflowStructure.ts find.
use now_sdk_ext_core.Common.{
  suc, Bool, true, false, ◌&&◌, ◌||◌, List, [], ◌∷◌, Option, none, some, String, ◌≡◌, ◌≢◌, ◌⊎◌, inl,
  inr, ◌↔◌, refl, Bool-cases, Option-cases, lookup, keys, lookup-In_keys, In, arith, eq_iff,
}
use text.Mathlib.Text.{◌==◌ as str_eq}
use now_sdk_ext_core.Workflow.Models.{WorkflowExport}
use now_sdk_ext_core.Workflow.Structure.{Wiring, has_activity, is_join, wire}
use now_sdk_ext_core.Workflow.Explore.{Walk, unseen, explore, explore-Walk}
use now_sdk_ext_core.Workflow.Paths.{
  Edge, reach_by, reach, reach_until_join, forward_reach, forward, targets_of, targets_until_join,
  structure_exits, known_exits, is_wired,
}
use now_sdk_ext_core.Workflow.Paths.Closed.{Closed, wire-Closed, has_activity-In}
use now_sdk_ext_core.Workflow.Paths.Paired.{
  Paired, wire-Paired, targets_of-In, forward-In, In-is_there, In-is_wired,
}

-- A search has found what the walks from its root reach, no more and no less.
abbrev pub Finds : (String → List String) → String → Option (List String) → Type 0
Finds succ root found =
    (seen : List String) × (found ≡ some seen) × ((v : String) → In v seen ↔ Walk succ root v)

reach_by-Finds :
    (nodes : List String) (there : String → Bool) (succ : String → List String) (root : String)
    → ((n : String) → In n nodes ⊎ (succ n ≡ []))
    → there root ≡ true
    → ((n v : String) → there n ≡ true → In v (succ n) → there v ≡ true)
    → Finds succ root (reach_by nodes there succ (root ∷ []))
unfolding reach_by
reach_by-Finds nodes there succ root known at_root onward =
    explore-Walk str_eq eq_iff succ root there nodes (suc (suc (unseen str_eq succ nodes []))) known
      at_root onward (omega arith)

==-named : (id : String) → id ≢ "" → str_eq id "" ≡ false
==-named id h = elim (Bool-cases (str_eq id "")) [
  | inl e ↦ absurd (h ((eq_iff id "").0 e))
  | inr e ↦ e
]

module _ (w : Wiring) where
  targets_known : (n : String) → In n (keys w.out) ⊎ (targets_of w n ≡ [])
  targets_known n = elim (Option-cases (lookup n w.out)) [
    | inl e ↦ inr (rw e refl)
    | inr (m, e) ↦ inl (lookup-In_keys n w.out m e)
  ]

  until_join_known : (n : String) → In n (keys w.out) ⊎ (targets_until_join w n ≡ [])
  until_join_known n = elim (Bool-cases (is_join w n)) [
    | inl e ↦ inr (rw e refl)
    | inr e ↦ rw e (targets_known n)
  ]

  pub forward_known :
      (back : List Edge) (n : String) → In n (keys w.activities) ⊎ (forward w back n ≡ [])
  unfolding forward structure_exits
  forward_known back n = elim (Option-cases (lookup n w.activities)) [
    | inl e ↦ inr (rw (e, forward, structure_exits, known_exits) refl)
    | inr (m, e) ↦ inl (lookup-In_keys n w.activities m e)
  ]

  module _ (closed : Closed w) (paired : Paired w) where
    until_join_onward :
        (n t : String) → In t (targets_until_join w n) → (is_join w t || is_wired w t) ≡ true
    until_join_onward n t h = elim (Bool-cases (is_join w n)) [
      | inl e ↦ absurd (rw (e, In) at h)
      | inr e ↦
          let wired = In-is_wired w closed paired t (targets_of-In w closed n t (rw e at h)) in
          ground (arith, wired)
    ]

    forward_onward :
        (back : List Edge) (n t : String)
        → In t (forward w back n)
        → (has_activity w t && is_wired w t) ≡ true
    forward_onward back n t h =
        let listed = forward-In w closed back n t h in
        rw (In-is_there w closed paired t listed) (In-is_wired w closed paired t listed)

    -- `reach` from an activity.
    pub reach-Finds :
        (root : String)
        → In root (keys w.activities)
        → root ≢ ""
        → Finds (targets_of w) root (reach w (some root))
    unfolding reach
    reach-Finds root listed named = rw (==-named root named) (
        reach_by-Finds (keys w.out) (is_wired w) (targets_of w) root targets_known
          (In-is_wired w closed paired root listed)
          (λ n v _ h. In-is_wired w closed paired v (targets_of-In w closed n v h)))

    searches-Finds :
        (back : List Edge) (root : String)
        → In root (keys w.activities)
        → root ≢ ""
        → Finds (targets_of w) root (reach w (some root))
          × Finds (targets_until_join w) root (reach_until_join w root)
          × Finds (forward w back) root (forward_reach w back root)
    unfolding reach_until_join forward_reach
    searches-Finds back root listed named =
        let wired = In-is_wired w closed paired root listed in
        let there = In-is_there w closed paired root listed in
        (
          reach-Finds root listed named,
          reach_by-Finds (keys w.out) (λ n. is_join w n || is_wired w n) (targets_until_join w) root
              until_join_known (ground (arith, wired)) (λ n v _ h. until_join_onward n v h),
          reach_by-Finds (keys w.activities) (λ n. has_activity w n && is_wired w n)
              (forward w back) root (forward_known back) (rw there wired)
              (λ n v _ h. forward_onward back n v h),
        )

    -- The search from Begin, where there is one, ends too.
    pub reach-total :
        (start : Option String)
        → ((id : String) → start ≡ some id → In id (keys w.activities))
        → (seen : List String) × (reach w start ≡ some seen)
    unfolding reach reach_by explore
    reach-total none known = ([], refl)
    reach-total (some id) known = elim (Bool-cases (str_eq id "")) [
      | inl e ↦ ([], rw e refl)
      | inr e ↦
          let named : id ≢ "" = λ q. absurd (cc ((eq_iff id "").1 q, e)) in
          let (seen, found, _) = reach-Finds id (known id refl) named in (seen, found)
    ]

-- In a wired workflow, from an activity whose id is not empty, each of the three searches ends,
-- throwing nowhere, with exactly what a walk from that activity reaches: by every transition, by
-- every transition that does not lead out of a Join, and by the edges that do not loop back.
pub reach_lem :
    (locale_less : String → String → Bool) (data_ : WorkflowExport) (back : List Edge)
    (root : String)
    → has_activity (wire locale_less data_) root ≡ true
    → root ≢ ""
    → Finds (targets_of (wire locale_less data_)) root (reach (wire locale_less data_) (some root))
      × Finds
          (targets_until_join (wire locale_less data_))
          root
          (reach_until_join (wire locale_less data_) root)
      × Finds
          (forward (wire locale_less data_) back)
          root
          (forward_reach (wire locale_less data_) back root)
reach_lem locale_less data_ back root there named =
    let w = wire locale_less data_ in
    searches-Finds w (wire-Closed locale_less data_) (wire-Paired locale_less data_) back root
      (has_activity-In w root there) named
