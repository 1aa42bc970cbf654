-- ===== src/Workflow/Build/Laws.antt =====
-- The structure that src/sn/workflow/WorkflowStructure.ts rebuilds.
use now_sdk_ext_core.Common.{
  Bool, List, [], ◌∷◌, Option, none, some, String, ◌≡◌, ◌⊎◌, inl, inr, refl, sym, ap, eq_iff,
  Bool-cases, Option-cases, Map, lookup, insert, lookup-insert, keys, In, if◌then◌else◌,
}
use text.Mathlib.Text.{◌==◌ as str_eq}
use now_sdk_ext_core.Workflow.Models.{WorkflowExport}
use now_sdk_ext_core.Workflow.Structure.{Wiring, truthy, wire}
use now_sdk_ext_core.Workflow.Paths.{Edge, find_begin, reach, forward}
use now_sdk_ext_core.Workflow.Paths.Closed.{Closed, wire-Closed, raw_edges-In}
use now_sdk_ext_core.Workflow.Paths.Paired.{wire-Paired}
use now_sdk_ext_core.Workflow.Paths.Reach.{reach-total}
use now_sdk_ext_core.Workflow.Paths.Roots.{find_begin-In}
use now_sdk_ext_core.Workflow.Paths.Loops.{find_back_edges-acyclic, forward_edge}
use now_sdk_ext_core.Workflow.PostDominators.{workflow_exit, immediate}
use now_sdk_ext_core.Workflow.PostDominators.Settle.{IsFlow}
use now_sdk_ext_core.Workflow.PostDominators.First.{all_ids_cases}
use now_sdk_ext_core.Workflow.PostDominators.Laws.{
  HoldsPostDominators, Nearest, post_dominators-total, immediate-Nearest,
}
use now_sdk_ext_core.Workflow.Build.{WorkflowStructure, follows, set_immediates, build}

-- What the loop over the activities has set.
set_immediates_keep :
    (pdom : Map (List String)) (n : String) (ids : List String) (ipdom : Map String)
    → lookup n ipdom ≡ truthy (immediate pdom n)
    → lookup n (set_immediates pdom ids ipdom) ≡ truthy (immediate pdom n)
set_immediates_keep pdom n [] ipdom e = e
set_immediates_keep pdom n (k ∷ ids) ipdom e = elim (Option-cases (truthy (immediate pdom k))) [
  | inl q ↦ rw (q, set_immediates) (set_immediates_keep pdom n ids ipdom e)
  | inr (c, q) ↦
      let found : lookup n (insert k c ipdom) ≡ (if str_eq k n then some c else lookup n ipdom) =
        lookup-insert k n c ipdom in
      let kept : lookup n (insert k c ipdom) ≡ truthy (immediate pdom n) =
        elim (Bool-cases (str_eq k n)) [
          | inl same ↦
              let found' = rw same at found in
              let k_n : k ≡ n = (eq_iff k n).0 same in let q' = rw k_n at q in cc
          | inr other ↦ let found' = rw other at found in cc
        ] in
      rw (q, set_immediates) (set_immediates_keep pdom n ids (insert k c ipdom) kept)
]

set_immediates_lem :
    (pdom : Map (List String)) (n : String) (ids : List String) (ipdom : Map String)
    → In n ids
    → lookup n ipdom ≡ none
    → lookup n (set_immediates pdom ids ipdom) ≡ truthy (immediate pdom n)
set_immediates_lem pdom n [] ipdom m e = absurd m
set_immediates_lem pdom n (k ∷ ids) ipdom m e = elim (Bool-cases (str_eq k n)) [
  | inl same ↦
      let k_n : k ≡ n = (eq_iff k n).0 same in
      elim (Option-cases (truthy (immediate pdom k))) [
        | inl q ↦
            let q' = rw k_n at q in
            rw (q, set_immediates) (set_immediates_keep pdom n ids ipdom (cc))
        | inr (c, q) ↦
            let found : lookup n (insert k c ipdom)
                ≡ (if str_eq k n then some c else lookup n ipdom) =
              lookup-insert k n c ipdom in
            let found' = rw same at found in
            let q' = rw k_n at q in
            rw (q, set_immediates) (set_immediates_keep pdom n ids (insert k c ipdom) (cc))
      ]
  | inr other ↦
      let rest : In n ids = elim m [
        | inl same ↦ absurd (cc ((eq_iff k n).1 (sym same), other))
        | inr r ↦ r
      ] in
      elim (Option-cases (truthy (immediate pdom k))) [
        | inl q ↦ rw (q, set_immediates) (set_immediates_lem pdom n ids ipdom rest e)
        | inr (c, q) ↦
            let found : lookup n (insert k c ipdom)
                ≡ (if str_eq k n then some c else lookup n ipdom) =
              lookup-insert k n c ipdom in
            let found' = rw other at found in
            rw (q, set_immediates) (set_immediates_lem pdom n ids (insert k c ipdom) rest (cc))
      ]
]

module _ (w : Wiring) (closed : Closed w) (back : List Edge) where
  List-cases :
      (xs : List String) → (xs ≡ []) ⊎ ((s : String) × (rest : List String) × (xs ≡ s ∷ rest))
  List-cases [] = inl refl
  List-cases (s ∷ rest) = inr (s, rest, refl)

  pub follows-IsFlow :
      ¬ In workflow_exit (keys w.activities) → IsFlow (follows w back) (keys w.activities)
  unfolding follows
  follows-IsFlow apart = record {
    apart = apart;
    goes_on = λ n there. elim (List-cases (forward w back n)) [
      | inl e ↦ (workflow_exit, rw (e, follows) (inl refl))
      | inr (s, rest, e) ↦ (s, rw (e, follows) (inl refl))
    ];
    closed = λ n s there h. elim (List-cases (forward w back n)) [
      | inl e ↦ elim (rw (e, follows) at h) [ inl q ↦ inr q | inr z ↦ absurd z ]
      | inr (t, rest, e) ↦
          let m : In s (forward w back n) = rw e (rw (e, follows) at h) in
          let (exit, raw, _) = forward_edge w back n s m in inl (raw_edges-In w closed n exit s raw)
    ];
  }

-- `ipdom` names where the paths from an activity first come together, if they do anywhere.
pub record NamesMerges (s : WorkflowStructure) : Type 0 where
  pub merges :
      (n c : String)
      → In n (keys s.wiring.activities)
      → lookup n s.ipdom ≡ some c
      → Nearest (follows s.wiring s.back_edges) (keys s.wiring.activities) n c
  pub no_merge :
      (n c : String)
      → In n (keys s.wiring.activities)
      → lookup n s.ipdom ≡ none
      → ¬ Nearest (follows s.wiring s.back_edges) (keys s.wiring.activities) n c

pub truthy-some : (o : Option String) (c : String) → truthy o ≡ some c → o ≡ some c
truthy-some none c e = cc
truthy-some (some id) c e = elim (Bool-cases (str_eq id "")) [
  | inl q ↦ absurd (cc (rw q at e))
  | inr q ↦ rw q at e
]

truthy-none : (o : Option String) → truthy o ≡ none → (o ≡ none) ⊎ (o ≡ some "")
truthy-none none e = inl refl
truthy-none (some id) e = elim (Bool-cases (str_eq id "")) [
  | inl q ↦ inr (ap some ((eq_iff id "").0 q))
  | inr q ↦ absurd (cc (rw q at e))
]

module _ (w : Wiring) (back : List Edge) (flow : IsFlow (follows w back) (keys w.activities))
    (pdom : Map (List String))
    (holds : HoldsPostDominators (follows w back) (keys w.activities) pdom) where
  merges :
      (n : String)
      → In n (keys w.activities)
      → (c : String) → truthy (immediate pdom n) ≡ some c
      → Nearest (follows w back) (keys w.activities) n c
  merges n there c e =
      (immediate-Nearest (follows w back) (keys w.activities) flow pdom holds n there).0 c
        (truthy-some (immediate pdom n) c e)

  no_merge :
      ¬ In "" (keys w.activities)
      → (n : String) → In n (keys w.activities)
      → (c : String) → truthy (immediate pdom n) ≡ none
      → ¬ Nearest (follows w back) (keys w.activities) n c
  no_merge named n there c e =
      let (to, from) =
        immediate-Nearest (follows w back) (keys w.activities) flow pdom holds n there in
      elim (truthy-none (immediate pdom n) e) [
        | inl q ↦ from q c
        | inr q ↦
            let known = (to "" q).0.1.0 in
            let nothing : ⊥ =
              elim (all_ids_cases (follows w back) (keys w.activities) flow "" known) [
                | inl listed ↦ named listed
                | inr same ↦ absurd (cc)
              ] in
            absurd nothing
      ]

-- In an export with no activity whose id is empty or the marker, the constructor ends; the
-- activities that it calls reachable are what `reach` finds from Begin; where it sets the
-- immediate post-dominator of an activity, that is another activity, or the marker, which every
-- forward path out of the workflow passes, and which every other such one post-dominates; where it
-- sets none there is no such one.
pub build_lem :
    (locale_less : String → String → Bool) (data_ : WorkflowExport)
    → ¬ In "" (keys (wire locale_less data_).activities)
    → ¬ In workflow_exit (keys (wire locale_less data_).activities)
    → (s : WorkflowStructure) × (build locale_less data_ ≡ some s)
      × (s.wiring ≡ wire locale_less data_)
      × (s.begin ≡ find_begin locale_less (wire locale_less data_))
      × (reach s.wiring s.begin ≡ some s.reachable)
      × NamesMerges s
unfolding build lookup
build_lem locale_less data_ named apart =
    let w = wire locale_less data_ in
    let ids = keys w.activities in
    let (m, e, _, _) = find_back_edges-acyclic locale_less data_ named in
    let (reachable, found) =
      reach-total w (wire-Closed locale_less data_) (wire-Paired locale_less data_)
        (find_begin locale_less w) (find_begin-In locale_less w) in
    let flow = follows-IsFlow w (wire-Closed locale_less data_) m.back_edges apart in
    let (pdom, settled, holds) = post_dominators-total (follows w m.back_edges) ids flow in
    (
      record {
        wiring = w;
        begin = find_begin locale_less w;
        back_edges = m.back_edges;
        reachable = reachable;
        ipdom = set_immediates pdom ids [];
      },
      rw (e, build) (rw (found, build) (rw (settled, build) refl)),
      refl,
      refl,
      found,
      record {
        merges = λ n c there q.
            merges w m.back_edges flow pdom holds n there c
              (cc (set_immediates_lem pdom n ids [] there refl, q));
        no_merge = λ n c there q.
            no_merge w m.back_edges flow pdom holds named n there c
              (cc (set_immediates_lem pdom n ids [] there refl, q));
      },
    )
