-- ===== src/Workflow/Outline/Joins.antt =====
-- Where `mergeOf` of src/sn/workflow/WorkflowStructure.ts, which the outline follows, puts a Join.
use now_sdk_ext_core.Common.{
  Bool, true, false, not, ◌&&◌, ◌||◌, [], map, some, String, ◌≡◌, ◌≢◌, ◌⊎◌, inl, inr, ◌↔◌, refl,
  arith, eq_iff, or_else, any, any-some, all, all-In, Bool-cases, Option-cases, In, In-filter_to,
  In-sort_by, sort_by, keys, In-map,
}
use text.Mathlib.Text.{◌==◌ as str_eq}
use now_sdk_ext_core.Workflow.Models.{WorkflowExport}
use now_sdk_ext_core.Workflow.Structure.{concat, is_join, wire}
use now_sdk_ext_core.Workflow.Explore.{Walk}
use now_sdk_ext_core.Workflow.Paths.{StructureExit, head, targets_of}
use now_sdk_ext_core.Workflow.Paths.Closed.{Closed, wire-Closed, In-concat_map}
use now_sdk_ext_core.Workflow.Paths.Paired.{Paired, wire-Paired}
use now_sdk_ext_core.Workflow.Paths.Reach.{reach-Finds}
use now_sdk_ext_core.Workflow.Paths.Roots.{head-In}
use now_sdk_ext_core.Workflow.PostDominators.{workflow_exit, contains}
use now_sdk_ext_core.Workflow.PostDominators.Merge.{contains-In, contains-true}
use now_sdk_ext_core.Workflow.Build.{WorkflowStructure, build}
use now_sdk_ext_core.Workflow.Build.Laws.{build_lem}
use now_sdk_ext_core.Workflow.Merges.{
  exits_from, reach_set, immediate_of, splits, common_joins, nearer, distances, merge_of,
}
use now_sdk_ext_core.Workflow.Outline.Shown.{exits-LeadsTo, immediate_of_cases}

-- A Join at which the parallel lines from an activity meet.
pub record SharedJoin (s : WorkflowStructure) (n c : String) : Type 0 where
  pub is_a_join : is_join s.wiring c ≡ true
  pub parallel : (e : StructureExit) × In e (exits_from s n) × (splits e ≡ true)
  pub reached :
      (e : StructureExit) (t : String)
      → In e (exits_from s n)
      → In t e.forward
      → Walk (targets_of s.wiring) t c
  pub not_past :
      immediate_of s n ≢ workflow_exit → ¬ Walk (targets_of s.wiring) (immediate_of s n) c

module _ (s : WorkflowStructure) (closed : Closed s.wiring) (paired : Paired s.wiring) where
  reach_set-Walk :
      (id v : String)
      → In id (keys s.wiring.activities)
      → id ≢ ""
      → In v (reach_set s id) ↔ Walk (targets_of s.wiring) id v
  reach_set-Walk id v listed named =
      let (seen, e, finds) = reach-Finds s.wiring closed paired id listed named in
      rw (e, reach_set) (finds v)

  module _ (named : ¬ In "" (keys s.wiring.activities)) (n : String)
      (leads : (e : StructureExit)
        → In e (exits_from s n)
        → (t : String) → In t e.forward
        → In t (keys s.wiring.activities))
      (known : immediate_of s n ≢ workflow_exit
        → In (immediate_of s n) (keys s.wiring.activities)) where
    -- One of the Joins that `mergeOf` considers is where the lines meet.
    common_joins-SharedJoin :
        (c : String)
        → any splits (exits_from s n) ≡ true
        → In c (common_joins s n (immediate_of s n))
        → SharedJoin s n c
    common_joins-SharedJoin c parallel h =
        let (there, tests) = In-filter_to _ c (keys s.wiring.activities) h in
        record {
          is_a_join = ground arith;
          parallel = any-some splits (exits_from s n) parallel;
          reached = λ e t m l.
              let all_reach : all (contains c)
                    (map (reach_set s) (concat (map (λ e. e.forward) (exits_from s n))))
                  ≡ true =
                ground arith in
              let listed =
                In-map (reach_set s) t _
                  (In-concat_map (λ e. e.forward) t e (exits_from s n) m l) in
              let holds =
                contains-In c (reach_set s t)
                  (all-In (contains c) (reach_set s t) _ all_reach listed) in
              let target = leads e m t l in
              let t_named : t ≢ "" = λ q. named (rw q at target) in
              (reach_set-Walk t c target t_named).0 holds;
          not_past = λ other walk.
              let different : str_eq (immediate_of s n) workflow_exit ≡ false =
                elim (Bool-cases (str_eq (immediate_of s n) workflow_exit)) [
                  | inl q ↦ absurd (other ((eq_iff (immediate_of s n) workflow_exit).0 q))
                  | inr q ↦ q
                ] in
              let merge_named : immediate_of s n ≢ "" = λ q. named (rw q at (known other)) in
              let listed =
                contains-true c (reach_set s (immediate_of s n))
                  ((reach_set-Walk (immediate_of s n) c (known other) merge_named).1 walk) in
              let tests' = rw different at tests in
              let clash : false ≡ true = ground arith in absurd (cc (clash));
        }

    merge_of_cases : (merge_of s n ≡ immediate_of s n) ⊎ SharedJoin s n (merge_of s n)
    unfolding merge_of
    merge_of_cases =
        let merge = immediate_of s n in
        let joins = common_joins s n merge in
        let depths = or_else (distances s.wiring n) [] in
        elim (Bool-cases (
          any splits (exits_from s n)
          && (str_eq merge workflow_exit || not (is_join s.wiring merge)))) [
            | inr e ↦ rw e (inl refl)
            | inl e ↦ rw e (elim (Option-cases (head (sort_by (nearer s depths) joins))) [
              | inl q ↦ rw q (inl refl)
              | inr (j, q) ↦
                  let m =
                    (In-sort_by (nearer s depths) j joins).0
                      (head-In (λ a b. false) s.wiring _ j q) in
                  rw q (inr (common_joins-SharedJoin j (ground arith) m))
            ])
          ]

-- In the structure of an export with no activity whose id is empty or the marker, the merge point
-- of an activity is its immediate post-dominator, or the marker where none is set, or else a Join:
-- then some exit of the activity has several forward targets, each forward target of the activity
-- has a walk to that Join, and no walk leads there from the immediate post-dominator, where one is
-- set.
pub merge_of_lem :
    (locale_less : String → String → Bool) (data_ : WorkflowExport)
    → ¬ In "" (keys (wire locale_less data_).activities)
    → ¬ In workflow_exit (keys (wire locale_less data_).activities)
    → (s : WorkflowStructure) × (build locale_less data_ ≡ some s)
      × ((n : String)
          → In n (keys s.wiring.activities)
          → (merge_of s n ≡ immediate_of s n) ⊎ SharedJoin s n (merge_of s n))
merge_of_lem locale_less data_ named apart =
    let (s, e, wired, _, _, names) = build_lem locale_less data_ named apart in
    let closed : Closed s.wiring = rw wired (wire-Closed locale_less data_) in
    let paired : Paired s.wiring = rw wired (wire-Paired locale_less data_) in
    let apart' : ¬ In workflow_exit (keys s.wiring.activities) = rw wired apart in
    let named' : ¬ In "" (keys s.wiring.activities) = rw wired named in
    (
      s,
      e,
      λ n there.
          merge_of_cases s closed paired named' n (exits-LeadsTo s closed apart' names n) (λ other.
            elim (immediate_of_cases s closed apart' names n there) [
              | inl m ↦ m
              | inr r ↦ absurd (other r)
            ]),
    )
