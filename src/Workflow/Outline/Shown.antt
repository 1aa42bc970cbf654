-- ===== src/Workflow/Outline/Shown.antt =====
-- The outline that `buildOutline` of src/sn/workflow/WorkflowStructure.ts makes of a structure.
use now_sdk_ext_core.Common.{
  ◌⊎◌, Bool, true, false, not, ◌&&◌, ◌||◌, List, [], ◌∷◌, ◌++◌, append-nil, some, String, ◌≡◌, inl,
  inr, refl, sym, arith, is_some, or_else, any, Bool-cases, Option-cases, In, In-append_cases,
  In-filter_to, In-sort_by, sort_by, lookup, keys,
}
use text.Mathlib.Text.{◌==◌ as str_eq}
use now_sdk_ext_core.Workflow.Models.{WorkflowExport}
use now_sdk_ext_core.Workflow.Structure.{truthy, reads_before, is_join, wire}
use now_sdk_ext_core.Workflow.Paths.{StructureExit, head}
use now_sdk_ext_core.Workflow.Paths.Closed.{Closed, wire-Closed}
use now_sdk_ext_core.Workflow.Paths.Paired.{exit_forward-In}
use now_sdk_ext_core.Workflow.Paths.Roots.{head-In, find_begin-In}
use now_sdk_ext_core.Workflow.PostDominators.{workflow_exit}
use now_sdk_ext_core.Workflow.PostDominators.First.{all_ids_cases}
use now_sdk_ext_core.Workflow.Build.{WorkflowStructure, build, follows}
use now_sdk_ext_core.Workflow.Build.Laws.{NamesMerges, build_lem, follows-IsFlow, truthy-some}
use now_sdk_ext_core.Workflow.Merges.{
  exits_from, immediate_of, splits, common_joins, nearer, closest_join, distances, merge_of,
}
use now_sdk_ext_core.Workflow.OutlineItems.{lane, no_lanes, no_items, Numbers, WorkflowOutline}
use now_sdk_ext_core.Workflow.Outline.{
  sequence, orphans, orphan_roots, outline_fuel, outline_main, outline_orphans, build_outline,
}
use now_sdk_ext_core.Workflow.Outline.Steps.{steps, lane_steps, Numbering}
use now_sdk_ext_core.Workflow.Outline.Lines.{Known, Added, both}
use now_sdk_ext_core.Workflow.Outline.Turns.{LeadsTo}
use now_sdk_ext_core.Workflow.Outline.Laws.{sequence-Meets}

module _ (s : WorkflowStructure) (closed : Closed s.wiring)
    (apart : ¬ In workflow_exit (keys s.wiring.activities)) (names : NamesMerges s) where
  pub exits-LeadsTo :
      (n : String) (e : StructureExit)
      → In e (exits_from s n)
      → LeadsTo s (keys s.wiring.activities) e
  exits-LeadsTo n e h t m = exit_forward-In s.wiring closed s.back_edges n t e h m

  pub immediate_of_cases :
      (n : String)
      → In n (keys s.wiring.activities)
      → In (immediate_of s n) (keys s.wiring.activities) ⊎ (immediate_of s n ≡ workflow_exit)
  immediate_of_cases n there = elim (Option-cases (lookup n s.ipdom)) [
    | inl e ↦ rw e (inr refl)
    | inr (c, e) ↦
        let flow = follows-IsFlow s.wiring closed s.back_edges apart in
        rw e (
          all_ids_cases (follows s.wiring s.back_edges) (keys s.wiring.activities) flow c
            (names.merges n c there e).0.1.0)
  ]

  immediate_of-Known :
      (n : String)
      → In n (keys s.wiring.activities)
      → Known (keys s.wiring.activities) (immediate_of s n)
  immediate_of-Known n there = elim (immediate_of_cases n there) [
    | inl m ↦ inl m
    | inr q ↦ inr (inl q)
  ]

  pub merge_of-Known :
      (n : String)
      → In n (keys s.wiring.activities)
      → Known (keys s.wiring.activities) (merge_of s n)
  unfolding merge_of
  merge_of-Known n there =
      let merge = immediate_of s n in
      let joins = common_joins s n merge in
      let depths = or_else (distances s.wiring n) [] in
      let closest : Known (keys s.wiring.activities) (closest_join s n joins merge) =
        elim (Option-cases (head (sort_by (nearer s depths) joins))) [
          | inl e ↦ rw e (immediate_of-Known n there)
          | inr (j, e) ↦
              let m =
                (In-sort_by (nearer s depths) j joins).0 (head-In (λ a b. false) s.wiring _ j e) in
              rw e (inl (In-filter_to _ j (keys s.wiring.activities) m).0)
        ] in
      elim (Bool-cases (
        any splits (exits_from s n)
        && (str_eq merge workflow_exit || not (is_join s.wiring merge)))) [
          | inl e ↦ rw e closest
          | inr e ↦ rw e (immediate_of-Known n there)
        ]

  module _ (locale_less : String → String → Bool) where
    outline_orphans-Added :
        (roots : List String) (numbers : Numbers)
        → ((n : String) → In n roots → In n (keys s.wiring.activities))
        → Numbering (keys s.wiring.activities) numbers
        → Added
            (keys s.wiring.activities)
            lane_steps
            numbers
            (outline_orphans locale_less s roots numbers)
    unfolding outline_orphans lane_steps
    outline_orphans-Added [] numbers listed v =
        (no_lanes, numbers, refl, sym (append-nil numbers), v)
    outline_orphans-Added (root ∷ roots) numbers listed v =
        elim (Bool-cases (is_some (lookup root numbers))) [
          | inl old ↦
              let (b, after, e, shown, v') =
                outline_orphans-Added roots numbers (λ n m. listed n (inr m)) v in
              (b, after, rw (old, outline_orphans) e, shown, v')
          | inr new ↦
              let (a, b, after, e, shown, v') =
                both (keys s.wiring.activities) steps lane_steps lane numbers
                  (sequence s (outline_fuel locale_less s) root [] [] true numbers)
                  (outline_orphans locale_less s roots)
                  (sequence-Meets s (keys s.wiring.activities) merge_of-Known exits-LeadsTo
                    (outline_fuel locale_less s) root [] [] true numbers
                    (inl (listed root (inl refl))) v (omega arith))
                  (λ mid w more. outline_orphans-Added roots mid (λ n m. listed n (inr m)) w) in
              (lane a b, after, rw (new, outline_orphans) e, shown, v')
        ]

    orphans-In : (n : String) → In n (orphans locale_less s) → In n (keys s.wiring.activities)
    orphans-In n h =
        (In-filter_to _ n (keys s.wiring.activities)
          ((In-sort_by (reads_before locale_less s.wiring) n _).0 h)).0

    outline_main-Added :
        ((id : String) → s.begin ≡ some id → In id (keys s.wiring.activities))
        → Added (keys s.wiring.activities) steps [] (outline_main locale_less s)
    unfolding steps
    outline_main-Added begins =
        let none_yet : Numbering (keys s.wiring.activities) [] = record {
          nodup = tt;
          listed = λ n m. absurd m;
          consecutive = tt;
        } in
        elim (Option-cases (truthy s.begin)) [
          | inl e ↦ rw (e, outline_main) (no_items, [], refl, refl, none_yet)
          | inr (id, e) ↦
              rw (e, outline_main)
                (sequence-Meets s (keys s.wiring.activities) merge_of-Known exits-LeadsTo
                  (outline_fuel locale_less s) id [] [] true []
                  (inl (begins id (truthy-some s.begin id e))) none_yet (omega arith))
        ]

    outline_total :
        ((id : String) → s.begin ≡ some id → In id (keys s.wiring.activities))
        → (o : WorkflowOutline) × (build_outline locale_less s ≡ some o)
          × (o.numbers ≡ steps o.main ++ lane_steps o.unreachable)
          × Numbering (keys s.wiring.activities) o.numbers
    unfolding build_outline
    outline_total begins =
        let (main, mid, e, shown, v) = outline_main-Added begins in
        let (others, after, e', shown', v') =
          outline_orphans-Added (orphan_roots locale_less s ++ orphans locale_less s) mid
            (λ n m.
              elim (In-append_cases n (orphan_roots locale_less s) (orphans locale_less s) m) [
                | inl l ↦ orphans-In n (In-filter_to _ n (orphans locale_less s) l).0
                | inr r ↦ orphans-In n r
              ])
            v in
        (
          record { main = main; unreachable = others; numbers = after },
          rw e (rw e' refl),
          rw shown' (rw shown refl),
          v',
        )

-- In an export with no activity whose id is empty or the marker, the constructor and then the
-- outline end. The steps that the outline shows, in reading order (a step, then its branches, then
-- what follows it; the unreachable sequences last), carry the numbers one, two and so on, each is
-- another activity of the workflow, and they are what `numbers` holds: no activity is shown as a
-- step twice.
pub build_outline_lem :
    (locale_less : String → String → Bool) (data_ : WorkflowExport)
    → ¬ In "" (keys (wire locale_less data_).activities)
    → ¬ In workflow_exit (keys (wire locale_less data_).activities)
    → (s : WorkflowStructure) × (o : WorkflowOutline) × (build locale_less data_ ≡ some s)
      × (build_outline locale_less s ≡ some o)
      × (o.numbers ≡ steps o.main ++ lane_steps o.unreachable)
      × Numbering (keys s.wiring.activities) o.numbers
build_outline_lem locale_less data_ named apart =
    let (s, e, wired, begin, _, names) = build_lem locale_less data_ named apart in
    let closed : Closed s.wiring = rw wired (wire-Closed locale_less data_) in
    let apart' : ¬ In workflow_exit (keys s.wiring.activities) = rw wired apart in
    let begins : (id : String) → s.begin ≡ some id → In id (keys s.wiring.activities) =
      λ id q. rw wired (find_begin-In locale_less (wire locale_less data_) id (cc (q, begin))) in
    let (o, e', shown, v) = outline_total s closed apart' names locale_less begins in
    (s, o, e, e', shown, v)
