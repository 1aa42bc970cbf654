-- ===== src/Workflow/PostDominators/Loop.antt =====
-- The loop of `computePostDominators` of src/sn/workflow/WorkflowStructure.ts ends, since each of its
-- passes that changes a set makes one smaller.
use now_sdk_ext_core.Common.{
  ℕ, zero, suc, ◌≤◌, ◌<◌, Bool, true, false, not, List, [], ◌∷◌, some, String, ◌≡◌, ◌⊎◌, inl, inr,
  refl, ap, eq_iff, eq_refl, arith, ◌==◌, Bool-cases, any-some, length, In, Nodup, Nodup-length,
  Nodup-fills, Map, insert,
}
use text.Mathlib.Text.{◌==◌ as str_eq}
use now_sdk_ext_core.Workflow.PostDominators.{
  contains, set_of, common, differs, visit_node, pass, settle_sets, sizes,
}
use now_sdk_ext_core.Workflow.PostDominators.Merge.{Nodup-common, contains-true}
use now_sdk_ext_core.Workflow.PostDominators.Settle.{
  IsFlow, Good, next, shrinks, next_at, visit_changed-Good,
}

-- Two sets, one in the other, that do not differ have the same elements, and else it is smaller.
differs_smaller :
    (new old : List String)
    → Nodup new
    → ((x : String) → In x new → In x old)
    → differs new old ≡ true
    → length new < length old
differs_smaller new old d h e = elim (Bool-cases (length new == length old)) [
  | inr q ↦ ground (arith, Nodup-length new old d h)
  | inl q ↦
      let (x, m, out) = any-some (λ x. not (contains x old)) new (ground arith) in
      absurd (cc (rw (contains-true x old (h x m)) at out))
]

pub same-fills :
    (new old : List String)
    → Nodup new
    → ((x : String) → In x new → In x old)
    → differs new old ≡ false
    → (x : String) → In x old
    → In x new
same-fills new old d h e =
    let size : length new ≡ length old = ground arith in
    Nodup-fills str_eq eq_iff new old d h (omega (arith, size))

module _ (succ : String → List String) (ids : List String) (flow : IsFlow succ ids) where
  sizes-next :
      (n : String) (listed : In n ids) (pdom : Map (List String)) (good : Good succ ids pdom)
      (ns : List String)
      → sizes ns (next succ ids flow n listed pdom good) ≤ sizes ns pdom
  sizes-next n listed pdom good [] = omega arith
  sizes-next n listed pdom good (m ∷ ns) =
      let good' = visit_changed-Good succ ids flow n listed pdom good in
      let less =
        Nodup-length _ (set_of pdom m) (good'.nodup m)
          (shrinks succ ids flow n listed pdom good m) in
      omega (arith, less, sizes-next n listed pdom good ns)

  sizes-next_less :
      (n : String) (listed : In n ids) (pdom : Map (List String)) (good : Good succ ids pdom)
      (ns : List String)
      → length (common succ pdom n) < length (set_of pdom n)
      → In n ns
      → sizes ns (next succ ids flow n listed pdom good) < sizes ns pdom
  sizes-next_less n listed pdom good [] h m = absurd m
  sizes-next_less n listed pdom good (k ∷ ns) h (inl e) =
      let at_n = ap length (next_at succ ids flow n listed pdom good n (eq_refl n)) in
      let at_n' : length (set_of (next succ ids flow n listed pdom good) k)
          < length (set_of pdom k) =
        rw (← e) (omega (arith, at_n, h)) in
      omega (arith, at_n', sizes-next n listed pdom good ns)
  sizes-next_less n listed pdom good (k ∷ ns) h (inr m) =
      let good' = visit_changed-Good succ ids flow n listed pdom good in
      let less =
        Nodup-length _ (set_of pdom k) (good'.nodup k)
          (shrinks succ ids flow n listed pdom good k) in
      omega (arith, less, sizes-next_less n listed pdom good ns h m)

  abbrev Settled : List String → Map (List String) → Type 0
  Settled ns pdom = (n : String) → In n ns → differs (common succ pdom n) (set_of pdom n) ≡ false

  -- What a pass over some of the activities comes to.
  abbrev Passed : List String → Map (List String) → Bool → Map (List String) × Bool → Type 0
  Passed ns pdom changed state =
      Good succ ids state.0
      × (((state.1 ≡ changed) × (state.0 ≡ pdom) × Settled ns pdom)
          ⊎ ((state.1 ≡ true) × (sizes ids state.0 < sizes ids pdom)))

  visit_same :
      (n : String) (pdom : Map (List String)) (changed : Bool)
      → differs (common succ pdom n) (set_of pdom n) ≡ false
      → visit_node succ n (pdom, changed) ≡ (pdom, changed)
  unfolding visit_node
  visit_same n pdom changed e = rw e refl

  visit_changed :
      (n : String) (pdom : Map (List String)) (changed : Bool)
      → differs (common succ pdom n) (set_of pdom n) ≡ true
      → visit_node succ n (pdom, changed) ≡ (insert n (common succ pdom n) pdom, true)
  unfolding visit_node
  visit_changed n pdom changed e = rw e refl

  pass-Passed :
      (ns : List String) (pdom : Map (List String)) (changed : Bool)
      → ((n : String) → In n ns → In n ids)
      → Good succ ids pdom
      → Passed ns pdom changed (pass succ ns (pdom, changed))
  pass-Passed [] pdom changed listed good = (good, inl (refl, refl, λ n x. absurd x))
  pass-Passed (n ∷ ns) pdom changed listed good =
      elim (Bool-cases (differs (common succ pdom n) (set_of pdom n))) [
        | inr e ↦
            let (good', after) = pass-Passed ns pdom changed (λ m k. listed m (inr k)) good in
            rw (visit_same n pdom changed e, pass)
              (
                good',
                elim after [
                  | inr less ↦ inr less
                  | inl (c, p, settled) ↦
                      inl (c, p, λ m k. elim k [ inl q ↦ rw q e | inr r ↦ settled m r ])
                ],
              )
        | inl e ↦
            let there = listed n (inl refl) in
            let pdom' = next succ ids flow n there pdom good in
            let smaller =
              differs_smaller (common succ pdom n) (set_of pdom n)
                (Nodup-common succ pdom n good.nodup) (λ x. good.post n x there) e in
            let less = sizes-next_less n there pdom good ids smaller there in
            let (good', after) =
              pass-Passed ns pdom' true (λ m k. listed m (inr k))
                (visit_changed-Good succ ids flow n there pdom good) in
            rw (visit_changed n pdom changed e, pass)
              (
                good',
                inr (elim after [
                  | inr (c, rest) ↦ (c, omega (arith, less, rest))
                  | inl (c, p, settled) ↦ (c, rw p less)
                ]),
              )
      ]

  pub settle_sets-total :
      (fuel : ℕ) (pdom : Map (List String))
      → sizes ids pdom < fuel
      → Good succ ids pdom
      → (r : Map (List String)) × (settle_sets succ ids fuel pdom ≡ some r)
        × Good succ ids r
        × Settled ids r
  unfolding settle_sets
  settle_sets-total zero pdom h good = absurd (omega arith)
  settle_sets-total (suc fuel) pdom h good =
      let (good', after) = pass-Passed ids pdom false (λ n k. k) good in
      elim after [
        | inl (c, p, settled) ↦ (pdom, rw (c, settle_sets) (rw p refl), good, settled)
        | inr (c, less) ↦
            let (r, e, good_r, settled) =
              settle_sets-total fuel (pass succ ids (pdom, false)).0 (omega (arith, less, h))
                good' in
            (r, rw (c, settle_sets) e, good_r, settled)
      ]
