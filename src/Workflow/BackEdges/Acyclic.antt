-- ===== src/Workflow/BackEdges/Acyclic.antt =====
-- What is left when the back edges of `findBackEdges` are left out has no loop.
use now_sdk_ext_core.Common.{List, [], some, ◌≡◌, ◌⊎◌, inl, inr, refl, sym, In, ◌<◌, ℕ}
use now_sdk_ext_core.Workflow.Explore.{Walk, here, step}
use now_sdk_ext_core.Workflow.BackEdges.{Graph, IsLawful, Marks, no_marks, explore_roots}
use now_sdk_ext_core.Workflow.BackEdges.Order.{Before, Before-irrefl, Before-trans}
use now_sdk_ext_core.Workflow.BackEdges.Invariant.{Inv}
use now_sdk_ext_core.Workflow.BackEdges.Measure.{fresh}
use now_sdk_ext_core.Workflow.BackEdges.Loop.{explore_roots-Ends}

module _ {A E : Type 0} (g : Graph A E) where
  -- What the search leaves when it is over.
  pub record Outcome (roots : List A) (m : Marks A E) : Type 0 where
    pub inv : Inv g [] m
    pub visited : (n : A) → In n roots → In n m.done

  Inv-no_marks : Inv g [] no_marks
  Inv-no_marks = record {
    nodup = tt;
    ordered = λ u e t h. absurd h;
    loops = λ u e t h. absurd h;
    frames_ok = tt;
    covered = λ n h. h;
  }

  pub explore_roots-Outcome :
      (lawful : IsLawful g) (nodes roots : List A) (fuel : ℕ)
      → ((n : A) (e : E) (t : A) → In (e, t) (g.raw_edges n) → In t nodes)
      → ((n : A) → In n roots → In n nodes)
      → fresh g nodes no_marks < fuel
      → (m : Marks A E) × (explore_roots g fuel roots no_marks ≡ some m) × Outcome roots m
  explore_roots-Outcome lawful nodes roots fuel closed listed enough =
      let (m, e, inv, kept, met) =
        explore_roots-Ends g lawful nodes closed fuel roots no_marks listed enough Inv-no_marks in
      (
        m,
        e,
        record {
          inv = inv;
          visited = λ n h. elim (met n h) [ inl o ↦ absurd (inv.covered n o) | inr d ↦ d ];
        },
      )

  module _ (roots : List A) (m : Marks A E) (outcome : Outcome roots m) (succ : A → List A)
      (known : (n : A) → In n roots ⊎ (succ n ≡ []))
      (forward : (u t : A)
        → In t (succ u)
        → (e : E) × In (e, t) (g.raw_edges u) × ¬ In (u, e, t) m.back_edges) where
    edge-Before : (u t : A) → In t (succ u) → Before t u m.done
    edge-Before u t h =
        let (e, raw, not_back) = forward u t h in
        elim (known u) [
          | inr q ↦ absurd (rw q at h)
          | inl r ↦ elim (outcome.inv.ordered u e t (outcome.visited u r) raw) [
            | inl back ↦ absurd (not_back back)
            | inr b ↦ b
          ]
        ]

    Walk-Before : (a b : A) → Walk succ a b → (a ≡ b) ⊎ Before b a m.done
    Walk-Before a b here = inl refl
    Walk-Before a b (step {u} w h) = elim (Walk-Before a u w) [
      | inl q ↦ inr (rw q (edge-Before u b h))
      | inr r ↦ inr (Before-trans b u a m.done outcome.inv.nodup (edge-Before u b h) r)
    ]

    pub acyclic : (u t : A) → In t (succ u) → ¬ Walk succ t u
    acyclic u t h w =
        let b = edge-Before u t h in
        let loop : Before t t m.done = elim (Walk-Before t u w) [
          | inl q ↦ let back = sym q in rw back at b
          | inr r ↦ Before-trans t u t m.done outcome.inv.nodup b r
        ] in
        Before-irrefl t m.done outcome.inv.nodup loop
