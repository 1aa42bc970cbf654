-- ===== src/Workflow/BackEdges/Loop.antt =====
-- The search of `findBackEdges` ends, and what it has found then.
use now_sdk_ext_core.Common.{
  ℕ, zero, suc, ◌+◌, ◌<◌, true, false, List, [], ◌∷◌, Option, some, ◌≡◌, inl, inr, refl, ap, arith,
  In, any-true, Bool-cases,
}
use now_sdk_ext_core.Workflow.BackEdges.{
  Graph, IsLawful, Marks, Frame, Round, finished, again, is_open, has_state, set_open, set_done,
  add_back_edge, take_edge, advance, explore_frames, explore_roots,
}
use now_sdk_ext_core.Workflow.BackEdges.Invariant.{Inv}
use now_sdk_ext_core.Workflow.BackEdges.Rounds.{Inv-done, Inv-back, Inv-cross, Inv-new, is_open-In}
use now_sdk_ext_core.Workflow.BackEdges.Measure.{
  Met, cost, fresh, fresh-le, fresh-new, is_open-Met, Met-has_state, Met-set_done,
}

module _ {A E : Type 0} (g : Graph A E) (lawful : IsLawful g) where
  module _ (nodes : List A)
      (closed : (n : A) (e : E) (t : A) → In (e, t) (g.raw_edges n) → In t nodes) where
    abbrev measure : List (Frame A E) → Marks A E → ℕ
    measure frames m = cost g frames + fresh g nodes m

    -- What a round comes to.
    abbrev Kept : List (Frame A E) → Marks A E → Round A E → Type 0
    Kept frames m (finished m') = (frames ≡ []) × (m' ≡ m)
    Kept frames m (again frames' m') =
        Inv g frames' m'
        × (measure frames' m' < measure frames m)
        × ((n : A) → Met g m n → Met g m' n)

    grown :
        (m m' : Marks A E)
        → ((n : A) → Met g m n → Met g m' n)
        → (n : A) → has_state g m n ≡ true
        → has_state g m' n ≡ true
    grown m m' h n e = Met-has_state g lawful m' n (h n (is_open-Met g lawful m n e))

    take_edge-Kept :
        (node : A) (exit : E) (to : A) (edges : List (E × A)) (frames : List (Frame A E))
        (m : Marks A E)
        → Inv g ((node, (exit, to) ∷ edges) ∷ frames) m
        → Kept ((node, (exit, to) ∷ edges) ∷ frames) m (take_edge g node exit to edges frames m)
    unfolding take_edge
    take_edge-Kept node exit to edges frames m v = elim (Bool-cases (is_open g m to)) [
      | inl e ↦ rw e (
        Inv-back g lawful node exit to edges frames m (is_open-In g lawful m to e) v,
        omega (arith, fresh-le g nodes m (add_back_edge g (node, exit, to) m) (λ n h. h)),
        λ n h. h,
      )
      | inr e ↦ elim (Bool-cases (has_state g m to)) [
        | inl f ↦
            let there : In to m.done = elim (is_open-Met g lawful m to f) [
              | inl o ↦
                  absurd
                    (cc (any-true (g.same to) to m.opened o ((lawful.same_iff to to).1 refl), e))
              | inr d ↦ d
            ] in
            rw e (
              rw (rw e at f)
                (Inv-cross g lawful node exit to edges frames m there v, omega arith, λ n h. h))
        | inr f ↦
            let m' = set_open g to m in
            let more : (n : A) → Met g m n → Met g m' n =
              λ n h. elim h [ inl o ↦ inl (inr o) | inr d ↦ inr d ] in
            let target = closed node exit to (v.frames_ok.0.left exit to (inl refl)) in
            rw e (
              rw (rw e at f) (
                Inv-new g lawful node exit to edges frames m
                    (λ o. cc (Met-has_state g lawful m to (inl o), f))
                    (λ d. cc (Met-has_state g lawful m to (inr d), f)) v,
                omega (
                  arith,
                  fresh-new g lawful nodes m m' to (grown m m' more) target f
                      (Met-has_state g lawful m' to (inl (inl refl))),
                ),
                more,
              ))
      ]
    ]

    advance-Kept :
        (frames : List (Frame A E)) (m : Marks A E)
        → Inv g frames m
        → Kept frames m (advance g frames m)
    unfolding advance
    advance-Kept [] m v = (refl, refl)
    advance-Kept ((node, []) ∷ frames) m v =
        let m' = set_done g node m in
        (
          Inv-done g lawful node frames m v,
          omega (arith, fresh-le g nodes m m' (grown m m' (Met-set_done g lawful node m))),
          Met-set_done g lawful node m,
        )
    advance-Kept ((node, (exit, to) ∷ edges) ∷ frames) m v =
        take_edge-Kept node exit to edges frames m v

    -- The result of a search: its marks, with every node that was met.
    abbrev Ends : Marks A E → Option (Marks A E) → Type 0
    Ends m found =
        (m' : Marks A E) × (found ≡ some m') × Inv g [] m' × ((n : A) → Met g m n → Met g m' n)

    explore_frames-Ends :
        (fuel : ℕ) (frames : List (Frame A E)) (m : Marks A E)
        → measure frames m < fuel
        → Inv g frames m
        → Ends m (explore_frames g fuel frames m)
    unfolding explore_frames
    explore_frames-Ends zero frames m h v = absurd (omega arith)
    explore_frames-Ends (suc fuel) frames m h v =
        next (advance g frames m) (advance-Kept frames m v) (explore_frames-Ends fuel)
      where
        next :
            (r : Round A E)
            → Kept frames m r
            → ((frames' : List (Frame A E)) (m' : Marks A E)
                → measure frames' m' < fuel
                → Inv g frames' m'
                → Ends m' (explore_frames g fuel frames' m'))
            → Ends m (elim r [
              | finished m' ↦ some m'
              | again frames' m' ↦ explore_frames g fuel frames' m'
            ])
        next (finished m') (empty, same_m) rec = (m, ap some same_m, rw empty at v, λ n k. k)
        next (again frames' m') (v', less, more) rec =
            let (m'', e, inv, met) = rec frames' m' (omega arith) v' in
            (m'', e, inv, λ n k. met n (more n k))

    Inv-root :
        (root : A) (m : Marks A E)
        → has_state g m root ≡ false
        → Inv g [] m
        → Inv g ((root, g.raw_edges root) ∷ []) (set_open g root m)
    Inv-root root m new v = record {
      nodup = v.nodup;
      ordered = v.ordered;
      loops = v.loops;
      frames_ok = (
        record {
          left = λ e t h. h;
          looked = λ e t h. inl h;
          linked = λ t x. absurd x;
          not_done = λ d. cc (Met-has_state g lawful m root (inr d), new);
          opened = inl refl;
          once = λ x. x;
        },
        tt,
      );
      covered = λ n h. elim h [ inl e ↦ inl e | inr o ↦ absurd (v.covered n o) ];
    }

    pub explore_roots-Ends :
        (fuel : ℕ) (roots : List A) (m : Marks A E)
        → ((n : A) → In n roots → In n nodes)
        → fresh g nodes m < fuel
        → Inv g [] m
        → (m' : Marks A E) × (explore_roots g fuel roots m ≡ some m')
          × Inv g [] m'
          × ((n : A) → Met g m n → Met g m' n)
          × ((n : A) → In n roots → Met g m' n)
    unfolding explore_roots
    explore_roots-Ends fuel [] m listed h v = (m, refl, v, λ n k. k, λ n x. absurd x)
    explore_roots-Ends fuel (root ∷ roots) m listed h v = elim (Bool-cases (has_state g m root)) [
      | inl old ↦
          let (m', e, inv, met, all) =
            explore_roots-Ends fuel roots m (λ n k. listed n (inr k)) h v in
          (
            m',
            rw (old, explore_roots) e,
            inv,
            met,
            λ n k. elim k [
              | inl q ↦ rw q (met root (is_open-Met g lawful m root old))
              | inr k' ↦ all n k'
            ],
          )
      | inr new ↦
          let m1 = set_open g root m in
          let more : (n : A) → Met g m n → Met g m1 n =
            λ n k. elim k [ inl o ↦ inl (inr o) | inr d ↦ inr d ] in
          let here_root : Met g m1 root = inl (inl refl) in
          let paid =
            fresh-new g lawful nodes m m1 root (grown m m1 more) (listed root (inl refl)) new
              (Met-has_state g lawful m1 root here_root) in
          let (m2, e2, inv2, met2) =
            explore_frames-Ends fuel ((root, g.raw_edges root) ∷ []) m1 (omega arith)
              (Inv-root root m new v) in
          let less = fresh-le g nodes m m2 (grown m m2 (λ n k. met2 n (more n k))) in
          let (m', e, inv, met, all) =
            explore_roots-Ends fuel roots m2 (λ n k. listed n (inr k)) (omega arith) inv2 in
          (
            m',
            rw (new, explore_roots) (rw (e2, explore_roots) e),
            inv,
            λ n k. met n (met2 n (more n k)),
            λ n k. elim k [ inl q ↦ rw q (met root (met2 root here_root)) | inr k' ↦ all n k' ],
          )
    ]
