-- ===== src/Workflow/BackEdges/Rounds.antt =====
-- A round of the search of `findBackEdges` keeps its invariant.
use now_sdk_ext_core.Common.{
  Nodup-append_last, true, false, List, [], ◌∷◌, none, some, ◌≡◌, ◌⊎◌, inl, inr, refl, sym, ap, any,
  In, In-append_left, In-append_right, In-append_cases, any-some, Bool-cases, In-filter_from,
  In-filter_to, In-map,
}
use now_sdk_ext_core.Workflow.BackEdges.{
  Graph, IsLawful, Marks, Frame, is_open, set_open, set_done, add_back_edge, same_edge,
}
use now_sdk_ext_core.Workflow.BackEdges.Order.{Before-append_left, Before-append_last}
use now_sdk_ext_core.Workflow.BackEdges.Invariant.{Inv, FramesOk-opened, FramesOk-move, Walk-top}

module _ {A E : Type 0} (g : Graph A E) (lawful : IsLawful g) where
  same-ne : (a b : A) → (a ≡ b → ⊥) → g.same a b ≡ false
  same-ne a b h = elim (Bool-cases (g.same a b)) [
    | inl e ↦ absurd (h ((lawful.same_iff a b).0 e))
    | inr e ↦ e
  ]

  -- The node on top has no edge left.
  pub Inv-done :
      (node : A) (frames : List (Frame A E)) (m : Marks A E)
      → Inv g ((node, []) ∷ frames) m
      → Inv g frames (set_done g node m)
  Inv-done node frames m v =
      let top = v.frames_ok.0 in
      record {
        nodup = Nodup-append_last node m.done v.nodup top.not_done;
        ordered = λ u e t h r. elim (In-append_cases u m.done (node ∷ []) h) [
          | inl old ↦ elim (v.ordered u e t old r) [
            | inl b ↦ inl b
            | inr b ↦ inr (Before-append_left t u m.done (node ∷ []) b)
          ]
          | inr (inl q) ↦ elim (top.looked e t (rw q at r)) [
            | inl x ↦ absurd x
            | inr (inl b) ↦ inl (rw q b)
            | inr (inr (inl d)) ↦ inr (rw q (Before-append_last t node m.done d))
            | inr (inr (inr x)) ↦ absurd x
          ]
          | inr (inr x) ↦ absurd x
        ];
        loops = v.loops;
        frames_ok =
            FramesOk-move g m (set_done g node m) (some node) none frames
              (λ t h. In-append_left t m.done (node ∷ []) h) (λ x h. h)
              (λ t e. inr (In-append_right t m.done (node ∷ []) (inl e))) (λ t x. absurd x)
              (λ w listed not_done opened.
                let other : node ≡ w → ⊥ = λ e. top.once (rw e listed) in
                (
                  λ h. elim (In-append_cases w m.done (node ∷ []) h) [
                    | inl old ↦ not_done old
                    | inr (inl e) ↦ other (sym e)
                    | inr (inr x) ↦ x
                  ],
                  In-filter_from _ w m.opened opened (rw (same-ne node w other) refl),
                ))
              v.frames_ok.1;
        covered = λ n h.
            let (there, q) = In-filter_to _ n m.opened h in
            elim (v.covered n there) [
              | inl e ↦ absurd (cc (rw e at q, (lawful.same_iff node node).1 refl))
              | inr r ↦ r
            ];
      }

  same_edge_iff : (x y : A × E × A) → same_edge g x y ≡ true → x ≡ y
  same_edge_iff (a, e, b) (c, f, d) h = elim (Bool-cases (g.same a c)) [
    | inr n ↦ absurd (cc (rw n at h))
    | inl p ↦ elim (Bool-cases (g.same_exit e f)) [
      | inr n ↦ absurd (cc (rw n at (rw p at h)))
      | inl q ↦
          let r : g.same b d ≡ true = rw q at (rw p at h) in
          cc ((lawful.same_iff a c).0 p, (lawful.same_exit_iff e f).0 q, (lawful.same_iff b d).0 r)
    ]
  ]

  In-add_back_edge : (x : A × E × A) (m : Marks A E) → In x (add_back_edge g x m).back_edges
  In-add_back_edge x m = elim (Bool-cases (any (same_edge g x) m.back_edges)) [
    | inl old ↦
        let (y, listed, e) = any-some _ m.back_edges old in rw old (rw (same_edge_iff x y e) listed)
    | inr new ↦ rw new (In-append_right x m.back_edges (x ∷ []) (inl refl))
  ]

  In-add_back_edge_old :
      (x y : A × E × A) (m : Marks A E) → In y m.back_edges → In y (add_back_edge g x m).back_edges
  In-add_back_edge_old x y m h = elim (Bool-cases (any (same_edge g x) m.back_edges)) [
    | inl old ↦ rw old h
    | inr new ↦ rw new (In-append_left y m.back_edges (x ∷ []) h)
  ]

  In-add_back_edge_cases :
      (x y : A × E × A) (m : Marks A E)
      → In y (add_back_edge g x m).back_edges
      → In y m.back_edges ⊎ (y ≡ x)
  In-add_back_edge_cases x y m h = elim (Bool-cases (any (same_edge g x) m.back_edges)) [
    | inl old ↦ inl (rw old at h)
    | inr new ↦ elim (In-append_cases y m.back_edges (x ∷ []) (rw new at h)) [
      | inl l ↦ inl l
      | inr (inl e) ↦ inr e
      | inr (inr q) ↦ absurd q
    ]
  ]

  pub is_open-In : (m : Marks A E) (n : A) → is_open g m n ≡ true → In n m.opened
  is_open-In m n h =
      let (k, listed, e) = any-some (g.same n) m.opened h in rw ((lawful.same_iff n k).0 e) listed

  -- An edge to an open node.
  pub Inv-back :
      (node : A) (exit : E) (to : A) (edges : List (E × A)) (frames : List (Frame A E))
      (m : Marks A E)
      → In to m.opened
      → Inv g ((node, (exit, to) ∷ edges) ∷ frames) m
      → Inv g ((node, edges) ∷ frames) (add_back_edge g (node, exit, to) m)
  Inv-back node exit to edges frames m there v =
      let top = v.frames_ok.0 in
      let m' = add_back_edge g (node, exit, to) m in
      record {
        nodup = v.nodup;
        ordered = λ u e t h r. elim (v.ordered u e t h r) [
          | inl b ↦ inl (In-add_back_edge_old _ (u, e, t) m b)
          | inr b ↦ inr b
        ];
        loops = λ u e t h. elim (In-add_back_edge_cases (node, exit, to) (u, e, t) m h) [
          | inl old ↦ v.loops u e t old
          | inr q ↦
              let same_u : u ≡ node = ap (λ x. x.0) q in
              let same_e : e ≡ exit = ap (λ x. x.1) q in
              let same_t : t ≡ to = ap (λ x. x.2) q in
              rw same_u (
                rw same_e (
                  rw same_t (
                    top.left exit to (inl refl),
                    Walk-top g m none node ((exit, to) ∷ edges) frames to v.frames_ok
                        (v.covered to there),
                  )))
        ];
        frames_ok = (
          record {
            left = λ e t h. top.left e t (inr h);
            looked = λ e t r. elim (top.looked e t r) [
              | inl (inl q) ↦
                  let same_e : e ≡ exit = ap (λ x. x.0) q in
                  let same_t : t ≡ to = ap (λ x. x.1) q in
                  inr (inl (rw same_e (rw same_t (In-add_back_edge (node, exit, to) m))))
              | inl (inr h) ↦ inl h
              | inr (inl b) ↦ inr (inl (In-add_back_edge_old _ (node, e, t) m b))
              | inr (inr d) ↦ inr (inr d)
            ];
            linked = top.linked;
            not_done = top.not_done;
            opened = top.opened;
            once = top.once;
          },
          FramesOk-move g m m' (some node) (some node) frames (λ t h. h)
              (λ x h. In-add_back_edge_old (node, exit, to) x m h) (λ t h. inl h) (λ t h. h)
              (λ w listed not_done opened. (not_done, opened)) v.frames_ok.1,
        );
        covered = v.covered;
      }

  -- An edge to a node that is done.
  pub Inv-cross :
      (node : A) (exit : E) (to : A) (edges : List (E × A)) (frames : List (Frame A E))
      (m : Marks A E)
      → In to m.done
      → Inv g ((node, (exit, to) ∷ edges) ∷ frames) m
      → Inv g ((node, edges) ∷ frames) m
  Inv-cross node exit to edges frames m there v =
      let top = v.frames_ok.0 in
      record {
        nodup = v.nodup;
        ordered = v.ordered;
        loops = v.loops;
        frames_ok = (
          record {
            left = λ e t h. top.left e t (inr h);
            looked = λ e t r. elim (top.looked e t r) [
              | inl (inl q) ↦
                  let same_t : t ≡ to = ap (λ x. x.1) q in inr (inr (inl (rw same_t there)))
              | inl (inr h) ↦ inl h
              | inr o ↦ inr o
            ];
            linked = top.linked;
            not_done = top.not_done;
            opened = top.opened;
            once = top.once;
          },
          v.frames_ok.1,
        );
        covered = v.covered;
      }

  -- An edge to a node that was not met.
  pub Inv-new :
      (node : A) (exit : E) (to : A) (edges : List (E × A)) (frames : List (Frame A E))
      (m : Marks A E)
      → ¬ In to m.opened
      → ¬ In to m.done
      → Inv g ((node, (exit, to) ∷ edges) ∷ frames) m
      → Inv g ((to, g.raw_edges to) ∷ ((node, edges) ∷ frames)) (set_open g to m)
  Inv-new node exit to edges frames m closed undone v =
      let top = v.frames_ok.0 in
      let m' = set_open g to m in
      record {
        nodup = v.nodup;
        ordered = v.ordered;
        loops = v.loops;
        frames_ok = (
          record {
            left = λ e t h. h;
            looked = λ e t h. inl h;
            linked = λ t x. absurd x;
            not_done = undone;
            opened = inl refl;
            once = λ h.
                closed
                  (FramesOk-opened g m none ((node, (exit, to) ∷ edges) ∷ frames) to v.frames_ok h);
          },
          (
            record {
              left = λ e t h. top.left e t (inr h);
              looked = λ e t r. elim (top.looked e t r) [
                | inl (inl q) ↦ inr (inr (inr (ap (λ x. x.1) q)))
                | inl (inr h) ↦ inl h
                | inr (inl b) ↦ inr (inl b)
                | inr (inr (inl d)) ↦ inr (inr (inl d))
                | inr (inr (inr x)) ↦ absurd x
              ];
              linked = λ t e.
                  rw e
                    (In-map (λ p. p.1) (exit, to) (g.raw_edges node) (top.left exit to (inl refl)));
              not_done = top.not_done;
              opened = inr top.opened;
              once = top.once;
            },
            FramesOk-move g m m' (some node) (some node) frames (λ t h. h) (λ x h. h) (λ t h. inl h)
                (λ t h. h) (λ w listed not_done opened. (not_done, inr opened)) v.frames_ok.1,
          ),
        );
        covered = λ n h. elim h [ inl e ↦ inl e | inr o ↦ inr (v.covered n o) ];
      }
