-- ===== src/Workflow/BackEdges/Invariant.antt =====
-- The invariant of the search of `findBackEdges`: an edge that does not loop back leads to a node
-- that is done before its source, and an edge that does closes a walk.
use now_sdk_ext_core.Common.{
  Nodup, List, [], ◌∷◌, map, Option, none, some, ◌≡◌, ◌⊎◌, inl, inr, refl, In,
}
use now_sdk_ext_core.Workflow.Explore.{Walk, here, step}
use now_sdk_ext_core.Workflow.BackEdges.{Graph, Marks, Frame}
use now_sdk_ext_core.Workflow.BackEdges.Order.{Before}

module _ {A E : Type 0} (g : Graph A E) where
  abbrev pub raw_targets : A → List A
  raw_targets n = map (λ p. p.1) (g.raw_edges n)

  abbrev pub nodes_of : List (Frame A E) → List A
  nodes_of frames = map (λ f. f.0) frames

  -- Where an edge goes that has been looked at: the frame above is none at the top of the stack.
  abbrev pub Above : Option A → A → Type 0
  Above none t = ⊥
  Above (some a) t = t ≡ a

  pub record FrameOk (m : Marks A E) (above : Option A) (u : A) (edges : List (E × A))
      (frames : List (Frame A E)) : Type 0 where
    pub left : (e : E) (t : A) → In (e, t) edges → In (e, t) (g.raw_edges u)
    pub looked :
        (e : E) (t : A)
        → In (e, t) (g.raw_edges u)
        → In (e, t) edges ⊎ In (u, e, t) m.back_edges ⊎ In t m.done ⊎ Above above t
    pub linked : (t : A) → Above above t → In t (raw_targets u)
    pub not_done : ¬ In u m.done
    pub opened : In u m.opened
    pub once : ¬ In u (nodes_of frames)

  abbrev pub FramesOk : Marks A E → Option A → List (Frame A E) → Type 0
  FramesOk m above [] = Unit
  FramesOk m above ((u, edges) ∷ frames) =
      FrameOk m above u edges frames × FramesOk m (some u) frames

  pub record Inv (frames : List (Frame A E)) (m : Marks A E) : Type 0 where
    pub nodup : Nodup m.done
    pub ordered :
        (u : A) (e : E) (t : A)
        → In u m.done
        → In (e, t) (g.raw_edges u)
        → In (u, e, t) m.back_edges ⊎ Before t u m.done
    pub loops :
        (u : A) (e : E) (t : A)
        → In (u, e, t) m.back_edges
        → In (e, t) (g.raw_edges u) × Walk raw_targets t u
    pub frames_ok : FramesOk m none frames
    pub covered : (n : A) → In n m.opened → In n (nodes_of frames)

  pub FramesOk-opened :
      (m : Marks A E) (above : Option A) (frames : List (Frame A E)) (w : A)
      → FramesOk m above frames
      → In w (nodes_of frames)
      → In w m.opened
  FramesOk-opened m above [] w ok h = absurd h
  FramesOk-opened m above ((u, edges) ∷ frames) w ok (inl e) = rw e (ok.0.opened)
  FramesOk-opened m above ((u, edges) ∷ frames) w ok (inr h) =
      FramesOk-opened m (some u) frames w ok.1 h

  -- A change of the marks that keeps what the frames rest on.
  pub FramesOk-move :
      (m m' : Marks A E) (above above' : Option A) (frames : List (Frame A E))
      → ((t : A) → In t m.done → In t m'.done)
      → ((x : A × E × A) → In x m.back_edges → In x m'.back_edges)
      → ((t : A) → Above above t → Above above' t ⊎ In t m'.done)
      → ((t : A) → Above above' t → Above above t)
      → ((w : A)
          → In w (nodes_of frames)
          → ¬ In w m.done
          → In w m.opened
          → ¬ In w m'.done × In w m'.opened)
      → FramesOk m above frames
      → FramesOk m' above' frames
  FramesOk-move m m' above above' [] d b a l k ok = tt
  FramesOk-move m m' above above' ((u, edges) ∷ frames) d b a l k ok =
      let (open_not_done, open_there) = k u (inl refl) ok.0.not_done ok.0.opened in
      (
        record {
          left = ok.0.left;
          looked = λ e t h. elim (ok.0.looked e t h) [
            | inl r ↦ inl r
            | inr (inl r) ↦ inr (inl (b (u, e, t) r))
            | inr (inr (inl r)) ↦ inr (inr (inl (d t r)))
            | inr (inr (inr r)) ↦ elim (a t r) [
              | inl r' ↦ inr (inr (inr r'))
              | inr r' ↦ inr (inr (inl r'))
            ]
          ];
          linked = λ t r. ok.0.linked t (l t r);
          not_done = open_not_done;
          opened = open_there;
          once = ok.0.once;
        },
        FramesOk-move m m' (some u) (some u) frames d b (λ t r. inl r) (λ t r. r)
            (λ w h. k w (inr h)) ok.1,
      )

  -- From a node of the stack a walk leads to the node at its top.
  pub Walk-top :
      (m : Marks A E) (above : Option A) (u : A) (edges : List (E × A)) (frames : List (Frame A E))
      (w : A)
      → FramesOk m above ((u, edges) ∷ frames)
      → In w (nodes_of ((u, edges) ∷ frames))
      → Walk raw_targets w u
  Walk-top m above u edges frames w ok (inl e) = rw e here
  Walk-top m above u edges [] w ok (inr h) = absurd h
  Walk-top m above u edges ((v, others) ∷ frames) w ok (inr h) =
      step (Walk-top m (some u) v others frames w ok.1 h) (ok.1.0.linked u refl)
