-- ===== src/Workflow/BackEdges/Measure.antt =====
-- What is left to do for the search of `findBackEdges`, src/sn/workflow/WorkflowStructure.ts: a
-- measure that falls in every round.
use now_sdk_ext_core.Common.{
  ℕ, ◌+◌, ◌≤◌, true, false, List, [], ◌∷◌, ◌≡◌, ◌⊎◌, inl, inr, refl, sym, arith, if◌then◌else◌, any,
  length, In, In-append_left, In-append_right, any-true, any-some, Bool-cases, In-filter_from,
}
use now_sdk_ext_core.Workflow.BackEdges.{
  Graph, IsLawful, Marks, Frame, is_open, has_state, set_done,
}
use now_sdk_ext_core.Workflow.BackEdges.Rounds.{is_open-In}

module _ {A E : Type 0} (g : Graph A E) where
  -- A node that has a state.
  abbrev pub Met : Marks A E → A → Type 0
  Met m n = In n m.opened ⊎ In n m.done

  abbrev pub cost : List (Frame A E) → ℕ
  cost [] = 0
  cost ((u, edges) ∷ frames) = 1 + length edges + cost frames

  -- What the nodes that are not met may still cost.
  abbrev pub fresh : List A → Marks A E → ℕ
  fresh [] m = 0
  fresh (n ∷ nodes) m =
      if has_state g m n then fresh nodes m else 1 + length (g.raw_edges n) + fresh nodes m

  pub fresh-le :
      (nodes : List A) (m m' : Marks A E)
      → ((n : A) → has_state g m n ≡ true → has_state g m' n ≡ true)
      → fresh nodes m' ≤ fresh nodes m
  fresh-le [] m m' h = omega arith
  fresh-le (n ∷ nodes) m m' h = elim (Bool-cases (has_state g m n)) [
    | inl e ↦ rw e (rw (h n e) (fresh-le nodes m m' h))
    | inr e ↦ elim (Bool-cases (has_state g m' n)) [
      | inl e' ↦ rw e (rw e' (omega (arith, fresh-le nodes m m' h)))
      | inr e' ↦ rw e (rw e' (omega (arith, fresh-le nodes m m' h)))
    ]
  ]

module _ {A E : Type 0} (g : Graph A E) (lawful : IsLawful g) where
  pub is_open-Met : (m : Marks A E) (n : A) → has_state g m n ≡ true → Met g m n
  is_open-Met m n h = elim (Bool-cases (is_open g m n)) [
    | inl e ↦ inl (is_open-In g lawful m n e)
    | inr e ↦
        let (k, listed, q) = any-some (g.same n) m.done (rw e at h) in
        inr (rw ((lawful.same_iff n k).0 q) listed)
  ]

  pub Met-has_state : (m : Marks A E) (n : A) → Met g m n → has_state g m n ≡ true
  Met-has_state m n (inl o) =
      rw (any-true (g.same n) n m.opened o ((lawful.same_iff n n).1 refl)) refl
  Met-has_state m n (inr d) =
      let there : any (g.same n) m.done ≡ true =
        any-true (g.same n) n m.done d ((lawful.same_iff n n).1 refl) in
      ground arith

  pub fresh-new :
      (nodes : List A) (m m' : Marks A E) (to : A)
      → ((n : A) → has_state g m n ≡ true → has_state g m' n ≡ true)
      → In to nodes
      → has_state g m to ≡ false
      → has_state g m' to ≡ true
      → 1 + length (g.raw_edges to) + fresh g nodes m' ≤ fresh g nodes m
  fresh-new [] m m' to h listed e e' = absurd listed
  fresh-new (n ∷ nodes) m m' to h (inl q) e e' =
      let f : has_state g m n ≡ false = rw (← q) e in
      let f' : has_state g m' n ≡ true = rw (← q) e' in
      let size : length (g.raw_edges n) ≡ length (g.raw_edges to) = rw q refl in
      rw f (rw f' (omega (arith, size, fresh-le g nodes m m' h)))
  fresh-new (n ∷ nodes) m m' to h (inr listed) e e' = elim (Bool-cases (has_state g m n)) [
    | inl f ↦ rw f (rw (h n f) (fresh-new nodes m m' to h listed e e'))
    | inr f ↦ elim (Bool-cases (has_state g m' n)) [
      | inl f' ↦ rw f (rw f' (omega (arith, fresh-new nodes m m' to h listed e e')))
      | inr f' ↦ rw f (rw f' (omega (arith, fresh-new nodes m m' to h listed e e')))
    ]
  ]

  pub Met-set_done : (node : A) (m : Marks A E) (n : A) → Met g m n → Met g (set_done g node m) n
  Met-set_done node m n (inr d) = inr (In-append_left n m.done (node ∷ []) d)
  Met-set_done node m n (inl o) = elim (Bool-cases (g.same node n)) [
    | inl e ↦ inr (In-append_right n m.done (node ∷ []) (inl (sym ((lawful.same_iff node n).0 e))))
    | inr e ↦ inl (In-filter_from _ n m.opened o (rw e refl))
  ]
