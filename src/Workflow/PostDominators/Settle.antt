-- ===== src/Workflow/PostDominators/Settle.antt =====
-- The loop of `computePostDominators` of src/sn/workflow/WorkflowStructure.ts: what each turn keeps,
-- and that it ends.
use now_sdk_ext_core.Common.{
  true, false, List, [], ◌∷◌, String, ◌≡◌, ◌≢◌, ◌⊎◌, inl, inr, ap, eq_iff, Bool-cases, In, Nodup,
  Map, insert,
}
use text.Mathlib.Text.{◌==◌ as str_eq}
use now_sdk_ext_core.Workflow.PostDominators.{workflow_exit, set_of, all_ids, common}
use now_sdk_ext_core.Workflow.PostDominators.Merge.{
  common_cases, common_self, common_from, Nodup-common, set_of-insert,
}

module _ (succ : String → List String) (ids : List String) where
  -- A path from an activity out of the workflow that does not pass an activity.
  pub data Avoiding (x : String) : String → Type 0 where
    leave : x ≢ workflow_exit → Avoiding x workflow_exit
    pass_on : {n s : String} → x ≢ n → In n ids → In s (succ n) → Avoiding x s → Avoiding x n

  -- From each activity something follows: an activity, or the marker, which is none.
  pub record IsFlow : Type 0 where
    pub apart : ¬ In workflow_exit ids
    pub goes_on : (n : String) → In n ids → (s : String) × In s (succ n)
    pub closed : (n s : String) → In n ids → In s (succ n) → In s ids ⊎ (s ≡ workflow_exit)

  pub record Good (pdom : Map (List String)) : Type 0 where
    pub nodup : (n : String) → Nodup (set_of pdom n)
    pub bounded : (n x : String) → In x (set_of pdom n) → In x (all_ids ids)
    pub marker : set_of pdom workflow_exit ≡ workflow_exit ∷ []
    pub post : (n x : String) → In n ids → In x (common succ pdom n) → In x (set_of pdom n)
    pub complete :
        (n x : String)
        → In n ids ⊎ (n ≡ workflow_exit)
        → In x (all_ids ids)
        → ¬ Avoiding x n
        → In x (set_of pdom n)

  module _ (flow : IsFlow) (n : String) (listed : In n ids) (pdom : Map (List String))
      (good : Good pdom) where
    abbrev pub next : Map (List String)
    next = insert n (common succ pdom n) pdom

    pub next_at : (m : String) → str_eq n m ≡ true → set_of next m ≡ common succ pdom m
    next_at m e =
        let same : n ≡ m = (eq_iff n m).0 e in
        let found = set_of-insert n m (common succ pdom n) pdom in
        let found' : set_of next m ≡ common succ pdom n = rw e at found in
        rw found' (ap (common succ pdom) same)

    next_else : (m : String) → str_eq n m ≡ false → set_of next m ≡ set_of pdom m
    next_else m e = let found = set_of-insert n m (common succ pdom n) pdom in rw e at found

    pub shrinks : (m x : String) → In x (set_of next m) → In x (set_of pdom m)
    shrinks m x h = elim (Bool-cases (str_eq n m)) [
      | inr e ↦ rw (next_else m e) at h
      | inl e ↦
          let same : n ≡ m = (eq_iff n m).0 e in
          good.post m x (rw same at listed) (rw (next_at m e) at h)
    ]

    -- What the new sets merge to, the old ones did.
    common_mono : (m x : String) → In m ids → In x (common succ next m) → In x (common succ pdom m)
    common_mono m x there h = elim (common_cases succ next m x h) [
      | inl e ↦ rw e (common_self succ pdom m)
      | inr every ↦
          let (t, follows) = flow.goes_on m there in
          common_from succ pdom m x t follows (λ s k. shrinks s x (every s k))
    ]

    next_marker : set_of next workflow_exit ≡ workflow_exit ∷ []
    next_marker = elim (Bool-cases (str_eq n workflow_exit)) [
      | inr e ↦ rw (next_else workflow_exit e) good.marker
      | inl e ↦
          let same : n ≡ workflow_exit = (eq_iff n workflow_exit).0 e in
          absurd (flow.apart (rw same at listed))
    ]

    common_complete :
        (m x : String) → In m ids → In x (all_ids ids) → ¬ Avoiding x m → In x (common succ pdom m)
    common_complete m x there known none_avoids = elim (Bool-cases (str_eq x m)) [
      | inl e ↦ let same : x ≡ m = (eq_iff x m).0 e in rw same (common_self succ pdom m)
      | inr e ↦
          let (t, follows) = flow.goes_on m there in
          let other : x ≢ m = λ q. cc ((eq_iff x m).1 q, e) in
          common_from succ pdom m x t follows (λ s k.
            good.complete s x (flow.closed m s there k) known
              (λ path. none_avoids (pass_on other there k path)))
    ]

    pub visit_changed-Good : Good next
    visit_changed-Good = record {
      nodup = λ m. elim (Bool-cases (str_eq n m)) [
        | inl e ↦ rw (next_at m e) (Nodup-common succ pdom m good.nodup)
        | inr e ↦ rw (next_else m e) (good.nodup m)
      ];
      bounded = λ m x h. good.bounded m x (shrinks m x h);
      marker = next_marker;
      post = λ m x there h.
          let old = common_mono m x there h in
          elim (Bool-cases (str_eq n m)) [
            | inl e ↦ rw (next_at m e) old
            | inr e ↦ rw (next_else m e) (good.post m x there old)
          ];
      complete = λ m x there known none_avoids. elim (Bool-cases (str_eq n m)) [
        | inr e ↦ rw (next_else m e) (good.complete m x there known none_avoids)
        | inl e ↦
            let same : n ≡ m = (eq_iff n m).0 e in
            rw (next_at m e) (common_complete m x (rw same at listed) known none_avoids)
      ];
    }
