-- ===== src/Workflow/Outline/Steps.antt =====
-- The steps of an outline of src/sn/workflow/WorkflowStructure.ts in reading order, and the numbers
-- that `buildOutline` gives.
use now_sdk_ext_core.Common.{
  ℕ, ◌+◌, ◌≤◌, false, List, [], ◌∷◌, ◌++◌, String, ◌≡◌, inl, inr, refl, sym, ap, eq_iff, arith,
  Bool-cases, is_some, length, In, Nodup, Nodup-append_last, Nodup-length, In-append_cases, lookup,
  insert, keys,
}
use text.Mathlib.Text.{◌==◌ as str_eq}
use now_sdk_ext_core.Workflow.OutlineItems.{
  OutlineItem, OutlineItems, Lanes, Branches, step_item, end_item, goto_item, rejoins_below, rejoin,
  no_items, item, no_lanes, lane, no_branches, branch, Numbers,
}

-- The steps with their numbers: a step, what its branches show, and what comes after it.
unfoldable mutual
  pub steps : OutlineItems → Numbers
  steps no_items = []
  steps (item x rest) = item_steps x ++ steps rest

  pub item_steps : OutlineItem → Numbers
  item_steps (step_item step branches) = (step.activity, step.number) ∷ branch_steps branches
  item_steps (end_item n) = []
  item_steps (goto_item n) = []
  item_steps rejoins_below = []
  item_steps (rejoin b) = []

  pub lane_steps : Lanes → Numbers
  lane_steps no_lanes = []
  lane_steps (lane items rest) = steps items ++ lane_steps rest

  pub branch_steps : Branches → Numbers
  branch_steps no_branches = []
  branch_steps (branch exit condition lanes rest) = lane_steps lanes ++ branch_steps rest

-- The numbers from `k` on, one after the other.
abbrev pub Consecutive : ℕ → Numbers → Type 0
Consecutive k [] = Unit
Consecutive k ((n, v) ∷ rest) = (v ≡ k) × Consecutive (k + 1) rest

Consecutive-append :
    (k : ℕ) (numbers : Numbers) (n : String) (v : ℕ)
    → Consecutive k numbers
    → v ≡ k + length numbers
    → Consecutive k (numbers ++ (n, v) ∷ [])
Consecutive-append k [] n v h e = (omega (arith, e), tt)
Consecutive-append k ((m, u) ∷ numbers) n v h e =
    (h.0, Consecutive-append (k + 1) numbers n v h.1 (omega (arith, e)))

pub insert_fresh :
    (n : String) (v : ℕ) (numbers : Numbers)
    → is_some (lookup n numbers) ≡ false
    → insert n v numbers ≡ numbers ++ (n, v) ∷ []
unfolding lookup insert
insert_fresh n v [] h = refl
insert_fresh n v ((m, u) ∷ numbers) h = elim (Bool-cases (str_eq m n)) [
  | inl e ↦ absurd (cc (rw e at h))
  | inr e ↦ rw e (ap (λ r. (m, u) ∷ r) (insert_fresh n v numbers (rw e at h)))
]

lookup-missing :
    (n : String) (numbers : Numbers) → is_some (lookup n numbers) ≡ false → ¬ In n (keys numbers)
unfolding lookup
lookup-missing n [] h m = m
lookup-missing n ((k, u) ∷ numbers) h m = elim (Bool-cases (str_eq k n)) [
  | inl e ↦ absurd (cc (rw e at h))
  | inr e ↦ elim m [
    | inl q ↦ absurd (cc ((eq_iff k n).1 (sym q), e))
    | inr r ↦ lookup-missing n numbers (rw e at h) r
  ]
]

keys-append : (xs ys : Numbers) → keys (xs ++ ys) ≡ keys xs ++ keys ys
keys-append [] ys = refl
keys-append (x ∷ xs) ys = ap (λ r. x.0 ∷ r) (keys-append xs ys)

length-keys : (xs : Numbers) → length (keys xs) ≡ length xs
length-keys [] = refl
length-keys (x ∷ xs) = omega (arith, length-keys xs)

-- What the numbers given so far are: one for each of some activities, from one on.
pub record Numbering (ids : List String) (numbers : Numbers) : Type 0 where
  pub nodup : Nodup (keys numbers)
  pub listed : (n : String) → In n (keys numbers) → In n ids
  pub consecutive : Consecutive 1 numbers

pub Numbering-length :
    (ids : List String) (numbers : Numbers) → Numbering ids numbers → length numbers ≤ length ids
Numbering-length ids numbers v =
    omega (arith, Nodup-length (keys numbers) ids v.nodup v.listed, length-keys numbers)

pub Numbering-next :
    (ids : List String) (numbers : Numbers) (n : String)
    → Numbering ids numbers
    → In n ids
    → is_some (lookup n numbers) ≡ false
    → Numbering ids (insert n (length numbers + 1) numbers)
Numbering-next ids numbers n v there fresh =
    let named = keys-append numbers ((n, length numbers + 1) ∷ []) in
    rw (insert_fresh n (length numbers + 1) numbers fresh) (record {
      nodup =
          rw named (Nodup-append_last n (keys numbers) v.nodup (lookup-missing n numbers fresh));
      listed = λ k h. elim (In-append_cases k (keys numbers) (n ∷ []) (rw named at h)) [
        | inl old ↦ v.listed k old
        | inr (inl e) ↦ rw e there
        | inr (inr x) ↦ absurd x
      ];
      consecutive = Consecutive-append 1 numbers n (length numbers + 1) v.consecutive (omega arith);
    })
