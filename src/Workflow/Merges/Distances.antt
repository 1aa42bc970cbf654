-- ===== src/Workflow/Merges/Distances.antt =====
-- `distances` of src/sn/workflow/WorkflowStructure.ts ends: each round that goes on gives a depth to
-- an activity that had none.
use now_sdk_ext_core.Common.{
  ℕ, zero, suc, ◌+◌, ◌≤◌, ◌<◌, true, false, List, [], ◌∷◌, some, String, ◌≡◌, ◌⊎◌, inl, inr, refl,
  arith, eq_iff, if◌then◌else◌, or_else, is_some, length, length-append, Bool-cases, In, Map,
  lookup, insert, lookup-insert, keys,
}
use text.Mathlib.Text.{◌==◌ as str_eq}
use now_sdk_ext_core.Workflow.Structure.{Wiring}
use now_sdk_ext_core.Workflow.Paths.{targets_of}
use now_sdk_ext_core.Workflow.Paths.Closed.{Closed}
use now_sdk_ext_core.Workflow.Paths.Paired.{targets_of-In}
use now_sdk_ext_core.Workflow.Merges.{add_target, add_targets, scan_frontier, spread, distances}

-- How many of the activities have no depth.
abbrev missing : List String → Map ℕ → ℕ
missing [] depths = 0
missing (n ∷ ids) depths =
    if is_some (lookup n depths) then missing ids depths else 1 + missing ids depths

missing-length : (ids : List String) (depths : Map ℕ) → missing ids depths ≤ length ids
missing-length [] depths = omega arith
missing-length (n ∷ ids) depths = ground (arith, missing-length ids depths)

is_some-insert :
    (t n : String) (d : ℕ) (depths : Map ℕ)
    → is_some (lookup n (insert t d depths))
      ≡ (if str_eq t n then true else is_some (lookup n depths))
is_some-insert t n d depths =
    let found : lookup n (insert t d depths) ≡ (if str_eq t n then some d else lookup n depths) =
      lookup-insert t n d depths in
    elim (Bool-cases (str_eq t n)) [ inl e ↦ rw found (rw e refl) | inr e ↦ rw found (rw e refl) ]

missing-insert :
    (ids : List String) (t : String) (d : ℕ) (depths : Map ℕ)
    → missing ids (insert t d depths) ≤ missing ids depths
missing-insert [] t d depths = omega arith
missing-insert (n ∷ ids) t d depths =
    ground (arith, missing-insert ids t d depths, is_some-insert t n d depths)

missing-insert_less :
    (ids : List String) (t : String) (d : ℕ) (depths : Map ℕ)
    → In t ids
    → is_some (lookup t depths) ≡ false
    → 1 + missing ids (insert t d depths) ≤ missing ids depths
missing-insert_less [] t d depths m new = absurd m
missing-insert_less (n ∷ ids) t d depths (inl e) new =
    let new' : is_some (lookup n depths) ≡ false = rw (← e) new in
    let same : str_eq t n ≡ true = (eq_iff t n).1 e in
    let there : is_some (lookup n (insert t d depths)) ≡ true =
      rw (is_some-insert t n d depths) (rw same refl) in
    rw new' (rw there (omega (arith, missing-insert ids t d depths)))
missing-insert_less (n ∷ ids) t d depths (inr m) new =
    ground (arith, missing-insert_less ids t d depths m new, is_some-insert t n d depths)

module _ (w : Wiring) (closed : Closed w) where
  abbrev measure : Map ℕ × List String → ℕ
  measure found = missing (keys w.activities) found.0 + length found.1

  add_target-le :
      (depth : ℕ) (t : String) (found : Map ℕ × List String)
      → In t (keys w.activities)
      → measure (add_target depth t found) ≤ measure found
  add_target-le depth t (depths, next) known = elim (Bool-cases (is_some (lookup t depths))) [
    | inl e ↦ rw e (omega arith)
    | inr e ↦
        let less = missing-insert_less (keys w.activities) t depth depths known e in
        rw e (omega (arith, less, length-append next (t ∷ [])))
  ]

  add_targets-le :
      (depth : ℕ) (ts : List String) (found : Map ℕ × List String)
      → ((t : String) → In t ts → In t (keys w.activities))
      → measure (add_targets depth ts found) ≤ measure found
  add_targets-le depth [] found known = omega arith
  add_targets-le depth (t ∷ ts) found known =
      let first = add_target-le depth t found (known t (inl refl)) in
      let later = add_targets-le depth ts (add_target depth t found) (λ u m. known u (inr m)) in
      omega (arith, first, later)

  scan_frontier-le :
      (frontier : List String) (found : Map ℕ × List String)
      → measure (scan_frontier w frontier found) ≤ measure found
  scan_frontier-le [] found = omega arith
  scan_frontier-le (n ∷ frontier) (depths, next) =
      let depth = or_else (lookup n depths) 0 + 1 in
      let step = add_targets-le depth (targets_of w n) (depths, next) (targets_of-In w closed n) in
      let later = scan_frontier-le frontier (add_targets depth (targets_of w n) (depths, next)) in
      omega (arith, step, later)

  spread_total :
      (fuel : ℕ) (frontier : List String) (depths : Map ℕ)
      → (frontier ≡ []) ⊎ (missing (keys w.activities) depths + 1 < fuel)
      → 0 < fuel
      → (r : Map ℕ) × (spread w fuel frontier depths ≡ some r)
  unfolding spread
  spread_total zero frontier depths h enough = absurd (omega arith)
  spread_total (suc fuel) [] depths h enough = (depths, refl)
  spread_total (suc fuel) (n ∷ frontier) depths (inl e) enough = absurd (cc)
  spread_total (suc fuel) (n ∷ frontier) depths (inr h) enough =
      let found = scan_frontier w (n ∷ frontier) (depths, []) in
      let less = scan_frontier-le (n ∷ frontier) (depths, []) in
      spread_total fuel found.1 found.0
        (empty_or found.1 (missing (keys w.activities) found.0) (omega (arith, less, h)))
        (omega (arith, h))
    where
      empty_or :
          (next : List String) (k : ℕ)
          → k + length next + 1 < suc fuel
          → (next ≡ []) ⊎ (k + 1 < fuel)
      empty_or [] k h = inl refl
      empty_or (t ∷ next) k h = inr (omega (arith, h))

  pub distances_total : (root : String) → (r : Map ℕ) × (distances w root ≡ some r)
  unfolding distances
  distances_total root =
      spread_total (length (keys w.activities) + 2) (root ∷ []) ((root, 0) ∷ [])
        (inr (omega (arith, missing-length (keys w.activities) ((root, 0) ∷ [])))) (omega arith)
