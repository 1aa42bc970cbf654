-- ===== src/Batch/Loop.antt =====
-- The loop that both methods of src/sn/batch/BatchOperations.ts run: one operation after the other,
-- with a `break` after a failure where the batch is to stop at the first.
use now_sdk_ext_core.Common.{
  ℕ, ◌+◌, ◌<◌, Bool, true, false, ◌&&◌, List, [], ◌∷◌, ◌++◌, ◌≡◌, ◌⊎◌, inl, inr, refl, arith,
  if◌then◌else◌, length, length-append, Bool-cases,
}

module _ {Op S : Type 0} where
  -- `step` says whether the operation failed; `i` is the index of the next operation.
  unfoldable pub batch_loop : Bool → (ℕ → Op → S → S × Bool) → ℕ → List Op → S → S
  batch_loop stop step i [] s = s
  batch_loop stop step i (op ∷ ops) s =
      let (s', failed) = step i op s in
      let rest = batch_loop stop step (i + 1) ops s' in if failed && stop then s' else rest

module _ {S E : Type 0} (done : S → ℕ) (errors : S → List E) (index : E → ℕ) where
  -- One step: a success that is counted, or an error with the step's index.
  abbrev pub Tallied : ℕ → S → S × Bool → Type 0
  Tallied i s r =
      ((r.1 ≡ false) × (done r.0 ≡ done s + 1) × (errors r.0 ≡ errors s))
      ⊎ ((e : E) × (r.1 ≡ true)
          × (done r.0 ≡ done s)
          × (errors r.0 ≡ errors s ++ e ∷ [])
          × (index e ≡ i))

-- What a step does to the count of successes and to the errors, each of which has an index.
module _ {Op S E : Type 0} (done : S → ℕ) (errors : S → List E) (index : E → ℕ) where
  pub record StepLaws (step : ℕ → Op → S → S × Bool) : Type 0 where
    pub success :
        (i : ℕ) (op : Op) (s : S)
        → (step i op s).1 ≡ false
        → (done (step i op s).0 ≡ done s + 1) × (errors (step i op s).0 ≡ errors s)
    pub failure :
        (i : ℕ) (op : Op) (s : S)
        → (step i op s).1 ≡ true
        → (e : E) × (done (step i op s).0 ≡ done s)
          × (errors (step i op s).0 ≡ errors s ++ e ∷ [])
          × (index e ≡ i)

  pub StepLaws-Tallied :
      (step : ℕ → Op → S → S × Bool)
      → ((i : ℕ) (op : Op) (s : S) → Tallied done errors index i s (step i op s))
      → StepLaws step
  StepLaws-Tallied step t = record {
    success = λ i op s h. elim (t i op s) [
      | inl (f, d, es) ↦ (d, es)
      | inr (e, f, d, es, at) ↦ absurd (cc)
    ];
    failure = λ i op s h. elim (t i op s) [
      | inl (f, d, es) ↦ absurd (cc)
      | inr (e, f, d, es, at) ↦ (e, d, es, at)
    ];
  }

module _ {Op S E : Type 0} (done : S → ℕ) (errors : S → List E) (index : E → ℕ)
    (step : ℕ → Op → S → S × Bool) (laws : StepLaws done errors index step) where
  -- A loop that does not stop runs every operation: each is a success or an error.
  pub batch_loop_all :
      (i : ℕ) (ops : List Op) (s : S)
      → done (batch_loop false step i ops s) + length (errors (batch_loop false step i ops s))
        ≡ done s + length (errors s) + length ops
  unfolding batch_loop
  batch_loop_all i [] s = omega arith
  batch_loop_all i (op ∷ ops) s = elim (Bool-cases (step i op s).1) [
    | inl failed ↦
        let (e, d, es, at) = laws.failure i op s failed in
        rw failed (
          omega (
            arith,
            batch_loop_all (i + 1) ops (step i op s).0,
            d,
            (rw (length-append (errors s) (e ∷ [])) at (
                let q : length (errors (step i op s).0) ≡ length (errors s ++ e ∷ []) = rw es in
                q)),
          ))
    | inr fine ↦
        let (d, es) = laws.success i op s fine in
        rw fine (
          omega (
            arith,
            batch_loop_all (i + 1) ops (step i op s).0,
            d,
            (let q : length (errors (step i op s).0) ≡ length (errors s) = rw es in q),
          ))
  ]

  -- How a loop that stops at the first error ends: every operation succeeded, or one failed, and
  -- its index tells how many had succeeded before it.
  pub data Ended (i : ℕ) (ops : List Op) (s t : S) : Type 0 where
    complete : done t ≡ done s + length ops → errors t ≡ errors s → Ended i ops s t
    stopped :
        (e : E)
        → done t < done s + length ops
        → errors t ≡ errors s ++ e ∷ []
        → index e + done s ≡ i + done t
        → Ended i ops s t

  pub batch_loop_stops :
      (i : ℕ) (ops : List Op) (s : S) → Ended i ops s (batch_loop true step i ops s)
  unfolding batch_loop
  batch_loop_stops i [] s = complete (omega arith) refl
  batch_loop_stops i (op ∷ ops) s = elim (Bool-cases (step i op s).1) [
    | inl failed ↦
        let (e, d, es, at) = laws.failure i op s failed in
        rw failed (stopped e (omega (arith, d)) es (omega (arith, d, at)))
    | inr fine ↦
        let (d, es) = laws.success i op s fine in
        rw fine (later d es (batch_loop_stops (i + 1) ops (step i op s).0))
  ]
    where
      later :
          done (step i op s).0 ≡ done s + 1
          → errors (step i op s).0 ≡ errors s
          → Ended (i + 1) ops (step i op s).0 (batch_loop true step (i + 1) ops (step i op s).0)
          → Ended i (op ∷ ops) s (batch_loop true step (i + 1) ops (step i op s).0)
      later d es (complete c e) = complete (omega (arith, d, c)) (rw (← es) e)
      later d es (stopped e lt er at) =
          stopped e (omega (arith, d, lt)) (rw (← es) er) (omega (arith, d, at))
