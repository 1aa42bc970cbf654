-- ===== src/Amb/EventManager.antt =====
-- src/sn/amb/EventManager.ts: subscriptions to named events. A callback is any value; to publish
-- is to call callbacks, which are returned in the order of the calls.
use text.Mathlib.Text.{◌==◌ as str_eq}
use now_sdk_ext_core.Common.{
  ℕ, ◌+◌, ◌<◌, Bool, not, List, [], ◌∷◌, ◌++◌, map, String, ◌≡◌, refl, ap, arith, ◌==◌,
  if◌then◌else◌, filter, All, All-append, Bool-cases, inl, inr,
}

pub record Subscription (C : Type 0) : Type 0 where
  pub event : String
  pub callback : C
  pub id : ℕ

pub record EventManager (C : Type 0) : Type 0 where
  pub subscriptions : List (Subscription C)
  pub id_counter : ℕ

module _ {C : Type 0} where
  abbrev pub new : EventManager C
  new = record { subscriptions = []; id_counter = 0 }

  unfoldable pub subscribe : String → C → EventManager C → EventManager C × ℕ
  subscribe event callback m = (
    record {
      subscriptions =
          m.subscriptions ++ record { event = event; callback = callback; id = m.id_counter } ∷ [];
      id_counter = m.id_counter + 1;
    },
    m.id_counter,
  )

  -- The loop of `unsubscribe`: after a `splice` the index moves on, so the subscription that took
  -- the place of the one removed is not looked at.
  unfoldable pub remove_id : ℕ → List (Subscription C) → List (Subscription C)
  remove_id id [] = []
  remove_id id (s ∷ []) = if id == s.id then [] else s ∷ []
  remove_id id (s ∷ (t ∷ rest)) =
      let after = t ∷ remove_id id rest in
      let kept = s ∷ remove_id id (t ∷ rest) in if id == s.id then after else kept

  unfoldable pub unsubscribe : ℕ → EventManager C → EventManager C
  unfolding remove_id
  unsubscribe id m = record m { subscriptions = remove_id id m.subscriptions }

  unfoldable pub get_subscriptions : String → EventManager C → List (Subscription C)
  get_subscriptions event m = filter (λ s. str_eq s.event event) m.subscriptions

  unfoldable pub publish : String → EventManager C → List C
  unfolding get_subscriptions
  publish event m = map (λ s. s.callback) (get_subscriptions event m)

  -- Ids grow along the list, and stay below the counter.
  abbrev pub Increasing : List (Subscription C) → Type 0
  Increasing [] = Unit
  Increasing (s ∷ rest) = All (λ t. s.id < t.id) rest × Increasing rest

  pub record IsValid (m : EventManager C) : Type 0 where
    pub increasing : Increasing m.subscriptions
    pub below : All (λ s. s.id < m.id_counter) m.subscriptions

  -- The subscriptions without those of an id.
  abbrev pub without : ℕ → List (Subscription C) → List (Subscription C)
  without id ss = filter (λ s. not (id == s.id)) ss

  without-above :
      (id n : ℕ) (ss : List (Subscription C)) → id ≡ n → All (λ t. n < t.id) ss → without id ss ≡ ss
  without-above id n [] e h = refl
  without-above id n (s ∷ ss) e h = ground (arith, without-above id n ss e h.1)

  remove_id-without :
      (id : ℕ) (ss : List (Subscription C)) → Increasing ss → remove_id id ss ≡ without id ss
  unfolding remove_id
  remove_id-without id [] h = refl
  remove_id-without id (s ∷ []) h = ground arith
  remove_id-without id (s ∷ (t ∷ rest)) h =
      ground (arith, remove_id-without id rest h.1.1, remove_id-without id (t ∷ rest) h.1)

  Increasing-append :
      (ss : List (Subscription C)) (s : Subscription C)
      → Increasing ss
      → All (λ t. t.id < s.id) ss
      → Increasing (ss ++ s ∷ [])
  Increasing-append [] s h b = (tt, tt)
  Increasing-append (t ∷ ss) s h b =
      (All-append _ ss (s ∷ []) h.0 (b.0, tt), Increasing-append ss s h.1 b.1)

  All-weaken :
      (n : ℕ) (ss : List (Subscription C)) → All (λ s. s.id < n) ss → All (λ s. s.id < n + 1) ss
  All-weaken n [] h = tt
  All-weaken n (s ∷ ss) h = (omega (arith, h.0), All-weaken n ss h.1)

  subscribe-IsValid :
      (event : String) (callback : C) (m : EventManager C)
      → IsValid m
      → IsValid (subscribe event callback m).0
  unfolding subscribe
  subscribe-IsValid event callback m v = record {
    increasing = Increasing-append m.subscriptions _ v.increasing v.below;
    below =
        All-append _ m.subscriptions _ (All-weaken m.id_counter m.subscriptions v.below)
          (omega arith, tt);
  }

  All-without :
      (P : Subscription C → Type 0) (id : ℕ) (ss : List (Subscription C))
      → All P ss
      → All P (without id ss)
  All-without P id [] h = tt
  All-without P id (s ∷ ss) h = elim (Bool-cases (id == s.id)) [
    | inl e ↦ rw e (All-without P id ss h.1)
    | inr e ↦ rw e (h.0, All-without P id ss h.1)
  ]

  Increasing-without :
      (id : ℕ) (ss : List (Subscription C)) → Increasing ss → Increasing (without id ss)
  Increasing-without id [] h = tt
  Increasing-without id (s ∷ ss) h = elim (Bool-cases (id == s.id)) [
    | inl e ↦ rw e (Increasing-without id ss h.1)
    | inr e ↦ rw e (All-without _ id ss h.0, Increasing-without id ss h.1)
  ]

  unsubscribe-IsValid : (id : ℕ) (m : EventManager C) → IsValid m → IsValid (unsubscribe id m)
  unfolding unsubscribe
  unsubscribe-IsValid id m v = rw (remove_id-without id m.subscriptions v.increasing) (record {
    increasing = Increasing-without id m.subscriptions v.increasing;
    below = All-without _ id m.subscriptions v.below;
  })

-- The calls of a client.
pub data Call (C : Type 0) : Type 0 where
  subscribes : String → C → Call C
  unsubscribes : ℕ → Call C

module _ {C : Type 0} where
  pub run : List (Call C) → EventManager C → EventManager C
  run [] m = m
  run (subscribes event callback ∷ calls) m = run calls (subscribe event callback m).0
  run (unsubscribes id ∷ calls) m = run calls (unsubscribe id m)

  run-IsValid : (calls : List (Call C)) (m : EventManager C) → IsValid m → IsValid (run calls m)
  unfolding run
  run-IsValid [] m v = v
  run-IsValid (subscribes event callback ∷ calls) m v =
      run-IsValid calls _ (subscribe-IsValid event callback m v)
  run-IsValid (unsubscribes id ∷ calls) m v = run-IsValid calls _ (unsubscribe-IsValid id m v)

  filter-filter :
      (p q : Subscription C → Bool) (ss : List (Subscription C))
      → filter p (filter q ss) ≡ filter q (filter p ss)
  filter-filter p q [] = refl
  filter-filter p q (s ∷ ss) = elim (Bool-cases (p s)) [
    | inl a ↦ elim (Bool-cases (q s)) [
      | inl b ↦ rw b (rw a (rw b (ap (λ r. s ∷ r) (filter-filter p q ss))))
      | inr b ↦ rw b (rw a (rw b (filter-filter p q ss)))
    ]
    | inr a ↦ elim (Bool-cases (q s)) [
      | inl b ↦ rw b (rw a (filter-filter p q ss))
      | inr b ↦ rw b (rw a (filter-filter p q ss))
    ]
  ]

  -- Although the loop of `unsubscribe` passes over a subscription after each removal, after any
  -- calls from a new manager it removes the subscription of the given id and no other: an event
  -- calls the callbacks that it called before, in order, without that one.
  pub publish-unsubscribe :
      (calls : List (Call C)) (id : ℕ) (event : String)
      → publish event (unsubscribe id (run calls new))
        ≡ map (λ s. s.callback) (without id (get_subscriptions event (run calls new)))
  unfolding publish unsubscribe
  publish-unsubscribe calls id event =
      let m = run calls new in
      let v = run-IsValid calls new (record { increasing = tt; below = tt }) in
      rw (remove_id-without id m.subscriptions v.increasing)
        (ap (map (λ s. s.callback)) (filter-filter _ _ m.subscriptions))
