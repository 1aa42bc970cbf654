-- ===== src/Workflow/Explore.antt =====
-- The loop that `reach`, `forwardReach` and `reachUntilJoin` of src/sn/workflow/WorkflowStructure.ts
-- share: a stack of nodes to look at, and the set of those seen. They differ in what they push.
use now_sdk_ext_core.Common.{
  ℕ, zero, suc, ◌+◌, ◌≤◌, ◌<◌, Bool, true, false, List, [], ◌∷◌, ◌++◌, Option, none, some, ◌≡◌, ◌⊎◌,
  inl, inr, ◌↔◌, refl, arith, if◌then◌else◌, any, length, In, In-append_left, In-append_right,
  In-append_cases, any-true, any-some, Bool-cases,
}

module _ {A : Type 0} where
  -- `todo.push(...targets)`; the top of the stack is the head of the list.
  unfoldable pub push_all : List A → List A → List A
  push_all [] todo = todo
  push_all (t ∷ targets) todo = push_all targets (t ∷ todo)

  pub In-push_all_cases :
      (x : A) (targets todo : List A) → In x (push_all targets todo) → In x targets ⊎ In x todo
  unfolding push_all
  In-push_all_cases x [] todo h = inr h
  In-push_all_cases x (t ∷ targets) todo h = elim (In-push_all_cases x targets (t ∷ todo) h) [
    | inl m ↦ inl (inr m)
    | inr (inl e) ↦ inl (inl e)
    | inr (inr m) ↦ inr m
  ]

  pub In-push_all_right : (x : A) (targets todo : List A) → In x todo → In x (push_all targets todo)
  unfolding push_all
  In-push_all_right x [] todo h = h
  In-push_all_right x (t ∷ targets) todo h = In-push_all_right x targets (t ∷ todo) (inr h)

  pub In-push_all_left :
      (x : A) (targets todo : List A) → In x targets → In x (push_all targets todo)
  unfolding push_all
  In-push_all_left x [] todo h = absurd h
  In-push_all_left x (t ∷ targets) todo (inl e) = In-push_all_right x targets (t ∷ todo) (inl e)
  In-push_all_left x (t ∷ targets) todo (inr m) = In-push_all_left x targets (t ∷ todo) m

  length-push_all :
      (targets todo : List A) → length (push_all targets todo) ≡ length targets + length todo
  unfolding push_all
  length-push_all [] todo = omega arith
  length-push_all (t ∷ targets) todo = omega (arith, length-push_all targets (t ∷ todo))

module _ {A : Type 0} (succ : A → List A) where
  -- The walks from a node.
  pub data Walk (root : A) : A → Type 0 where
    here : Walk root root
    step : {u v : A} → Walk root u → In v (succ u) → Walk root v

-- On fuel. None where it ran out, and where a node that is not there is looked at: the source
-- throws then.
unfoldable pub explore :
    {A : Type 0}
    → (A → A → Bool)
    → (A → Bool)
    → (A → List A)
    → ℕ
    → List A
    → List A
    → Option (List A)
unfolding push_all
explore same there succ zero seen todo = none
explore same there succ (suc fuel) seen [] = some seen
explore same there succ (suc fuel) seen (n ∷ todo) =
    let skip = explore same there succ fuel seen todo in
    let visit = explore same there succ fuel (seen ++ n ∷ []) (push_all (succ n) todo) in
    if any (same n) seen then skip else if there n then visit else none

module _ {A : Type 0} (same : A → A → Bool) (succ : A → List A) where
  -- The targets of the nodes that are not seen.
  abbrev pub unseen : List A → List A → ℕ
  unseen [] seen = 0
  unseen (n ∷ nodes) seen =
      if any (same n) seen then unseen nodes seen else length (succ n) + unseen nodes seen

  record Inv (root : A) (seen todo : List A) : Type 0 where
    sound : (x : A) → In x seen ⊎ In x todo → Walk succ root x
    closed : (u v : A) → In u seen → In v (succ u) → In v seen ⊎ In v todo
    source : In root seen ⊎ In root todo

module _ {A : Type 0} (same : A → A → Bool) (same_iff : (a b : A) → (same a b ≡ true) ↔ (a ≡ b))
    (succ : A → List A) (root : A) where
  any-append :
      (n m : A) (seen : List A) → any (same m) seen ≡ true → any (same m) (seen ++ n ∷ []) ≡ true
  any-append n m seen h =
      let (a, listed, e) = any-some (same m) seen h in
      any-true (same m) a (seen ++ n ∷ []) (In-append_left a seen (n ∷ []) listed) e

  any-append_self : (n : A) (seen : List A) → any (same n) (seen ++ n ∷ []) ≡ true
  any-append_self n seen =
      any-true (same n) n (seen ++ n ∷ []) (In-append_right n seen (n ∷ []) (inl refl))
        ((same_iff n n).1 refl)

  -- What is seen is counted no more.
  unseen-append :
      (n : A) (nodes seen : List A)
      → unseen same succ nodes (seen ++ n ∷ []) ≤ unseen same succ nodes seen
  unseen-append n [] seen = omega arith
  unseen-append n (m ∷ nodes) seen = ground (arith, unseen-append n nodes seen, any-append n m seen)

  unseen-append_self :
      (n : A) (nodes seen : List A)
      → In n nodes
      → any (same n) seen ≡ false
      → length (succ n) + unseen same succ nodes (seen ++ n ∷ []) ≤ unseen same succ nodes seen
  unseen-append_self n [] seen m h = absurd m
  unseen-append_self n (k ∷ nodes) seen (inl e) h =
      let listed : any (same k) (seen ++ n ∷ []) ≡ true = rw (← e) (any-append_self n seen) in
      let new : any (same k) seen ≡ false = rw (← e) h in
      let size : length (succ k) ≡ length (succ n) = rw e refl in
      rw listed (rw new (omega (arith, size, unseen-append n nodes seen)))
  unseen-append_self n (k ∷ nodes) seen (inr m) h =
      ground (arith, unseen-append_self n nodes seen m h, any-append n k seen)

  Inv-skip :
      (n : A) (seen todo : List A)
      → any (same n) seen ≡ true
      → Inv same succ root seen (n ∷ todo)
      → Inv same succ root seen todo
  Inv-skip n seen todo old inv =
      let (a, listed, e) = any-some (same n) seen old in
      let there : In n seen = rw ((same_iff n a).0 e) listed in
      let drop_n : (x : A) → In x seen ⊎ In x (n ∷ todo) → In x seen ⊎ In x todo =
        λ x h. elim h [ inl s ↦ inl s | inr (inl q) ↦ inl (rw q there) | inr (inr m) ↦ inr m ] in
      record {
        sound = λ x h. elim h [ inl s ↦ inv.sound x (inl s) | inr t ↦ inv.sound x (inr (inr t)) ];
        closed = λ u v s t. drop_n v (inv.closed u v s t);
        source = drop_n root inv.source;
      }

  Inv-visit :
      (n : A) (seen todo : List A)
      → Inv same succ root seen (n ∷ todo)
      → Inv same succ root (seen ++ n ∷ []) (push_all (succ n) todo)
  Inv-visit n seen todo inv = record {
    sound = λ x h. elim h [
      | inl s ↦ elim (In-append_cases x seen (n ∷ []) s) [
        | inl old ↦ inv.sound x (inl old)
        | inr (inl e) ↦ inv.sound x (inr (inl e))
        | inr (inr q) ↦ absurd q
      ]
      | inr t ↦ elim (In-push_all_cases x (succ n) todo t) [
        | inl target ↦ step (inv.sound n (inr (inl refl))) target
        | inr old ↦ inv.sound x (inr (inr old))
      ]
    ];
    closed = λ u v s t. elim (In-append_cases u seen (n ∷ []) s) [
      | inl old ↦ moved v (inv.closed u v old t)
      | inr (inl e) ↦ inr (In-push_all_left v (succ n) todo (rw (← e) t))
      | inr (inr q) ↦ absurd q
    ];
    source = moved root inv.source;
  }
    where
      moved :
          (x : A)
          → In x seen ⊎ In x (n ∷ todo)
          → In x (seen ++ n ∷ []) ⊎ In x (push_all (succ n) todo)
      moved x (inl s) = inl (In-append_left x seen (n ∷ []) s)
      moved x (inr (inl e)) = inl (In-append_right x seen (n ∷ []) (inl e))
      moved x (inr (inr m)) = inr (In-push_all_right x (succ n) todo m)

  module _ (nodes : List A) (known : (n : A) → In n nodes ⊎ (succ n ≡ [])) where
    -- What a visit costs.
    visit_cost :
        (n : A) (seen : List A)
        → any (same n) seen ≡ false
        → length (succ n) + unseen same succ nodes (seen ++ n ∷ []) ≤ unseen same succ nodes seen
    visit_cost n seen new = elim (known n) [
      | inl m ↦ unseen-append_self n nodes seen m new
      | inr e ↦ rw e (omega (arith, unseen-append n nodes seen))
    ]

    module _ (there : A → Bool) (at_root : there root ≡ true)
        (onward : (n v : A) → there n ≡ true → In v (succ n) → there v ≡ true) where
      -- What a walk reaches is there.
      Walk-there : (v : A) → Walk succ root v → there v ≡ true
      Walk-there v here = at_root
      Walk-there v (step {u} walk t) = onward u v (Walk-there u walk) t

      explore_total :
          (fuel : ℕ) (seen todo : List A)
          → unseen same succ nodes seen + length todo < fuel
          → Inv same succ root seen todo
          → (r : List A) × (explore same there succ fuel seen todo ≡ some r)
            × Inv same succ root r []
      unfolding explore
      explore_total zero seen todo h inv = absurd (omega arith)
      explore_total (suc fuel) seen [] h inv = (seen, refl, inv)
      explore_total (suc fuel) seen (n ∷ todo) h inv = elim (Bool-cases (any (same n) seen)) [
        | inl old ↦
            rw old (explore_total fuel seen todo (omega arith) (Inv-skip n seen todo old inv))
        | inr new ↦
            let present = Walk-there n (inv.sound n (inr (inl refl))) in
            rw new (
              rw present (
                explore_total fuel (seen ++ n ∷ []) (push_all (succ n) todo)
                  (omega (arith, visit_cost n seen new, length-push_all (succ n) todo))
                  (Inv-visit n seen todo inv)))
      ]

  Inv-start : Inv same succ root [] (root ∷ [])
  Inv-start = record {
    sound = λ x h. elim h [ inl q ↦ absurd q | inr (inl e) ↦ rw e here | inr (inr q) ↦ absurd q ];
    closed = λ u v q t. absurd q;
    source = inr (inl refl);
  }

  -- At the end what is seen is what a walk reaches.
  Walk-seen : (r : List A) (v : A) → Inv same succ root r [] → Walk succ root v → In v r
  Walk-seen r v inv here = elim inv.source [ inl s ↦ s | inr q ↦ absurd q ]
  Walk-seen r v inv (step {u} w t) = elim (inv.closed u v (Walk-seen r u inv w) t) [
    | inl s ↦ s
    | inr q ↦ absurd q
  ]

  -- With fuel for every target the loop ends, and has seen the nodes that a walk reaches, where
  -- the root is there and what leads on from there too.
  pub explore-Walk :
      (there : A → Bool) (nodes : List A) (fuel : ℕ)
      → ((n : A) → In n nodes ⊎ (succ n ≡ []))
      → there root ≡ true
      → ((n v : A) → there n ≡ true → In v (succ n) → there v ≡ true)
      → unseen same succ nodes [] + 1 < fuel
      → (r : List A) × (explore same there succ fuel [] (root ∷ []) ≡ some r)
        × ((v : A) → In v r ↔ Walk succ root v)
  explore-Walk there nodes fuel known at_root onward enough =
      let (r, e, inv) =
        explore_total nodes known there at_root onward fuel [] (root ∷ []) (omega arith)
          Inv-start in
      (r, e, λ v. (λ s. inv.sound v (inl s), Walk-seen r v inv))
