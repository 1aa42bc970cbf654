-- ===== src/Workflow/PostDominators/Merge.antt =====
-- What the merged set of `computePostDominators` of src/sn/workflow/WorkflowStructure.ts holds.
use now_sdk_ext_core.Common.{
  true, List, [], ◌∷◌, map, some, String, ◌≡◌, ◌⊎◌, inl, inr, refl, ap, eq_iff, eq_refl, Bool-cases,
  In, In-filter_to, In-filter_from, any-true, any-In, all-true, all-In, In-set_add_self,
  In-set_add_old, In-set_add_cases, Nodup, Nodup-filter, Nodup-set_add, Map, insert, lookup-insert,
  if◌then◌else◌, or_else, lookup, In-map,
}
use text.Mathlib.Text.{◌==◌ as str_eq}
use now_sdk_ext_core.Workflow.PostDominators.{contains, set_of, in_all, common}

pub contains-true : (x : String) (s : List String) → In x s → contains x s ≡ true
contains-true x s m = any-true (str_eq x) x s m (eq_refl x)

pub contains-In : (x : String) (s : List String) → contains x s ≡ true → In x s
contains-In x s h = any-In str_eq eq_iff x s h

in_all-In :
    (x : String) (s : List String) (sets : List (List String))
    → In x (in_all sets)
    → In s sets
    → In x s
in_all-In x s [] h m = absurd m
in_all-In x s (t ∷ rest) h m =
    let kept = (In-filter_to _ x t h).1 in contains-In x s (all-In (contains x) s (t ∷ rest) kept m)

In-in_all :
    (x : String) (t : List String) (sets : List (List String))
    → In t sets
    → ((s : List String) → In s sets → In x s)
    → In x (in_all sets)
In-in_all x t [] m h = absurd m
In-in_all x t (u ∷ rest) m h =
    In-filter_from _ x u (h u (inl refl))
      (all-true (contains x) (u ∷ rest) (λ s k. contains-true x s (h s k)))

module _ (succ : String → List String) (pdom : Map (List String)) where
  pub common_cases :
      (n x : String)
      → In x (common succ pdom n)
      → (x ≡ n) ⊎ ((s : String) → In s (succ n) → In x (set_of pdom s))
  unfolding common
  common_cases n x h =
      elim (In-set_add_cases str_eq eq_iff x n (in_all (map (set_of pdom) (succ n))) h) [
        | inl m ↦ inr (λ s k. in_all-In x (set_of pdom s) _ m (In-map (set_of pdom) s (succ n) k))
        | inr e ↦ inl e
      ]

  pub common_self : (n : String) → In n (common succ pdom n)
  unfolding common
  common_self n = In-set_add_self str_eq eq_iff n (in_all (map (set_of pdom) (succ n)))

  pub common_from :
      (n x t : String)
      → In t (succ n)
      → ((s : String) → In s (succ n) → In x (set_of pdom s))
      → In x (common succ pdom n)
  unfolding common
  common_from n x t m h =
      In-set_add_old str_eq eq_iff x n (in_all (map (set_of pdom) (succ n)))
        (In-in_all x (set_of pdom t) _ (In-map (set_of pdom) t (succ n) m) (every (succ n) h))
    where
      every :
          (ss : List String)
          → ((s : String) → In s ss → In x (set_of pdom s))
          → (u : List String) → In u (map (set_of pdom) ss)
          → In x u
      every [] k u q = absurd q
      every (s ∷ ss) k u (inl e) = rw e (k s (inl refl))
      every (s ∷ ss) k u (inr q) = every ss (λ r z. k r (inr z)) u q

  pub Nodup-common :
      (n : String) → ((s : String) → Nodup (set_of pdom s)) → Nodup (common succ pdom n)
  unfolding common
  Nodup-common n d = Nodup-set_add str_eq eq_iff n _ (merged (succ n))
    where
      merged : (ss : List String) → Nodup (in_all (map (set_of pdom) ss))
      merged [] = tt
      merged (s ∷ ss) = Nodup-filter _ (set_of pdom s) (d s)

pub set_of-insert :
    (n m : String) (s : List String) (pdom : Map (List String))
    → set_of (insert n s pdom) m ≡ (if str_eq n m then s else set_of pdom m)
unfolding set_of
set_of-insert n m s pdom =
    let found : lookup m (insert n s pdom) ≡ (if str_eq n m then some s else lookup m pdom) =
      lookup-insert n m s pdom in
    elim (Bool-cases (str_eq n m)) [
      | inl e ↦ rw e (ap (λ o. or_else o []) (rw e at found))
      | inr e ↦ rw e (ap (λ o. or_else o []) (rw e at found))
    ]
