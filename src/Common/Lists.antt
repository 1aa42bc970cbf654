-- ===== src/Common/Lists.antt =====
-- Lists measured by native numbers, quantifiers over a list, and the arrays and sets of the source.
use Prim.Native.Nat.{ℕ, zero, suc, ◌+◌, ◌-◌, min}
use mathlib.Core.Path.{◌≡◌, refl, ap}
use mathlib.Core.Logic.{◌⊎◌, inl, inr, ◌↔◌}
use mathlib.Core.Bool.{Bool, true, false, ◌&&◌, ◌||◌}
use mathlib.Core.List.{List, [], ◌∷◌, ◌++◌, map}
use native.Mathlib.Omega.{arith}
use now_sdk_ext_core.Common.Tests.{if◌then◌else◌, Bool-cases}

module _ {ℓ} {A : Type ℓ} where
  abbrev pub length : List A → ℕ
  length [] = 0
  length (x ∷ xs) = suc (length xs)

  abbrev pub take : ℕ → List A → List A
  take zero xs = []
  take (suc n) [] = []
  take (suc n) (x ∷ xs) = x ∷ take n xs

  abbrev pub drop : ℕ → List A → List A
  drop zero xs = xs
  drop (suc n) [] = []
  drop (suc n) (x ∷ xs) = drop n xs

  abbrev pub any : (A → Bool) → List A → Bool
  any p [] = false
  any p (x ∷ xs) = p x || any p xs

  abbrev pub all : (A → Bool) → List A → Bool
  all p [] = true
  all p (x ∷ xs) = p x && all p xs

  abbrev pub filter : (A → Bool) → List A → List A
  filter p [] = []
  filter p (x ∷ xs) = if p x then x ∷ filter p xs else filter p xs

  pub length-append : (xs ys : List A) → length (xs ++ ys) ≡ length xs + length ys
  length-append [] ys = omega arith
  length-append (x ∷ xs) ys = omega (arith, length-append xs ys)

module _ {ℓ} {A : Type ℓ} where
  pub take-append-drop : (n : ℕ) (xs : List A) → take n xs ++ drop n xs ≡ xs
  take-append-drop zero xs = refl
  take-append-drop (suc n) [] = refl
  take-append-drop (suc n) (x ∷ xs) = ap (λ r. x ∷ r) (take-append-drop n xs)

  pub length-take : (n : ℕ) (xs : List A) → length (take n xs) ≡ min n (length xs)
  length-take zero xs = omega arith
  length-take (suc n) [] = omega arith
  length-take (suc n) (x ∷ xs) = omega (arith, length-take n xs)

  pub length-drop : (n : ℕ) (xs : List A) → length (drop n xs) ≡ length xs - n
  length-drop zero xs = omega arith
  length-drop (suc n) [] = omega arith
  length-drop (suc n) (x ∷ xs) = omega (arith, length-drop n xs)

-- Membership, by recursion on the list.
module _ {A : Type 0} where
  abbrev pub In : A → List A → Type 0
  In a [] = ⊥
  In a (x ∷ xs) = (a ≡ x) ⊎ In a xs

  pub In-append_left : (a : A) (xs ys : List A) → In a xs → In a (xs ++ ys)
  In-append_left a [] ys h = absurd h
  In-append_left a (x ∷ xs) ys (inl e) = inl e
  In-append_left a (x ∷ xs) ys (inr h) = inr (In-append_left a xs ys h)

  pub In-append_right : (a : A) (xs ys : List A) → In a ys → In a (xs ++ ys)
  In-append_right a [] ys h = h
  In-append_right a (x ∷ xs) ys h = inr (In-append_right a xs ys h)

  pub In-append_cases : (a : A) (xs ys : List A) → In a (xs ++ ys) → In a xs ⊎ In a ys
  In-append_cases a [] ys h = inr h
  In-append_cases a (x ∷ xs) ys (inl e) = inl (inl e)
  In-append_cases a (x ∷ xs) ys (inr h) = elim (In-append_cases a xs ys h) [
    | inl l ↦ inl (inr l)
    | inr r ↦ inr r
  ]

  pub any-true : (p : A → Bool) (a : A) (xs : List A) → In a xs → p a ≡ true → any p xs ≡ true
  any-true p a [] h e = absurd h
  any-true p a (x ∷ xs) (inl same) e = ground (arith, ap p same)
  any-true p a (x ∷ xs) (inr h) e = ground (arith, any-true p a xs h e)

  pub any-some : (p : A → Bool) (xs : List A) → any p xs ≡ true → (a : A) × In a xs × (p a ≡ true)
  any-some p [] h = absurd (cc)
  any-some p (x ∷ xs) h = elim (Bool-cases (p x)) [
    | inl here ↦ (x, inl refl, here)
    | inr there ↦ let (a, listed, holds) = any-some p xs (ground arith) in (a, inr listed, holds)
  ]

  pub In-filter_to :
      (p : A → Bool) (a : A) (xs : List A) → In a (filter p xs) → In a xs × (p a ≡ true)
  In-filter_to p a [] h = absurd h
  In-filter_to p a (x ∷ xs) h = elim (Bool-cases (p x)) [
    | inl keep ↦ elim (rw keep at h) [
      | inl e ↦ (inl e, rw e keep)
      | inr r ↦ let (l, q) = In-filter_to p a xs r in (inr l, q)
    ]
    | inr out ↦ let (l, q) = In-filter_to p a xs (rw out at h) in (inr l, q)
  ]

  pub In-filter_from :
      (p : A → Bool) (a : A) (xs : List A) → In a xs → p a ≡ true → In a (filter p xs)
  In-filter_from p a [] h q = h
  In-filter_from p a (x ∷ xs) (inl e) q = let px : p x ≡ true = rw (← e) q in rw px (inl e)
  In-filter_from p a (x ∷ xs) (inr l) q = elim (Bool-cases (p x)) [
    | inl keep ↦ rw keep (inr (In-filter_from p a xs l q))
    | inr out ↦ rw out (In-filter_from p a xs l q)
  ]

module _ {A B : Type 0} (f : A → B) where
  pub In-map : (a : A) (xs : List A) → In a xs → In (f a) (map f xs)
  In-map a [] h = absurd h
  In-map a (x ∷ xs) (inl e) = inl (ap f e)
  In-map a (x ∷ xs) (inr m) = inr (In-map a xs m)

  pub In-map_cases : (b : B) (xs : List A) → In b (map f xs) → (a : A) × In a xs × (b ≡ f a)
  In-map_cases b [] h = absurd h
  In-map_cases b (x ∷ xs) (inl e) = (x, inl refl, e)
  In-map_cases b (x ∷ xs) (inr h) = let (a, m, e) = In-map_cases b xs h in (a, inr m, e)

module _ {κ} {A : Type 0} where
  abbrev pub All : (A → Type κ) → List A → Type κ
  All P [] = Unit
  All P (x ∷ xs) = P x × All P xs

  pub All-In : (P : A → Type κ) (a : A) (xs : List A) → All P xs → In a xs → P a
  All-In P a [] h m = absurd m
  All-In P a (x ∷ xs) h (inl e) = rw e h.0
  All-In P a (x ∷ xs) h (inr m) = All-In P a xs h.1 m

  -- What holds throughout two lists holds throughout the one after the other.
  pub All-append :
      (Holds : A → Type κ) (front back : List A)
      → All Holds front
      → All Holds back
      → All Holds (front ++ back)
  All-append Holds [] back f b = b
  All-append Holds (x ∷ front) back f b = (f.0, All-append Holds front back f.1 b)

-- A JavaScript `Set` as the list of its members in insertion order.
module _ {ℓ} {A : Type ℓ} (same : A → A → Bool) where
  abbrev pub set_add : List A → A → List A
  set_add s a = if any (same a) s then s else s ++ a ∷ []

  abbrev pub set_add_all : List A → List A → List A
  set_add_all s [] = s
  set_add_all s (x ∷ xs) = set_add_all (set_add s x) xs

module _ {A : Type 0} (same : A → A → Bool)
    (same_iff : (a b : A) → (same a b ≡ true) ↔ (a ≡ b)) where
  pub In-set_add_self : (a : A) (s : List A) → In a (set_add same s a)
  In-set_add_self a s = elim (Bool-cases (any (same a) s)) [
    | inl old ↦
        let (b, listed, e) = any-some (same a) s old in
        rw old (let e' : a ≡ b = (same_iff a b).0 e in rw e' listed)
    | inr new ↦ rw new (In-append_right a s (a ∷ []) (inl refl))
  ]

  pub In-set_add_old : (b a : A) (s : List A) → In b s → In b (set_add same s a)
  In-set_add_old b a s h = elim (Bool-cases (any (same a) s)) [
    | inl old ↦ rw old h
    | inr new ↦ rw new (In-append_left b s (a ∷ []) h)
  ]

  pub In-set_add_cases : (b a : A) (s : List A) → In b (set_add same s a) → In b s ⊎ (b ≡ a)
  In-set_add_cases b a s h = elim (Bool-cases (any (same a) s)) [
    | inl old ↦ inl (rw old at h)
    | inr new ↦ elim (In-append_cases b s (a ∷ []) (rw new at h)) [
      | inl l ↦ inl l
      | inr (inl e) ↦ inr e
      | inr (inr x) ↦ absurd x
    ]
  ]

  -- A set built from a list has the members of both.
  pub In-set_add_all_left : (b : A) (s xs : List A) → In b s → In b (set_add_all same s xs)
  In-set_add_all_left b s [] h = h
  In-set_add_all_left b s (x ∷ xs) h =
      In-set_add_all_left b (set_add same s x) xs (In-set_add_old b x s h)

  pub In-set_add_all_right : (b : A) (s xs : List A) → In b xs → In b (set_add_all same s xs)
  In-set_add_all_right b s [] h = absurd h
  In-set_add_all_right b s (x ∷ xs) (inl e) =
      In-set_add_all_left b (set_add same s x) xs (rw e (In-set_add_self x s))
  In-set_add_all_right b s (x ∷ xs) (inr h) = In-set_add_all_right b (set_add same s x) xs h

  pub In-set_add_all_cases :
      (b : A) (s xs : List A) → In b (set_add_all same s xs) → In b s ⊎ In b xs
  In-set_add_all_cases b s [] h = inl h
  In-set_add_all_cases b s (x ∷ xs) h = elim (In-set_add_all_cases b (set_add same s x) xs h) [
    | inl l ↦ elim (In-set_add_cases b x s l) [ inl o ↦ inl o | inr e ↦ inr (inl e) ]
    | inr r ↦ inr (inr r)
  ]
