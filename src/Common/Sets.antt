-- ===== src/Common/Sets.antt =====
-- Lists without repetition, as which the sets of the source are held.
use Prim.Native.Nat.{◌≤◌}
use mathlib.Core.Path.{◌≡◌, refl, sym}
use mathlib.Core.Logic.{inl, inr, ◌↔◌}
use mathlib.Core.Bool.{Bool, true}
use mathlib.Core.List.{List, [], ◌∷◌, ◌++◌}
use native.Mathlib.Omega.{arith}
use now_sdk_ext_core.Common.Tests.{Bool-cases}
use now_sdk_ext_core.Common.Lists.{
  length, any, all, filter, length-append, In, In-append_left, In-append_right, In-append_cases,
  In-filter_to, any-true, any-some, set_add, set_add_all,
}

module _ {A : Type 0} where
  abbrev pub Nodup : List A → Type 0
  Nodup [] = Unit
  Nodup (x ∷ xs) = ¬ In x xs × Nodup xs

  pub Nodup-append_last : (b : A) (xs : List A) → Nodup xs → ¬ In b xs → Nodup (xs ++ b ∷ [])
  Nodup-append_last b [] d h = ((λ q. q), tt)
  Nodup-append_last b (x ∷ xs) d h = (
    λ m. elim (In-append_cases x xs (b ∷ []) m) [
      | inl l ↦ d.0 l
      | inr (inl e) ↦ h (inl (sym e))
      | inr (inr q) ↦ q
    ],
    Nodup-append_last b xs d.1 (λ m. h (inr m)),
  )

  pub all-true : (p : A → Bool) (xs : List A) → ((a : A) → In a xs → p a ≡ true) → all p xs ≡ true
  all-true p [] h = refl
  all-true p (x ∷ xs) h = rw (h x (inl refl)) (all-true p xs (λ a m. h a (inr m)))

  pub all-In : (p : A → Bool) (a : A) (xs : List A) → all p xs ≡ true → In a xs → p a ≡ true
  all-In p a [] h m = absurd m
  all-In p a (x ∷ xs) h (inl e) = rw e (ground arith)
  all-In p a (x ∷ xs) h (inr m) = all-In p a xs (ground arith) m

  pub Nodup-filter : (p : A → Bool) (xs : List A) → Nodup xs → Nodup (filter p xs)
  Nodup-filter p [] d = tt
  Nodup-filter p (x ∷ xs) d = elim (Bool-cases (p x)) [
    | inl e ↦ rw e (λ m. d.0 (In-filter_to p x xs m).0, Nodup-filter p xs d.1)
    | inr e ↦ rw e (Nodup-filter p xs d.1)
  ]

  -- A list that has an element falls into what is before it and what is after.
  split_at :
      (x : A) (ys : List A)
      → In x ys
      → (front : List A) × (back : List A) × (ys ≡ front ++ x ∷ back)
  split_at x [] h = absurd h
  split_at x (y ∷ ys) (inl e) = ([], ys, rw e refl)
  split_at x (y ∷ ys) (inr m) =
      let (front, back, e) = split_at x ys m in (y ∷ front, back, rw e refl)

  -- A list without repetition is no longer than one that has its elements.
  pub Nodup-length :
      (xs ys : List A) → Nodup xs → ((a : A) → In a xs → In a ys) → length xs ≤ length ys
  Nodup-length [] ys d h = omega arith
  Nodup-length (x ∷ xs) ys d h =
      let (front, back, e) = split_at x ys (h x (inl refl)) in
      let others : (a : A) → In a xs → In a (front ++ back) = λ a m.
        elim (In-append_cases a front (x ∷ back) (rw e at h a (inr m))) [
          | inl l ↦ In-append_left a front back l
          | inr (inl q) ↦ absurd (d.0 (rw q at m))
          | inr (inr r) ↦ In-append_right a front back r
        ] in
      let shorter = Nodup-length xs (front ++ back) d.1 others in
      rw e (omega (arith, shorter, length-append front back, length-append front (x ∷ back)))

module _ {A : Type 0} (same : A → A → Bool)
    (same_iff : (a b : A) → (same a b ≡ true) ↔ (a ≡ b)) where
  pub Nodup-set_add : (a : A) (s : List A) → Nodup s → Nodup (set_add same s a)
  Nodup-set_add a s d = elim (Bool-cases (any (same a) s)) [
    | inl e ↦ rw e d
    | inr e ↦
        rw e
          (Nodup-append_last a s d (λ m. cc (any-true (same a) a s m ((same_iff a a).1 refl), e)))
  ]

  pub Nodup-set_add_all : (s xs : List A) → Nodup s → Nodup (set_add_all same s xs)
  Nodup-set_add_all s [] d = d
  Nodup-set_add_all s (x ∷ xs) d = Nodup-set_add_all (set_add same s x) xs (Nodup-set_add x s d)

  pub any-In : (a : A) (s : List A) → any (same a) s ≡ true → In a s
  any-In a s h =
      let (b, m, e) = any-some (same a) s h in let e' : a ≡ b = (same_iff a b).0 e in rw e' m

  -- A list without repetition that has no fewer elements than one it lies in has all of them.
  pub Nodup-fills :
      (xs ys : List A)
      → Nodup xs
      → ((a : A) → In a xs → In a ys)
      → length ys ≤ length xs
      → (a : A) → In a ys
      → In a xs
  Nodup-fills xs ys d h le a m = elim (Bool-cases (any (same a) xs)) [
    | inl e ↦ any-In a xs e
    | inr e ↦
        let more =
          Nodup-length (a ∷ xs) ys
            (λ k. cc (any-true (same a) a xs k ((same_iff a a).1 refl), e), d)
            (λ b k. elim k [ inl q ↦ let q' = sym q in rw (← q') m | inr r ↦ h b r ]) in
        absurd (omega (arith, more))
  ]
