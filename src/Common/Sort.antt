-- ===== src/Common/Sort.antt =====
-- `Array.prototype.sort`, which is stable: where the comparison puts neither of two items first,
-- they keep their order.
use mathlib.Core.Logic.{inl, inr, ◌↔◌}
use mathlib.Core.Bool.{Bool}
use mathlib.Core.List.{List, [], ◌∷◌}
use now_sdk_ext_core.Common.Tests.{if◌then◌else◌, Bool-cases}
use now_sdk_ext_core.Common.Lists.{In}

module _ {ℓ} {A : Type ℓ} (less : A → A → Bool) where
  unfoldable pub insert_sorted : A → List A → List A
  insert_sorted x [] = x ∷ []
  insert_sorted x (y ∷ ys) =
      let later = y ∷ insert_sorted x ys in if less y x then later else x ∷ (y ∷ ys)

  unfoldable pub sort_by : List A → List A
  unfolding insert_sorted
  sort_by [] = []
  sort_by (x ∷ xs) = insert_sorted x (sort_by xs)

module _ {A : Type 0} (less : A → A → Bool) where
  In-insert_sorted : (a x : A) (xs : List A) → In a (insert_sorted less x xs) ↔ In a (x ∷ xs)
  unfolding insert_sorted
  In-insert_sorted a x [] = (λ h. h, λ h. h)
  In-insert_sorted a x (y ∷ ys) = elim (Bool-cases (less y x)) [
    | inr e ↦ rw e (λ h. h, λ h. h)
    | inl e ↦
        let (to, from) = In-insert_sorted a x ys in
        rw e (
          λ h. elim h [
            | inl q ↦ inr (inl q)
            | inr m ↦ elim (to m) [ inl q ↦ inl q | inr m' ↦ inr (inr m') ]
          ],
          λ h. elim h [
            | inl q ↦ inr (from (inl q))
            | inr (inl q) ↦ inl q
            | inr (inr m) ↦ inr (from (inr m))
          ],
        )
  ]

  -- Sorting keeps the members.
  pub In-sort_by : (a : A) (xs : List A) → In a (sort_by less xs) ↔ In a xs
  unfolding sort_by
  In-sort_by a [] = (λ h. h, λ h. h)
  In-sort_by a (x ∷ xs) =
      let (to, from) = In-insert_sorted a x (sort_by less xs) in
      let (to', from') = In-sort_by a xs in
      (
        λ h. elim (to h) [ inl q ↦ inl q | inr m ↦ inr (to' m) ],
        λ h. from (elim h [ inl q ↦ inl q | inr m ↦ inr (from' m) ]),
      )
