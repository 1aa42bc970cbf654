-- ===== src/Workflow/BackEdges/Order.antt =====
-- The invariant of the search of `findBackEdges`: an edge that does not loop back leads to a node
-- that is done before its source.
use now_sdk_ext_core.Common.{
  List, [], ◌∷◌, ◌++◌, ◌≡◌, ◌⊎◌, inl, inr, refl, In, In-append_left, In-append_right, Nodup,
}

module _ {A : Type 0} where
  -- `a` stands before `b` in the list.
  abbrev pub Before : A → A → List A → Type 0
  Before a b [] = ⊥
  Before a b (x ∷ xs) = ((a ≡ x) × In b xs) ⊎ Before a b xs

  pub Before-append_left : (a b : A) (xs ys : List A) → Before a b xs → Before a b (xs ++ ys)
  Before-append_left a b [] ys h = absurd h
  Before-append_left a b (x ∷ xs) ys (inl (e, m)) = inl (e, In-append_left b xs ys m)
  Before-append_left a b (x ∷ xs) ys (inr h) = inr (Before-append_left a b xs ys h)

  pub Before-append_last : (a b : A) (xs : List A) → In a xs → Before a b (xs ++ b ∷ [])
  Before-append_last a b [] h = absurd h
  Before-append_last a b (x ∷ xs) (inl e) = inl (e, In-append_right b xs (b ∷ []) (inl refl))
  Before-append_last a b (x ∷ xs) (inr m) = inr (Before-append_last a b xs m)

  Before-In : (a b : A) (xs : List A) → Before a b xs → In a xs × In b xs
  Before-In a b [] h = absurd h
  Before-In a b (x ∷ xs) (inl (e, m)) = (inl e, inr m)
  Before-In a b (x ∷ xs) (inr h) = let (l, r) = Before-In a b xs h in (inr l, inr r)

  -- In a list without repetition, standing before is a strict order.
  pub Before-irrefl : (a : A) (xs : List A) → Nodup xs → ¬ Before a a xs
  Before-irrefl a [] d h = h
  Before-irrefl a (x ∷ xs) d (inl (e, m)) = d.0 (rw (← e) m)
  Before-irrefl a (x ∷ xs) d (inr h) = Before-irrefl a xs d.1 h

  pub Before-trans :
      (a b c : A) (xs : List A) → Nodup xs → Before a b xs → Before b c xs → Before a c xs
  Before-trans a b c [] d h k = h
  Before-trans a b c (x ∷ xs) d (inl (e, m)) (inl (e', m')) = absurd (d.0 (rw (← e') m))
  Before-trans a b c (x ∷ xs) d (inl (e, m)) (inr k) = inl (e, (Before-In b c xs k).1)
  Before-trans a b c (x ∷ xs) d (inr h) (inl (e', m')) =
      absurd (d.0 (rw (← e') ((Before-In a b xs h).1)))
  Before-trans a b c (x ∷ xs) d (inr h) (inr k) = inr (Before-trans a b c xs d.1 h k)
