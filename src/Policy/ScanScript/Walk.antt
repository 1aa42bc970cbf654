-- ===== src/Policy/ScanScript/Walk.antt =====
-- The walk of src/policy/ScanScript.ts over the whole tree, and what the scan answers.
use now_sdk_ext_core.Common.{
  true, false, [], ◌∷◌, some, ◌≡◌, ◌⊎◌, inl, inr, refl, ap, arith, Bool-cases, Text, trim,
  if◌then◌else◌, ◌∙◌,
}
use now_sdk_ext_core.Policy.Types.{write, execute}
use now_sdk_ext_core.Policy.ScanScript.{
  Value, missing, scalar, string, flag, array, object, Items, nil, cons, Fields, end, field, get,
  Scan, visit, enter, is_skipped, walk, walk_items, walk_fields, Parser, parse_script, start,
  result_of, scan_script, requirement_for_script, is_blank, is_string,
}
use now_sdk_ext_core.Policy.ScanScript.Laws.{Suspect, has_reason, enter-keeps, enter-Suspect}

-- Some node of the tree that the walk reaches satisfies a predicate.
abbrev mutual
  pub Contains : (Fields → Type 0) → Value → Type 0
  Contains P (array xs) = ContainsItems P xs
  Contains P (object fs) = P fs ⊎ ContainsFields P fs
  Contains P missing = ⊥
  Contains P scalar = ⊥
  Contains P (string s) = ⊥
  Contains P (flag b) = ⊥

  pub ContainsItems : (Fields → Type 0) → Items → Type 0
  ContainsItems P nil = ⊥
  ContainsItems P (cons x xs) = Contains P x ⊎ ContainsItems P xs

  pub ContainsFields : (Fields → Type 0) → Fields → Type 0
  ContainsFields P end = ⊥
  ContainsFields P (field k v fs) = ((is_skipped k ≡ false) × Contains P v) ⊎ ContainsFields P fs

mutual
  unfolding walk

  walk-keeps : (v : Value) (st : Scan) → has_reason st ≡ true → has_reason (walk v st) ≡ true
  walk-keeps missing st h = h
  walk-keeps scalar st h = h
  walk-keeps (string s) st h = h
  walk-keeps (flag b) st h = h
  walk-keeps (array xs) st h = walk_items-keeps xs st h
  walk-keeps (object fs) st h = walk_fields-keeps fs (enter fs st) (enter-keeps fs st h)

  walk_items-keeps :
      (xs : Items) (st : Scan) → has_reason st ≡ true → has_reason (walk_items xs st) ≡ true
  walk_items-keeps nil st h = h
  walk_items-keeps (cons x xs) st h = walk_items-keeps xs (walk x st) (walk-keeps x st h)

  walk_fields-keeps :
      (fs : Fields) (st : Scan) → has_reason st ≡ true → has_reason (walk_fields fs st) ≡ true
  walk_fields-keeps end st h = h
  walk_fields-keeps (field k v fs) st h =
      walk_fields-keeps fs (if is_skipped k then st else walk v st)
        (ground (arith, walk-keeps v st h))

mutual
  unfolding walk

  walk-finds : (v : Value) (st : Scan) → Contains Suspect v → has_reason (walk v st) ≡ true
  walk-finds missing st h = absurd h
  walk-finds scalar st h = absurd h
  walk-finds (string s) st h = absurd h
  walk-finds (flag b) st h = absurd h
  walk-finds (array xs) st h = walk_items-finds xs st h
  walk-finds (object fs) st (inl h) = walk_fields-keeps fs (enter fs st) (enter-Suspect fs st h)
  walk-finds (object fs) st (inr h) = walk_fields-finds fs (enter fs st) h

  walk_items-finds :
      (xs : Items) (st : Scan) → ContainsItems Suspect xs → has_reason (walk_items xs st) ≡ true
  walk_items-finds nil st h = absurd h
  walk_items-finds (cons x xs) st (inl h) = walk_items-keeps xs (walk x st) (walk-finds x st h)
  walk_items-finds (cons x xs) st (inr h) = walk_items-finds xs (walk x st) h

  walk_fields-finds :
      (fs : Fields) (st : Scan) → ContainsFields Suspect fs → has_reason (walk_fields fs st) ≡ true
  walk_fields-finds end st h = absurd h
  walk_fields-finds (field k v fs) st (inl (e, h)) =
      walk_fields-keeps fs (if is_skipped k then st else walk v st)
        (ground (arith, walk-finds v st h))
  walk_fields-finds (field k v fs) st (inr h) =
      walk_fields-finds fs (if is_skipped k then st else walk v st) h

-- A node that is a call.
abbrev pub IsCall : Fields → Type 0
IsCall node = is_string (get "type" node) "CallExpression" ≡ true

enter-quiet : (node : Fields) (st : Scan) → ¬ IsCall node → enter node st ≡ st
unfolding enter visit
enter-quiet node st h = ground arith

mutual
  unfolding walk

  walk-quiet : (v : Value) (st : Scan) → ¬ Contains IsCall v → walk v st ≡ st
  walk-quiet missing st h = refl
  walk-quiet scalar st h = refl
  walk-quiet (string s) st h = refl
  walk-quiet (flag b) st h = refl
  walk-quiet (array xs) st h = walk_items-quiet xs st h
  walk-quiet (object fs) st h =
      walk_fields-quiet fs (enter fs st) (λ c. h (inr c)) ∙ enter-quiet fs st (λ c. h (inl c))

  walk_items-quiet : (xs : Items) (st : Scan) → ¬ ContainsItems IsCall xs → walk_items xs st ≡ st
  walk_items-quiet nil st h = refl
  walk_items-quiet (cons x xs) st h =
      walk_items-quiet xs (walk x st) (λ c. h (inr c)) ∙ walk-quiet x st (λ c. h (inl c))

  walk_fields-quiet :
      (fs : Fields) (st : Scan) → ¬ ContainsFields IsCall fs → walk_fields fs st ≡ st
  walk_fields-quiet end st h = refl
  walk_fields-quiet (field k v fs) st h = elim (Bool-cases (is_skipped k)) [
    | inl e ↦ rw e (walk_fields-quiet fs st (λ c. h (inr c)))
    | inr e ↦
        rw e (
          walk_fields-quiet fs (walk v st) (λ c. h (inr c)) ∙ walk-quiet v st (λ c. h (inl (e, c))))
  ]

result_of-has : (st : Scan) → has_reason st ≡ true → (result_of st).verbs ≡ write ∷ []
unfolding result_of
result_of-has st h = ground arith

-- What the scan answers for a script that is not blank.
module _ (parse : Parser) (script : Text) (full : is_blank (trim script) ≡ false) where
  -- A script that is not blank and parses to a tree with a suspect call, at any depth that the
  -- walk reaches, needs write beside execute.
  pub requirement_for_script-Suspect :
      (ast : Value)
      → parse_script parse script ≡ some ast
      → Contains Suspect ast
      → requirement_for_script parse script ≡ execute ∷ write ∷ []
  unfolding scan_script requirement_for_script
  requirement_for_script-Suspect ast p h = rw full (
      rw (p, scan_script)
        (ap (λ vs. execute ∷ vs) (result_of-has (walk ast start) (walk-finds ast start h))))

  -- A script that is not blank and parses to a tree in which no node is a CallExpression needs
  -- execute alone. A NewExpression is none: `new Function(...)` does not escalate.
  pub requirement_for_script-quiet :
      (ast : Value)
      → parse_script parse script ≡ some ast
      → ¬ Contains IsCall ast
      → requirement_for_script parse script ≡ execute ∷ []
  unfolding scan_script requirement_for_script
  requirement_for_script-quiet ast p h = rw full (rw (p, scan_script) (rw (walk-quiet ast start h)))
