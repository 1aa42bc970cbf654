-- ===== src/Policy/ScanScript/Laws.antt =====
-- The scan of src/policy/ScanScript.ts leans to refusal: what it flags, at any depth of the tree,
-- needs write.
use now_sdk_ext_core.Common.{
  Bool, true, false, ◌&&◌, List, [], ◌∷◌, ◌++◌, String, ◌≡◌, ◌⊎◌, inl, inr, refl, arith,
  if◌then◌else◌,
}
use now_sdk_ext_core.Policy.ScanScript.{
  string, flag, Fields, get, members, text_of, is_string, is_true, is_text, is_mutating, is_opaque,
  Scan, judge, visit, enter, judge_computed, judge_named, judge_member, add_reason, escalate,
  mutating_call, opaque_member, opaque_call, runtime_call,
}

-- A node that calls something which writes, or which cannot be known.
pub data Suspect (node : Fields) : Type 0 where
  -- `eval(…)` and its like
  opaque_function :
      get "type" node ≡ string "CallExpression"
      → get "type" (members (get "callee" node)) ≡ string "Identifier"
      → is_opaque (text_of (get "name" (members (get "callee" node)))) ≡ true
      → Suspect node
  -- a method whose name is computed from anything but a string literal
  computed_method :
      get "type" node ≡ string "CallExpression"
      → get "type" (members (get "callee" node)) ≡ string "MemberExpression"
      → get "computed" (members (get "callee" node)) ≡ flag true
      → is_text (get "value" (members (get "property" (members (get "callee" node))))) ≡ false
      → Suspect node
  -- `x["insert"](…)`
  literal_method :
      get "type" node ≡ string "CallExpression"
      → get "type" (members (get "callee" node)) ≡ string "MemberExpression"
      → get "computed" (members (get "callee" node)) ≡ flag true
      → is_mutating (text_of (get "value" (members (get "property" (members (get "callee" node))))))
        ≡ true
      → Suspect node
  -- `x.insert(…)`, `x.eval(…)`
  named_method :
      get "type" node ≡ string "CallExpression"
      → get "type" (members (get "callee" node)) ≡ string "MemberExpression"
      → is_true (get "computed" (members (get "callee" node))) ≡ false
      → get "type" (members (get "property" (members (get "callee" node)))) ≡ string "Identifier"
      → (is_mutating (text_of (get "name" (members (get "property" (members (get "callee" node))))))
          ≡ true)
        ⊎ (is_opaque (text_of (get "name" (members (get "property" (members (get "callee" node))))))
            ≡ true)
      → Suspect node

abbrev pub is_cons : List String → Bool
is_cons [] = false
is_cons (_ ∷ _) = true

-- Reasons have been found.
abbrev pub has_reason : Scan → Bool
has_reason st = is_cons st.reasons

is_cons-append : (xs : List String) (x : String) → is_cons (xs ++ x ∷ []) ≡ true
is_cons-append [] x = refl
is_cons-append (y ∷ xs) x = refl

has_reason-add_reason : (r : String) (st : Scan) → has_reason (add_reason r st) ≡ true
unfolding add_reason
has_reason-add_reason r st = is_cons-append st.reasons r

has_reason-escalate : (r : String) (st : Scan) → has_reason (escalate r st) ≡ true
unfolding escalate
has_reason-escalate r st = is_cons-append st.reasons r

escalated-add_reason : (r : String) (st : Scan) → (add_reason r st).escalated ≡ st.escalated
unfolding add_reason
escalated-add_reason r st = refl

-- An escalation comes with a reason.
abbrev pub Explained : Scan → Type 0
Explained st = st.escalated ≡ true → has_reason st ≡ true

module _ (p : Fields) (st : Scan) where
  judge_computed-has :
      (is_string (get "type" p) "Literal" && is_text (get "value" p) ≡ false)
        ⊎ (is_mutating (text_of (get "value" p)) ≡ true)
        ⊎ (has_reason st ≡ true)
      → has_reason (judge_computed p st) ≡ true
  unfolding judge_computed
  judge_computed-has h = ground (
    arith,
    has_reason-add_reason (mutating_call (text_of (get "value" p))) st,
    has_reason-escalate runtime_call st,
  )

module _ (name : String) (st : Scan) where
  judge_named-has :
      (is_mutating name ≡ true) ⊎ (is_opaque name ≡ true) ⊎ (has_reason st ≡ true)
      → has_reason (judge_named name st) ≡ true
  unfolding judge_named
  judge_named-has h = ground (
    arith,
    has_reason-add_reason (mutating_call name) st,
    has_reason-escalate (opaque_member name)
        (if is_mutating name then add_reason (mutating_call name) st else st),
  )

-- Nothing that has been found is lost.
pub enter-keeps :
    (node : Fields) (st : Scan) → has_reason st ≡ true → has_reason (enter node st) ≡ true
unfolding enter visit judge judge_member
enter-keeps node st h =
    let c = members (get "callee" node) in
    let p = members (get "property" c) in
    ground (
      arith,
      has_reason-escalate (opaque_call (text_of (get "name" c))) st,
      judge_computed-has p st (inr (inr h)),
      judge_named-has (text_of (get "name" p)) st (inr (inr h)),
    )

pub enter-Suspect : (node : Fields) (st : Scan) → Suspect node → has_reason (enter node st) ≡ true
unfolding enter visit judge judge_member
enter-Suspect node st (opaque_function c t o) =
    let callee = members (get "callee" node) in
    ground (arith, has_reason-escalate (opaque_call (text_of (get "name" callee))) st)
enter-Suspect node st (computed_method c t k l) =
    let p = members (get "property" (members (get "callee" node))) in
    ground (arith, judge_computed-has p st (inl (ground arith)))
enter-Suspect node st (literal_method c t k m) =
    let p = members (get "property" (members (get "callee" node))) in
    ground (arith, judge_computed-has p st (inr (inl m)))
enter-Suspect node st (named_method c t k i m) =
    let p = members (get "property" (members (get "callee" node))) in
    ground (arith, judge_named-has (text_of (get "name" p)) st)
