-- ===== src/Policy/Refusal.antt =====
-- src/policy/PolicyRefusal.ts: the error of a refusal, and how it is told from other errors.
use Prim.Native.String
use now_sdk_ext_core.Common.{Bool, true, false, List, [], ◌∷◌, Option, none, some, String}
use now_sdk_ext_core.Policy.Types.{Verb, write, execute, Decision}

-- The property under the registry symbol of a value that was thrown.
pub data Mark : Type 0 where
  unmarked marked other_mark : Mark

-- An error: its name, its message, its mark and the decision that it carries.
pub record ErrorObject : Type 0 where
  pub name : String
  pub message : String
  pub mark : Mark
  pub decision : Option Decision

-- What can be thrown: an error or another object, or a primitive.
pub data Thrown : Type 0 where
  error : ErrorObject → Thrown
  object : Mark → Thrown
  primitive : Thrown

unfoldable pub is_policy_refusal : Thrown → Bool
is_policy_refusal (error e) = elim e.mark [ marked ↦ true | unmarked ↦ false | other_mark ↦ false ]
is_policy_refusal (object m) = elim m [ marked ↦ true | unmarked ↦ false | other_mark ↦ false ]
is_policy_refusal primitive = false

verb_name : Verb → String
verb_name write = "write"
verb_name execute = "execute"

-- `verbs.join(" and ")`
join_and : List Verb → String
unfolding verb_name
join_and [] = ""
join_and (v ∷ []) = verb_name v
join_and (v ∷ (w ∷ vs)) = String.◌++◌ (verb_name v) (String.◌++◌ " and " (join_and (w ∷ vs)))

default_detail : List Verb → String
unfolding join_and
default_detail verbs =
    String.◌++◌ "This operation requires "
      (String.◌++◌ (join_and verbs) " permission, which has not been granted.")

-- `decision.remediation ?` is false for a missing and for an empty text.
detail_of : Option String → List Verb → String
unfolding default_detail
detail_of none verbs = default_detail verbs
detail_of (some String.[]) verbs = default_detail verbs
detail_of (some (String.◌∷◌ c s)) verbs = String.◌∷◌ c s

unfoldable pub policy_refusal : Decision → ErrorObject
unfolding detail_of
policy_refusal decision = record {
  name = "PolicyRefusalError";
  message = detail_of decision.remediation decision.verbs;
  mark = marked;
  decision = some decision;
}

unfoldable pub refusal_for : Verb → String → Option String → ErrorObject
unfolding policy_refusal
refusal_for verb deciding_layer remediation = policy_refusal (record {
  allowed = false;
  verbs = verb ∷ [];
  deciding_layer = deciding_layer;
  remediation = remediation;
})
