-- ===== src/Policy/Ladder.antt =====
-- src/policy/Policy.ts: the process-wide ladder of layers and the check of a requirement.
pub mod Laws
use text.Mathlib.Text.{◌==◌}
use Prim.Native.String
use now_sdk_ext_core.Common.{
  Bool, true, false, ◌||◌, not, List, [], ◌∷◌, map, Option, none, some, String, if◌then◌else◌, any,
  set_add_all, is_some,
}
use now_sdk_ext_core.Policy.Types.{
  Verb, write, execute, Requirement, LayerAnswer, grant, deny, abstain, PolicyLayer, Decision,
  verb_eq, is_instance,
}

abbrev pub default_layer : String
default_layer = "default"

abbrev pub RemediationWriter : Type 0
RemediationWriter = List Verb → Verb → String → String

-- The module's variables `layers`, `installed` and `remediationWriter`.
pub record Policy : Type 0 where
  pub layers : List PolicyLayer
  pub installed : Bool
  pub remediation_writer : Option RemediationWriter

-- The state at import.
abbrev pub initial : Policy
initial = record { layers = []; installed = false; remediation_writer = none }

unfoldable pub is_policy_installed : Policy → Bool
is_policy_installed p = p.installed

unfoldable pub install_policy : List PolicyLayer → Policy → Policy
install_policy ordered_layers p = record p { layers = ordered_layers; installed = true }

unfoldable pub reset_policy_for_tests : Policy → Policy
reset_policy_for_tests p = record p { layers = []; installed = false }

unfoldable pub current_layers : Policy → List PolicyLayer
current_layers p = p.layers

unfoldable pub set_remediation_writer : RemediationWriter → Policy → Policy
set_remediation_writer writer p = record p { remediation_writer = some writer }

-- Whether the ladder grants a verb, and the layer that decided.
unfoldable pub resolve_verb : List PolicyLayer → Verb → Bool × String
resolve_verb [] verb = (false, default_layer)
resolve_verb (layer ∷ layers) verb = elim (layer.answer verb) [
  | grant ↦ (true, layer.name)
  | deny ↦ (false, layer.name)
  | abstain ↦ resolve_verb layers verb
]

verb_name : Verb → String
verb_name write = "write"
verb_name execute = "execute"

unfoldable pub remediation_for : Policy → List Verb → Verb → String → String
unfolding verb_name
remediation_for p verbs missing layer = elim p.remediation_writer [
  | some writer ↦ writer verbs missing layer
  | none ↦
      String.◌++◌ "This operation requires "
        (String.◌++◌ (verb_name missing) " permission on the instance, which has not been granted.")
]

-- `names.join(" + ")`
unfoldable pub join_plus : List String → String
join_plus [] = ""
join_plus (name ∷ []) = name
join_plus (name ∷ (next ∷ names)) = String.◌++◌ name (String.◌++◌ " + " (join_plus (next ∷ names)))

-- The loop over the required verbs: the first that is not granted, with the layer that decided.
unfoldable pub first_missing : List PolicyLayer → List Verb → Option (Verb × String)
first_missing layers [] = none
first_missing layers (verb ∷ verbs) =
    let rest = first_missing layers verbs in
    if (resolve_verb layers verb).0 then rest else some (verb, (resolve_verb layers verb).1)

unfoldable pub granting_layers : List PolicyLayer → List Verb → List String
granting_layers layers verbs = set_add_all ◌==◌ [] (map (λ v. (resolve_verb layers v).1) verbs)

abbrev pub is_empty : List Verb → Bool
is_empty [] = true
is_empty (_ ∷ _) = false

unfoldable pub check_requirement : Policy → Requirement → Decision
check_requirement p r =
    if not p.installed || is_empty r.verbs || not (is_instance r.target)
    then record {
      allowed = true;
      verbs = r.verbs;
      deciding_layer = if p.installed then "not-gated" else "no-policy";
      remediation = none;
    }
    else elim (first_missing p.layers r.verbs) [
      | some (verb, layer) ↦ record {
        allowed = false;
        verbs = r.verbs;
        deciding_layer = layer;
        remediation = some (remediation_for p r.verbs verb layer);
      }
      | none ↦ record {
        allowed = true;
        verbs = r.verbs;
        deciding_layer = join_plus (granting_layers p.layers r.verbs);
        remediation = none;
      }
    ]

unfoldable pub deny_layer : String → List Verb → PolicyLayer
deny_layer name denied = record {
  name = name;
  answer = λ verb. if any (verb_eq verb) denied then deny else abstain;
}

unfoldable pub grant_layer : String → List Verb → PolicyLayer
grant_layer name granted = record {
  name = name;
  answer = λ verb. if any (verb_eq verb) granted then grant else abstain;
}

unfoldable pub allow_all_layer : PolicyLayer
unfolding grant_layer
allow_all_layer = grant_layer "allow-all" (write ∷ execute ∷ [])
