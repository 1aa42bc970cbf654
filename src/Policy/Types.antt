-- ===== src/Policy/Types.antt =====
-- src/policy/PolicyTypes.ts: verbs, targets, layers and decisions.
use now_sdk_ext_core.Common.{Bool, true, false, List, [], Option, String, ◌≡◌, ◌↔◌, arith}

pub data Verb : Type 0 where
  write execute : Verb

pub data Target : Type 0 where
  instance_target local_target session_target : Target

pub record Requirement : Type 0 where
  pub verbs : List Verb
  pub target : Target

-- A requirement that needs no permission at all.
abbrev pub read_only : Requirement
read_only = record { verbs = []; target = instance_target }

pub data LayerAnswer : Type 0 where
  grant deny abstain : LayerAnswer

pub record PolicyLayer : Type 0 where
  pub name : String
  pub answer : Verb → LayerAnswer

pub record Decision : Type 0 where
  pub allowed : Bool
  pub verbs : List Verb
  pub deciding_layer : String
  pub remediation : Option String

abbrev pub verb_eq : Verb → Verb → Bool
verb_eq write write = true
verb_eq write execute = false
verb_eq execute write = false
verb_eq execute execute = true

abbrev pub is_instance : Target → Bool
is_instance instance_target = true
is_instance local_target = false
is_instance session_target = false

pub verb_eq_iff : (v w : Verb) → (verb_eq v w ≡ true) ↔ (v ≡ w)
verb_eq_iff v w = ground arith
