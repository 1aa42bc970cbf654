-- ===== src/Workflow/Paths/Paired.antt =====
-- The maps `activities` and `_out` that the constructor of src/sn/workflow/WorkflowStructure.ts fills,
-- and where the edges between them lead.
use now_sdk_ext_core.Common.{
  Bool, true, ◌&&◌, List, [], ◌∷◌, Option, none, some, String, ◌≡◌, inl, inr, refl, sym, arith,
  or_else, is_some, eq_iff, Bool-cases, Option-cases, In, In-filter_to, Map, lookup, insert,
  lookup-insert, map_values, lookup-map_values, keys, values, AllValues, AllValues-lookup, sort_by,
  In-map_cases,
}
use mathlib.Core.Option as Option
use text.Mathlib.Text.{◌==◌ as str_eq}
use now_sdk_ext_core.Workflow.Models.{
  WorkflowExport, WorkflowExportActivity, WorkflowExportTransition,
}
use now_sdk_ext_core.Workflow.Structure.{
  Wiring, reads_before, has_activity, load_activities, wire_transition, wire_transitions, unwired,
  wire,
}
use now_sdk_ext_core.Workflow.Paths.{
  Edge, StructureExit, is_wired, targets_of, known_exits, structure_exit, structure_exits, forward,
}
use now_sdk_ext_core.Workflow.Paths.Closed.{
  Closed, In-concat_cases, In-concat_map_cases, exit_targets-In,
}

abbrev pub Paired : Wiring → Type 0
Paired w = (n : String) → has_activity w n ≡ is_wired w n

is_some-insert :
    {V W : Type 0} (key n : String) (v : V) (w : W) (vs : Map V) (ws : Map W)
    → is_some (lookup n vs) ≡ is_some (lookup n ws)
    → is_some (lookup n (insert key v vs)) ≡ is_some (lookup n (insert key w ws))
is_some-insert key n v w vs ws h =
    rw (lookup-insert key n v vs, lookup-insert key n w ws)
      (elim (Bool-cases (str_eq key n)) [ inl e ↦ rw e refl | inr e ↦ rw e h ])

load_activities-Paired :
    (locale_less : String → String → Bool) (loaded : List WorkflowExportActivity) (w : Wiring)
    → Paired w
    → Paired (load_activities locale_less loaded w)
load_activities-Paired locale_less [] w h = h
load_activities-Paired locale_less (a ∷ rest) w h =
    load_activities-Paired locale_less rest _
      (λ n. is_some-insert a.sys_id n _ [] w.activities w.out (h n))

-- An exit of an activity is set.
is_some-known :
    {V : Type 0} (key n : String) (v : V) (vs : Map V)
    → is_some (lookup key vs) ≡ true
    → is_some (lookup n (insert key v vs)) ≡ is_some (lookup n vs)
is_some-known key n v vs h = rw (lookup-insert key n v vs) (elim (Bool-cases (str_eq key n)) [
  | inl e ↦ rw e (rw ((eq_iff key n).0 e) at (sym h))
  | inr e ↦ rw e refl
])

wire_transition-Paired :
    (t : WorkflowExportTransition) (w : Wiring) → Paired w → Paired (wire_transition t w)
unfolding wire_transition
wire_transition-Paired t w h = elim (Bool-cases (has_activity w t.from && has_activity w t.to)) [
  | inr e ↦ rw e h
  | inl e ↦
      let from_there : has_activity w t.from ≡ true = ground arith in
      let wired : is_wired w t.from ≡ true = cc (h t.from, from_there) in
      rw e (λ n. rw (is_some-known t.from n _ w.out wired) (h n))
]

wire_transitions-Paired :
    (ts : List WorkflowExportTransition) (w : Wiring) → Paired w → Paired (wire_transitions ts w)
wire_transitions-Paired [] w h = h
wire_transitions-Paired (t ∷ ts) w h =
    wire_transitions-Paired ts (wire_transition t w) (wire_transition-Paired t w h)

is_some-map : {A B : Type 0} (f : A → B) (x : Option A) → is_some (Option.map f x) ≡ is_some x
is_some-map f none = refl
is_some-map f (some a) = refl

unwired-Paired : (data_ : WorkflowExport) → Paired (unwired data_)
unfolding lookup
unwired-Paired data_ n = refl

pub wire-Paired :
    (locale_less : String → String → Bool) (data_ : WorkflowExport)
    → Paired (wire locale_less data_)
unfolding wire
wire-Paired locale_less data_ n =
    let loaded = load_activities locale_less (or_else data_.activities []) (unwired data_) in
    let wired = wire_transitions (or_else data_.transitions []) loaded in
    let paired : Paired wired = wire_transitions-Paired (or_else data_.transitions []) loaded (
      load_activities-Paired locale_less (or_else data_.activities []) (unwired data_)
        (unwired-Paired data_)) in
    rw (lookup-map_values (map_values (sort_by (reads_before locale_less wired))) n wired.out)
      (rw is_some-map (paired n))

In_keys-has_activity :
    {V : Type 0} (n : String) (entries : Map V)
    → In n (keys entries)
    → is_some (lookup n entries) ≡ true
unfolding lookup
In_keys-has_activity n [] h = absurd h
In_keys-has_activity n ((k, v) ∷ rest) h = elim (Bool-cases (str_eq k n)) [
  | inl e ↦ rw e refl
  | inr e ↦ rw e (elim h [
    | inl same ↦ absurd (cc ((eq_iff k n).1 (sym same), e))
    | inr m ↦ In_keys-has_activity n rest m
  ])
]

AllValues-In :
    {V : Type 0} (P : V → Type 0) (v : V) (entries : Map V)
    → AllValues P entries
    → In v (values entries)
    → P v
AllValues-In P v [] h m = absurd m
AllValues-In P v (e ∷ rest) h (inl q) = rw q h.0
AllValues-In P v (e ∷ rest) h (inr m) = AllValues-In P v rest h.1 m

module _ (w : Wiring) (closed : Closed w) where
  pub targets_of-In : (n t : String) → In t (targets_of w n) → In t (keys w.activities)
  targets_of-In n t h = elim (Option-cases (lookup n w.out)) [
    | inl e ↦ absurd (rw (e, In) at h)
    | inr (exits, e) ↦
        let (ts, listed, m) = In-concat_cases t (values exits) (rw e at h) in
        AllValues-In _ ts exits (AllValues-lookup _ n w.out exits closed e) listed t m
  ]

  pub exit_forward-In :
      (back : List Edge) (n t : String) (e : StructureExit)
      → In e (structure_exits w back n)
      → In t e.forward
      → In t (keys w.activities)
  unfolding structure_exits
  exit_forward-In back n t e h m =
      let ((exit, name, condition), _, same) =
        In-map_cases (structure_exit w back n) e (known_exits w back n) h in
      let target = In-filter_to _ t _ (rw same at m) in exit_targets-In w closed n exit t target.0

  pub forward-In :
      (back : List Edge) (n t : String) → In t (forward w back n) → In t (keys w.activities)
  unfolding forward
  forward-In back n t h =
      let (e, listed, m) =
        In-concat_map_cases {A = StructureExit} {B = String} _ t (structure_exits w back n) h in
      exit_forward-In back n t e listed m

  module _ (paired : Paired w) where
    pub In-is_there : (n : String) → In n (keys w.activities) → has_activity w n ≡ true
    In-is_there n h = In_keys-has_activity n w.activities h

    pub In-is_wired : (n : String) → In n (keys w.activities) → is_wired w n ≡ true
    In-is_wired n h = cc (paired n, In_keys-has_activity n w.activities h)
