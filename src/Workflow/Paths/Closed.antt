-- ===== src/Workflow/Paths/Closed.antt =====
-- A wired workflow of src/sn/workflow/WorkflowStructure.ts leads from activities to activities.
use now_sdk_ext_core.Common.{
  Bool, true, ◌&&◌, List, [], ◌∷◌, ◌++◌, map, String, ◌≡◌, inl, inr, refl, ap, or_else, Bool-cases,
  Option-cases, Map, lookup, map_values, keys, AllValues, AllValues-insert, AllValues-lookup,
  AllValues-map_values, lookup-In_keys, sort_by, In-sort_by, In, In-append_left, In-append_right,
  In-append_cases, arith, In-map, In-map_cases,
}
use now_sdk_ext_core.Workflow.Models.{
  WorkflowExport, WorkflowExportActivity, WorkflowExportTransition,
}
use now_sdk_ext_core.Workflow.Structure.{
  Wiring, truthy, concat, reads_before, has_activity, load_activities, wire_transition,
  wire_transitions, unwired, wire, out_of, exits_of, raw_edges_of,
}

module _ {A : Type 0} where
  pub In-concat :
      (x : A) (xs : List A) (all : List (List A)) → In xs all → In x xs → In x (concat all)
  In-concat x xs [] h m = absurd h
  In-concat x xs (ys ∷ all) (inl e) m = In-append_left x ys (concat all) (rw (← e) m)
  In-concat x xs (ys ∷ all) (inr h) m = In-append_right x ys (concat all) (In-concat x xs all h m)

  pub In-concat_cases :
      (x : A) (all : List (List A)) → In x (concat all) → (xs : List A) × In xs all × In x xs
  In-concat_cases x [] h = absurd h
  In-concat_cases x (ys ∷ all) h = elim (In-append_cases x ys (concat all) h) [
    | inl m ↦ (ys, inl refl, m)
    | inr m ↦ let (xs, listed, m') = In-concat_cases x all m in (xs, inr listed, m')
  ]

pub In-concat_map_cases :
    {A B : Type 0} (f : A → List B) (b : B) (xs : List A)
    → In b (concat (map f xs))
    → (a : A) × In a xs × In b (f a)
In-concat_map_cases f b xs h =
    let (bs, listed, m) = In-concat_cases b (map f xs) h in
    let (a, listed_a, e) = In-map_cases f bs xs listed in (a, listed_a, rw e at m)

pub In-concat_map :
    {A B : Type 0} (f : A → List B) (b : B) (a : A) (xs : List A)
    → In a xs
    → In b (f a)
    → In b (concat (map f xs))
In-concat_map f b a xs h m = In-concat b (f a) (map f xs) (In-map f a xs h) m

-- The edges of an activity are the targets of its exits.
abbrev pub exit_order : Wiring → String → List String
exit_order w id = map (λ e. e.sys_id) (exits_of w id) ++ "?" ∷ []

pub raw_edges_cases :
    (w : Wiring) (id exit t : String)
    → In (exit, t) (raw_edges_of w id)
    → In exit (exit_order w id) × In t (or_else (lookup exit (out_of w id)) [])
raw_edges_cases w id exit t h =
    let (e, order, l) = In-concat_map_cases {A = String} {B = String × String} _ (exit, t) _ h in
    let (to, listed, pair) = In-map_cases {A = String} {B = String × String} _ (exit, t) _ l in
    let same_exit : exit ≡ e = ap (λ p. p.0) pair in
    let same_to : t ≡ to = ap (λ p. p.1) pair in
    (rw same_exit order, rw same_exit (rw same_to listed))

pub raw_edges_from :
    (w : Wiring) (id exit t : String)
    → In exit (exit_order w id)
    → In t (or_else (lookup exit (out_of w id)) [])
    → In (exit, t) (raw_edges_of w id)
raw_edges_from w id exit t h m =
    In-concat_map {A = String} {B = String × String} _ (exit, t) exit (exit_order w id) h
      (In-map (λ to. (exit, to)) t _ m)

-- Every target of every exit is one of the ids.
abbrev pub Targets : List String → Map (Map (List String)) → Type 0
Targets ids out = AllValues (AllValues (λ targets. (t : String) → In t targets → In t ids)) out

abbrev pub Closed : Wiring → Type 0
Closed w = Targets (keys w.activities) w.out

load_activities-Targets :
    (locale_less : String → String → Bool) (ids : List String)
    (loaded : List WorkflowExportActivity) (w : Wiring)
    → Targets ids w.out
    → Targets ids (load_activities locale_less loaded w).out
load_activities-Targets locale_less ids [] w h = h
load_activities-Targets locale_less ids (a ∷ rest) w h =
    load_activities-Targets locale_less ids rest _ (AllValues-insert _ a.sys_id [] w.out tt h)

-- What a map has at a key, or else a default, is as all its values.
AllValues-or_else :
    {V : Type 0} (P : V → Type 0) (key : String) (entries : Map V) (default_ : V)
    → P default_
    → AllValues P entries
    → P (or_else (lookup key entries) default_)
AllValues-or_else P key entries default_ p h = elim (Option-cases (lookup key entries)) [
  | inl e ↦ rw e p
  | inr (v, e) ↦ rw e (AllValues-lookup P key entries v h e)
]

pub has_activity-In :
    (w : Wiring) (id : String) → has_activity w id ≡ true → In id (keys w.activities)
has_activity-In w id h = elim (Option-cases (lookup id w.activities)) [
  | inl e ↦ absurd (cc (rw e at h))
  | inr (a, e) ↦ lookup-In_keys id w.activities a e
]

-- The targets of an exit with one more.
targets_more :
    (ids targets : List String) (to : String)
    → ((t : String) → In t targets → In t ids)
    → In to ids
    → (t : String) → In t (targets ++ to ∷ [])
    → In t ids
targets_more ids targets to old new t h = elim (In-append_cases t targets (to ∷ []) h) [
  | inl m ↦ old t m
  | inr (inl e) ↦ rw e new
  | inr (inr q) ↦ absurd q
]

wire_transition-Closed :
    (t : WorkflowExportTransition) (w : Wiring) → Closed w → Closed (wire_transition t w)
unfolding wire_transition
wire_transition-Closed t w h = elim (Bool-cases (has_activity w t.from && has_activity w t.to)) [
  | inr e ↦ rw e h
  | inl e ↦
      let to_there : has_activity w t.to ≡ true = ground arith in
      let exits = or_else (lookup t.from w.out) [] in
      let exit = or_else (truthy t.exit) "?" in
      let exits_ok = AllValues-or_else _ t.from w.out [] tt h in
      let targets_ok = AllValues-or_else _ exit exits [] (λ x q. absurd q) exits_ok in
      rw e (
        AllValues-insert _ t.from _ w.out
          (AllValues-insert _ exit _ exits
            (targets_more (keys w.activities) (or_else (lookup exit exits) []) t.to targets_ok
              (has_activity-In w t.to to_there))
            exits_ok)
          h)
]

wire_transitions-Closed :
    (ts : List WorkflowExportTransition) (w : Wiring) → Closed w → Closed (wire_transitions ts w)
wire_transitions-Closed [] w h = h
wire_transitions-Closed (t ∷ ts) w h =
    wire_transitions-Closed ts (wire_transition t w) (wire_transition-Closed t w h)

pub wire-Closed :
    (locale_less : String → String → Bool) (data_ : WorkflowExport)
    → Closed (wire locale_less data_)
unfolding wire
wire-Closed locale_less data_ =
    let loaded = load_activities locale_less (or_else data_.activities []) (unwired data_) in
    let wired = wire_transitions (or_else data_.transitions []) loaded in
    let closed : Closed wired = wire_transitions-Closed (or_else data_.transitions []) loaded (
      load_activities-Targets locale_less (keys loaded.activities) (or_else data_.activities [])
        (unwired data_) tt) in
    AllValues-map_values _ _ (map_values (sort_by (reads_before locale_less wired))) wired.out
      (λ exits ok.
        AllValues-map_values _ _ (sort_by (reads_before locale_less wired)) exits
          (λ targets known t h.
            known t ((In-sort_by (reads_before locale_less wired) t targets).0 h))
          ok)
      closed

module _ (w : Wiring) (closed : Closed w) where
  pub exit_targets-In :
      (id exit t : String)
      → In t (or_else (lookup exit (out_of w id)) [])
      → In t (keys w.activities)
  exit_targets-In id exit t h =
      AllValues-or_else _ exit (out_of w id) [] (λ x q. absurd q)
        (AllValues-or_else _ id w.out [] tt closed) t h

  pub raw_edges-In :
      (id exit t : String) → In (exit, t) (raw_edges_of w id) → In t (keys w.activities)
  raw_edges-In id exit t h = exit_targets-In id exit t (raw_edges_cases w id exit t h).1
