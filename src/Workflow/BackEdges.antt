-- ===== src/Workflow/BackEdges.antt =====
-- `findBackEdges` of src/sn/workflow/WorkflowStructure.ts: a depth-first search with its own
-- stack, which marks nodes open while they are explored and done after.
pub mod Order
pub mod Invariant
pub mod Rounds
pub mod Measure
pub mod Loop
pub mod Acyclic
use now_sdk_ext_core.Common.{
  ℕ, zero, suc, ◌+◌, ◌≤◌, ◌<◌, Bool, true, false, not, ◌||◌, List, [], ◌∷◌, ◌++◌, Option, none,
  some, if◌then◌else◌, any, filter, ◌≡◌, ◌↔◌,
}

-- What the loops change: `state`, as the open nodes and those done, in the order in which they
-- were marked so, and the back edges.
pub record Marks (A E : Type 0) : Type 0 where
  pub opened : List A
  pub done : List A
  pub back_edges : List (A × E × A)

abbrev pub no_marks : {A E : Type 0} → Marks A E
no_marks = record { opened = []; done = []; back_edges = [] }

-- A frame of the stack: its node, and the edges from index `i` on.
abbrev pub Frame : Type 0 → Type 0 → Type 0
Frame A E = A × List (E × A)

pub data Round (A E : Type 0) : Type 0 where
  finished : Marks A E → Round A E
  again : List (Frame A E) → Marks A E → Round A E

-- What the search reads: when nodes and exits are the same, and the edges of a node in order.
pub record Graph (A E : Type 0) : Type 0 where
  pub same : A → A → Bool
  pub same_exit : E → E → Bool
  pub raw_edges : A → List (E × A)

pub record IsLawful {A E : Type 0} (g : Graph A E) : Type 0 where
  pub same_iff : (a b : A) → (g.same a b ≡ true) ↔ (a ≡ b)
  pub same_exit_iff : (a b : E) → (g.same_exit a b ≡ true) ↔ (a ≡ b)

module _ {A E : Type 0} (g : Graph A E) where
  -- `state.get(n) === "open"` and `state.has(n)`
  abbrev pub is_open : Marks A E → A → Bool
  is_open m n = any (g.same n) m.opened

  abbrev pub has_state : Marks A E → A → Bool
  has_state m n = any (g.same n) m.opened || any (g.same n) m.done

  abbrev pub set_open : A → Marks A E → Marks A E
  set_open n m = record m { opened = n ∷ m.opened }

  abbrev pub set_done : A → Marks A E → Marks A E
  set_done n m = record m {
    opened = filter (λ k. not (g.same n k)) m.opened;
    done = m.done ++ n ∷ [];
  }

  abbrev pub same_edge : (A × E × A) → (A × E × A) → Bool
  same_edge (a, e, b) (c, f, d) =
      if g.same a c then (if g.same_exit e f then g.same b d else false) else false

  abbrev pub add_back_edge : (A × E × A) → Marks A E → Marks A E
  add_back_edge edge m = record m {
    back_edges =
        if any (same_edge edge) m.back_edges then m.back_edges else m.back_edges ++ edge ∷ [];
  }

  -- The next edge of the node on top of the stack.
  unfoldable pub take_edge : A → E → A → List (E × A) → List (Frame A E) → Marks A E → Round A E
  take_edge node exit to edges frames m =
      if is_open m to
      then again ((node, edges) ∷ frames) (add_back_edge (node, exit, to) m)
      else if has_state m to
      then again ((node, edges) ∷ frames) m
      else again ((to, g.raw_edges to) ∷ ((node, edges) ∷ frames)) (set_open to m)

  -- A round of `while (stack.length)`; the top of the stack is the head of the list.
  unfoldable pub advance : List (Frame A E) → Marks A E → Round A E
  unfolding take_edge
  advance [] m = finished m
  advance ((node, []) ∷ frames) m = again frames (set_done node m)
  advance ((node, (exit, to) ∷ edges) ∷ frames) m = take_edge node exit to edges frames m

  -- The loop, on fuel; none means that it ran out.
  unfoldable pub explore_frames : ℕ → List (Frame A E) → Marks A E → Option (Marks A E)
  explore_frames zero frames m = none
  explore_frames (suc fuel) frames m = elim (advance frames m) [
    | finished m' ↦ some m'
    | again frames' m' ↦ explore_frames fuel frames' m'
  ]

  -- `for (const root of roots)`: a root that has been met is passed over.
  unfoldable pub explore_roots : ℕ → List A → Marks A E → Option (Marks A E)
  explore_roots fuel [] m = some m
  explore_roots fuel (root ∷ roots) m = elim (has_state m root) [
    | true ↦ explore_roots fuel roots m
    | false ↦ elim (explore_frames fuel ((root, g.raw_edges root) ∷ []) (set_open root m)) [
      | none ↦ none
      | some m' ↦ explore_roots fuel roots m'
    ]
  ]
