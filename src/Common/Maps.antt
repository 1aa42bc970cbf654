-- ===== src/Common/Maps.antt =====
-- A JavaScript `Map` with text keys, as the list of its entries in insertion order: `set` keeps the
-- place of a key that is there, and appends one that is not.
use text.Mathlib.Text.{◌==◌}
use Prim.Native.String.{String}
use text.Mathlib.TextEquality.{eq_iff}
use mathlib.Core.Path.{◌≡◌, refl, sym}
use mathlib.Core.Logic.{inl, inr}
use mathlib.Core.Option
use mathlib.Core.Bool.{not}
use mathlib.Core.Option.{Option, none, some}
use mathlib.Core.List.{List, [], ◌∷◌, map}
use native.Mathlib.Omega.{arith}
use now_sdk_ext_core.Common.Tests.{if◌then◌else◌, Bool-cases}
use now_sdk_ext_core.Common.Lists.{filter, In, All}

abbrev pub Map {ℓ} : Type ℓ → Type ℓ
Map V = List (String × V)

module _ {ℓ} {V : Type ℓ} where
  unfoldable pub lookup : String → Map V → Option V
  lookup key [] = none
  lookup key ((name, value) ∷ rest) = if name == key then some value else lookup key rest

  -- `map.set(key, value)`
  unfoldable pub insert : String → V → Map V → Map V
  insert key new [] = (key, new) ∷ []
  insert key new ((name, old) ∷ rest) =
      let kept = (name, old) ∷ insert key new rest in
      if name == key then (name, new) ∷ rest else kept

  unfoldable pub delete : String → Map V → Map V
  delete key entries = filter (λ e. not (e.0 == key)) entries

  pub lookup-insert :
      (key other : String) (new : V) (entries : Map V)
      → (lookup other (insert key new entries))
        ≡ (if key == other then some new else lookup other entries)
  unfolding lookup insert
  lookup-insert key other new [] = refl
  lookup-insert key other new ((name, old) ∷ rest) =
      let later = lookup-insert key other new rest in
      ground (arith, later, eq_iff key other, eq_iff name key, eq_iff name other)

  pub lookup-delete :
      (key other : String) (entries : Map V)
      → lookup other (delete key entries) ≡ (if key == other then none else lookup other entries)
  unfolding lookup delete
  lookup-delete key other [] = ground arith
  lookup-delete key other ((name, old) ∷ rest) =
      let later = lookup-delete key other rest in
      ground (arith, later, eq_iff key other, eq_iff name key, eq_iff name other)

pub ruleset map_laws = (lookup-insert, lookup-delete)

abbrev pub keys {ℓ} : {V : Type ℓ} → Map V → List String
keys m = map (λ e. e.0) m

abbrev pub values {ℓ} : {V : Type ℓ} → Map V → List V
values m = map (λ e. e.1) m

pub lookup-In_keys {ℓ} :
    {V : Type ℓ} (key : String) (entries : Map V) (v : V)
    → lookup key entries ≡ some v
    → In key (keys entries)
unfolding lookup
lookup-In_keys key [] v h = absurd (cc)
lookup-In_keys key ((name, value) ∷ rest) v h = elim (Bool-cases (name == key)) [
  | inl e ↦ inl (sym ((eq_iff name key).0 e))
  | inr e ↦ inr (lookup-In_keys key rest v (rw e at h))
]

-- What holds of every value of a map.
abbrev pub AllValues {κ} : {V : Type 0} → (V → Type κ) → Map V → Type κ
AllValues P m = All (λ e. P e.1) m

pub AllValues-insert {κ} :
    {V : Type 0} (P : V → Type κ) (key : String) (v : V) (entries : Map V)
    → P v
    → AllValues P entries
    → AllValues P (insert key v entries)
unfolding insert
AllValues-insert P key v [] p h = (p, tt)
AllValues-insert P key v ((name, old) ∷ rest) p h = elim (Bool-cases (name == key)) [
  | inl e ↦ rw e (p, h.1)
  | inr e ↦ rw e (h.0, AllValues-insert P key v rest p h.1)
]

pub AllValues-lookup {κ} :
    {V : Type 0} (P : V → Type κ) (key : String) (entries : Map V) (v : V)
    → AllValues P entries
    → lookup key entries ≡ some v
    → P v
unfolding lookup
AllValues-lookup P key [] v h e = absurd (cc)
AllValues-lookup P key ((name, old) ∷ rest) v h e = elim (Bool-cases (name == key)) [
  | inl q ↦ let same : old ≡ v = cc (rw q at e) in rw (← same) h.0
  | inr q ↦ AllValues-lookup P key rest v h.1 (rw q at e)
]

-- A change of every value.
abbrev pub map_values {ℓ κ} : {V : Type ℓ} {W : Type κ} → (V → W) → Map V → Map W
map_values f m = map (λ e. (e.0, f e.1)) m

pub AllValues-map_values {κ} :
    {V : Type 0} (P Q : V → Type κ) (f : V → V) (entries : Map V)
    → ((v : V) → P v → Q (f v))
    → AllValues P entries
    → AllValues Q (map_values f entries)
AllValues-map_values P Q f [] k h = tt
AllValues-map_values P Q f (e ∷ rest) k h = (k e.1 h.0, AllValues-map_values P Q f rest k h.1)

pub lookup-map_values {ℓ κ} :
    {V : Type ℓ} {W : Type κ} (f : V → W) (key : String) (entries : Map V)
    → lookup key (map_values f entries) ≡ Option.map f (lookup key entries)
unfolding lookup
lookup-map_values f key [] = refl
lookup-map_values f key ((name, v) ∷ rest) = elim (Bool-cases (name == key)) [
  | inl e ↦ rw e refl
  | inr e ↦ rw e (lookup-map_values f key rest)
]
