-- ===== src/Policy/Classify/Queries.antt =====
-- The query of a request, and the rules that read it.
use now_sdk_ext_core.Common.{
  true, ◌||◌, [], ◌∷◌, ◌++◌, String, ◌≡◌, ◌⊎◌, inl, inr, refl, ap, arith, In, eq_iff, or_else,
}
use text.Mathlib.Text.{◌==◌ as str_eq}
use now_sdk_ext_core.Policy.Types.{write, instance_target}
use now_sdk_ext_core.Policy.Floor.{QueryValue, Query, has_key}
use now_sdk_ext_core.Policy.Classify.{
  Platform, HttpRequest, floor_rules, delete_all_rule, add_field, add_fields, normalize_query,
  classify,
}
use now_sdk_ext_core.Policy.Classify.Laws.{classify-floor}
use now_sdk_ext_core.Policy.Classify.Paths.{FloorAsks-path}

-- The normalized query has the keys of the query and those of the form fields.
has_key-append :
    (key k : String) (value : QueryValue) (q : Query)
    → has_key key (q ++ (k, value) ∷ []) ≡ (has_key key q || str_eq k key)
unfolding has_key
has_key-append key k value [] = ground arith
has_key-append key k value ((j, w) ∷ q) = ground (arith, has_key-append key k value q)

has_key-add_field :
    (key k : String) (value : QueryValue) (q : Query)
    → has_key key (add_field k value q) ≡ (has_key key q || str_eq k key)
unfolding add_field
has_key-add_field key k value q =
    ground
      (arith, has_key-append key k value q, eq_iff k key, ap (λ t. has_key t q) {x = k} {y = key})

has_key-add_fields :
    (key : String) (fields q : Query)
    → has_key key (add_fields q fields) ≡ (has_key key q || has_key key fields)
unfolding add_fields has_key
has_key-add_fields key [] q = ground arith
has_key-add_fields key ((k, v) ∷ fields) q =
    let ih : has_key key (add_fields (add_field k v q) fields)
        ≡ (has_key key (add_field k v q) || has_key key fields) =
      has_key-add_fields key fields (add_field k v q) in
    let field : has_key key (add_field k v q) ≡ (has_key key q || str_eq k key) =
      has_key-add_field key k v q in
    rw ih (rw field (ground arith))

has_key-normalize_query :
    (key : String) (request : HttpRequest)
    → has_key key (normalize_query request)
      ≡ (has_key key (or_else request.query []) || has_key key (or_else request.fields []))
unfolding normalize_query
has_key-normalize_query key request = has_key-add_fields key (or_else request.fields []) _

delete_all-listed : In delete_all_rule floor_rules
unfolding floor_rules
delete_all-listed = inr (inr (inr (inr (inr (inr (inr (inr (inr (inr (inl refl))))))))))

-- A request with the parameter sysparm_delete_all, in its query or in its form fields, needs write
-- on the instance: by any method, on any path, whatever it declares.
pub delete_all-classify :
    (platform : Platform) (request : HttpRequest)
    → (has_key "sysparm_delete_all" (or_else request.query []) ≡ true)
      ⊎ (has_key "sysparm_delete_all" (or_else request.fields []) ≡ true)
    → In write (classify platform request).verbs
      × ((classify platform request).target ≡ instance_target)
delete_all-classify platform request h = classify-floor platform request write (
    FloorAsks-path platform request delete_all_rule write delete_all-listed refl
      (rw has_key-normalize_query (ground arith)) (inl refl))
