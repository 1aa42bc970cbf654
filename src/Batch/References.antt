-- ===== src/Batch/References.antt =====
-- `resolveVariableReferences` of src/sn/batch/BatchOperations.ts. Texts are lists of code units.
-- `JSON.stringify` and `JSON.parse` are parameters, at an abstract type of record data.
use now_sdk_ext_core.Common.{
  ℕ, zero, suc, ◌-◌, false, not, List, [], ◌∷◌, ◌++◌, Option, some, if◌then◌else◌, ◌==◌, length,
  drop, Text, text_eq, starts_with, arith, ◌≡◌, refl,
}

-- `JSON.stringify` of record data, and `JSON.parse`, which may throw.
pub record Json (D : Type 0) : Type 0 where
  pub stringify : D → Text
  pub parse : Text → Option D

-- A replacement text of `String.replace`: `$$` is a dollar, `$&` the match, and "$`" and "$'" are
-- what stands before and after it.
unfoldable pub expand_value : Text → Text → Text → Text → Text
expand_value pre matched post [] = []
expand_value pre matched post (c ∷ []) = c ∷ []
expand_value pre matched post (c ∷ (d ∷ value)) =
    let rest = expand_value pre matched post (d ∷ value) in
    let skip = expand_value pre matched post value in
    if not (c == b'$')
    then c ∷ rest
    else if d == b'$'
    then b'$' ∷ skip
    else if d == b'&'
    then matched ++ skip
    else if d == 96
    then pre ++ skip
    else if d == 39
    then post ++ skip
    else c ∷ rest

-- `text.replace(/…/g, value)` for the escaped pattern of a fixed text that is not empty: `pre` has
-- been read, and the next `skip` characters belong to a match.
unfoldable pub replace_from : Text → Text → Text → ℕ → Text → Text
unfolding expand_value
replace_from matched value pre skip [] = []
replace_from matched value pre (suc skip) (c ∷ s) =
    replace_from matched value (pre ++ c ∷ []) skip s
replace_from matched value pre zero (c ∷ s) =
    let hit =
      expand_value pre matched (drop (length matched) (c ∷ s)) value
      ++ replace_from matched value (pre ++ c ∷ []) (length matched - 1) s in
    let miss = c ∷ replace_from matched value (pre ++ c ∷ []) zero s in
    if starts_with (c ∷ s) matched then hit else miss

unfoldable pub replace_all : Text → Text → Text → Text
unfolding replace_from
replace_all matched value s = replace_from matched value [] zero s

-- `${key}`
abbrev pub reference : Text → Text
reference key = b'$' ∷ b'{' ∷ (key ++ b'}' ∷ [])

-- `sysIds` in the order of `Object.entries`.
abbrev pub SysIds : Type 0
SysIds = List (Text × Text)

unfoldable pub substitute : SysIds → Text → Text
substitute [] json = json
substitute ((key, value) ∷ ids) json = substitute ids (replace_all (reference key) value json)

unfoldable pub resolve_variable_references : {D : Type 0} → Json D → D → SysIds → Option D
resolve_variable_references json record_data [] = some record_data
resolve_variable_references json record_data (id ∷ ids) =
    json.parse (substitute (id ∷ ids) (json.stringify record_data))

-- `sysIds[key] = value`: the place of a key that is there is kept.
unfoldable pub put : Text → Text → SysIds → SysIds
put key value [] = (key, value) ∷ []
put key value ((k, v) ∷ ids) =
    if text_eq k key then (k, value) ∷ ids else (k, v) ∷ put key value ids

-- The text holds no occurrence of `matched`.
abbrev pub IsFree : Text → Text → Type 0
IsFree matched [] = Unit
IsFree matched (c ∷ s) = (starts_with (c ∷ s) matched ≡ false) × IsFree matched s

replace_from-IsFree :
    (matched value pre s : Text) → IsFree matched s → replace_from matched value pre zero s ≡ s
unfolding replace_from
replace_from-IsFree matched value pre [] h = refl
replace_from-IsFree matched value pre (c ∷ s) h =
    ground (arith, replace_from-IsFree matched value (pre ++ c ∷ []) s h.1)

-- No variable that is saved occurs in the text.
abbrev pub HasNoReference : SysIds → Text → Type 0
HasNoReference [] s = Unit
HasNoReference ((key, value) ∷ ids) s = IsFree (reference key) s × HasNoReference ids s

-- The substitution leaves a text that refers to no saved variable as it is.
pub substitute-HasNoReference :
    (ids : SysIds) (s : Text) → HasNoReference ids s → substitute ids s ≡ s
unfolding substitute replace_all
substitute-HasNoReference [] s h = refl
substitute-HasNoReference ((key, value) ∷ ids) s h =
    rw (replace_from-IsFree (reference key) value [] s h.0) (substitute-HasNoReference ids s h.1)
