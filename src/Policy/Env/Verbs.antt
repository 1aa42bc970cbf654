-- ===== src/Policy/Env/Verbs.antt =====
-- What src/policy/PolicyEnv.ts reads of a list that is written as pieces with commas between them.
use now_sdk_ext_core.Common.{
  Bool, true, false, List, [], ◌∷◌, ◌++◌, append_assoc, append-nil, some, ◌≡◌, ◌⊎◌, inl, inr, refl,
  sym, ap, ◌↔◌, ◌∙◌, arith, if◌then◌else◌, ◌==◌, any, any-true, any-some, all, map, Option-cases,
  filter, In, In-filter_to, In-filter_from, In-map, In-map_cases, Bool-cases, Text, codes, text_eq,
  text_eq_iff, to_lower_case, trim, split, split_from,
}
use now_sdk_ext_core.Policy.Types.{Verb, write, execute}
use now_sdk_ext_core.Policy.Env.{
  all_token, verb_of, tokens_of, sort_tokens, parse_verb_list, is_blank,
}
use now_sdk_ext_core.Policy.Env.Laws.{In-valid}

-- How a verb is written.
abbrev pub spelling : Verb → Text
spelling write = codes "write"
spelling execute = codes "execute"

-- A text without a comma.
abbrev pub is_piece : Text → Bool
is_piece [] = true
is_piece (c ∷ s) = if c == b',' then false else is_piece s

-- A piece and further ones, with commas between them.
abbrev pub joined : Text → List Text → Text
joined p [] = p
joined p (q ∷ ps) = p ++ b',' ∷ joined q ps

-- What a piece says, white space and case apart.
abbrev pub says : Text → Text
says p = to_lower_case (trim p)

split_from-last : (cur p : Text) → is_piece p ≡ true → split_from b',' cur p ≡ (cur ++ p) ∷ []
split_from-last cur [] h = ap (λ s. s ∷ []) (sym (append-nil cur))
split_from-last cur (c ∷ p) h = elim (Bool-cases (c == b',')) [
  | inl e ↦ absurd (cc (rw e at h))
  | inr e ↦ rw e (
      split_from-last (cur ++ c ∷ []) p (rw e at h)
      ∙ ap (λ s. s ∷ []) (append_assoc cur (c ∷ []) p))
]

split_from-comma :
    (cur p rest : Text)
    → is_piece p ≡ true
    → split_from b',' cur (p ++ b',' ∷ rest) ≡ (cur ++ p) ∷ split_from b',' [] rest
split_from-comma cur [] rest h = ap (λ s. s ∷ split_from b',' [] rest) (sym (append-nil cur))
split_from-comma cur (c ∷ p) rest h = elim (Bool-cases (c == b',')) [
  | inl e ↦ absurd (cc (rw e at h))
  | inr e ↦ rw e (
      split_from-comma (cur ++ c ∷ []) p rest (rw e at h)
      ∙ ap (λ s. s ∷ split_from b',' [] rest) (append_assoc cur (c ∷ []) p))
]

split-joined :
    (p : Text) (ps : List Text) → all is_piece (p ∷ ps) ≡ true → split b',' (joined p ps) ≡ p ∷ ps
unfolding split
split-joined p [] h = split_from-last [] p (ground arith)
split-joined p (q ∷ ps) h =
    split_from-comma [] p (joined q ps) (ground arith)
    ∙ ap (λ s. p ∷ s) (split-joined q ps (ground arith))

sort_tokens-verbs_to :
    (ts : List Text) (v : Verb)
    → In v (sort_tokens ts).verbs
    → (t : Text) × In t ts × (verb_of t ≡ some v)
unfolding sort_tokens
sort_tokens-verbs_to [] v h = absurd h
sort_tokens-verbs_to (u ∷ ts) v h = elim (Option-cases (verb_of u)) [
  | inl n ↦ later (sort_tokens-verbs_to ts v (rw (n, sort_tokens) at h))
  | inr (w, y) ↦ elim (rw (y, sort_tokens) at h) [
    | inl e ↦ (u, inl refl, rw e y)
    | inr r ↦ later (sort_tokens-verbs_to ts v r)
  ]
]
  where
    later :
        ((t : Text) × In t ts × (verb_of t ≡ some v))
        → (t : Text) × In t (u ∷ ts) × (verb_of t ≡ some v)
    later (t, listed, e) = (t, inr listed, e)

sort_tokens-verbs_from :
    (ts : List Text) (v : Verb) (t : Text)
    → In t ts
    → verb_of t ≡ some v
    → In v (sort_tokens ts).verbs
unfolding sort_tokens
sort_tokens-verbs_from [] v t h e = absurd h
sort_tokens-verbs_from (u ∷ ts) v t (inl s) e =
    let here : verb_of u ≡ some v = rw (← s) e in rw (here, sort_tokens) (inl refl)
sort_tokens-verbs_from (u ∷ ts) v t (inr h) e = elim (Option-cases (verb_of u)) [
  | inl n ↦ rw (n, sort_tokens) (sort_tokens-verbs_from ts v t h e)
  | inr (w, y) ↦ rw (y, sort_tokens) (inr (sort_tokens-verbs_from ts v t h e))
]

verb_of_iff : (t : Text) (v : Verb) → (verb_of t ≡ some v) ↔ (t ≡ spelling v)
unfolding verb_of
verb_of_iff t write = ground (arith, text_eq_iff t (codes "write"))
verb_of_iff t execute = ground (arith, text_eq_iff t (codes "execute"))

abbrev is_full : Text → Bool
is_full t = if is_blank t then false else true

-- The tokens are what the pieces say, the blank ones left out.
token_cases :
    (ps : List Text) (t : Text)
    → In t (filter is_full (map says ps))
    → (p : Text) × In p ps × (says p ≡ t)
token_cases ps t h =
    let (p, listed, e) = In-map_cases says t ps (In-filter_to is_full t (map says ps) h).0 in
    (p, listed, sym e)

token_from :
    (ps : List Text) (p t : Text)
    → In p ps
    → says p ≡ t
    → is_full t ≡ true
    → In t (filter is_full (map says ps))
token_from ps p t listed e full =
    In-filter_from is_full t (map says ps) (rw e at (In-map says p ps listed)) full

spelling-full : (v : Verb) → is_full (spelling v) ≡ true
spelling-full write = refl
spelling-full execute = refl

-- What stands for a verb: its spelling, or `all`.
abbrev pub Names : Verb → Text → Type 0
Names v t = (t ≡ spelling v) ⊎ (t ≡ codes "all")

-- Of a list that is written as pieces without commas, joined by commas, a verb is read exactly
-- when some piece, white space around it and case apart, is `write` for write or `execute` for
-- execute, or is `all`.
pub parse_verb_list-joined :
    (p : Text) (ps : List Text) (v : Verb)
    → all is_piece (p ∷ ps) ≡ true
    → In v (parse_verb_list (some (joined p ps))).verbs
      ↔ ((q : Text) × In q (p ∷ ps) × Names v (says q))
unfolding parse_verb_list tokens_of
parse_verb_list-joined p ps v h =
    let tokens = filter is_full (map says (p ∷ ps)) in
    rw (split-joined p ps h) (elim (Bool-cases (any (text_eq all_token) tokens)) [
      | inl e ↦
          let (t, m, same) = any-some (text_eq all_token) tokens e in
          let (q, listed, said) = token_cases (p ∷ ps) t m in
          let all_said : says q ≡ codes "all" = said ∙ sym ((text_eq_iff all_token t).0 same) in
          rw e (λ _. (q, listed, inr all_said), λ _. In-valid v)
      | inr e ↦ rw e (
        λ m.
            let (t, m', spelt) = sort_tokens-verbs_to tokens v m in
            let (q, listed, said) = token_cases (p ∷ ps) t m' in
            (q, listed, inl (said ∙ (verb_of_iff t v).0 spelt)),
        λ w. elim w.2 [
          | inl spelt ↦
              sort_tokens-verbs_from tokens v (spelling v)
                (token_from (p ∷ ps) w.0 (spelling v) w.1 spelt (spelling-full v))
                ((verb_of_iff (spelling v) v).1 refl)
          | inr said ↦
              let m = token_from (p ∷ ps) w.0 all_token w.1 said refl in
              absurd (cc (any-true (text_eq all_token) all_token tokens m refl, e))
        ],
      )
    ])
