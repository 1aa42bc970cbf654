-- ===== src/Common/Regex.antt =====
-- The regular expressions that the sources write, and `RegExp.test`. Classes and anchors are those
-- that they use. An `i` flag is a test of the text in lower case against a pattern in lower case:
-- the patterns are ASCII, to which the flag folds only ASCII.
use now_sdk_ext_core.Common.{
  ℕ, zero, suc, Bool, true, false, not, ◌&&◌, ◌||◌, List, [], ◌∷◌, leb, ◌==◌, length, Text, codes,
  to_lower_case, String,
}

pub data Regex : Type 0 where
  empty : Regex
  char : (ℕ → Bool) → Regex
  seq alt : Regex → Regex → Regex
  star : Regex → Regex
  ahead not_ahead : Regex → Regex
  at_start at_end : Regex

-- What is left to match: whether the position is the start of the text, and the text from there.
abbrev pub Cont : Type 0
Cont = Bool → Text → Bool

-- Any number of rounds of `step`. Each round that matters consumes a character, so the length of
-- the text bounds the rounds.
unfoldable pub rounds : ℕ → (Bool → Text → Cont → Bool) → Bool → Text → Cont → Bool
rounds zero step first s k = k first s
rounds (suc n) step first s k = k first s || step first s (λ f t. rounds n step f t k)

abbrev pub is_nil : Text → Bool
is_nil [] = true
is_nil (_ ∷ _) = false

unfoldable pub consume : (ℕ → Bool) → Text → Cont → Bool
consume p [] k = false
consume p (c ∷ s) k = p c && k false s

-- Whether a match from this position can be followed as `k` asks.
unfoldable pub matches_at : Regex → Bool → Text → Cont → Bool
unfolding rounds consume
matches_at empty first s k = k first s
matches_at (char p) first s k = consume p s k
matches_at (seq a b) first s k = matches_at a first s (λ f t. matches_at b f t k)
matches_at (alt a b) first s k = matches_at a first s k || matches_at b first s k
matches_at (star a) first s k = rounds (length s) (matches_at a) first s k
matches_at (ahead a) first s k = matches_at a first s (λ f t. true) && k first s
matches_at (not_ahead a) first s k = not (matches_at a first s (λ f t. true)) && k first s
matches_at at_start first s k = first && k first s
matches_at at_end first s k = is_nil s && k first s

-- A match may start anywhere.
unfoldable pub test_from : Regex → Bool → Text → Bool
unfolding matches_at
test_from r first [] = matches_at r first [] (λ f t. true)
test_from r first (c ∷ s) = matches_at r first (c ∷ s) (λ f t. true) || test_from r false s

unfoldable pub test : Regex → Text → Bool
unfolding test_from
test r s = test_from r true s

-- `new RegExp(r, "i").test(s)`, for a pattern in lower case.
unfoldable pub test_i : Regex → Text → Bool
unfolding test
test_i r s = test r (to_lower_case s)

-- Notation for the patterns.
abbrev pub lit_char : ℕ → Regex
lit_char c = char (λ d. d == c)

abbrev pub word : Text → Regex
word [] = empty
word (c ∷ []) = lit_char c
word (c ∷ (d ∷ s)) = seq (lit_char c) (word (d ∷ s))

abbrev pub lit : String → Regex
lit s = word (codes s)

-- `r+`
abbrev pub plus : Regex → Regex
plus r = seq r (star r)

-- `r?`
abbrev pub opt : Regex → Regex
opt r = alt r empty

-- `\d` and `\w`
abbrev pub is_digit : ℕ → Bool
is_digit c = leb b'0' c && leb c b'9'

abbrev pub is_word : ℕ → Bool
is_word c = is_digit c || (leb b'a' c && leb c b'z') || (leb b'A' c && leb c b'Z') || c == b'_'

abbrev pub slashes : Regex
slashes = plus (lit_char b'/')

-- An alternation of words.
abbrev pub one_of : List Regex → Regex
one_of [] = not_ahead empty
one_of (r ∷ []) = r
one_of (r ∷ (q ∷ rs)) = alt r (one_of (q ∷ rs))
