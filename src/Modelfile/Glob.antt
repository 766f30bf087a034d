-- ===== src/Modelfile/Glob.antt =====
-- `filepath.Match` and `filepath.Base` on Linux, and `strings.ToLower`, as pkg/modelfile/constants.go
-- uses them. The patterns of its tables hold no backslash and no negated class, so these two are
-- left out; a class that is not closed is the malformed pattern, which matches nothing.
pub mod Suffix
use modctl.Prelude.{
  ℕ, ◌+◌, Text, List, [], ◌∷◌, ◌++◌, Bool, true, false, not, ◌&&◌, ◌||◌, ltb, leb, ◌==◌, any,
  if◌then◌else◌, Option, none, some,
}

-- `unicode.ToLower` as far as it yields ASCII: U+0130 and U+212A are the only other code points
-- that it sends into ASCII. No pattern holds a letter that is not ASCII.
unfoldable pub lower_rune : ℕ → ℕ
lower_rune c =
    if leb b'A' c && leb c b'Z'
    then c + 32
    else if c == 0x130
    then b'i'
    else if c == 0x212a
    then b'k'
    else c

unfoldable pub to_lower : Text → Text
to_lower [] = []
to_lower (c ∷ s) = lower_rune c ∷ to_lower s

pub data Token : Type 0 where
  star any_rune malformed : Token
  rune : ℕ → Token
  class : List (ℕ × ℕ) → Token

-- The ranges between the brackets of a class.
unfoldable pub ranges : Text → List (ℕ × ℕ)
ranges [] = []
ranges (lo ∷ []) = (lo, lo) ∷ []
ranges (lo ∷ c ∷ []) = (lo, lo) ∷ (c, c) ∷ []
ranges (lo ∷ dash ∷ hi ∷ s) =
    let single = ranges (dash ∷ hi ∷ s) in
    let range = ranges s in if dash == b'-' then (lo, hi) ∷ range else (lo, lo) ∷ single

abbrev pub token : ℕ → Token
token c = if c == b'*' then star else if c == b'?' then any_rune else rune c

-- The class that is being read, if any.
unfoldable pub tokens : Option Text → Text → List Token
unfolding ranges
tokens none [] = []
tokens (some read) [] = malformed ∷ []
tokens none (c ∷ s) = if c == b'[' then tokens (some []) s else token c ∷ tokens none s
tokens (some read) (c ∷ s) =
    if c == b']' then class (ranges read) ∷ tokens none s else tokens (some (read ++ c ∷ [])) s

-- A star takes any number of code points but the separator.
unfoldable pub after_star : (Text → Bool) → Text → Bool
after_star rest [] = rest []
after_star rest (c ∷ s) = rest (c ∷ s) || (not (c == b'/') && after_star rest s)

unfoldable pub takes : Token → ℕ → Bool
takes star c = false
takes malformed c = false
takes any_rune c = not (c == b'/')
takes (rune d) c = d == c
takes (class rs) c = any (λ r. leb r.0 c && leb c r.1) rs

unfoldable pub one_rune : Token → (Text → Bool) → Text → Bool
unfolding takes
one_rune t rest [] = false
one_rune t rest (c ∷ s) = takes t c && rest s

unfoldable pub match_tokens : List Token → Text → Bool
unfolding after_star one_rune
match_tokens [] [] = true
match_tokens [] (c ∷ s) = false
match_tokens (star ∷ ts) s = after_star (match_tokens ts) s
match_tokens (t ∷ ts) s = one_rune t (match_tokens ts) s

-- `matched, err := filepath.Match(pattern, name)` and `err == nil && matched`.
unfoldable pub glob : Text → Text → Bool
unfolding tokens match_tokens
glob pattern name = match_tokens (tokens none pattern) name

abbrev pub all_slashes : Text → Bool
all_slashes [] = true
all_slashes (c ∷ s) = c == b'/' && all_slashes s

-- The last element of a path: what stands behind the last slash that is not a trailing one.
unfoldable pub last_element : Text → Text → Text
last_element read [] = read
last_element read (c ∷ s) =
    let next = last_element [] s in
    let more = last_element (read ++ c ∷ []) s in
    if c == b'/' then (if all_slashes s then read else next) else more

unfoldable pub base : Text → Text
unfolding last_element
base [] = b'.' ∷ []
base (c ∷ s) = if all_slashes (c ∷ s) then b'/' ∷ [] else last_element [] (c ∷ s)
