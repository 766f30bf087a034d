-- ===== src/Modelfile/Lexical.antt =====
-- What pkg/modelfile/parser/parser.go uses of `strings` and `bufio`, over code points.
use modctl.Prelude.{
  ℕ, ◌-◌, ◌*◌, Text, List, [], ◌∷◌, Bool, ◌&&◌, ◌||◌, leb, ltb, ◌==◌, byte_length, if◌then◌else◌,
}

-- `unicode.IsSpace`.
unfoldable pub is_space : ℕ → Bool
is_space c =
    (leb 0x09 c && leb c 0x0d)
    || c == 0x20
    || c == 0x85
    || c == 0xa0
    || c == 0x1680
    || (leb 0x2000 c && leb c 0x200a)
    || c == 0x2028
    || c == 0x2029
    || c == 0x202f
    || c == 0x205f
    || c == 0x3000

unfoldable pub trim_left : Text → Text
trim_left [] = []
trim_left (c ∷ s) = if is_space c then trim_left s else c ∷ s

unfoldable pub cons_unless_blank : ℕ → Text → Text
cons_unless_blank c [] = if is_space c then [] else c ∷ []
cons_unless_blank c (d ∷ s) = c ∷ d ∷ s

unfoldable pub trim_right : Text → Text
unfolding cons_unless_blank
trim_right [] = []
trim_right (c ∷ s) = cons_unless_blank c (trim_right s)

-- `strings.TrimSpace`.
unfoldable pub trim_space : Text → Text
unfolding trim_left trim_right
trim_space s = trim_right (trim_left s)

-- `unicode.ToUpper` as far as it yields ASCII, which is all that the commands hold: U+0131 and
-- U+017F are the only other code points that it sends into ASCII.
unfoldable pub upper_rune : ℕ → ℕ
upper_rune c =
    if leb b'a' c && leb c b'z'
    then c - 32
    else if c == 0x131
    then b'I'
    else if c == 0x17f
    then b'S'
    else c

-- `strings.ToUpper`.
unfoldable pub to_upper : Text → Text
unfolding upper_rune
to_upper [] = []
to_upper (c ∷ s) = upper_rune c ∷ to_upper s

-- `bufio.MaxScanTokenSize`.
abbrev pub max_token_size : ℕ
max_token_size = 64 * 1024

cons_first : ℕ → List Text → List Text
cons_first c [] = (c ∷ []) ∷ []
cons_first c (l ∷ ls) = (c ∷ l) ∷ ls

-- The lines of a text. A last line that is empty and has no newline is none.
unfoldable pub raw_lines : Text → List Text
unfolding cons_first
raw_lines [] = []
raw_lines (c ∷ s) = let rest = raw_lines s in if c == b'\n' then [] ∷ rest else cons_first c rest

-- `bufio.ScanLines` drops one carriage return at the end of a line.
unfoldable pub drop_cr : Text → Text
drop_cr [] = []
drop_cr (c ∷ []) = if c == b'\r' then [] else c ∷ []
drop_cr (c ∷ d ∷ s) = c ∷ drop_cr (d ∷ s)

-- The tokens that the scanner yields: it stops for good at a line that does not fit its buffer.
unfoldable pub scan_from : List Text → List Text
unfolding drop_cr
scan_from [] = []
scan_from (l ∷ ls) =
    let rest = scan_from ls in if ltb (byte_length l) max_token_size then drop_cr l ∷ rest else []

unfoldable pub scan_lines : Text → List Text
unfolding raw_lines scan_from
scan_lines s = scan_from (raw_lines s)
