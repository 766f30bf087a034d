-- ===== src/Modelfile/Content/Lines.antt =====
-- A text of lines, each ended by a newline, and what the scanner and `Parse` make of it.
use modctl.Prelude.{
  ◌+◌, append-nil, text_eq, if◌then◌else◌, append_assoc, ℕ, ◌<◌, Text, List, [], ◌∷◌, ◌++◌, true,
  not, ◌==◌, all, All, Option, none, some, ok, ◌≡◌, refl, ap, sym, ◌∙◌, arith, byte_length,
}
use modctl.Modelfile.Ast.{
  get_next, get_value, get_children-add_child, new_root_node, get_children, Node, new_node,
  add_next,
}
use modctl.Modelfile.File.Fields.{args_of-append, args_of}
use modctl.Modelfile.Lexical.{raw_lines, drop_cr, scan_from, scan_lines, max_token_size}
use modctl.Modelfile.Parser.{add_child?, parse, parse_lines, parse_line}
use modctl.Modelfile.Record.{Field, command_of}

-- A line of a Modelfile with the command and argument that it stands for, if any.
abbrev pub Line : Type 0
Line = Text × Option (Field × Text)

unfoldable pub unlines : List Line → Text
unlines [] = []
unlines ((l, r) ∷ ls) = l ++ b'\n' ∷ unlines ls

pub unlines-append : (xs ys : List Line) → unlines (xs ++ ys) ≡ unlines xs ++ unlines ys
unfolding unlines
unlines-append [] ys = refl
unlines-append ((l, r) ∷ xs) ys =
    ap (λ s. l ++ b'\n' ∷ s) (unlines-append xs ys)
    ∙ sym (append_assoc l (b'\n' ∷ unlines xs) (unlines ys))

abbrev pub NoNewline : Text → Type 0
NoNewline s = all (λ c. not (c == b'\n')) s ≡ true

pub raw_lines-line : (l s : Text) → NoNewline l → raw_lines (l ++ b'\n' ∷ s) ≡ l ∷ raw_lines s
unfolding raw_lines
raw_lines-line [] s h = refl
raw_lines-line (c ∷ l) s h = ground (arith, raw_lines-line l s)

abbrev pub node_for : ℕ → Option (Field × Text) → Option Node
node_for n none = none
node_for n (some (f, v)) = some (add_next (new_node (command_of f) n n) (new_node v n n))

-- A line that fits the scanner and that `Parse` reads, on any line, as what it stands for.
pub record ReadsAs (l : Text) (r : Option (Field × Text)) : Type 0 where
  pub one_line : NoNewline l
  pub fits : byte_length l < max_token_size
  pub parses : (n : ℕ) → parse_line n (drop_cr l) ≡ ok (node_for n r)

abbrev pub AllRead : List Line → Type 0
AllRead = All (λ p. ReadsAs p.0 p.1)

pub scan_lines-line :
    (l s : Text)
    → NoNewline l
    → byte_length l < max_token_size
    → scan_lines (l ++ b'\n' ∷ s) ≡ drop_cr l ∷ scan_lines s
unfolding scan_lines
scan_lines-line l s h fits =
    ap scan_from (raw_lines-line l s h) ∙ (unfold scan_from in ground arith)

abbrev dropped : List Line → List Text
dropped [] = []
dropped ((l, r) ∷ ls) = drop_cr l ∷ dropped ls

scan_lines-unlines : (ls : List Line) → AllRead ls → scan_lines (unlines ls) ≡ dropped ls
unfolding unlines
scan_lines-unlines [] h = unfold scan_lines in refl
scan_lines-unlines ((l, r) ∷ ls) (p, h) =
    scan_lines-line l (unlines ls) p.one_line p.fits
    ∙ ap (λ rest. drop_cr l ∷ rest) (scan_lines-unlines ls h)

line_args : Field → Option (Field × Text) → List Text
line_args f none = []
line_args f (some (g, v)) = if text_eq (command_of g) (command_of f) then v ∷ [] else []

-- The arguments of one command, in the order of the lines.
unfoldable pub list_args : Field → List Line → List Text
unfolding line_args
list_args f [] = []
list_args f ((l, r) ∷ ls) = line_args f r ++ list_args f ls

pub list_args-append :
    (f : Field) (xs ys : List Line) → list_args f (xs ++ ys) ≡ list_args f xs ++ list_args f ys
unfolding list_args
list_args-append f [] ys = refl
list_args-append f ((l, r) ∷ xs) ys =
    ap (λ zs. line_args f r ++ zs) (list_args-append f xs ys)
    ∙ sym (append_assoc (line_args f r) (list_args f xs) (list_args f ys))

args_of-node_for :
    (f : Field) (n : ℕ) (r : Option (Field × Text)) (root : Node)
    → args_of f (get_children (add_child? root (node_for n r)))
      ≡ args_of f (get_children root) ++ line_args f r
unfolding add_child? line_args
args_of-node_for f n none root = sym (append-nil _)
args_of-node_for f n (some (g, v)) root =
    ap (args_of f)
      (get_children-add_child root (add_next (new_node (command_of g) n n) (new_node v n n)))
    ∙ args_of-append f (get_children root)
        (add_next (new_node (command_of g) n n) (new_node v n n) ∷ [])
    ∙ ap (λ zs. args_of f (get_children root) ++ zs)
        (unfold args_of add_next new_node get_value get_next in append-nil _)

parse_lines-dropped :
    (ls : List Line) (n : ℕ) (root : Node)
    → AllRead ls
    → (r : Node) × (parse_lines n (dropped ls) root ≡ ok r)
      × ((f : Field) → args_of f (get_children r) ≡ args_of f (get_children root) ++ list_args f ls)
unfolding parse_lines list_args
parse_lines-dropped [] n root h = (root, refl, λ f. sym (append-nil _))
parse_lines-dropped ((l, r) ∷ ls) n root (p, h) =
    let (last, parsed, args) = parse_lines-dropped ls (n + 1) (add_child? root (node_for n r)) h in
    (
      last,
      rw (p.parses n) parsed,
      λ f.
          args f
          ∙ ap (λ zs. zs ++ list_args f ls) (args_of-node_for f n r root)
          ∙ append_assoc (args_of f (get_children root)) (line_args f r) (list_args f ls),
    )

-- Readable lines are parsed, and the nodes hold the arguments of the lines.
pub parse-unlines :
    (ls : List Line)
    → AllRead ls
    → (root : Node) × (parse (unlines ls) ≡ ok root)
      × ((f : Field) → args_of f (get_children root) ≡ list_args f ls)
unfolding parse
parse-unlines ls h =
    let (root, parsed, args) = parse_lines-dropped ls 0 new_root_node h in
    (
      root,
      rw (scan_lines-unlines ls h) parsed,
      λ f. args f ∙ (unfold new_root_node get_children args_of in refl),
    )
