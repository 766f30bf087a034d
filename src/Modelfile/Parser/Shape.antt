-- ===== src/Modelfile/Parser/Shape.antt =====
-- What `Parse` yields: the shape of the syntax tree, whatever the input.
use modctl.Prelude.{
  ℕ, suc, ◌+◌, ◌≤◌, ◌<◌, ◌≡◌, ◌≢◌, refl, ap, sym, ◌∙◌, Text, text_eq, byte_length, List, [], ◌∷◌,
  ◌++◌, any, All, All-append, length, true, Bool-cases, inl, inr, Option, none, some, Result, ok,
  err, >>=-eq-ok, arith, subst,
}
use modctl.Modelfile.Ast.{
  Node, new_root_node, new_node, add_next, get_value, get_next, get_children, get_start_line,
  get_children-add_child,
}
use modctl.Modelfile.Lexical.{trim_space, raw_lines, scan_from, scan_lines, max_token_size}
use modctl.Modelfile.Parser.{
  LineError, parse_string_args, command_node, split_command, parse_command_line, located,
  is_empty_continuation_line, is_comment, is_command, parse_line, add_child?, parse_lines, parse,
}
use modctl.Modelfile.Command

-- A node for a command of the language, with one argument that is not empty, read from a line
-- below `k`.
pub record IsCommandNode (k : ℕ) (n : Node) : Type 0 where
  pub known : any (text_eq (get_value n)) Command.commands ≡ true
  pub argument : (a : Node) × (get_next n ≡ some a) × (get_value a ≢ [])
  pub located : get_start_line n < k

IsCommandNode-mono : {j k : ℕ} (n : Node) → j ≤ k → IsCommandNode j n → IsCommandNode k n
IsCommandNode-mono n h c = record {
  known = c.known;
  argument = c.argument;
  located = omega (arith, c.located);
}

parse_string_args-ne_nil :
    (args : List Text) (s e : ℕ) (n : Node) → parse_string_args args s e ≡ ok n → get_value n ≢ []
unfolding parse_string_args get_value new_node
parse_string_args-ne_nil [] s e n h = cc
parse_string_args-ne_nil ([] ∷ []) s e n h = cc
parse_string_args-ne_nil ((c ∷ t) ∷ []) s e n h = ground arith
parse_string_args-ne_nil (a ∷ b ∷ r) s e n h = cc

built-IsCommandNode :
    (cmd : Text) (a : Node) (k : ℕ)
    → any (text_eq cmd) Command.commands ≡ true
    → get_value a ≢ []
    → IsCommandNode (suc k) (add_next (new_node cmd k k) a)
unfolding add_next new_node get_value get_next get_start_line
built-IsCommandNode cmd a k known ne = record {
  known = known;
  argument = (a, refl, ne);
  located = omega arith;
}

command_node-IsCommandNode :
    (cmd : Text) (args : List Text) (k : ℕ) (n : Node)
    → command_node cmd args k k ≡ ok n
    → IsCommandNode (suc k) n
unfolding command_node
command_node-IsCommandNode cmd args k n h = elim (Bool-cases (any (text_eq cmd) Command.commands)) [
  | inl known ↦
      let (a, parsed, same) =
        >>=-eq-ok (parse_string_args args k k) (λ a. ok (add_next (new_node cmd k k) a))
          (rw known at h) in
      subst (IsCommandNode (suc k)) (cc same)
        (built-IsCommandNode cmd a k known (parse_string_args-ne_nil args k k a parsed))
  | inr unknown ↦ cc (rw unknown at h)
]

parse_command_line-IsCommandNode :
    (line : Text) (k : ℕ) (n : Node) → parse_command_line line k k ≡ ok n → IsCommandNode (suc k) n
unfolding parse_command_line
parse_command_line-IsCommandNode line k n h =
    let (p, split, made) =
      >>=-eq-ok (split_command line) (λ (p : Text × List Text). command_node p.0 p.1 k k) h in
    command_node-IsCommandNode p.0 p.1 k n made

located-IsCommandNode :
    (k : ℕ) (r : Result LineError Node) (n : Node)
    → ((m : Node) → r ≡ ok m → IsCommandNode (suc k) m)
    → located k r ≡ ok (some n)
    → IsCommandNode (suc k) n
unfolding located
located-IsCommandNode k (ok m) n f h = f n (cc h)
located-IsCommandNode k (err e) n f h = cc

parse_line-IsCommandNode :
    (k : ℕ) (line : Text) (n : Node) → parse_line k line ≡ ok (some n) → IsCommandNode (suc k) n
unfolding parse_line
parse_line-IsCommandNode k line n h =
    let t = trim_space line in
    elim (Bool-cases (is_empty_continuation_line t)) [
      | inl e ↦ cc (rw e at h)
      | inr e ↦ elim (Bool-cases (is_comment t)) [
        | inl c ↦ cc (rw (e, c) at h)
        | inr c ↦ elim (Bool-cases (is_command t)) [
          | inl m ↦
              located-IsCommandNode k (parse_command_line t k k) n
                (parse_command_line-IsCommandNode t k) (rw (e, c, m) at h)
          | inr m ↦ cc (rw (e, c, m) at h)
        ]
      ]
    ]

add_child?-IsCommandNode :
    (k j : ℕ) (root : Node) (child : Option Node)
    → j < k
    → All (IsCommandNode k) (get_children root)
    → ((n : Node) → child ≡ some n → IsCommandNode (suc j) n)
    → All (IsCommandNode k) (get_children (add_child? root child))
unfolding add_child?
add_child?-IsCommandNode k j root none lt h f = h
add_child?-IsCommandNode k j root (some n) lt h f = rw (get_children-add_child root n) (
    All-append (IsCommandNode k) (get_children root) (n ∷ []) h
      (IsCommandNode-mono n lt (f n refl), tt))

parse_lines-IsCommandNode :
    (k j : ℕ) (lines : List Text) (root : Node) {r : Node}
    → j + length lines ≤ k
    → All (IsCommandNode k) (get_children root)
    → parse_lines j lines root ≡ ok r
    → All (IsCommandNode k) (get_children r)
unfolding parse_lines
parse_lines-IsCommandNode k j [] root fits h e =
    subst (λ n. All (IsCommandNode k) (get_children n)) (cc e) h
parse_lines-IsCommandNode k j (l ∷ ls) root fits h e =
    let (child, parsed, rest) =
      >>=-eq-ok (parse_line j l) (λ c. parse_lines (j + 1) ls (add_child? root c)) e in
    parse_lines-IsCommandNode k (j + 1) ls (add_child? root child) (omega arith)
      (add_child?-IsCommandNode k j root child (omega arith) h
        (λ n s. parse_line-IsCommandNode j l n (parsed ∙ ap ok s)))
      rest

-- Whatever the input, every child of a tree that `Parse` returns has one of the twelve commands as
-- its value, a next node with an argument that is not empty, and a start line below the number of
-- lines scanned.
pub parse-IsCommandNode :
    (input : Text) {root : Node}
    → parse input ≡ ok root
    → All (IsCommandNode (length (scan_lines input))) (get_children root)
unfolding parse
parse-IsCommandNode input h =
    parse_lines-IsCommandNode (length (scan_lines input)) 0 (scan_lines input) new_root_node
      (omega arith) (unfold new_root_node get_children in tt) h

scan_from-too_long :
    (xs ys : List Text) (l : Text)
    → max_token_size ≤ byte_length l
    → scan_from (xs ++ l ∷ ys) ≡ scan_from xs
unfolding scan_from
scan_from-too_long [] ys l h = ground arith
scan_from-too_long (x ∷ xs) ys l h = ground (arith, scan_from-too_long xs ys l h)

-- A line of 65536 bytes or more ends the scan, and `Parse` returns no error for it: the result, an
-- error or a tree, is that of an input that has only the lines before such a line.
pub parse-too_long :
    (a b : Text) (xs ys : List Text) (l : Text)
    → raw_lines a ≡ xs ++ l ∷ ys
    → raw_lines b ≡ xs
    → max_token_size ≤ byte_length l
    → parse a ≡ parse b
unfolding parse scan_lines
parse-too_long a b xs ys l p q h =
    ap (λ ls. parse_lines 0 (scan_from ls) new_root_node) p
    ∙ ap (λ ls. parse_lines 0 ls new_root_node) (scan_from-too_long xs ys l h)
    ∙ sym (ap (λ ls. parse_lines 0 (scan_from ls) new_root_node) q)
