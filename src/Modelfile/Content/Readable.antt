-- ===== src/Modelfile/Content/Readable.antt =====
-- The lines that `Content` writes are read by `Parse`.
use modctl.Prelude.{
  List, err, rune_bytes, all-append, codes, byte_length, ◌∙◌, has_prefix, ℕ, ◌+◌, ◌<◌, Text, [],
  ◌∷◌, ◌++◌, true, false, some, none, ok, any, text_eq, ◌≡◌, ◌≢◌, refl, ap, arith,
}
use modctl.Modelfile.Args.{parse_args}
use modctl.Modelfile.Ast.{add_next, new_node}
use modctl.Modelfile.Content.Lines.{ReadsAs, NoNewline}
use modctl.Modelfile.Lexical.{
  is_space, trim_left, trim_right, cons_unless_blank, trim_space, drop_cr, to_upper, max_token_size,
}
use modctl.Modelfile.Parser.{
  invalid_args, command_line_error, located, split_at, split_rest, command_node, split_command,
  parse_command_line, parse_line, parse_string_args, is_empty_continuation_line, is_comment,
  is_command, cut_space,
}
use modctl.Modelfile.Record.{Field, command_of}
use modctl.Modelfile.Command

pub cons_unless_blank_lem : (c : ℕ) (s : Text) → s ≢ [] → cons_unless_blank c s ≡ c ∷ s
unfolding cons_unless_blank
cons_unless_blank_lem c [] h = absurd (h refl)
cons_unless_blank_lem c (d ∷ s) h = refl

pub append-ne_nil : (x q : Text) → q ≢ [] → x ++ q ≢ []
append-ne_nil [] q h = h
append-ne_nil (c ∷ x) q h = λ e. cc e

pub trim_right-append : (x q : Text) → q ≢ [] → trim_right q ≡ q → trim_right (x ++ q) ≡ x ++ q
unfolding trim_right
trim_right-append [] q h e = e
trim_right-append (c ∷ x) q h e =
    rw (trim_right-append x q h e) (cons_unless_blank_lem c (x ++ q) (append-ne_nil x q h))

pub drop_cr-cons : (c : ℕ) (s : Text) → s ≢ [] → drop_cr (c ∷ s) ≡ c ∷ drop_cr s
unfolding drop_cr
drop_cr-cons c [] h = absurd (h refl)
drop_cr-cons c (d ∷ s) h = refl

pub drop_cr-append : (x q : Text) → q ≢ [] → drop_cr (x ++ q) ≡ x ++ drop_cr q
drop_cr-append [] q h = refl
drop_cr-append (c ∷ x) q h =
    drop_cr-cons c (x ++ q) (append-ne_nil x q h) ∙ ap (λ s. c ∷ s) (drop_cr-append x q h)

cut_space-command :
    (f : Field) (q : Text) → cut_space (command_of f ++ b' ' ∷ q) ≡ some (command_of f, q)
unfolding cut_space
cut_space-command f q = ground arith

trim_left-command :
    (f : Field) (q : Text) → trim_left (command_of f ++ b' ' ∷ q) ≡ command_of f ++ b' ' ∷ q
unfolding trim_left is_space
trim_left-command f q = ground arith

is_comment-command : (f : Field) (q : Text) → is_comment (command_of f ++ b' ' ∷ q) ≡ false
unfolding is_comment has_prefix
is_comment-command f q = ground arith

is_command-command : (f : Field) (q : Text) → is_command (command_of f ++ b' ' ∷ q) ≡ true
unfolding is_command has_prefix to_upper
is_command-command f q = ground arith

to_upper-command : (f : Field) → to_upper (trim_space (command_of f)) ≡ command_of f
unfolding to_upper trim_space is_space
to_upper-command f = ground arith

known-command : (f : Field) → any (text_eq (command_of f)) Command.commands ≡ true
unfolding text_eq
known-command f = ground arith

is_empty-command :
    (f : Field) (q : Text) → is_empty_continuation_line (command_of f ++ b' ' ∷ q) ≡ false
unfolding is_empty_continuation_line
is_empty-command f q = ground arith

NoNewline-command : (f : Field) → NoNewline (command_of f)
NoNewline-command f = ground arith

pub ReadsAs-blank : ReadsAs [] none
unfolding byte_length drop_cr parse_line trim_space
ReadsAs-blank = record { one_line = refl; fits = omega arith; parses = λ n. refl }

trim_space-hash : (s : Text) → trim_space (b'#' ∷ s) ≡ b'#' ∷ trim_right s
unfolding trim_space trim_left is_space
trim_space-hash s = go (trim_right s)
  where
    go : (t : Text) → cons_unless_blank b'#' t ≡ b'#' ∷ t
    go [] = refl
    go (c ∷ t) = refl

parse_line-hash : (n : ℕ) (s : Text) → parse_line n (b'#' ∷ s) ≡ ok none
unfolding parse_line has_prefix
parse_line-hash n s = rw trim_space-hash refl

pub ReadsAs-comment :
    (t : Text) → NoNewline t → byte_length t + 2 < max_token_size → ReadsAs (codes "# " ++ t) none
ReadsAs-comment t h fits = record {
  one_line = h;
  fits = unfold byte_length rune_bytes in omega arith;
  parses =
      λ n. rw (drop_cr-cons b'#' (b' ' ∷ t) (λ e. cc e)) (parse_line-hash n (drop_cr (b' ' ∷ t)));
}

-- A text that survives the trimming of its line behind a command.
pub record IsTrimmed (q : Text) : Type 0 where
  pub ne_nil : q ≢ []
  pub left : trim_left q ≡ q
  pub right : trim_right q ≡ q
  pub cr : drop_cr q ≡ q
  pub one_line : NoNewline q

-- A text that is read, behind a command, as the one argument `v`.
pub record IsArgument (q v : Text) : Type 0 where
  pub parsed : parse_args q ≡ some (v ∷ [])
  pub value_ne_nil : v ≢ []
  pub trimmed : IsTrimmed q

parse_string_args-one :
    (v : Text) (n : ℕ) → v ≢ [] → parse_string_args (v ∷ []) n n ≡ ok (new_node v n n)
unfolding parse_string_args
parse_string_args-one [] n h = absurd (h refl)
parse_string_args-one (c ∷ s) n h = refl

split_rest-parsed :
    (cmd q : Text) (args : List Text)
    → q ≢ []
    → parse_args q ≡ some args
    → split_rest cmd q ≡ ok (cmd, args)
unfolding split_rest
split_rest-parsed cmd [] args ne h = absurd (ne refl)
split_rest-parsed cmd (c ∷ s) args ne h = rw h refl

module _ (f : Field) (q : Text) (t : IsTrimmed q) where
  trim_space-line : trim_space (command_of f ++ b' ' ∷ q) ≡ command_of f ++ b' ' ∷ q
  unfolding trim_space
  trim_space-line = rw (trim_left-command f q) (
      trim_right-append (command_of f) (b' ' ∷ q) (λ e. cc e)
        (unfold trim_right in rw t.right (cons_unless_blank_lem b' ' q t.ne_nil)))

  pub drop_cr-line : drop_cr (command_of f ++ b' ' ∷ q) ≡ command_of f ++ b' ' ∷ q
  drop_cr-line =
      drop_cr-append (command_of f) (b' ' ∷ q) (λ e. cc e)
      ∙ ap (λ s. command_of f ++ s) (drop_cr-cons b' ' q t.ne_nil ∙ ap (λ s. b' ' ∷ s) t.cr)

  pub NoNewline-line : NoNewline (command_of f ++ b' ' ∷ q)
  NoNewline-line = rw all-append (rw (NoNewline-command f) t.one_line)

  split_command-parsed :
      (args : List Text)
      → parse_args q ≡ some args
      → split_command (command_of f ++ b' ' ∷ q) ≡ ok (command_of f, args)
  unfolding split_command split_at trim_space
  split_command-parsed args h =
      ap split_at (cut_space-command f q)
      ∙ rw (to_upper-command f, t.left)
          (rw t.right (split_rest-parsed (command_of f) q args t.ne_nil h))

  -- The line of a command, whatever its arguments.
  parse_line-command :
      (n : ℕ) (args : List Text)
      → parse_args q ≡ some args
      → parse_line n (command_of f ++ b' ' ∷ q) ≡ located n (command_node (command_of f) args n n)
  unfolding parse_line parse_command_line
  parse_line-command n args h = rw trim_space-line (
      rw (is_empty-command f q) (
        rw (is_comment-command f q)
          (rw (is_command-command f q) (rw (split_command-parsed args h) refl))))

command_node-argument :
    (f : Field) (v : Text) (n : ℕ)
    → v ≢ []
    → command_node (command_of f) (v ∷ []) n n
      ≡ ok (add_next (new_node (command_of f) n n) (new_node v n n))
unfolding command_node
command_node-argument f v n ne = rw (known-command f) (rw (parse_string_args-one v n ne) refl)

-- A command with its argument is read as such.
pub ReadsAs-command :
    (f : Field) (q v : Text)
    → IsArgument q v
    → byte_length (command_of f ++ b' ' ∷ q) < max_token_size
    → ReadsAs (command_of f ++ b' ' ∷ q) (some (f, v))
ReadsAs-command f q v a fits = record {
  one_line = NoNewline-line f q a.trimmed;
  fits = fits;
  parses = λ n. rw (drop_cr-line f q a.trimmed) (
      parse_line-command f q a.trimmed n (v ∷ []) a.parsed
      ∙ (unfold located in ap (located n) (command_node-argument f v n a.value_ne_nil)));
}

-- A single-valued command with two arguments is refused.
pub parse_line-two :
    (f : Field) (q u v : Text) (n : ℕ)
    → IsTrimmed q
    → parse_args q ≡ some (u ∷ v ∷ [])
    → parse_line n (command_of f ++ b' ' ∷ q) ≡ err (command_line_error n invalid_args)
parse_line-two f q u v n t h =
    parse_line-command f q t n (u ∷ v ∷ []) h
    ∙ (unfold located command_node parse_string_args in rw (known-command f) refl)
