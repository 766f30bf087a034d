-- ===== src/Modelfile/Content/SpacedName.antt =====
-- A model name of two words: `writeField` puts no quotes around it, and `NewModelfile` refuses what
-- `Content` wrote.
use modctl.Prelude.{
  err, ◌<◌, byte_length, append_assoc, none, all-append, arith, ◌∙◌, ap, false, Text, List, [], ◌∷◌,
  ◌++◌, ◌≡◌, ◌≢◌, refl, some, codes,
}
use modctl.Modelfile.Args.{step, run_args, finish, parse_args}
use modctl.Modelfile.Args.Quoting.{outside, run_args-append}
use modctl.Modelfile.Ast.{new_root_node}
use modctl.Modelfile.Content.{content}
use modctl.Modelfile.Content.Blocks.{field_lines, IsComment, Fits}
use modctl.Modelfile.Content.Lines.{scan_lines-line, NoNewline, ReadsAs, Line, unlines}
use modctl.Modelfile.Content.Readable.{
  ReadsAs-blank, ReadsAs-comment, NoNewline-line, drop_cr-line, parse_line-two, drop_cr-cons,
  drop_cr-append, cons_unless_blank_lem, trim_right-append, append-ne_nil, IsTrimmed,
}
use modctl.Modelfile.Content.RoundTrip.{content_tail, content_lem, content_lines}
use modctl.Modelfile.Content.Values.{
  NoNewline-plain, drop_cr-plain, trim_right-plain, is_plain, IsPlain, run_args-plain,
}
use modctl.Modelfile.File.{parse_error, parse_file, new_modelfile}
use modctl.Modelfile.HashSet.{HashSet}
use modctl.Modelfile.Lexical.{drop_cr, scan_lines, max_token_size, trim_right, trim_left}
use modctl.Modelfile.Parser.{
  invalid_args, parse, command_line_error, parse_line, LineError, add_child?, parse_lines,
}
use modctl.Modelfile.Record.{command_of, Field, one, One, Modelfile}

-- Two plain words with a space between them.
abbrev pub IsTwoWords : Text → Text → Type 0
IsTwoWords a b = (a ≢ []) × IsPlain a × (b ≢ []) × IsPlain b

end_word :
    (a b : Text)
    → a ≢ []
    → run_args (outside [] a false) (b' ' ∷ b) ≡ run_args (outside (a ∷ []) [] false) b
unfolding run_args step
end_word [] b h = absurd (h refl)
end_word (c ∷ a) b h = refl

finish_word : (a b : Text) → b ≢ [] → finish (outside (a ∷ []) b false) ≡ some (a ∷ b ∷ [])
unfolding finish
finish_word a [] h = absurd (h refl)
finish_word a (c ∷ b) h = refl

parse_args-two : (a b : Text) → IsTwoWords a b → parse_args (a ++ b' ' ∷ b) ≡ some (a ∷ b ∷ [])
unfolding parse_args
parse_args-two a b (na, pa, nb, pb) =
    ap finish (
      run_args-append (outside [] [] false) a (b' ' ∷ b)
      ∙ ap (λ s. run_args s (b' ' ∷ b)) (run_args-plain [] [] false a pa)
      ∙ end_word a b na
      ∙ run_args-plain (a ∷ []) [] false b pb)
    ∙ finish_word a b nb

trim_left-append : (a s : Text) → a ≢ [] → IsPlain a → trim_left (a ++ s) ≡ a ++ s
unfolding trim_left is_plain
trim_left-append [] s ne h = absurd (ne refl)
trim_left-append (c ∷ a) s ne h = ground arith

IsTrimmed-two : (a b : Text) → IsTwoWords a b → IsTrimmed (a ++ b' ' ∷ b)
IsTrimmed-two a b (na, pa, nb, pb) = record {
  ne_nil = append-ne_nil a (b' ' ∷ b) (λ e. cc e);
  left = trim_left-append a (b' ' ∷ b) na pa;
  right =
      trim_right-append a (b' ' ∷ b) (λ e. cc e)
        (unfold trim_right in rw (trim_right-plain b pb) (cons_unless_blank_lem b' ' b nb));
  cr =
      drop_cr-append a (b' ' ∷ b) (λ e. cc e)
      ∙ ap (λ s. a ++ s) (drop_cr-cons b' ' b nb ∙ ap (λ s. b' ' ∷ s) (drop_cr-plain b pb));
  one_line = rw all-append (rw (NoNewline-plain a pa) (NoNewline-plain b pb));
}

-- The first four lines: the stamp, a blank line, the comment, and the command.
head_lines :
    (s comment : Text) (f : Field) (a b : Text) (rest : List Line)
    → a ≢ []
    → unlines ((s, none) ∷ [] ++ field_lines comment f (a ++ b' ' ∷ b) ++ rest)
      ≡ s
        ++ b'\n'
          ∷ b'\n'
          ∷ ((codes "# " ++ comment)
              ++ b'\n' ∷ ((command_of f ++ b' ' ∷ (a ++ b' ' ∷ b)) ++ b'\n' ∷ unlines rest))
unfolding field_lines unlines
head_lines s comment f [] b rest ne = absurd (ne refl)
head_lines s comment f (c ∷ a) b rest ne = simp append_assoc

four_lines :
    (s c l more : Text)
    → ReadsAs s none
    → ReadsAs c none
    → NoNewline l
    → byte_length l < max_token_size
    → scan_lines (s ++ b'\n' ∷ b'\n' ∷ (c ++ b'\n' ∷ (l ++ b'\n' ∷ more)))
      ≡ drop_cr s ∷ drop_cr [] ∷ drop_cr c ∷ drop_cr l ∷ scan_lines more
four_lines s c l more rs rc line fits =
    scan_lines-line s _ rs.one_line rs.fits
    ∙ ap (λ t. drop_cr s ∷ t)
        (scan_lines-line [] _ ReadsAs-blank.one_line ReadsAs-blank.fits
          ∙ ap (λ t. drop_cr [] ∷ t)
              (scan_lines-line c _ rc.one_line rc.fits
                ∙ ap (λ t. drop_cr c ∷ t) (scan_lines-line l more line fits)))

parse-four_lines :
    (s c l : Text) (more : List Text) (e : LineError)
    → ReadsAs s none
    → ReadsAs c none
    → parse_line 3 l ≡ err (command_line_error 3 e)
    → parse_lines 0 (drop_cr s ∷ drop_cr [] ∷ drop_cr c ∷ l ∷ more) new_root_node
      ≡ err (command_line_error 3 e)
unfolding parse_lines add_child?
parse-four_lines s c l more e rs rc h =
    rw (rs.parses 0) (rw (ReadsAs-blank.parses 1) (rw (rc.parses 2) (rw h refl)))

module _ {h : HashSet} (now : Text) (mf : Modelfile h) (a b : Text) (w : IsTwoWords a b)
    (stamp : IsComment (codes "Generated at " ++ now)) (fits : Fits (one One.name) (a ++ b' ' ∷ b))
    (named : mf.name ≡ a ++ b' ' ∷ b) where
  content-head :
      (more : Text) × (content now mf
        ≡ (codes "# " ++ (codes "Generated at " ++ now))
          ++ b'\n'
            ∷ b'\n'
            ∷ ((codes "# " ++ codes "Model name")
                ++ b'\n' ∷ ((command_of (one One.name) ++ b' ' ∷ (a ++ b' ' ∷ b)) ++ b'\n' ∷ more)))
  unfolding content_lines
  content-head = (
    unlines (content_tail now mf),
    content_lem now mf
        ∙ ap
            (λ v. unlines (
              (codes "# " ++ (codes "Generated at " ++ now), none) ∷ []
              ++ field_lines (codes "Model name") (one One.name) v
              ++ content_tail now mf))
            named
        ∙ head_lines _ _ _ a b (content_tail now mf) w.0,
  )

  parse-content : parse (content now mf) ≡ err (command_line_error 3 invalid_args)
  unfolding parse
  parse-content =
      let (more, head) = content-head in
      let t = IsTrimmed-two a b w in
      let f = one One.name in
      let s = ReadsAs-comment (codes "Generated at " ++ now) stamp.0 stamp.1 in
      let c = ReadsAs-comment (codes "Model name") refl (unfold byte_length in omega arith) in
      rw head (
        rw
          (four_lines (codes "# " ++ (codes "Generated at " ++ now))
            (codes "# " ++ codes "Model name") (command_of f ++ b' ' ∷ (a ++ b' ' ∷ b)) more s c
            (NoNewline-line f _ t) fits)
          (rw (drop_cr-line f (a ++ b' ' ∷ b) t) (
            parse-four_lines _ _ _ (scan_lines more) invalid_args s c
              (parse_line-two f (a ++ b' ' ∷ b) a b 3 t (parse_args-two a b w)))))

-- A model name of two words without quotes or backslashes, on a line that fits the scanner:
-- `NewModelfile` refuses what `Content` writes, at the fourth line, as a command with two
-- arguments.
pub new_modelfile-content-spaced :
    (h : HashSet) (now : Text) (mf : Modelfile h) (a b : Text)
    → IsTwoWords a b
    → IsComment (codes "Generated at " ++ now)
    → Fits (one One.name) (a ++ b' ' ∷ b)
    → mf.name ≡ a ++ b' ' ∷ b
    → new_modelfile h (some (content now mf))
      ≡ err (parse_error (command_line_error 3 invalid_args))
unfolding new_modelfile parse_file
new_modelfile-content-spaced h now mf a b w stamp fits named =
    rw (parse-content now mf a b w stamp fits named) refl
