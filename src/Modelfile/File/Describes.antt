-- ===== src/Modelfile/File/Describes.antt =====
-- `parseFile` against the list of the tree's nodes: which value each field has, and when it fails.
use modctl.Prelude.{
  is_empty, ◌>>=◌, length-append, append-nil, inr, subst, append_assoc, inl, Bool-cases, ℕ, ◌≡◌,
  ◌≢◌, refl, Text, mem, List, [], ◌∷◌, ◌++◌, length, All, some, Result, ok, err, arith, false,
}
use modctl.Modelfile.Ast.{get_start_line, Node, get_value, get_next, get_children}
use modctl.Modelfile.File.{
  FileError, argument, apply_field, apply_child, apply_children, new_modelfile, empty_modelfile,
}
use modctl.Modelfile.File.Fields.{
  args_of, is_empty-eq-nil, Describes, IsRepeated, args_of-append, Describes-many, Describes-one,
  repeated,
}
use modctl.Modelfile.HashSet.{HashSet}
use modctl.Modelfile.Lexical.{scan_lines}
use modctl.Modelfile.Parser.{parse}
use modctl.Modelfile.Parser.Shape.{IsCommandNode, parse-IsCommandNode}
use modctl.Modelfile.Record.{
  Many, Field, many, one, Modelfile, get_many, get_one, field_of, field_of_known,
}

-- What `parseFile` may end in after the nodes: a described Modelfile, or a repeated command.
abbrev pub Outcome : {h : HashSet} → List Node → Result FileError (Modelfile h) → Type 0
Outcome nodes (ok mf) = Describes mf nodes
Outcome nodes (err e) = IsRepeated e nodes

argument_of : (n a : Node) → get_next n ≡ some a → argument n ≡ ok (get_value a)
unfolding argument
argument_of n a h = rw (h, argument)

apply_field-Outcome :
    {h : HashSet} (mf : Modelfile h) (done : List Node) (n a : Node) (f : Field)
    → get_next n ≡ some a
    → get_value a ≢ []
    → Describes mf done
    → field_of (get_value n) ≡ some f
    → Outcome (done ++ n ∷ []) (apply_field (some f) mf n)
unfolding apply_field
apply_field-Outcome mf done n a (many m) has_a ne d is_f =
    rw (argument_of n a has_a) (Describes-many mf done n a has_a d m is_f)
apply_field-Outcome mf done n a (one o) has_a ne d is_f =
    elim (Bool-cases (is_empty (get_one mf o))) [
      | inl unset ↦
          rw (unset, argument_of n a has_a)
            (Describes-one mf done n a has_a d o is_f (is_empty-eq-nil _ unset) ne)
      | inr set ↦ rw set (o, get_start_line n, refl, repeated mf done n a has_a d o is_f set)
    ]

apply_child-Outcome :
    {h : HashSet} (mf : Modelfile h) (done : List Node) (n : Node) (k : ℕ)
    → IsCommandNode k n
    → Describes mf done
    → Outcome (done ++ n ∷ []) (apply_child mf n)
unfolding apply_child
apply_child-Outcome mf done n k c d =
    let (a, has_a, ne) = c.argument in
    let (f, is_f) = field_of_known (get_value n) c.known in
    rw is_f (apply_field-Outcome mf done n a f has_a ne d is_f)

IsRepeated-append : (e : FileError) (xs ys : List Node) → IsRepeated e xs → IsRepeated e (xs ++ ys)
IsRepeated-append e xs ys (o, l, same, twice) =
    (o, l, same, rw (args_of-append (one o) xs ys, length-append) (omega arith))

continue-Outcome :
    {h : HashSet} (pre post : List Node) (r : Result FileError (Modelfile h))
    → Outcome pre r
    → ((mf : Modelfile h) → Describes mf pre → Outcome (pre ++ post) (apply_children mf post))
    → Outcome (pre ++ post) (r >>= λ mf. apply_children mf post)
continue-Outcome pre post (ok mf) d f = f mf d
continue-Outcome pre post (err e) t f = IsRepeated-append e pre post t

apply_children-Outcome :
    {h : HashSet} (mf : Modelfile h) (done ns : List Node) (k : ℕ)
    → All (IsCommandNode k) ns
    → Describes mf done
    → Outcome (done ++ ns) (apply_children mf ns)
unfolding apply_children
apply_children-Outcome mf done [] k c d = rw (append-nil done) d
apply_children-Outcome mf done (n ∷ ns) k (c, cs) d =
    subst (λ xs. Outcome xs (apply_child mf n >>= λ mf'. apply_children mf' ns))
      (append_assoc done (n ∷ []) ns)
      (continue-Outcome (done ++ n ∷ []) ns (apply_child mf n) (apply_child-Outcome mf done n k c d)
        (λ mf' d'. apply_children-Outcome mf' (done ++ n ∷ []) ns k cs d'))

Describes-empty : (h : HashSet) (w : Text) → Describes (empty_modelfile h w) []
unfolding empty_modelfile args_of
Describes-empty h w = record {
  many_args = λ m x. elim m as (λ m. mem x (h.values (get_many (empty_modelfile h w) m)) ≡ false) [
    | Many.config ↦ h.mem-new x
    | Many.model ↦ h.mem-new x
    | Many.code ↦ h.mem-new x
    | Many.dataset ↦ h.mem-new x
    | Many.doc ↦ h.mem-new x
  ];
  one_args = λ o. ground arith;
}

-- From an input that `Parse` accepts, `NewModelfile` either returns a Modelfile, whose sets hold
-- exactly the arguments of their commands and whose single values are the one argument of their
-- command (empty if the command does not occur), or it fails because a single-valued command
-- occurs at least twice. In particular it neither calls a method on a nil argument node nor meets
-- an unknown command.
pub new_modelfile-Outcome :
    (h : HashSet) (input : Text) {root : Node}
    → parse input ≡ ok root
    → Outcome (get_children root) (new_modelfile h (some input))
unfolding new_modelfile
new_modelfile-Outcome h input {root} p = rw p (
    apply_children-Outcome (empty_modelfile h []) [] (get_children root) (length (scan_lines input))
      (parse-IsCommandNode input p) (Describes-empty h []))
