-- ===== src/Modelfile/File.antt =====
-- `NewModelfile` and `parseFile` of pkg/modelfile/modelfile.go.
pub mod Fields
pub mod Describes
use modctl.Prelude.{
  is_empty, ℕ, Text, text_eq, List, [], ◌∷◌, Bool, true, false, if◌then◌else◌, Option, none, some,
  Result, ok, err, ◌>>=◌,
}
use modctl.Modelfile.Ast.{Node, get_value, get_next, get_children, get_start_line}
use modctl.Modelfile.HashSet.{HashSet}
use modctl.Modelfile.Parser.{ParseError, parse}
use modctl.Modelfile.Record.{
  Field, many, one, One, Modelfile, get_many, set_many, get_one, set_one, field_of,
}

-- `nil_argument` is the panic of a method call on a nil next node.
pub data FileError : Type 0 where
  open_error nil_argument : FileError
  parse_error : ParseError → FileError
  duplicate : One → ℕ → FileError
  unknown_command : Text → ℕ → FileError

unfoldable pub argument : Node → Result FileError Text
argument child = elim (get_next child) [ none ↦ err nil_argument | some n ↦ ok (get_value n) ]

module _ {h : HashSet} where
  -- The bodies of the `switch`: one for the sets, one for the single values, and the default.
  unfoldable pub apply_field : Option Field → Modelfile h → Node → Result FileError (Modelfile h)
  apply_field none mf child = err (unknown_command (get_value child) (get_start_line child))
  apply_field (some (many m)) mf child = do
    v ← argument child
    ok (set_many mf m (h.add (get_many mf m) v))
  apply_field (some (one o)) mf child =
      if is_empty (get_one mf o)
      then (do v ← argument child; ok (set_one mf o v))
      else err (duplicate o (get_start_line child))

  unfoldable pub apply_child : Modelfile h → Node → Result FileError (Modelfile h)
  unfolding apply_field
  apply_child mf child = apply_field (field_of (get_value child)) mf child

  unfoldable pub apply_children : Modelfile h → List Node → Result FileError (Modelfile h)
  unfolding apply_child
  apply_children mf [] = ok mf
  apply_children mf (child ∷ rest) = do mf' ← apply_child mf child; apply_children mf' rest

  parsed : Modelfile h → Result ParseError Node → Result FileError (Modelfile h)
  parsed mf (ok root) = apply_children mf (get_children root)
  parsed mf (err e) = err (parse_error e)

  -- The file is `none` if it cannot be opened.
  unfoldable pub parse_file : Modelfile h → Option Text → Result FileError (Modelfile h)
  unfolding parsed apply_children
  parse_file mf none = err open_error
  parse_file mf (some content) = parsed mf (parse content)

-- The struct literal of the constructors: new sets, and the zero value of the other fields.
unfoldable pub empty_modelfile : (h : HashSet) → Text → Modelfile h
empty_modelfile h workspace = record {
  workspace = workspace;
  config = h.new;
  model = h.new;
  code = h.new;
  dataset = h.new;
  doc = h.new;
  name = [];
  arch = [];
  family = [];
  format = [];
  paramsize = [];
  precision = [];
  quantization = [];
}

unfoldable pub new_modelfile : (h : HashSet) → Option Text → Result FileError (Modelfile h)
unfolding parse_file empty_modelfile
new_modelfile h file = parse_file (empty_modelfile h []) file
