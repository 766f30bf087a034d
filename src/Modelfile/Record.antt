-- ===== src/Modelfile/Record.antt =====
-- The struct `modelfile` of pkg/modelfile/modelfile.go and its fields by name.
use modctl.Prelude.{
  inr, inl, Option-cases, false, text_eq_sound, true, any, arith, Text, text_eq, if◌then◌else◌,
  Option, none, some, ◌≡◌, refl,
}
use modctl.Modelfile.HashSet.{HashSet}
use modctl.Modelfile.Command

-- The fields that hold a set, and those that hold one value.
pub data Many : Type 0 where
  config model code dataset doc : Many

pub data One : Type 0 where
  name arch family format paramsize precision quantization : One

pub data Field : Type 0 where
  many : Many → Field
  one : One → Field

pub record Modelfile (h : HashSet) : Type 0 where
  pub workspace : Text
  pub config : h.Set
  pub model : h.Set
  pub code : h.Set
  pub dataset : h.Set
  pub doc : h.Set
  pub name : Text
  pub arch : Text
  pub family : Text
  pub format : Text
  pub paramsize : Text
  pub precision : Text
  pub quantization : Text

module _ {h : HashSet} where
  abbrev pub get_many : Modelfile h → Many → h.Set
  get_many mf Many.config = mf.config
  get_many mf Many.model = mf.model
  get_many mf Many.code = mf.code
  get_many mf Many.dataset = mf.dataset
  get_many mf Many.doc = mf.doc

  abbrev pub set_many : Modelfile h → Many → h.Set → Modelfile h
  set_many mf Many.config s = record mf { config = s }
  set_many mf Many.model s = record mf { model = s }
  set_many mf Many.code s = record mf { code = s }
  set_many mf Many.dataset s = record mf { dataset = s }
  set_many mf Many.doc s = record mf { doc = s }

  abbrev pub get_one : Modelfile h → One → Text
  get_one mf One.name = mf.name
  get_one mf One.arch = mf.arch
  get_one mf One.family = mf.family
  get_one mf One.format = mf.format
  get_one mf One.paramsize = mf.paramsize
  get_one mf One.precision = mf.precision
  get_one mf One.quantization = mf.quantization

  abbrev pub set_one : Modelfile h → One → Text → Modelfile h
  set_one mf One.name v = record mf { name = v }
  set_one mf One.arch v = record mf { arch = v }
  set_one mf One.family v = record mf { family = v }
  set_one mf One.format v = record mf { format = v }
  set_one mf One.paramsize v = record mf { paramsize = v }
  set_one mf One.precision v = record mf { precision = v }
  set_one mf One.quantization v = record mf { quantization = v }

-- The labels of the `switch` in `parseFile`, in its order.
unfoldable pub field_of : Text → Option Field
field_of v =
    if text_eq v Command.config
    then some (many Many.config)
    else if text_eq v Command.model
    then some (many Many.model)
    else if text_eq v Command.code
    then some (many Many.code)
    else if text_eq v Command.dataset
    then some (many Many.dataset)
    else if text_eq v Command.doc
    then some (many Many.doc)
    else if text_eq v Command.name
    then some (one One.name)
    else if text_eq v Command.arch
    then some (one One.arch)
    else if text_eq v Command.family
    then some (one One.family)
    else if text_eq v Command.format
    then some (one One.format)
    else if text_eq v Command.paramsize
    then some (one One.paramsize)
    else if text_eq v Command.precision
    then some (one One.precision)
    else if text_eq v Command.quantization
    then some (one One.quantization)
    else none

abbrev pub command_of : Field → Text
command_of (many Many.config) = Command.config
command_of (many Many.model) = Command.model
command_of (many Many.code) = Command.code
command_of (many Many.dataset) = Command.dataset
command_of (many Many.doc) = Command.doc
command_of (one One.name) = Command.name
command_of (one One.arch) = Command.arch
command_of (one One.family) = Command.family
command_of (one One.format) = Command.format
command_of (one One.paramsize) = Command.paramsize
command_of (one One.precision) = Command.precision
command_of (one One.quantization) = Command.quantization

pub field_of-command_of : (f : Field) → field_of (command_of f) ≡ some f
unfolding field_of text_eq
field_of-command_of (many Many.config) = refl
field_of-command_of (many Many.model) = refl
field_of-command_of (many Many.code) = refl
field_of-command_of (many Many.dataset) = refl
field_of-command_of (many Many.doc) = refl
field_of-command_of (one One.name) = refl
field_of-command_of (one One.arch) = refl
field_of-command_of (one One.family) = refl
field_of-command_of (one One.format) = refl
field_of-command_of (one One.paramsize) = refl
field_of-command_of (one One.precision) = refl
field_of-command_of (one One.quantization) = refl

pub field_of_sound : (v : Text) (f : Field) → field_of v ≡ some f → v ≡ command_of f
unfolding field_of
field_of_sound v f h = ground (
  arith,
  text_eq_sound v Command.config,
  text_eq_sound v Command.model,
  text_eq_sound v Command.code,
  text_eq_sound v Command.dataset,
  text_eq_sound v Command.doc,
  text_eq_sound v Command.name,
  text_eq_sound v Command.arch,
  text_eq_sound v Command.family,
  text_eq_sound v Command.format,
  text_eq_sound v Command.paramsize,
  text_eq_sound v Command.precision,
  text_eq_sound v Command.quantization,
)

field_of-none : (v : Text) → field_of v ≡ none → any (text_eq v) Command.commands ≡ false
unfolding field_of
field_of-none v h = ground arith

pub field_of_known :
    (v : Text) → any (text_eq v) Command.commands ≡ true → (f : Field) × (field_of v ≡ some f)
unfolding field_of
field_of_known v h = elim (Option-cases (field_of v)) [ inl e ↦ cc (field_of-none v e) | inr p ↦ p ]
