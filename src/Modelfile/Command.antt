-- ===== src/Modelfile/Command.antt =====
-- pkg/modelfile/command/command.go: the commands of a Modelfile.
use modctl.Prelude.{Text, codes, List, [], ◌∷◌}

abbrev pub config : Text
config = codes "CONFIG"

abbrev pub model : Text
model = codes "MODEL"

abbrev pub code : Text
code = codes "CODE"

abbrev pub dataset : Text
dataset = codes "DATASET"

abbrev pub doc : Text
doc = codes "DOC"

abbrev pub name : Text
name = codes "NAME"

abbrev pub arch : Text
arch = codes "ARCH"

abbrev pub family : Text
family = codes "FAMILY"

abbrev pub format : Text
format = codes "FORMAT"

abbrev pub paramsize : Text
paramsize = codes "PARAMSIZE"

abbrev pub precision : Text
precision = codes "PRECISION"

abbrev pub quantization : Text
quantization = codes "QUANTIZATION"

-- `Commands`, in the source's order.
abbrev pub commands : List Text
commands =
    config ∷ model ∷ code ∷ dataset ∷ doc ∷ name ∷ arch ∷ family ∷ format ∷ paramsize ∷ precision
    ∷ quantization ∷ []
