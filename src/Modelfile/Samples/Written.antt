-- ===== src/Modelfile/Samples/Written.antt =====
-- Samples of the Modelfile that `Content` writes: pkg/modelfile/modelfile.go.
use modctl.Prelude.{
  ◌≡◌, refl, ◌≢◌, some, [], ◌∷◌, ◌++◌, arith, All, Text, codes, rune_bytes, byte_length, ok, err,
}
use modctl.Modelfile.Content.{content, quote_if_needed, has_blank}
use modctl.Modelfile.Content.Blocks.{IsComment, Fits, IsPrinted}
use modctl.Modelfile.Content.RoundTrip.{IsWritable, SameFields, new_modelfile-content}
use modctl.Modelfile.Content.SpacedName.{IsTwoWords, new_modelfile-content-spaced}
use modctl.Modelfile.Content.Values.{is_plain, IsPlain}
use modctl.Modelfile.File.{parse_error, new_modelfile}
use modctl.Modelfile.HashSet.{list_set}
use modctl.Modelfile.Lexical.{is_space}
use modctl.Modelfile.Parser.{command_line_error, invalid_args}
use modctl.Modelfile.Record.{Many, One, many, one, Modelfile, get_one, get_many}

abbrev named : Text → Modelfile list_set
named name = record {
  workspace = [];
  config = codes "config.json" ∷ [];
  model = codes "my model.safetensors" ∷ codes "a.bin" ∷ [];
  code = codes "run.py" ∷ [];
  dataset = [];
  doc = [];
  name = name;
  arch = codes "transformer";
  family = codes "llama";
  format = [];
  paramsize = codes "8b";
  precision = [];
  quantization = [];
}

abbrev today : Text
today = codes "2025-01-01"

today-IsComment : IsComment (codes "Generated at " ++ today)
unfolding byte_length rune_bytes
today-IsComment = (refl, omega arith)

plain_file-IsWritable : IsWritable today (named (codes "llama"))
unfolding is_plain is_space byte_length rune_bytes quote_if_needed has_blank
plain_file-IsWritable = record { stamp = today-IsComment; ones = ones; manys = manys }
  where
    ones :
        (o : One)
        → IsPlain (get_one (named (codes "llama")) o)
          × Fits (one o) (get_one (named (codes "llama")) o)
    ones One.name = (refl, omega arith)
    ones One.arch = (refl, omega arith)
    ones One.family = (refl, omega arith)
    ones One.format = (refl, omega arith)
    ones One.paramsize = (refl, omega arith)
    ones One.precision = (refl, omega arith)
    ones One.quantization = (refl, omega arith)

    manys :
        (m : Many)
        → m ≢ Many.dataset
        → All (IsPrinted (many m)) (get_many (named (codes "llama")) m)
    manys Many.config ne = (
      (
        record { ne_nil = λ e. cc e; no_backslash = refl; one_line = refl; plain = λ e. refl },
        omega arith,
      ),
      tt,
    )
    manys Many.model ne = (
      (
        record { ne_nil = λ e. cc e; no_backslash = refl; one_line = refl; plain = λ e. cc e },
        omega arith,
      ),
      (
        (
          record { ne_nil = λ e. cc e; no_backslash = refl; one_line = refl; plain = λ e. refl },
          omega arith,
        ),
        tt,
      ),
    )
    manys Many.code ne = (
      (
        record { ne_nil = λ e. cc e; no_backslash = refl; one_line = refl; plain = λ e. refl },
        omega arith,
      ),
      tt,
    )
    manys Many.dataset ne = tt
    manys Many.doc ne = tt

new_modelfile-content_example :
    (mf' : Modelfile list_set) × (new_modelfile list_set
        (some (content today (named (codes "llama"))))
      ≡ ok mf')
    × SameFields mf' (named (codes "llama"))
new_modelfile-content_example =
    new_modelfile-content list_set today (named (codes "llama")) plain_file-IsWritable

two_words : IsTwoWords (codes "my") (codes "llama")
unfolding is_plain is_space
two_words = (λ e. cc e, refl, λ e. cc e, refl)

two_words-Fits : Fits (one One.name) (codes "my" ++ b' ' ∷ codes "llama")
unfolding byte_length rune_bytes
two_words-Fits = omega arith

new_modelfile-content-spaced_example :
    new_modelfile list_set (some (content today (named (codes "my" ++ b' ' ∷ codes "llama"))))
    ≡ err (parse_error (command_line_error 3 invalid_args))
new_modelfile-content-spaced_example =
    new_modelfile-content-spaced list_set today (named (codes "my" ++ b' ' ∷ codes "llama"))
      (codes "my") (codes "llama") two_words today-IsComment two_words-Fits refl
