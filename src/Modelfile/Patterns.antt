-- ===== src/Modelfile/Patterns.antt =====
-- The pattern tables of pkg/modelfile/constants.go, shut: a proof that needs an entry unfolds its
-- table.
mod Code
mod Doc
unfoldable pub use Code.{code_file_patterns}
unfoldable pub use Doc.{doc_file_patterns}
use modctl.Prelude.{Text, codes, List, [], ◌∷◌}

unfoldable pub config_file_patterns : List Text
config_file_patterns =
    codes "*.json"
    ∷ codes "*.jsonl"
    ∷ codes "*.json5"
    ∷ codes "*.jsonc"
    ∷ codes "*.yaml"
    ∷ codes "*.yml"
    ∷ codes "*.toml"
    ∷ codes "*.ini"
    ∷ codes "*.config"
    ∷ codes "*.cfg"
    ∷ codes "*.conf"
    ∷ codes "*.properties"
    ∷ codes "*.props"
    ∷ codes "*.prop"
    ∷ codes "*.xml"
    ∷ codes "*.xsd"
    ∷ codes "*.rng"
    ∷ codes "*.modelcard"
    ∷ codes "*.meta"
    ∷ codes "*tokenizer.model*"
    ∷ codes "*.tiktoken"
    ∷ codes "vocab.txt"
    ∷ codes "merges.txt"
    ∷ codes "added_tokens.txt"
    ∷ codes "spiece.model"
    ∷ codes "sentencepiece*.model"
    ∷ codes "sentencepiece*.vocab"
    ∷ codes "tiktoken.model"
    ∷ codes "chat_template.jinja"
    ∷ codes "config.json.*"
    ∷ codes "*.hparams"
    ∷ codes "*.params"
    ∷ codes "*.hyperparams"
    ∷ codes "*.wandb"
    ∷ codes "*.mlflow"
    ∷ codes "*.tensorboard"
    ∷ []

unfoldable pub model_file_patterns : List Text
model_file_patterns =
    codes "*.safetensors"
    ∷ codes "*.bin"
    ∷ codes "*.bin.*"
    ∷ codes "*.pt"
    ∷ codes "*.pth"
    ∷ codes "*.mar"
    ∷ codes "*.pte"
    ∷ codes "*.pt2"
    ∷ codes "*.ptl"
    ∷ codes "*.tflite"
    ∷ codes "*.h5"
    ∷ codes "*.hdf"
    ∷ codes "*.hdf5"
    ∷ codes "*.pb"
    ∷ codes "*.meta"
    ∷ codes "*.data-*"
    ∷ codes "*.index"
    ∷ codes "*.gguf"
    ∷ codes "*.gguf.*"
    ∷ codes "*.ggml"
    ∷ codes "*.ggmf"
    ∷ codes "*.ggjt"
    ∷ codes "*.q4_0"
    ∷ codes "*.q4_1"
    ∷ codes "*.q5_0"
    ∷ codes "*.q5_1"
    ∷ codes "*.q8_0"
    ∷ codes "*.f16"
    ∷ codes "*.f32"
    ∷ codes "*.ckpt"
    ∷ codes "*.checkpoint"
    ∷ codes "*.dist_ckpt"
    ∷ codes "tensor[0-9]*_[0-9]*"
    ∷ codes "*.tensor"
    ∷ codes "*.weights"
    ∷ codes "*.state"
    ∷ codes "*.embedding"
    ∷ codes "*.vocab"
    ∷ codes "*.ot"
    ∷ codes "*.engine"
    ∷ codes "*.trt"
    ∷ codes "*.onnx"
    ∷ codes "*.onnx_data*"
    ∷ codes "*.msgpack"
    ∷ codes "*.model"
    ∷ codes "*.pkl"
    ∷ codes "*.pickle"
    ∷ codes "*.keras"
    ∷ codes "*.joblib"
    ∷ codes "*.npy"
    ∷ codes "*.npz"
    ∷ codes "*.nc"
    ∷ codes "*.mlmodel"
    ∷ codes "*.coreml"
    ∷ codes "*.mil"
    ∷ codes "*.mleap"
    ∷ codes "*.surml"
    ∷ codes "*.llamafile"
    ∷ codes "*.llamafile.*"
    ∷ codes "*.caffemodel"
    ∷ codes "*.prototxt"
    ∷ codes "*.dlc"
    ∷ codes "*.circle"
    ∷ codes "*.nb"
    ∷ codes "*.arrow"
    ∷ codes "*.parquet"
    ∷ codes "*.ftz"
    ∷ codes "*.ark"
    ∷ codes "*.db"
    ∷ []

unfoldable pub skip_patterns : List Text
skip_patterns =
    codes ".*"
    ∷ codes "modelfile"
    ∷ codes "__pycache__"
    ∷ codes "*.pyc"
    ∷ codes "*.pyo"
    ∷ codes "*.pyd"
    ∷ []
