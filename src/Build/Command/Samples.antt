-- ===== src/Build/Command/Samples.antt =====
-- A build of one file into a place of two lists.
use modctl.Prelude.{
  ℕ, ◌≡◌, refl, Bool, true, false, Option, none, some, List, [], ◌∷◌, ◌++◌, Text, codes, text_eq,
  text_eq_refl, mem, arith, ap, ◌∙◌, sym, subst, ◌||◌, text_eq_sound,
}
use mathlib.Core.List.Perm
use modctl.Artifact.{Descriptor}
use modctl.Modelfile.HashSet.{list_set}
use modctl.Build.Builder.{Builder}
use modctl.Build.Process.{Paths, there}
use modctl.Build.Stored.{Contents, Stores, ManifestComplete}
use modctl.Build.Command.{BuildOptions, Workspace, MediaType, MediaTypes, Run, build}
use modctl.Build.Command.Order.{build_manifest_last}

abbrev pub desc : Text → Text → Descriptor
desc type digest = record {
  media_type = type;
  digest = digest;
  size = 1;
  annotations = some (digest, []);
  metadata = [];
}

-- The blobs and the manifests; each blob is stored under its path.
abbrev pub lists : Builder
lists = record {
  State = List Text × List Text;
  build_layer = λ s type path dest. ((path ∷ s.0, s.1), some (desc type path));
  build_config =
      λ s model. ((codes "config" ∷ s.0, s.1), some (desc (codes "config") (codes "config")));
  build_manifest = λ s layers config annotations.
      ((s.0, codes "manifest" ∷ s.1), some (desc (codes "manifest") (codes "manifest")));
}

abbrev pub contents : Contents lists
contents = record {
  has_blob = λ s d. mem d s.0;
  has_manifest = λ s d. mem d s.1;
  manifest_digest = λ layers config annotations. codes "manifest";
}

mem-cons : (x d : Text) (ds : List Text) → mem d ds ≡ true → mem d (x ∷ ds) ≡ true
mem-cons x d ds h = ground arith

head_mem : (d : Text) (ds : List Text) → mem d (d ∷ ds) ≡ true
head_mem d ds = rw (text_eq_refl d) refl

added : (d x : Text) (ds : List Text) → mem d ds ≡ false → mem d (x ∷ ds) ≡ true → d ≡ x
added d x ds old new = text_eq_sound d x (ground arith)

pub lists-Stores : Stores contents
lists-Stores = record {
  layer_keeps =
      λ s type path dest. record { blobs = λ d h. mem-cons path d s.0 h; manifests = λ d. refl };
  layer_stores = λ s type path dest d e.
      subst (λ x. mem x (path ∷ s.0) ≡ true) (digest_of type path d e) (head_mem path s.0);
  config_keeps =
      λ s m. record { blobs = λ d h. mem-cons (codes "config") d s.0 h; manifests = λ d. refl };
  config_stores = λ s m d e.
      subst (λ x. mem x (codes "config" ∷ s.0) ≡ true)
        (digest_of (codes "config") (codes "config") d e) (head_mem (codes "config") s.0);
  manifest_keeps = λ s ls config a d h. h;
  manifest_adds = λ s ls config a d old new. added d (codes "manifest") s.1 old new;
}
  where
    digest_of :
        (type digest : Text) (d : Descriptor)
        → ◌≡◌ {A = Option Descriptor} (some (desc type digest)) (some d)
        → digest ≡ d.digest
    digest_of type digest d e =
        ap (λ (o : Option Descriptor). elim o [ none ↦ digest | some x ↦ x.digest ]) e

abbrev pub paths : Paths
paths = record {
  abs_work_dir = some (codes "/m");
  join = λ a b. a ++ codes "/" ++ b;
  base = λ p. p;
  stat = λ p. there;
  glob = λ p. none;
}

abbrev pub once : Run lists
once = record {
  paths = paths;
  again = λ s o. false;
  attempts = 0;
  schedule = λ l. l;
  sort = λ l. l;
}

abbrev pub type : Text → MediaType
type t = record { packed = t ++ codes ".tar"; unpacked = t ++ codes ".raw" }

abbrev pub types : MediaTypes
types = record {
  weight_config = type (codes "config");
  weight = type (codes "weight");
  code = type (codes "code");
  doc = type (codes "doc");
}

abbrev options : BuildOptions
options = record {
  source_url = [];
  source_revision = [];
  raw = false;
  reasoning = false;
  no_creation_time = true;
}

abbrev bare : Workspace
bare = record { has_git = false; has_zeta = false; parse = λ p. none }

abbrev after : List Text × List Text
after =
    (build lists once 0 (codes "now") types options bare list_set
      (some (codes "NAME llama\nMODEL w\n")) (some (codes "repo", codes "latest")) ([], [])).0

stored : contents.has_manifest after (codes "manifest") ≡ true
unfolding build modctl.Modelfile.Parser.parse modctl.Modelfile.Lexical.scan_lines
    modctl.Prelude.byte_length modctl.Modelfile.Parser.parse_line
    modctl.Modelfile.Lexical.trim_space modctl.Modelfile.Lexical.is_space modctl.Prelude.has_prefix
    modctl.Modelfile.Lexical.to_upper modctl.Modelfile.Parser.parse_command_line
    modctl.Modelfile.Parser.split_command modctl.Modelfile.Parser.cut_space
    modctl.Modelfile.Args.parse_args text_eq modctl.Modelfile.Parser.parse_string_args
    modctl.Modelfile.Ast.get_children modctl.Modelfile.Ast.add_child
    modctl.Modelfile.Ast.new_root_node modctl.Modelfile.Record.field_of
    modctl.Modelfile.Ast.get_value modctl.Modelfile.Ast.add_next modctl.Modelfile.Ast.new_node
    modctl.Modelfile.File.argument modctl.Modelfile.Ast.get_next
stored = refl

build_manifest_last_example : ManifestComplete contents (codes "manifest") after
build_manifest_last_example =
    build_manifest_last lists contents lists-Stores once (λ l. Perm.refl l) (codes "manifest") 0
      (codes "now") types options bare list_set (some (codes "NAME llama\nMODEL w\n"))
      (some (codes "repo", codes "latest")) ([], []) refl stored
