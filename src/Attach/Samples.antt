-- ===== src/Attach/Samples.antt =====
-- Attachments at concrete layers.
use modctl.Prelude.{any, ◌≡◌, refl, true, false, some, List, [], ◌∷◌, Text, codes, text_eq, ok}
use modctl.Artifact.{Descriptor}
use modctl.Attach.{MediaTypes, is_at, sort_layers, attach_layers, Key}
use modctl.Attach.Replacing.{attach_layers-cases, attach_layers_drops_other, AttachOutcome}
use modctl.Attach.Sorting.{AllInOrder, of_key, sort_layers-stable}

abbrev types : MediaTypes
types = record {
  weight_config = codes "config";
  weight = codes "weight";
  code = codes "code";
  doc = codes "doc";
}

abbrev doc_layer : Text → Descriptor
doc_layer path = record {
  media_type = codes "doc";
  digest = codes "sha256:00";
  size = 2;
  metadata = [];
  annotations = some (path, []);
}

abbrev two_docs : List Descriptor
two_docs = doc_layer (codes "a.md") ∷ doc_layer (codes "b.md") ∷ []

sort_layers-stable_example :
    AllInOrder types (sort_layers types two_docs)
    × ((k : Key) → of_key types k (sort_layers types two_docs) ≡ of_key types k two_docs)
sort_layers-stable_example = sort_layers-stable types two_docs

attach_layers-cases_example : AttachOutcome types (codes "a.md") false two_docs []
attach_layers-cases_example = attach_layers-cases types (codes "a.md") false two_docs []

at : is_at (codes "b.md") (doc_layer (codes "b.md")) ≡ true
unfolding is_at text_eq
at = refl

none_before : any (is_at (codes "b.md")) (doc_layer (codes "a.md") ∷ []) ≡ false
unfolding is_at text_eq
none_before = refl

attach_layers_drops_other_example :
    attach_layers types true (codes "b.md") two_docs (doc_layer (codes "b.md") ∷ [])
    ≡ ok (sort_layers types (doc_layer (codes "b.md") ∷ doc_layer (codes "b.md") ∷ []))
attach_layers_drops_other_example =
    attach_layers_drops_other types (codes "b.md") [] (doc_layer (codes "a.md")) []
      (doc_layer (codes "b.md")) [] (doc_layer (codes "b.md") ∷ []) none_before at refl refl refl
