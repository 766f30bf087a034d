-- ===== src/Fetch/Samples.antt =====
-- A fetch of one of two layers, into the list of the paths that are extracted.
use modctl.Prelude.{
  ◌≡◌, refl, true, false, none, some, List, [], ◌∷◌, Text, codes, text_eq, text_eq_refl, mem, arith,
}
use mathlib.Core.List.{Mem, forall_mem-cons, not-mem-nil}
use mathlib.Core.List.Perm
use modctl.Artifact.{filepath}
use modctl.Transfer.{Descriptor, Manifest, World, Extracted, extracted, up_to_date}
use modctl.Fetch.{PathMatch, fetch, select_layers}
use modctl.Fetch.Selection.{IsSelection, select_layers-IsSelection}
use modctl.Fetch.Outcome.{Files, HasOwnPaths, AllFetched, fetch-AllFetched}

abbrev layer : Text → Descriptor
layer path = record { is_manifest = false; digest = codes "d"; annotations = some (path, []) }

abbrev manifest : Manifest
manifest = record { config = layer []; layers = layer (codes "a") ∷ layer (codes "b") ∷ [] }

abbrev paths : World
paths = record {
  State = List Text;
  Content = Text;
  fetch = λ s d. (s, some d.digest);
  fetch_reference = λ s t. (s, some (layer [], []));
  decode = λ c. some manifest;
  read_all = λ s c. (s, some c);
  stat_blob = λ s d. (s, some false);
  stat_manifest = λ s d. (s, some false);
  push_blob = λ s d c. (s, true);
  push_manifest = λ s t b. (s, true);
  extract_layer = λ s d c. (filepath d.annotations ∷ s, extracted);
  export_model_artifact = λ s m. (s, true);
  before_pull_layer = λ d m. false;
  hash = λ c. c;
  last_status = λ s. none;
  has_blob = λ s d. false;
  has_manifest = λ s d. false;
}

mem_later : (x d : Text) (ds : List Text) → mem d ds ≡ true → mem d (x ∷ ds) ≡ true
mem_later x d ds h = ground arith

mem_first : (d : Text) (ds : List Text) → mem d (d ∷ ds) ≡ true
mem_first d ds = rw (text_eq_refl d) refl

not_current :
    (d : Text) (s : List Text) → ◌≡◌ {A = Extracted} extracted up_to_date → mem d (d ∷ s) ≡ true
not_current d s e = cc e

abbrev files : Files paths
files = record {
  has_file = λ s d. mem (filepath d.annotations) s;
  fetch_keeps = λ s x d h. h;
  extract_keeps =
      λ s x d c apart h. mem_later (filepath d.annotations) (filepath x.annotations) s h;
  extract_fills = λ s d c e v. mem_first (filepath d.annotations) s;
  current_has = λ s d c e. not_current (filepath d.annotations) s e;
}

-- A pattern is a path.
abbrev path_match : PathMatch
path_match pattern path = some (text_eq pattern path)

from_first :
    (y : Descriptor)
    → Mem y manifest.layers
    → filepath (layer (codes "a")).annotations ≡ filepath y.annotations
    → layer (codes "a") ≡ y
unfolding filepath
from_first =
    (forall_mem-cons (λ x. hlevel)).1
      (λ e. refl, (forall_mem-cons (λ x. hlevel)).1 (λ e. cc e, λ x m. absurd (not-mem-nil m)))

from_second :
    (y : Descriptor)
    → Mem y manifest.layers
    → filepath (layer (codes "b")).annotations ≡ filepath y.annotations
    → layer (codes "b") ≡ y
unfolding filepath
from_second =
    (forall_mem-cons (λ x. hlevel)).1
      (λ e. cc e, (forall_mem-cons (λ x. hlevel)).1 (λ e. refl, λ x m. absurd (not-mem-nil m)))

from_any :
    (x : Descriptor)
    → Mem x manifest.layers
    → (y : Descriptor) → Mem y manifest.layers
    → filepath x.annotations ≡ filepath y.annotations
    → x ≡ y
from_any =
    (forall_mem-cons (λ x. hlevel)).1
      (from_first, (forall_mem-cons (λ x. hlevel)).1 (from_second, λ x m. absurd (not-mem-nil m)))

manifest-HasOwnPaths : HasOwnPaths paths files manifest.layers
manifest-HasOwnPaths x y x_in y_in = from_any x x_in y y_in

fetch-AllFetched_example :
    AllFetched paths files manifest path_match
      (codes "b" ∷ [])
      (fetch paths (λ l. l) path_match (codes "b" ∷ []) (codes "v1") []).0
unfolding fetch text_eq filepath modctl.Transfer.pull_and_extract_from_remote
fetch-AllFetched_example =
    fetch-AllFetched paths files manifest (λ l. l) (λ l. Perm.refl l) path_match (codes "b" ∷ [])
      (codes "v1") [] (layer []) [] manifest-HasOwnPaths refl refl refl

select_layers-IsSelection_example :
    IsSelection path_match (codes "b" ∷ []) manifest.layers (layer (codes "b") ∷ [])
unfolding select_layers text_eq filepath
select_layers-IsSelection_example =
    select_layers-IsSelection path_match (codes "b" ∷ []) manifest.layers (layer (codes "b") ∷ [])
      refl
