-- ===== src/Transfer/Samples.antt =====
-- A pull of two layers in a world of lists.
use modctl.Retry.{retry}
use modctl.Prelude.{
  none, ◌≡◌, refl, true, false, some, List, [], ◌∷◌, arith, Text, codes, text_eq, text_eq_refl,
  text_eq_iff, mem,
}
use modctl.Transfer.{again, Descriptor, Manifest, World, extracted, PullConfig, pull}
use modctl.Transfer.Complete.{pull-manifest_last, pull_complete}
use modctl.Transfer.Order.{IsModel, AllThere}
use modctl.Transfer.Pulled.{Laws, Kept-refl}

abbrev blob : Text → Descriptor
blob d = record { is_manifest = false; digest = d; annotations = none }

abbrev manifest_desc : Descriptor
manifest_desc = record { is_manifest = true; digest = codes "m"; annotations = none }

abbrev manifest : Manifest
manifest = record { config = blob (codes "c"); layers = blob (codes "a") ∷ blob (codes "b") ∷ [] }

-- A content is its own digest; the state is the digests of the blobs and of the manifests.
abbrev lists : World
lists = record {
  State = List Text × List Text;
  Content = Text;
  fetch = λ s d. (s, some d.digest);
  fetch_reference = λ s t. (s, some (manifest_desc, codes "m"));
  decode = λ c. some manifest;
  read_all = λ s c. (s, some c);
  stat_blob = λ s d. (s, some (mem d s.0));
  stat_manifest = λ s d. (s, some (mem d s.1));
  push_blob = λ s d c. ((d.digest ∷ s.0, s.1), true);
  push_manifest = λ s t b. ((s.0, b ∷ s.1), true);
  extract_layer = λ s d c. (s, extracted);
  export_model_artifact = λ s m. (s, true);
  before_pull_layer = λ d m. false;
  hash = λ c. c;
  last_status = λ s. none;
  has_blob = λ s d. mem d s.0;
  has_manifest = λ s d. mem d s.1;
}

mem-cons : (x d : Text) (ds : List Text) → mem d ds ≡ true → mem d (x ∷ ds) ≡ true
mem-cons x d ds h = ground arith

mem_head : (d : Text) (ds : List Text) → mem d (d ∷ ds) ≡ true
mem_head d ds = rw (text_eq_refl d) refl

lists-Laws : Laws lists
lists-Laws = record {
  fetch_keeps = λ s d. Kept-refl lists s;
  reference_keeps = λ s t. Kept-refl lists s;
  read_keeps = λ s c. Kept-refl lists s;
  stat_blob_keeps = λ s d. Kept-refl lists s;
  stat_manifest_keeps = λ s d. Kept-refl lists s;
  push_blob_keeps =
      λ s d c. record { blobs = λ x h. mem-cons d.digest x s.0 h; manifests = λ x. refl };
  push_manifest_keeps = λ s t b d h. h;
  export_keeps = λ s m. Kept-refl lists s;
  stat_blob_true = λ s d h. cc h;
  push_blob_true = λ s d c h. mem_head d.digest s.0;
  stat_manifest_true = λ s d h. cc h;
  push_manifest_true = λ s c t b h k. rw ((text_eq_iff c b).1 (cc h)) refl;
}

abbrev plain : PullConfig
plain = record { extract_dir = []; extract_from_remote = false }

manifest-IsModel : IsModel lists manifest
manifest-IsModel = record { config_blob = refl; layer_blobs = refl }

pull-ok : (pull lists 5 plain (codes "latest") ([], [])).1 ≡ true
unfolding pull text_eq retry again
pull-ok = refl

pull-stores : lists.has_manifest (pull lists 5 plain (codes "latest") ([], [])).0 (codes "m") ≡ true
unfolding pull text_eq retry again
pull-stores = refl

pull-manifest_last_example :
    AllThere lists manifest (pull lists 5 plain (codes "latest") ([], [])).0
pull-manifest_last_example =
    pull-manifest_last lists lists-Laws 5 plain (codes "latest") ([], []) ([], []) manifest_desc
      (codes "m") manifest refl (codes "m") manifest-IsModel refl refl refl pull-stores

pull_complete_example :
    AllThere lists manifest (pull lists 5 plain (codes "latest") ([], [])).0
    × (lists.has_manifest (pull lists 5 plain (codes "latest") ([], [])).0 (codes "m") ≡ true)
pull_complete_example =
    pull_complete lists lists-Laws 5 plain (codes "latest") ([], []) ([], []) manifest_desc
      (codes "m") manifest refl manifest-IsModel refl refl refl pull-ok
