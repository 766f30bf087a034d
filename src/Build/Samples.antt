-- ===== src/Build/Samples.antt =====
-- A file that is written, built, and built again from the cache.
use modctl.Prelude.{
  has_suffix, false, List, ok, ℕ, ◌≡◌, refl, true, none, some, [], ◌∷◌, arith, Text, codes, text_eq,
  if◌then◌else◌,
}
use modctl.Cache.{no_file}
use modctl.Cache.Samples.{live, listing, listing-IsRange}
use modctl.Build.{opened, regular, FileInfo, Bytes, pipe_reader}
use modctl.Artifact.{Descriptor}
use modctl.Build.Output.{Remote, remote_output, dest_or}
use modctl.Build.Output.Faithful.{remote_output-IsFaithful}
use modctl.Build.Builder.{Source, Formats, prepared, build_layer}
use modctl.Build.Described.{IsLayerOf, build_layer-IsLayerOf}
use modctl.Build.Digest.{Calls, untouched}
use modctl.Build.Fresh.{Disk, Job, digested, Reach, start, later, write, build}
use modctl.Build.Digested.{IsDigestOf, digested-IsDigestOf}

-- A content is its own hash.
abbrev itself : Bytes → Text
itself b = b

abbrev weights : Bytes
weights = 1 ∷ 2 ∷ 3 ∷ []

abbrev calls : Calls
calls = record {
  hash = itself;
  raw_weight = codes "w.raw";
  has_cache = true;
  same_zone = true;
  on_get = live;
  get_time = 20;
  on_put = live;
  put_time = 20;
  created_at = 20;
  range = listing;
  torn = untouched;
  copied = true;
  sought = true;
  encoded_again = some (pipe_reader weights);
}

abbrev of_size : ℕ → FileInfo
of_size n = record {
  name = codes "w";
  perm = 420;
  size = n;
  mod_time = 7;
  kind = regular;
  owner = none;
}

abbrev written : Disk
written = record {
  clock = 7;
  files = λ p. if text_eq p (codes "/w") then some (7, weights) else none;
  cache = no_file;
}

of_weights :
    text_eq (codes "w.raw") (codes "w.raw") ≡ true → written.files (codes "/w") ≡ some (7, weights)
unfolding text_eq
of_weights h = refl

abbrev first : Job itself written
first = record {
  calls = calls;
  media_type = codes "w.raw";
  path = codes "/w";
  info = of_size 3;
  seekable = true;
  content = weights;
  hashes = refl;
  ranges = listing-IsRange;
  of_file = of_weights;
}

abbrev built : Disk
built = record { clock = 7; files = written.files; cache = (digested itself written first).0 }

abbrev second : Job itself built
second = record {
  calls = calls;
  media_type = codes "w.raw";
  path = codes "/w";
  info = of_size 3;
  seekable = true;
  content = weights;
  hashes = refl;
  ranges = listing-IsRange;
  of_file = of_weights;
}

built-Reach : Reach itself built
built-Reach = later (later start (write (codes "/w") 7 weights (omega arith))) (build first)

digested-IsDigestOf_example : IsDigestOf itself weights (digested itself built second).1
digested-IsDigestOf_example =
    digested-IsDigestOf itself built built-Reach second
      (record { copied = refl; sought = refl; again = refl })

-- A registry that has no blob and takes each.
abbrev registry : Remote
registry = record {
  State = List Text;
  blob_exists = λ s d. (s, some false);
  push_blob = λ s d content. (d.digest ∷ s, true);
  manifest_exists = λ s d. (s, some true);
  push_manifest = λ s d content. (s, true);
  tag = λ s d t. (t ∷ s, true);
}

abbrev on_disk : List Text → Text → Source
on_disk s path = record {
  stat = ok (of_size 3);
  work_dir = true;
  rel_path = ok (codes "w");
  encoded = λ codec. ok (true, weights);
  stat_again = ok (of_size 3);
  calls = calls;
}

abbrev formats : Formats
formats = record {
  marshal_metadata = λ m. ok m.name;
  marshal_model = λ m. some [];
  marshal_manifest = λ m. some [];
  model_config = codes "config";
  image_manifest = codes "manifest";
  hash = itself;
}

abbrev weights_layer : Descriptor
weights_layer = record {
  media_type = codes "w.raw";
  digest = weights;
  size = 3;
  annotations = some (codes "w", []);
  metadata = codes "w";
}

second_prepared :
    prepared (on_disk [] (codes "/w")) (codes "w.raw")
    ≡ ok (of_size 3, codes "w", opened true weights)
unfolding prepared text_eq has_suffix
second_prepared = refl

second_built :
    (build_layer formats
      (remote_output registry [])
      on_disk
      ([], built.cache)
      (codes "w.raw")
      (codes "/w")
      []).1
    ≡ some weights_layer
unfolding build_layer text_eq has_suffix modctl.Build.Digest.compute_digest_and_size
    modctl.Cache.get modctl.Cache.put modctl.Build.Output.remote_output_layer
second_built = refl

build_layer-IsLayerOf_example :
    IsLayerOf itself (codes "w.raw") (dest_or [] (codes "w")) weights weights_layer
build_layer-IsLayerOf_example =
    build_layer-IsLayerOf formats itself (remote_output registry []) on_disk built second []
      (codes "w") [] weights_layer (remote_output-IsFaithful itself registry []) built-Reach
      (record { copied = refl; sought = refl; again = refl }) refl second_prepared second_built
