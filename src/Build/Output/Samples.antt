-- ===== src/Build/Output/Samples.antt =====
-- A registry that takes a manifest under a first tag, and then under a second one.
use modctl.Prelude.{
  ◌≡◌, refl, Bool, true, false, Option, none, some, List, [], ◌∷◌, Text, codes, mem, text_eq,
  text_eq_refl, if◌then◌else◌,
}
use modctl.Build.Output.{Remote, blob_desc, remote_output_manifest}
use modctl.Build.Output.Untagged.{Registry, Untagged, remote_output_manifest-Untagged}

-- The digests of the manifests, and the tags.
abbrev registry : Remote
registry = record {
  State = List Text × (Text → Option Text);
  blob_exists = λ s d. (s, some true);
  push_blob = λ s d content. (s, true);
  manifest_exists = λ s d. (s, some (mem d.digest s.0));
  push_manifest = λ s d content. ((d.digest ∷ s.0, s.1), true);
  tag = λ s d t. ((s.0, λ x. if text_eq t x then some d.digest else s.1 x), true);
}

of_some : (b c : Bool) → ◌≡◌ {A = Option Bool} (some b) (some c) → b ≡ c
of_some b c e = cc e

mem_first : (d : Text) (ds : List Text) → mem d (d ∷ ds) ≡ true
mem_first d ds = rw (text_eq_refl d) refl

abbrev manifests : Registry registry
manifests = record {
  has = λ s d. mem d s.0;
  tags = λ s. s.1;
  exists_true = λ s d h. of_some (mem d.digest s.0) true h;
  exists_false = λ s d h. of_some (mem d.digest s.0) false h;
  exists_keeps = λ s d. refl;
  push_stores = λ s d c h. mem_first d.digest s.0;
  tag_keeps = λ s d t e h. h;
}

abbrev empty : List Text × (Text → Option Text)
empty = ([], λ t. none)

remote_output_manifest-Untagged_example :
    let t = (remote_output_manifest registry (codes "v1") empty (codes "m") (codes "d") 1 []).0 in
    Untagged registry manifests
      (blob_desc (codes "m") (codes "d") 1)
      []
      t
      (remote_output_manifest registry (codes "v2") t (codes "m") (codes "d") 1 [])
unfolding remote_output_manifest
remote_output_manifest-Untagged_example =
    remote_output_manifest-Untagged registry manifests (codes "v1") (codes "v2") (codes "m")
      (codes "d") 1 [] empty (λ e. cc e)
