-- ===== src/Local/Samples.antt =====
-- A model artifact of one layer that is tagged for another repository.
use modctl.Prelude.{refl, Option, none, some, [], ◌∷◌, Text, codes, if◌then◌else◌, text_eq}
use modctl.Build.{Bytes}
use modctl.Artifact.{Descriptor, Manifest}
use modctl.Storage.RoundTrip.{same_tag}
use modctl.Storage.Samples.{Disk, memory, memory-Laws}
use modctl.Local.{Reference, tag}
use modctl.Local.Tagging.{IsTagged, tag-IsTagged}

abbrev blob : Text → Descriptor
blob d = record { media_type = codes "m"; digest = d; size = 1; annotations = none; metadata = [] }

abbrev manifest : Bytes → Option Manifest
manifest raw =
    some (record { config = blob (codes "c"); layers = blob (codes "l") ∷ []; annotations = [] })

abbrev stored : Disk
stored = record {
  tags = λ r t. if same_tag (codes "r") (codes "v1") r t then some (codes "m") else none;
  manifests = codes "m" ∷ [];
  blobs = codes "c" ∷ codes "l" ∷ [];
}

abbrev source : Reference
source = record { repository = codes "r"; tag = codes "v1"; digest = [] }

abbrev target : Reference
target = record { repository = codes "q"; tag = codes "v2"; digest = [] }

tag-IsTagged_example :
    IsTagged memory memory-Laws manifest source target stored
      (tag memory manifest (some source) (some target) stored).0
unfolding tag modctl.Storage.pull_manifest text_eq modctl.Storage.mount_blob
    modctl.Storage.push_manifest
tag-IsTagged_example = tag-IsTagged memory memory-Laws manifest source target stored refl
