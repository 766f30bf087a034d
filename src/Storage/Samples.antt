-- ===== src/Storage/Samples.antt =====
-- A library of tags, manifests and blobs in memory, whose contents are their own digests.
use modctl.Prelude.{
  subst, ◌≡◌, refl, Bool, true, false, Option, none, some, List, [], ◌∷◌, Text, codes, mem,
  text_eq_refl, arith, length, if◌then◌else◌,
}
use modctl.Build.{Bytes}
use modctl.Artifact.{Descriptor}
use modctl.Build.Output.{Remote, local_output_layer, remote_output_layer}
use modctl.Storage.{
  Library, MountResult, mounted, mount_failed, BlobStat, known, blob_unknown, pull_manifest,
  push_manifest, storage_of,
}
use modctl.Storage.RoundTrip.{same_tag, Extends, Extends-refl, Laws, PushedTo, pull-push_manifest}
use modctl.Storage.Hashing.{CommitLaws, stored_layer_agree}

pub record Disk : Type 0 where
  pub tags : Text → Text → Option Text
  pub manifests : List Text
  pub blobs : List Text

abbrev pub empty_disk : Disk
empty_disk = record { tags = λ r t. none; manifests = []; blobs = [] }

abbrev mount : Disk → Text → Text → Bool → Disk × MountResult
mount s from_repo digest true = (s, mounted from_repo digest)
mount s from_repo digest false = (s, mount_failed)

abbrev pub memory : Library
memory = record {
  State = Disk;
  parse_named = λ r. true;
  open_repository = λ r. true;
  open_manifests = λ r. true;
  tag_get = λ s r t. s.tags r t;
  tag_set = λ s r t d. (
    record {
      tags = λ r' t'. if same_tag r t r' t' then some d else s.tags r' t';
      manifests = s.manifests;
      blobs = s.blobs;
    },
    true,
  );
  tag_remove = λ s r t. (s, false);
  tags_all = λ s r. some [];
  manifest_get = λ s r d. if mem d s.manifests then some d else none;
  manifest_put =
      λ s r m. (record { tags = s.tags; manifests = m ∷ s.manifests; blobs = s.blobs }, some m);
  manifest_delete = λ s r d. (s, false);
  manifest_exists = λ s r d. some (mem d s.manifests);
  blob_open = λ s r d. if mem d s.blobs then some d else none;
  blob_create = λ s r. (s, true);
  blob_read_from = λ s r c. (s, some (length c));
  blob_commit = λ s r d n.
      (record { tags = s.tags; manifests = s.manifests; blobs = d ∷ s.blobs }, some (d, n));
  blob_mount = λ s f r d. mount s f d (mem d s.blobs);
  blob_stat = λ s r d. if mem d s.blobs then known else blob_unknown;
  enumerate = λ s. some [];
  unmarshal_manifest = λ m. some m;
  is_digest = λ d. true;
  hash = λ c. c;
}

later_found :
    (b : Bool) (x m : Bytes)
    → ◌≡◌ {A = Option Bytes} (if b then some x else none) (some m)
    → ◌≡◌ {A = Option Bytes} (if true then some x else none) (some m)
later_found true x m h = h
later_found false x m h = cc h

member_later :
    (x d m : Text) (ds : List Text)
    → ◌≡◌ {A = Option Bytes} (if mem d ds then some d else none) (some m)
    → ◌≡◌ {A = Option Bytes} (if mem d (x ∷ ds) then some d else none) (some m)
member_later x d m ds h = ground (arith, h)

put_found :
    (m d : Text) (ds : List Text)
    → ◌≡◌ {A = Option Text} (some m) (some d)
    → ◌≡◌ {A = Option Text} (some m) (some d)
      × (◌≡◌ {A = Option Bytes} (if mem d (m ∷ ds) then some d else none) (some m))
put_found m d ds h =
    let same : m ≡ d = cc h in
    (
      h,
      subst (λ x. ◌≡◌ {A = Option Bytes} (if mem x (m ∷ ds) then some x else none) (some m)) same
          (rw (text_eq_refl m) refl),
    )

mount_state : (s : Disk) (f d : Text) (b : Bool) → Extends memory s (mount s f d b).0
mount_state s f d true = Extends-refl memory s
mount_state s f d false = Extends-refl memory s

mount_known :
    (s : Disk) (f r d name d' : Text) (b : Bool)
    → mem d s.blobs ≡ b
    → (mount s f d b).1 ≡ mounted name d'
    → memory.blob_stat (mount s f d b).0 r d' ≡ known
mount_known s f r d name d' true e h = ground (arith, e, h)
mount_known s f r d name d' false e h = cc h

pub memory-Laws : Laws memory
memory-Laws = record {
  put_extends = λ s r m. record {
    tags = λ r t. refl;
    manifests = λ r d c h. member_later m d c s.manifests h;
    blobs = λ r d h. h;
  };
  put_gets = λ s r m d h. put_found m d s.manifests h;
  set_gets = λ s r t d r' t' h. refl;
  set_keeps = λ s r t d r' d' c h. h;
  set_keeps_blob = λ s r t d r' d' h. h;
  mount_extends = λ s f r d. mount_state s f d (mem d s.blobs);
  mount_gets = λ s f r d name d' h. mount_known s f r d name d' (mem d s.blobs) refl h;
}

pull-push_manifest_example :
    PushedTo memory memory-Laws
      (codes "r")
      (codes "v1")
      empty_disk
      (codes "m")
      (push_manifest memory empty_disk (codes "r") (codes "v1") (codes "m")).0
      (codes "m")
unfolding push_manifest
pull-push_manifest_example =
    pull-push_manifest memory memory-Laws (codes "r") (codes "v1") empty_disk (codes "m")
      (codes "m") refl

memory-CommitLaws : CommitLaws memory
memory-CommitLaws = record { commits = λ s r d n d' n' h. (cc h, cc h); reads = λ s r c n h. cc h }

-- A registry that takes each blob.
abbrev registry : Remote
registry = record {
  State = List Text;
  blob_exists = λ s d. (s, some false);
  push_blob = λ s d content. (d.digest ∷ s, true);
  manifest_exists = λ s d. (s, some false);
  push_manifest = λ s d content. (s, true);
  tag = λ s d t. (t ∷ s, true);
}

abbrev layer : Descriptor
layer = record {
  media_type = codes "doc";
  digest = codes "abc";
  size = 3;
  annotations = some (codes "README.md", []);
  metadata = [];
}

on_local :
    (local_output_layer
      (storage_of memory (codes "r"))
      []
      empty_disk
      (codes "doc")
      (codes "README.md")
      []
      (codes "abc")
      3
      (codes "abc")).1
    ≡ some layer
unfolding local_output_layer modctl.Storage.push_blob
on_local = refl

on_remote :
    (remote_output_layer registry [] []
      (codes "doc")
      (codes "README.md")
      []
      (codes "abc")
      3
      (codes "abc")).1
    ≡ some layer
unfolding remote_output_layer
on_remote = refl

stored_layer_agree_example : layer ≡ layer
stored_layer_agree_example =
    stored_layer_agree memory (codes "r") registry [] empty_disk [] (codes "doc")
      (codes "README.md") [] (codes "abc") layer layer memory-CommitLaws on_local on_remote
