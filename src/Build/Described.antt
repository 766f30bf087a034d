-- ===== src/Build/Described.antt =====
-- What the descriptor of a layer tells, from the file to the place of the blob.
use modctl.Prelude.{
  ok, sym, ℕ, ◌≡◌, refl, sym, ap, subst, Option, none, some, [], Text, length, Result, ok, err,
  ◌>>=◌,
}
use modctl.Artifact.{Descriptor}
use modctl.Cache.{CacheFile}
use modctl.Build.{Bytes, Reader, opened, rest_of}
use modctl.Build.Fresh.{Disk, Job, Reach, digested}
use modctl.Build.Digested.{IsReadable, IsDigestOf, digested-IsDigestOf}
use modctl.Build.Output.{Output, dest_or, layer_desc}
use modctl.Build.Output.Faithful.{IsFaithful}
use modctl.Build.Builder.{
  Formats, Source, BuildError, prepared, metadata_added, add_file_metadata, get_file_metadata,
  layer_stored, layer_digested, layer_prepared, build_layer,
}

-- The descriptor of a content at a path, whatever its metadata.
abbrev pub IsLayerOf : (Bytes → Text) → Text → Text → Bytes → Descriptor → Type 0
IsLayerOf hash media_type path content d =
    (d.media_type ≡ media_type)
    × (d.digest ≡ hash content)
    × (d.size ≡ length content)
    × (d.annotations ≡ some (path, []))

module _ (fs : Formats) (hash : Bytes → Text) (media_type path : Text) (content : Bytes) where
  metadata_added-IsLayerOf :
      (r : Result BuildError Text) (d e : Descriptor)
      → IsLayerOf hash media_type path content d
      → metadata_added fs d r ≡ some e
      → IsLayerOf hash media_type path content e
  unfolding metadata_added
  metadata_added-IsLayerOf (err x) d e is h = cc h
  metadata_added-IsLayerOf (ok text) d e is h =
      subst (IsLayerOf hash media_type path content) (same h) is
    where
      same :
          ◌≡◌ {A = Option Descriptor} (some (record d { metadata = text })) (some e)
          → record d { metadata = text } ≡ e
      same q = cc q

  module _ (out : Output) (source : out.State → Text → Source) (faithful : IsFaithful hash out)
      (f : Source) (rel_path dest_path : Text) (is_path : dest_or dest_path rel_path ≡ path) where
    layer_stored-IsLayerOf :
        (cache : CacheFile) (q : out.State × Option Descriptor) (e : Descriptor)
        → ((d : Descriptor) → q.1 ≡ some d → IsLayerOf hash media_type path content d)
        → (layer_stored fs out source f cache q).1 ≡ some e
        → IsLayerOf hash media_type path content e
    unfolding layer_stored add_file_metadata
    layer_stored-IsLayerOf cache (s, none) e is h = cc h
    layer_stored-IsLayerOf cache (s, some d) e is h =
        metadata_added-IsLayerOf (get_file_metadata f.stat_again >>= fs.marshal_metadata) d e
          (is d refl) h

    layer_desc-IsLayerOf :
        IsLayerOf hash media_type path content
          (layer_desc media_type rel_path dest_path (hash content) (length content))
    unfolding layer_desc
    layer_desc-IsLayerOf = (refl, refl, refl, ap (λ p. some (p, [])) is_path)

    layer_digested-IsLayerOf :
        (s : out.State) (q : CacheFile × Option (Reader × Text × ℕ)) (e : Descriptor)
        → IsDigestOf hash content q.1
        → (layer_digested fs out source f media_type rel_path dest_path s q).1 ≡ some e
        → IsLayerOf hash media_type path content e
    unfolding layer_digested
    layer_digested-IsLayerOf s (cache, none) e (r, is, whole) h = cc is
    layer_digested-IsLayerOf s (cache, some (reader, digest, size)) e (r, is, whole) h =
        let of_digest : digest ≡ hash content = cc is in
        let of_size : size ≡ length content = cc is in
        let of_rest : rest_of reader ≡ content = cc (is, whole) in
        layer_stored-IsLayerOf cache
          (out.output_layer s media_type rel_path dest_path (hash content) (length content) content)
          e
          (λ d q.
            subst (IsLayerOf hash media_type path content)
              (sym (faithful s media_type rel_path dest_path content d q)) layer_desc-IsLayerOf)
          (cc (h, of_digest, of_size, of_rest))

-- If a layer's content can be read, on a disk that builds and changes have led to, and `BuildLayer`
-- ends well, over a place that names what it stores by the digest and the size that it is given,
-- then the layer's descriptor has the media type, the hash and the size of the content, and the path
-- of the destination or else the relative one, be the digest computed or cached.
pub build_layer-IsLayerOf :
    (fs : Formats) (hash : Bytes → Text) (out : Output) (source : out.State → Text → Source)
    (disk : Disk) (j : Job hash disk) (s : out.State) (rel_path dest_path : Text) (e : Descriptor)
    → IsFaithful hash out
    → Reach hash disk
    → IsReadable j.calls j.content
    → (source s j.path).calls ≡ j.calls
    → prepared (source s j.path) j.media_type ≡ ok (j.info, rel_path, opened j.seekable j.content)
    → (build_layer fs out source (s, disk.cache) j.media_type j.path dest_path).1 ≡ some e
    → IsLayerOf hash j.media_type (dest_or dest_path rel_path) j.content e
unfolding build_layer layer_prepared
build_layer-IsLayerOf fs hash out source disk j s rel_path dest_path e faithful reach can same_calls
      ready h =
    layer_digested-IsLayerOf fs hash j.media_type (dest_or dest_path rel_path) j.content out source
      faithful (source s j.path) rel_path dest_path refl s (digested hash disk j) e
      (digested-IsDigestOf hash disk reach j can) (rw (same_calls, ready) at h)
