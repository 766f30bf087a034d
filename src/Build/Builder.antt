-- ===== src/Build/Builder.antt =====
-- pkg/backend/build/builder.go: the builder, over a place for its blobs.
use modctl.Cache.{CacheFile}
use modctl.Build.Output.{blob_desc, Output}
use modctl.Prelude.{
  length, ℕ, Bool, Option, none, some, List, if◌then◌else◌, Text, Result, ok, err, ◌>>=◌,
}
use modctl.Artifact.{Descriptor, Manifest, Model}
use modctl.Codec.{Codec, type_from_media_type, new}
use modctl.Build.{
  rest_of, Bytes, FileKind, regular, directory, symlink, other_kind, FileInfo, Reader, opened,
}
use modctl.Build.Digest.{compute_digest_and_size, Calls}

-- `Builder`: what the processors and `Build` call. `none` is an error.
pub record Builder : Type 1 where
  pub State : Type 0
  -- Of the media type, the path and the destination path.
  pub build_layer : State → Text → Text → Text → State × Option Descriptor
  pub build_config : State → Model → State × Option Descriptor
  pub build_manifest :
      State → List Descriptor → Descriptor → List (Text × Text) → State × Option Descriptor

pub data BuildError : Type 0 where
  not_stated is_a_directory no_work_dir no_relative_path : BuildError
  unsupported_codec not_encoded unknown_typeflag not_marshalled : BuildError

pub record FileMetadata : Type 0 where
  pub name : Text
  pub mode : ℕ
  pub uid : ℕ
  pub gid : ℕ
  pub size : ℕ
  pub mod_time : ℕ
  pub typeflag : ℕ

unfoldable pub typeflag_of : FileKind → Result BuildError ℕ
typeflag_of regular = ok 0
typeflag_of directory = ok 5
typeflag_of symlink = ok 2
typeflag_of other_kind = err unknown_typeflag

-- The user and the group are 0 where the system has none.
unfoldable pub owned : Option (ℕ × ℕ) → ℕ × ℕ
owned none = (0, 0)
owned (some (uid, gid)) = (uid, gid)

unfoldable pub get_file_metadata : Result BuildError FileInfo → Result BuildError FileMetadata
unfolding typeflag_of owned
get_file_metadata stat = do
  info ← stat
  flag ← typeflag_of info.kind
  ok (record {
    name = info.name;
    mode = info.perm;
    uid = (owned info.owner).0;
    gid = (owned info.owner).1;
    size = info.size;
    mod_time = info.mod_time;
    typeflag = flag;
  })

-- A file on the disk, by the outcomes of the calls on it: the two `os.Stat`, the paths, and the
-- codec, whose reader can seek or not.
pub record Source : Type 0 where
  pub stat : Result BuildError FileInfo
  pub work_dir : Bool
  pub rel_path : Result BuildError Text
  pub encoded : Codec → Result BuildError (Bool × Bytes)
  pub stat_again : Result BuildError FileInfo
  pub calls : Calls

-- JSON, and the media types of the model and of the image specification.
pub record Formats : Type 0 where
  pub marshal_metadata : FileMetadata → Result BuildError Text
  pub marshal_model : Model → Option Bytes
  pub marshal_manifest : Manifest → Option Bytes
  pub model_config : Text
  pub image_manifest : Text
  pub hash : Bytes → Text

unfoldable pub file_checked : Source → FileInfo → Result BuildError FileInfo
file_checked f info = elim info.kind [
  | directory ↦ err is_a_directory
  | regular ↦ ok info
  | symlink ↦ ok info
  | other_kind ↦ ok info
]

unfoldable pub codec_for : Option Codec → Result BuildError Codec
codec_for none = err unsupported_codec
codec_for (some codec) = ok codec

-- What `BuildLayer` does before it reads: the file's data, its relative path and its reader.
unfoldable pub prepared : Source → Text → Result BuildError (FileInfo × Text × Reader)
unfolding file_checked codec_for type_from_media_type new
prepared f media_type = do
  stat ← f.stat
  info ← file_checked f stat
  rel_path ← if f.work_dir then f.rel_path else err no_work_dir
  codec ← codec_for (new (type_from_media_type media_type))
  content ← f.encoded codec
  ok (info, rel_path, opened content.0 content.1)

module _ (fs : Formats) where
  unfoldable pub metadata_added : Descriptor → Result BuildError Text → Option Descriptor
  metadata_added desc (err e) = none
  metadata_added desc (ok text) = some (record desc { metadata = text })

  unfoldable pub add_file_metadata : Source → Descriptor → Option Descriptor
  unfolding get_file_metadata metadata_added
  add_file_metadata f desc =
      metadata_added desc (get_file_metadata f.stat_again >>= fs.marshal_metadata)

  -- `source` is what the disk says of a path while the blobs' place is in a state.
  module _ (out : Output) (source : out.State → Text → Source) where
    -- The builder's state: that of the place, and the cache file.
    abbrev pub BuilderState : Type 0
    BuilderState = out.State × CacheFile

    unfoldable pub layer_stored :
        Source → CacheFile → out.State × Option Descriptor → BuilderState × Option Descriptor
    unfolding add_file_metadata
    layer_stored f cache (s, none) = ((s, cache), none)
    layer_stored f cache (s, some desc) = ((s, cache), add_file_metadata f desc)

    unfoldable pub layer_digested :
        Source
        → Text
        → Text
        → Text
        → out.State
        → CacheFile × Option (Reader × Text × ℕ)
        → BuilderState × Option Descriptor
    unfolding layer_stored rest_of
    layer_digested f media_type rel_path dest_path s (cache, none) = ((s, cache), none)
    layer_digested f media_type rel_path dest_path s (cache, some (reader, digest, size)) =
        layer_stored f cache
          (out.output_layer s media_type rel_path dest_path digest size (rest_of reader))

    unfoldable pub layer_prepared :
        Source
        → Text
        → Text
        → Text
        → BuilderState
        → Result BuildError (FileInfo × Text × Reader)
        → BuilderState × Option Descriptor
    unfolding layer_digested
    layer_prepared f media_type path dest_path (s, cache) (err e) = ((s, cache), none)
    layer_prepared f media_type path dest_path (s, cache) (ok (info, rel_path, reader)) =
        layer_digested f media_type rel_path dest_path s
          (compute_digest_and_size f.calls cache media_type path info reader)

    unfoldable pub build_layer :
        BuilderState → Text → Text → Text → BuilderState × Option Descriptor
    unfolding layer_prepared prepared
    build_layer (s, cache) media_type path dest_path =
        layer_prepared (source s path) media_type path dest_path (s, cache)
          (prepared (source s path) media_type)

    -- A call of the place does not touch the cache.
    unfoldable pub beside :
        CacheFile → out.State × Option Descriptor → BuilderState × Option Descriptor
    beside cache (s, r) = ((s, cache), r)

    unfoldable pub config_marshalled :
        BuilderState → Option Bytes → BuilderState × Option Descriptor
    unfolding beside
    config_marshalled (s, cache) none = ((s, cache), none)
    config_marshalled (s, cache) (some json) =
        beside cache (out.output_config s fs.model_config (fs.hash json) (length json) json)

    unfoldable pub build_config : BuilderState → Model → BuilderState × Option Descriptor
    unfolding config_marshalled
    build_config b config = config_marshalled b (fs.marshal_model config)

    -- The manifest; of the config it has the media type, the digest and the size.
    unfoldable pub manifest_of : List Descriptor → Descriptor → List (Text × Text) → Manifest
    unfolding blob_desc
    manifest_of layers config annotations = record {
      config = blob_desc config.media_type config.digest config.size;
      layers = layers;
      annotations = annotations;
    }

    unfoldable pub manifest_marshalled :
        BuilderState → Option Bytes → BuilderState × Option Descriptor
    unfolding beside
    manifest_marshalled (s, cache) none = ((s, cache), none)
    manifest_marshalled (s, cache) (some json) =
        beside cache (out.output_manifest s fs.image_manifest (fs.hash json) (length json) json)

    unfoldable pub build_manifest :
        BuilderState
        → List Descriptor
        → Descriptor
        → List (Text × Text)
        → BuilderState × Option Descriptor
    unfolding manifest_marshalled manifest_of
    build_manifest b layers config annotations =
        manifest_marshalled b (fs.marshal_manifest (manifest_of layers config annotations))

    abbrev pub abstract_builder : Builder
    abstract_builder = record {
      State = BuilderState;
      build_layer = build_layer;
      build_config = build_config;
      build_manifest = build_manifest;
    }
