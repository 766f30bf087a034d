-- ===== src/Codec/Raw.antt =====
-- pkg/codec/raw.go and pkg/xattr: the codec of the raw layers, over the file system, JSON and the
-- printing of numbers, which are parameters.
use modctl.Prelude.{
  ℕ, ◌==◌, Bool, true, false, not, ◌&&◌, Option, none, some, List, [], ◌∷◌, ◌++◌, if◌then◌else◌,
  Text, codes, text_eq, is_empty, and_then,
}
use modctl.Build.{Bytes}
pub mod Outcome
pub mod Again
mod Samples

-- How `os.Stat` ends.
pub data Stat : Type 0 where
  missing stat_failed : Stat
  size_of : ℕ → Stat

-- `modelspec.FileMetadata`, as far as `Decode` restores it; a time that is not set is `none`.
pub record FileMetadata : Type 0 where
  pub mode : ℕ
  pub mod_time : Option ℕ

-- The calls of the system. `unmarshal` yields no metadata for the JSON `null`.
pub record System : Type 1 where
  pub State : Type 0
  pub mkdir_all : State → Text → State × Bool
  pub stat : State → Text → Stat
  pub get_attribute : State → Text → Text → Option Text
  pub set_attribute : State → Text → Text → Text → State × Bool
  pub create : State → Text → State × Bool
  pub copy : State → Text → Bytes → State × Bool
  pub chmod : State → Text → ℕ → State × Bool
  pub chtimes : State → Text → ℕ → State × Bool
  pub join : Text → Text → Text
  pub dir : Text → Text
  pub format_int : ℕ → Text
  pub unmarshal : Text → Option (Option FileMetadata)

-- A layer's digest, its size, and what its annotations have under the key of the file's metadata and
-- under the legacy key, the empty text if nothing.
pub record Layer : Type 0 where
  pub digest : Text
  pub size : ℕ
  pub metadata : Option (Text × Text)

-- `ErrAlreadyUpToDate` is an outcome of its own.
pub data Decoded : Type 0 where
  written up_to_date failed : Decoded

-- `MakeKey` of one part.
abbrev pub make_key : Text → Text
make_key part = codes "user." ++ part

abbrev pub size_key : Text
size_key = make_key (codes "modctl.size")

abbrev pub digest_key : Text
digest_key = make_key (codes "modctl.sha256")

-- The file's metadata in the annotations.
unfoldable pub metadata_of : Option (Text × Text) → Text
metadata_of none = []
metadata_of (some (text, legacy)) = if is_empty text then legacy else text

module _ (sys : System) where
  unfoldable pub attributes_differ : Layer → Option Text → Option Text → Bool
  attributes_differ l none digest = true
  attributes_differ l (some size) none = true
  attributes_differ l (some size) (some digest) =
      not (text_eq size (sys.format_int l.size) && text_eq digest l.digest)

  unfoldable pub stat_differs : sys.State → Text → Layer → Stat → Option Bool
  unfolding attributes_differ
  stat_differs s path l missing = some true
  stat_differs s path l stat_failed = none
  stat_differs s path l (size_of n) =
      if n == l.size
      then some (
          attributes_differ l (sys.get_attribute s path size_key)
            (sys.get_attribute s path digest_key))
      else some true

  -- `fileNeedsUpdate`, with `none` for its error.
  unfoldable pub file_needs_update : sys.State → Text → Layer → Option Bool
  unfolding stat_differs
  file_needs_update s path l = stat_differs s path l (sys.stat s path)

  -- An error counts as a need.
  unfoldable pub needs_update : Option Bool → Bool
  needs_update none = true
  needs_update (some b) = b

  unfoldable pub store_file_metadata : sys.State → Text → Layer → sys.State × Bool
  store_file_metadata s path l =
      and_then (sys.set_attribute s path size_key (sys.format_int l.size))
        (λ t. sys.set_attribute t path digest_key l.digest)

  unfoldable pub mode_restored : Text → FileMetadata → sys.State → sys.State × Bool
  mode_restored path m s = if m.mode == 0 then (s, true) else sys.chmod s path m.mode

  unfoldable pub time_restored : Text → Option ℕ → sys.State → sys.State × Bool
  time_restored path none s = (s, true)
  time_restored path (some t) s = sys.chtimes s path t

  unfoldable pub metadata_restored :
      Text → Option (Option FileMetadata) → sys.State → sys.State × Bool
  unfolding mode_restored time_restored
  metadata_restored path none s = (s, false)
  metadata_restored path (some none) s = (s, true)
  metadata_restored path (some (some m)) s =
      and_then (mode_restored path m s) (time_restored path m.mod_time)

  unfoldable pub metadata_read : Text → Option (Option FileMetadata)
  metadata_read text = if is_empty text then some none else sys.unmarshal text

  unfoldable pub file_written : Text → Bytes → Layer → sys.State → sys.State × Bool
  unfolding metadata_of metadata_read metadata_restored
  file_written path content l s = and_then (sys.create s path) (λ t.
      and_then (sys.copy t path content)
        (metadata_restored path (metadata_read (metadata_of l.metadata))))

  -- That the attributes cannot be stored is no error.
  unfoldable pub file_recorded : Text → Layer → sys.State × Bool → sys.State × Decoded
  unfolding store_file_metadata
  file_recorded path l (s, false) = (s, failed)
  file_recorded path l (s, true) = ((store_file_metadata s path l).0, written)

  unfoldable pub decode_file : Text → Bytes → Layer → sys.State × Bool → sys.State × Decoded
  unfolding file_needs_update needs_update file_written file_recorded
  decode_file path content l (s, false) = (s, failed)
  decode_file path content l (s, true) =
      if needs_update (file_needs_update s path l)
      then file_recorded path l (file_written path content l s)
      else (s, up_to_date)

  -- `Decode` of a content that the reader yields.
  unfoldable pub decode : sys.State → Text → Text → Bytes → Layer → sys.State × Decoded
  unfolding decode_file
  decode s output_dir file_path content l =
      let path = sys.join output_dir file_path in
      decode_file path content l (sys.mkdir_all s (sys.dir path))
