-- ===== src/Attach/Command/Unchanged.antt =====
-- An attachment that leaves the digests of the layers as they are.
use modctl.Attach.{attach_layers}
use modctl.Build.Command
use modctl.Build.Command.{Run}
use modctl.Prelude.{◌⊎◌, false, ◌≢◌, ◌≡◌, Bool, true, Option, some, List, Text, Result, ok}
use modctl.Artifact.{diff_ids_of, Model, Manifest, Descriptor}
use modctl.Build.Builder.{Builder}
use modctl.Build.Process.{Processor, ProcessError, process}
use modctl.Attach.Command.{Attached, attached, attach_path, unchanged, AttachOptions, MediaTypes}

-- An artifact that is left as it is has the digests that it had; a new one has others.
abbrev pub Fits : Attached → List Text → List Text → Type 0
Fits unchanged ids before = ids ≡ before
Fits (attached d) ids before = ids ≢ before

module _ (b : Builder) (tags : b.State → Text → Option Text)
    (untagged : (s : b.State) (media_type path dest : Text)
      → tags (b.build_layer s media_type path dest).0 ≡ tags s) where
  module _ (r : Run b) where
    -- The new layers of a processor, put among those of the source, have the digests that the
    -- source's config names, or others.
    abbrev pub Digests :
        MediaTypes
        → Text
        → Manifest
        → Model
        → Bool
        → b.State × Result ProcessError (List Descriptor)
        → Attached
        → Type 0
    Digests types path source m force q a =
        (new : List Descriptor) × (layers : List Descriptor) × (q.1 ≡ ok new)
        × (attach_layers types force path source.layers new ≡ ok layers)
        × Fits a (diff_ids_of layers) m.diff_ids

    -- What an attachment that ends well comes to.
    abbrev pub AttachedFrom :
        MediaTypes
        → AttachOptions
        → Text
        → Option Manifest
        → Option Model
        → Option Processor
        → b.State
        → b.State
        → Attached
        → Type 0
    AttachedFrom types cfg path manifest model processor s t a =
        (source : Manifest) × (m : Model) × (p : Processor) × (manifest ≡ some source)
        × (model ≡ some m)
        × (processor ≡ some p)
        × (((cfg.config ≡ true) × (a ≢ unchanged))
            ⊎ ((cfg.config ≡ false)
                × Digests types (attach_path r.paths cfg path) source m cfg.force
                    (process r.paths b r.again r.attempts r.schedule r.sort p s) a))
        × (a ≡ unchanged → tags t ≡ tags s)
