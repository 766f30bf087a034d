-- ===== src/Fetch.antt =====
-- pkg/backend/fetch.go without its Dragonfly branch: the layers whose paths match a pattern are
-- extracted. `doublestar.PathMatch` is a parameter, as is the order in which the goroutines end.
use modctl.Prelude.{
  Bool, true, false, ◌||◌, Option, none, some, List, [], ◌∷◌, if◌then◌else◌, Text, and_then,
}
use modctl.Artifact.{filepath}
use modctl.Transfer.{Descriptor, Manifest, World, pull_and_extract_from_remote}
pub mod Selection
pub mod Outcome
mod Samples

-- `none` is a bad pattern.
abbrev pub PathMatch : Type 0
PathMatch = Text → Text → Option Bool

module _ (path_match : PathMatch) where
  -- A layer without annotations is passed over.
  unfoldable pub path_matched : Option (Text × Text) → Text → Option Bool
  path_matched none pattern = some false
  path_matched (some texts) pattern = path_match pattern (filepath (some texts))

  unfoldable pub append_if :
      Descriptor → Option Bool → Option (List Descriptor) → Option (List Descriptor)
  append_if layer none rest = none
  append_if layer (some b) none = none
  append_if layer (some true) (some rest) = some (layer ∷ rest)
  append_if layer (some false) (some rest) = some rest

  -- The layer once for each pattern that it matches, before the rest.
  unfoldable pub matches_of :
      Descriptor → List Text → Option (List Descriptor) → Option (List Descriptor)
  unfolding path_matched append_if
  matches_of layer [] rest = rest
  matches_of layer (p ∷ ps) rest =
      append_if layer (path_matched layer.annotations p) (matches_of layer ps rest)

  unfoldable pub select_layers : List Text → List Descriptor → Option (List Descriptor)
  unfolding matches_of
  select_layers patterns [] = some []
  select_layers patterns (l ∷ ls) = matches_of l patterns (select_layers patterns ls)

module _ (w : World) where
  -- One goroutine.
  unfoldable pub fetch_layer : Manifest → Descriptor → w.State → w.State × Bool
  fetch_layer manifest layer s =
      if w.before_pull_layer layer manifest
      then (s, true)
      else pull_and_extract_from_remote w layer s

  unfoldable pub fetch_layers : Manifest → List Descriptor → w.State → w.State × Bool
  unfolding fetch_layer
  fetch_layers manifest [] s = (s, true)
  fetch_layers manifest (l ∷ ls) s = and_then (fetch_layer manifest l s) (fetch_layers manifest ls)

  module _ (schedule : List Descriptor → List Descriptor) where
    unfoldable pub layers_selected : Manifest → Option (List Descriptor) → w.State → w.State × Bool
    unfolding fetch_layers
    layers_selected manifest none s = (s, false)
    layers_selected manifest (some []) s = (s, false)
    layers_selected manifest (some (l ∷ ls)) s = fetch_layers manifest (schedule (l ∷ ls)) s

    module _ (path_match : PathMatch) (patterns : List Text) where
      unfoldable pub manifest_decoded : Option Manifest → w.State → w.State × Bool
      unfolding layers_selected select_layers
      manifest_decoded none s = (s, false)
      manifest_decoded (some manifest) s =
          layers_selected manifest (select_layers path_match patterns manifest.layers) s

      unfoldable pub manifest_fetched : w.State × Option (Descriptor × w.Content) → w.State × Bool
      unfolding manifest_decoded
      manifest_fetched (s, none) = (s, false)
      manifest_fetched (s, some (desc, content)) = manifest_decoded (w.decode content) s

      -- `Fetch` of a tag in the repository of the target.
      unfoldable pub fetch : Text → w.State → w.State × Bool
      unfolding manifest_fetched
      fetch tag s = manifest_fetched (w.fetch_reference s tag)
