-- ===== src/Attach/Command/Samples.antt =====
-- Attaching a document: one that the source has already, and a new one.
use modctl.Prelude.{
  if◌then◌else◌, subst, ℕ, ◌≡◌, refl, Bool, true, false, Option, none, some, List, [], ◌∷◌, Text,
  codes, text_eq, mem, ok,
}
use mathlib.Core.List.{Mem, not-mem-nil}
use mathlib.Core.List.Perm
use modctl.Artifact.{Descriptor, Manifest, Model}
use modctl.Modelfile.FileType.{si_units}
use modctl.Build.Stored.{ManifestComplete}
use modctl.Build.Command.Samples.{desc, lists, contents, lists-Stores, once, types}
use modctl.Attach.Command.{AttachOptions, Origin, get_manifest, attach}
use modctl.Attach.Command.Order.{attach_manifest_last}

abbrev forced : AttachOptions
forced = record {
  output_remote = false;
  force = true;
  raw = false;
  config = false;
  destination_dir = [];
}

abbrev old_doc : Descriptor
old_doc = record {
  media_type = codes "doc.tar";
  digest = codes "/m/a.md";
  size = 1;
  annotations = some (codes "a.md", []);
  metadata = [];
}

abbrev new_doc : Descriptor
new_doc = desc (codes "doc.tar") (codes "/m/a.md")

abbrev from : Manifest
from = record {
  config = desc (codes "config") (codes "c");
  layers = old_doc ∷ [];
  annotations = [];
}

abbrev nothing : Manifest
nothing = record { config = desc (codes "config") (codes "c"); layers = []; annotations = [] }

abbrev model : Model
model = record {
  architecture = [];
  format = [];
  precision = [];
  quantization = [];
  param_size = [];
  reasoning = none;
  family = [];
  name = codes "llama";
  source_url = [];
  revision = [];
  created_at = none;
  diff_ids = codes "/m/a.md" ∷ [];
}

abbrev only : {A : Type 0} → A → Origin A
only a = record { on_local = some a; on_remote = none }

-- The builder does not tag before it builds the manifest.
abbrev no_tags : List Text × List Text → Text → Option Text
no_tags s t = if mem (codes "manifest") s.1 then some (codes "manifest") else none

abbrev unchanged_at : List Text × List Text
unchanged_at =
    (attach lists once 0 si_units types forced (codes "a.md") (some 10) none
      (some (codes "repo", codes "v2")) (some (codes "repo", codes "v1")) (only from) (only model)
      ([], [])).0

-- The document is new to an artifact without layers.
abbrev bare_model : Model
bare_model = record model { diff_ids = [] }

abbrev attached_to : List Text × List Text
attached_to =
    (attach lists once 0 si_units types forced (codes "a.md") (some 10) none
      (some (codes "repo", codes "v2")) (some (codes "repo", codes "v1")) (only nothing)
      (only bare_model) ([], [])).0

doc_stored : contents.has_manifest attached_to (codes "manifest") ≡ true
unfolding attach text_eq
doc_stored = refl

nothing_there :
    (m : Manifest)
    → get_manifest false (some (codes "repo", codes "v1")) (only nothing) ≡ some m
    → (x : Descriptor) → Mem x m.layers
    → contents.has_blob ([], []) x.digest ≡ true
unfolding get_manifest
nothing_there m e x x_in = absurd (not-mem-nil (subst (Mem x) (no_layers m e) x_in))
  where
    no_layers : (m : Manifest) → ◌≡◌ {A = Option Manifest} (some nothing) (some m) → m.layers ≡ []
    no_layers m e = cc e

attach_manifest_last_example : ManifestComplete contents (codes "manifest") attached_to
attach_manifest_last_example =
    attach_manifest_last lists contents once (codes "manifest") 0 si_units types forced
      (codes "a.md") (some 10) none (some (codes "repo", codes "v2"))
      (some (codes "repo", codes "v1")) (only nothing) (only bare_model) ([], []) lists-Stores
      (λ l. Perm.refl l) nothing_there refl doc_stored
